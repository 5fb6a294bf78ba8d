-- ===== src/Snowflake/Tests.antt =====
-- The ID generator at concrete inputs: a clock that moves one millisecond a reading, and one that
-- goes back.
use alfred_brave_com.Base.{
  ℕ, suc, ◌+◌, ◌/◌, ◌%◌, ◌≤◌, ◌≡◌, refl, some, [], ◌∷◌, arith, ltb, if◌then◌else◌,
}
use alfred_brave_com.Snowflake.{Generator, id, epoch, make_id, next_ms, next}
use alfred_brave_com.Snowflake.Layout.{InRange, make_id_fields}
use alfred_brave_com.Snowflake.Order.{call, none_made, RiseFrom, ids_rise, next_returns}
use alfred_brave_com.Snowflake.Rollback.{IsLate, rollback_repeats}

abbrev clock : ℕ → ℕ
clock i = epoch + i / 3

clock_forward : (i : ℕ) → clock i ≤ clock (suc i)
clock_forward i = omega arith

abbrev start : Generator
start = record { worker = 2; last_ms = epoch; seq = 1023; clock_reads = 0 }

start-InRange : InRange start.last_ms start.worker start.seq
start-InRange = omega arith

-- The sequence is used up, so the first call waits for the next millisecond.
first_call :
    next clock 10 start
    ≡ some (id 10240, record { worker = 2; last_ms = epoch + 1; seq = 0; clock_reads = 4 })
unfolding next next_ms make_id
first_call = refl

make_id_fields_example :
    (make_id epoch 2 1023 / 8192 + epoch ≡ epoch)
    × (make_id epoch 2 1023 / 1024 % 8 ≡ 2)
    × (make_id epoch 2 1023 % 1024 ≡ 1023)
make_id_fields_example = make_id_fields epoch 2 1023 start-InRange

next_returns_example : (n : ℕ) × (g' : Generator) × (next clock 10 start ≡ some (id n, g'))
next_returns_example = next_returns clock 10 start 2 (omega arith) (omega arith) (omega arith)

ids_rise_example : RiseFrom (make_id epoch 2 1023) (10240 ∷ [])
ids_rise_example =
    ids_rise clock clock_forward (call first_call none_made) start-InRange (omega arith)
      (omega arith)

-- The clock is back by one millisecond and then level again.
abbrev back : ℕ → ℕ
back i = if ltb i 1 then epoch + 4 else epoch + 5

abbrev ahead : Generator
ahead = record { worker = 2; last_ms = epoch + 5; seq = 7; clock_reads = 0 }

back-IsLate : IsLate back (epoch + 5) 0 1
back-IsLate = record {
  behind = λ i after below. ground arith;
  near = λ i after below. ground arith;
  level = λ i past soon. ground arith;
}

rollback_repeats_example :
    (reads : ℕ) × (next back 4 ahead
      ≡ some (id (make_id (epoch + 5) 2 7), record ahead { clock_reads = reads }))
rollback_repeats_example = rollback_repeats back 4 1 ahead back-IsLate (omega arith) (omega arith)
