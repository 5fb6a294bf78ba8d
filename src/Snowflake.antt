-- ===== src/Snowflake.antt =====
-- internal/snowflake/snowflake.go. The clock is a parameter: `now_fn i` is the i-th reading of
-- `time.Now().UnixMilli()`, and the generator carries the number of readings made. A loop that
-- waits for the clock takes fuel, one unit a round; `none` is a call that has not come back yet.
-- An ID is the bit pattern of the int64 whose decimal text the source returns.
pub mod Layout
pub mod Order
pub mod Rollback
mod Tests
use Prim.Native.Nat.{bit_and, bit_or}
use alfred_brave_com.Base.{
  ℕ, zero, suc, ◌+◌, ◌-◌, ◌*◌, ◌%◌, ◌^◌, Bool, Option, none, some, ltb, leb, nat_eq, if◌then◌else◌,
}

abbrev pub epoch : ℕ
epoch = 1704038400000

abbrev pub worker_bits : ℕ
worker_bits = 3

abbrev pub seq_bits : ℕ
seq_bits = 10

-- -1 ^ (-1 << 3) and -1 ^ (-1 << 10)
abbrev pub max_worker : ℕ
max_worker = 2 ^ worker_bits - 1

abbrev pub max_seq : ℕ
max_seq = 2 ^ seq_bits - 1

pub record Generator : Type 0 where
  pub worker : ℕ
  pub last_ms : ℕ
  pub seq : ℕ
  pub clock_reads : ℕ

-- A worker ID is an int64: here the negative ones are not numbers, and `New` refuses them too.
pub new : ℕ → Option Generator
new worker_id =
    if ltb max_worker worker_id
    then none
    else some (record { worker = worker_id; last_ms = 0; seq = 0; clock_reads = 0 })

pub data Answer : Type 0 where
  id : ℕ → Answer
  clock_backward : Answer

-- How the `for` loop of the branch `now < g.lastMs` ends, with the number of readings made.
pub data Spun : Type 0 where
  caught_up gave_up : ℕ → Spun

-- ((now - epoch) << 13) | (worker << 10) | seq, on int64
pub make_id : ℕ → ℕ → ℕ → ℕ
make_id now worker seq =
    let since = (now + 2 ^ 64 - epoch) % 2 ^ 64 in
    bit_or (bit_or (since * 2 ^ (worker_bits + seq_bits) % 2 ^ 64) (worker * 2 ^ seq_bits)) seq

module _ (now_fn : ℕ → ℕ) where
  -- That loop, entered with a positive wait when `i` readings have been made.
  pub spin : ℕ → ℕ → ℕ → Option Spun
  spin zero last i = none
  spin (suc fuel) last i =
      let again = spin fuel last (i + 3) in
      if leb last (now_fn i)
      then some (caught_up (i + 1))
      else if ltb 2 (last - now_fn (i + 1))
      then some (gave_up (i + 2))
      else if ltb (now_fn (i + 2)) last
      then again
      else some (caught_up (i + 3))

  -- The loop that waits for the next millisecond; gives the reading that ends it and their number.
  pub next_ms : ℕ → ℕ → ℕ → ℕ → Option (ℕ × ℕ)
  next_ms zero now last i = none
  next_ms (suc fuel) now last i =
      let again = next_ms fuel (now_fn i) last (i + 1) in
      if leb now last then again else some (now, i)

  stamp : ℕ → ℕ → ℕ → Generator → Answer × Generator
  stamp now seq reads g =
      (id (make_id now g.worker seq), record g { last_ms = now; seq = seq; clock_reads = reads })

  after_spin : Option Spun → Generator → Option (Answer × Generator)
  after_spin none g = none
  after_spin (some (gave_up i)) g = some (clock_backward, record g { clock_reads = i })
  after_spin (some (caught_up i)) g =
      let now = now_fn i in
      let read = record g { clock_reads = suc i } in
      some (if ltb now g.last_ms then (clock_backward, read) else stamp now g.seq (suc i) g)

  after_wait : Option (ℕ × ℕ) → Generator → Option (Answer × Generator)
  after_wait none g = none
  after_wait (some (now, i)) g = some (stamp now 0 i g)

  pub next : ℕ → Generator → Option (Answer × Generator)
  unfolding stamp after_spin after_wait
  next fuel g =
      let now = now_fn g.clock_reads in
      let i = suc g.clock_reads in
      let seq = bit_and (g.seq + 1) max_seq in
      if ltb now g.last_ms
      then after_spin (spin fuel g.last_ms i) g
      else if nat_eq now g.last_ms
      then (if nat_eq seq 0
          then after_wait (next_ms fuel now g.last_ms i) g
          else some (stamp now seq i g))
      else some (stamp now 0 i g)
