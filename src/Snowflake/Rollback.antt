-- ===== src/Snowflake/Rollback.antt =====
-- internal/snowflake/snowflake.go: what a clock that goes back does.
use alfred_brave_com.Base.{
  ℕ, zero, suc, ◌+◌, ◌-◌, ◌*◌, ◌≤◌, ◌<◌, ◌≡◌, refl, inl, inr, true, false, some, arith, ltb,
  Bool-cases,
}
use alfred_brave_com.Snowflake.{Generator, id, make_id, caught_up, spin, stamp, after_spin, next}

module _ (now_fn : ℕ → ℕ) where
  -- A clock that is behind by at most two milliseconds up to a reading, and level from it on, for as
  -- many readings as the wait can make then.
  pub record IsLate (last from stop : ℕ) : Type 0 where
    pub behind : (i : ℕ) → from ≤ i → i < stop → now_fn i < last
    pub near : (i : ℕ) → from ≤ i → i < stop → last ≤ now_fn i + 2
    pub level : (i : ℕ) → stop ≤ i → i ≤ stop + 3 → now_fn i ≡ last

  module _ (last from stop : ℕ) (late : IsLate last from stop) where
    not_far : (i : ℕ) → from ≤ i → i ≤ stop + 3 → ltb 2 (last - now_fn i) ≡ false
    not_far i after soon = elim (Bool-cases (ltb i stop)) [
      | inl early ↦ ground (arith, early, late.near i after (ground (arith, early)))
      | inr past ↦ ground (arith, past, late.level i (ground (arith, past)) soon)
    ]

    -- The wait ends at a reading behind which the clock is level.
    spin_catches :
        (fuel i : ℕ)
        → from ≤ i
        → i ≤ stop + 2
        → stop + 3 ≤ i + fuel * 3
        → (j : ℕ) × (spin now_fn fuel last i ≡ some (caught_up j)) × (now_fn j ≡ last)
    unfolding spin
    spin_catches zero i after soon enough = absurd (omega (arith, enough, soon))
    spin_catches (suc fuel) i after soon enough = elim (Bool-cases (ltb i stop)) [
      | inr past ↦
          let here = late.level i (ground (arith, past)) (omega (arith, soon)) in
          (
            i + 1,
            ground (arith, here),
            late.level (i + 1) (ground (arith, past)) (omega (arith, soon)),
          )
      | inl early ↦
          let below : i < stop = ground (arith, early) in
          let missed = late.behind i after below in
          let close = not_far (i + 1) (omega (arith, after)) (omega (arith, below)) in
          elim (Bool-cases (ltb (i + 2) stop)) [
            | inr past ↦
                let there = late.level (i + 2) (ground (arith, past)) (omega (arith, below)) in
                (
                  i + 3,
                  ground (arith, missed, close, there),
                  late.level (i + 3) (ground (arith, past)) (omega (arith, below)),
                )
            | inl still ↦
                let under : i + 2 < stop = ground (arith, still) in
                let again = late.behind (i + 2) (omega (arith, after)) under in
                let (j, waited, met) =
                  spin_catches fuel (i + 3) (omega (arith, after)) (omega (arith, under))
                    (omega (arith, enough)) in
                (j, ground (arith, missed, close, again, waited), met)
          ]
    ]

  -- When the clock has gone back by at most two milliseconds and comes level with the last ID after
  -- any number of readings, the call comes back with the last ID once more: the branch does not touch
  -- the sequence number. Fuel for a third of the readings is enough.
  pub rollback_repeats :
      (fuel stop : ℕ) (g : Generator)
      → IsLate g.last_ms g.clock_reads stop
      → g.clock_reads < stop
      → stop + 3 ≤ suc g.clock_reads + fuel * 3
      → (reads : ℕ) × (next now_fn fuel g
          ≡ some (id (make_id g.last_ms g.worker g.seq), record g { clock_reads = reads }))
  unfolding next stamp after_spin
  rollback_repeats fuel stop g late back enough =
      let gone = late.behind g.clock_reads (omega arith) back in
      let behind : ltb (now_fn g.clock_reads) g.last_ms ≡ true = ground (arith, gone) in
      let (j, waited, met) =
        spin_catches g.last_ms g.clock_reads stop late fuel (suc g.clock_reads) (omega arith)
          (omega (arith, back)) enough in
      let level : ltb (now_fn j) g.last_ms ≡ false = ground (arith, met) in
      (suc j, rw (behind, waited, level, met) refl)
