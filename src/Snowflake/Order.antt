-- ===== src/Snowflake/Order.antt =====
-- internal/snowflake/snowflake.go: while the clock does not go back, the IDs of one generator rise,
-- and a call comes back as soon as the clock moves on.
use Prim.Native.Nat.{bit_and}
use native.Mathlib.Numerals.{add-one}
use alfred_brave_com.Base.{
  ℕ, zero, suc, ◌+◌, ◌^◌, ◌≤◌, ◌<◌, ◌≡◌, refl, ap, ◌⊎◌, inl, inr, Bool, true, false, ◌&&◌, Option,
  none, some, List, [], ◌∷◌, arith, nat_eq, nat_eq_iff, leb, ltb, if◌then◌else◌, Bool-cases,
}
use alfred_brave_com.Snowflake.{
  Generator, id, epoch, max_seq, make_id, next_ms, stamp, after_wait, next,
}
use alfred_brave_com.Snowflake.Layout.{InRange, make_id-lt}

-- The next sequence number, by a table over all of them.
wraps : ℕ → Bool
wraps s = nat_eq (bit_and (s + 1) 1023) (if ltb s 1023 then s + 1 else 0)

-- A test that every number below a bound passes.
passes_below : (ℕ → Bool) → ℕ → Bool
passes_below test zero = true
passes_below test (suc bound) = passes_below test bound && test bound

passes_below_sound :
    (test : ℕ → Bool) (bound s : ℕ) → s < bound → passes_below test bound ≡ true → test s ≡ true
unfolding passes_below
passes_below_sound test zero s below all = absurd (omega arith)
passes_below_sound test (suc bound) s below all = ground (arith, passes_below_sound test bound s)

wraps_table : passes_below wraps 1024 ≡ true
unfolding passes_below wraps
wraps_table = refl

pub next_seq : (s : ℕ) → s < 1024 → bit_and (s + 1) 1023 ≡ (if ltb s 1023 then s + 1 else 0)
unfolding wraps
next_seq s h = (nat_eq_iff _ _).0 (passes_below_sound wraps 1024 s h wraps_table)

-- Every number is greater than the one before it, and the first greater than `m`.
abbrev pub RiseFrom : ℕ → List ℕ → Type 0
RiseFrom m [] = Unit
RiseFrom m (n ∷ ns) = (m < n) × RiseFrom n ns

module _ (now_fn : ℕ → ℕ) where
  -- The loop ends with a time past `last`.
  next_ms-past : (fuel now last i t j : ℕ) → next_ms now_fn fuel now last i ≡ some (t, j) → last < t
  unfolding next_ms
  next_ms-past zero now last i t j e = cc
  next_ms-past (suc fuel) now last i t j e =
      ground (arith, next_ms-past fuel (now_fn i) last (i + 1) t j)

  next_ms_at_once :
      (fuel now last i : ℕ)
      → last < now
      → 0 < fuel
      → (r : ℕ × ℕ) × (next_ms now_fn fuel now last i ≡ some r)
  unfolding next_ms
  next_ms_at_once zero now last i h f = absurd (omega arith)
  next_ms_at_once (suc fuel) now last i h f =
      let past : leb now last ≡ false = ground arith in ((now, i), rw past)

  -- With fuel for the readings up to one past `last` it does end.
  next_ms_returns :
      (fuel now last i k j : ℕ)
      → i + k ≡ j
      → last < now_fn j
      → k + 1 < fuel
      → (r : ℕ × ℕ) × (next_ms now_fn fuel now last i ≡ some r)
  unfolding next_ms
  next_ms_returns zero now last i k j e h f = absurd (omega arith)
  next_ms_returns (suc fuel) now last i zero j e h f =
      let here : i ≡ j = omega arith in
      elim (Bool-cases (leb now last)) [
        | inr past ↦ ((now, i), rw past)
        | inl early ↦
            rw early (next_ms_at_once fuel (now_fn i) last (i + 1) (rw here h) (omega arith))
      ]
  next_ms_returns (suc fuel) now last i (suc k) j e h f = elim (Bool-cases (leb now last)) [
    | inr past ↦ ((now, i), rw past)
    | inl early ↦
        rw early (next_ms_returns fuel (now_fn i) last (i + 1) k j (omega arith) h (omega arith))
  ]

  abbrev stamped : ℕ → ℕ → ℕ → Generator → Generator
  stamped t s reads g = record g { last_ms = t; seq = s; clock_reads = reads }

  -- If the clock is not behind the generator at the call's first reading, and a later reading, whose
  -- number is below the fuel, is past its last millisecond, then the call comes back with an ID,
  -- whatever the clock does otherwise.
  pub next_returns :
      (fuel : ℕ) (g : Generator) (k : ℕ)
      → g.last_ms ≤ now_fn g.clock_reads
      → g.last_ms < now_fn (suc g.clock_reads + k)
      → k + 1 < fuel
      → (n : ℕ) × (g' : Generator) × (next now_fn fuel g ≡ some (id n, g'))
  unfolding next stamp after_wait
  next_returns fuel g k le past enough =
      let now = now_fn g.clock_reads in
      let i = suc g.clock_reads in
      let current : ltb now g.last_ms ≡ false = ground arith in
      let (r, waited) = next_ms_returns fuel now g.last_ms i k (i + k) refl past enough in
      let seq = bit_and (g.seq + 1) max_seq in
      let after = λ (t s reads : ℕ). stamped t s reads g in
      elim (Bool-cases (nat_eq now g.last_ms)) [
        | inr moved ↦ (make_id now g.worker 0, after now 0 i, rw (current, moved, next))
        | inl same ↦ elim (Bool-cases (nat_eq seq 0)) [
          | inr room ↦ (make_id now g.worker seq, after now seq i, rw (current, same, room, next))
          | inl full ↦
              (make_id r.0 g.worker 0, after r.0 0 r.1, rw (current, same, full, waited, next))
        ]
      ]

  module _ (forward : (i : ℕ) → now_fn i ≤ now_fn (suc i)) where
    next_ms-read :
        (fuel now last i t j : ℕ)
        → now ≤ now_fn i
        → next_ms now_fn fuel now last i ≡ some (t, j)
        → t ≤ now_fn j
    unfolding next_ms
    next_ms-read zero now last i t j le e = cc
    next_ms-read (suc fuel) now last i t j le e =
        ground
          (arith, next_ms-read fuel (now_fn i) last (i + 1) t j, forward i, ap now_fn (add-one i))

    -- What a call that succeeds does to the generator.
    record Stamped (g g' : Generator) (n : ℕ) : Type 0 where
      worker : g'.worker ≡ g.worker
      made : n ≡ make_id g'.last_ms g'.worker g'.seq
      fits : g'.seq < 1024
      read : g'.last_ms ≤ now_fn g'.clock_reads
      later : (g.last_ms < g'.last_ms) ⊎ ((g.last_ms ≡ g'.last_ms) × (g.seq < g'.seq))

    after_wait-Stamped :
        (fuel now i : ℕ) (o : Option (ℕ × ℕ)) (g g' : Generator) (n : ℕ)
        → next_ms now_fn fuel now g.last_ms i ≡ o
        → now ≤ now_fn i
        → after_wait now_fn o g ≡ some (id n, g')
        → Stamped g g' n
    unfolding after_wait stamp
    after_wait-Stamped fuel now i none g g' n w le e = cc
    after_wait-Stamped fuel now i (some (t, j)) g g' n w le e =
        ground (
          arith,
          next_ms-past fuel now g.last_ms i t j w,
          next_ms-read fuel now g.last_ms i t j le w,
        )

    next-Stamped :
        (fuel : ℕ) (g g' : Generator) (n : ℕ)
        → g.last_ms ≤ now_fn g.clock_reads
        → g.seq < 1024
        → next now_fn fuel g ≡ some (id n, g')
        → Stamped g g' n
    unfolding next stamp
    next-Stamped fuel g g' n le fits e =
        let now = now_fn g.clock_reads in
        let i = suc g.clock_reads in
        ground (
          arith,
          next_seq g.seq fits,
          forward g.clock_reads,
          after_wait-Stamped fuel now i (next_ms now_fn fuel now g.last_ms i) g g' n refl
              (forward g.clock_reads),
        )

    -- The generator's own calls, one after the other, and the IDs that they gave.
    pub data Calls (fuel : ℕ) : Generator → List ℕ → Generator → Type 0 where
      none_made : {g : Generator} → Calls fuel g [] g
      call :
          {g h g' : Generator} {n : ℕ} {ns : List ℕ}
          → next now_fn fuel g ≡ some (id n, h)
          → Calls fuel h ns g'
          → Calls fuel g (n ∷ ns) g'

    last_ms-Calls :
        {fuel : ℕ} {g g' : Generator} {ns : List ℕ}
        → Calls fuel g ns g'
        → g.last_ms ≤ now_fn g.clock_reads
        → g.seq < 1024
        → g.last_ms ≤ g'.last_ms
    last_ms-Calls none_made le fits = omega arith
    last_ms-Calls {fuel} (call {g = g} {h = h} {n = n} e rest) le fits =
        let s = next-Stamped fuel g h n le fits e in
        omega (arith, s.later, last_ms-Calls rest s.read s.fits)

  -- While the clock does not go back, the IDs that one generator gives in any number of calls rise
  -- strictly, from the one that it gave last.
  pub ids_rise :
      (forward : (i : ℕ) → now_fn i ≤ now_fn (suc i)) {fuel : ℕ} {g g' : Generator} {ns : List ℕ}
      → Calls forward fuel g ns g'
      → InRange g.last_ms g.worker g.seq
      → g.last_ms ≤ now_fn g.clock_reads
      → g'.last_ms < epoch + 2 ^ 50
      → RiseFrom (make_id g.last_ms g.worker g.seq) ns
  ids_rise forward none_made r le bound = tt
  ids_rise forward {fuel} {g'} (call {g = g} {h = h} {n = n} e rest) r le bound =
      let s = next-Stamped forward fuel g h n le r.seq_fits e in
      let last = last_ms-Calls forward rest s.read s.fits in
      let r' : InRange h.last_ms h.worker h.seq = record {
        started = omega (arith, s.later, r.started);
        before_sign = omega (arith, last);
        worker_fits = omega (arith, s.worker, r.worker_fits);
        seq_fits = s.fits;
      } in
      let up = make_id-lt g.last_ms h.last_ms g.worker g.seq h.seq r (rw s.worker at r') s.later in
      (rw (s.made, s.worker) up, rw s.made (ids_rise forward rest r' s.read bound))
