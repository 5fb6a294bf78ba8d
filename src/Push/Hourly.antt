-- ===== src/Push/Hourly.antt =====
-- worker/push/push.go: no device is sent more than twenty notifications in one clock hour.
use alfred_brave_com.Base.{
  ℕ, suc, ◌≤◌, ◌<◌, ◌≡◌, refl, ap, String, Bool, true, false, ◌&&◌, Option, none, some, List, [],
  ◌∷◌, arith, ◌≢◌, ◌∙◌, eq_iff, nat_eq, if◌then◌else◌, inl, inr, text_cases, Bool-cases, ltb, ◌==◌,
  eq_refl,
}
use alfred_brave_com.Base.Table.{lookup, insert, lookup-insert}
use alfred_brave_com.Chat.{Notify}
use alfred_brave_com.Push.{
  DeviceState, Sent, Worker, new, truncate_hour, roll_hour, window_over, device_of, send,
  send_cases, ingest, flush_each, flush_one, flush_due, absorb, tick_branch, run, Round, Fetch,
  message, cancelled, timeout, broken,
}

-- How often the device of `u` was sent to in the hour that starts at `h`.
unfoldable pub sent_in_hour : String → ℕ → List Sent → ℕ
sent_in_hour u h [] = 0
sent_in_hour u h (s ∷ rest) =
    let n = sent_in_hour u h rest in
    if s.uid == u && nat_eq (truncate_hour s.at) h then suc n else n

truncate_hour_mono : (a b : ℕ) → a ≤ b → truncate_hour a ≤ truncate_hour b
unfolding truncate_hour
truncate_hour_mono a b h = omega arith

-- A device's counter is exact for its current hour, at `now` or before, and later hours are empty.
record Counts (u : String) (sent : List Sent) (now : ℕ) (st : DeviceState) : Type 0 where
  exact : sent_in_hour u st.hour_start sent ≡ st.hour_count
  capped : st.hour_count ≤ 20
  past : st.hour_start ≤ truncate_hour now
  later : (h : ℕ) → st.hour_start < h → sent_in_hour u h sent ≡ 0

abbrev CountsAt : String → List Sent → ℕ → Option DeviceState → Type 0
CountsAt u sent now none = (h : ℕ) → sent_in_hour u h sent ≡ 0
CountsAt u sent now (some st) = Counts u sent now st

module _ (now_fn : ℕ → ℕ) (vendor_fails : ℕ → Bool)
    (forward : (i : ℕ) → now_fn i ≤ now_fn (suc i)) where
  record Inv (w : Worker) : Type 0 where
    limited : (u : String) (h : ℕ) → sent_in_hour u h w.sent ≤ 20
    counts : (u : String) → CountsAt u w.sent (now_fn w.clock_reads) (lookup u w.devices)

  later_Counts :
      (u : String) (sent : List Sent) (i : ℕ) (st : DeviceState)
      → Counts u sent (now_fn i) st
      → Counts u sent (now_fn (suc i)) st
  later_Counts u sent i st c = record {
    exact = c.exact;
    capped = c.capped;
    past =
        omega
          (arith, c.past, forward i, truncate_hour_mono (now_fn i) (now_fn (suc i)) (forward i));
    later = c.later;
  }

  -- Rolling the hour keeps the counter exact.
  roll-Counts :
      (u : String) (sent : List Sent) (i : ℕ) (st : DeviceState)
      → Counts u sent (now_fn i) st
      → Counts u sent (now_fn i) (roll_hour (now_fn i) st)
  unfolding roll_hour
  roll-Counts u sent i st c = ground (arith, c.later (truncate_hour (now_fn i)))

  roll-start : (now : ℕ) (st : DeviceState) → (roll_hour now st).hour_start ≡ truncate_hour now
  unfolding roll_hour
  roll-start now st = ground arith

  abbrev delivered : String → DeviceState → Worker → Sent
  delivered uid st w = record { uid = uid; badge = st.badge; at = now_fn w.clock_reads }

  -- A write of one device's state keeps the invariant if it does for that device, and if the other
  -- devices' counts stand.
  put-Inv :
      (uid : String) (st : DeviceState) (w : Worker) (devices : List (String × DeviceState))
      → w.devices ≡ insert uid st devices
      → ((u : String) (h : ℕ) → sent_in_hour u h w.sent ≤ 20)
      → Counts uid w.sent (now_fn w.clock_reads) st
      → ((u : String) → uid ≢ u → CountsAt u w.sent (now_fn w.clock_reads) (lookup u devices))
      → Inv w
  put-Inv uid st w devices e limited mine others = record {
    limited = limited;
    counts = λ u. elim (text_cases uid u) [
      | inl p ↦ rw (← p, e, lookup-insert, eq_refl) mine
      | inr (p, q) ↦ rw (e, lookup-insert, q) (others u p)
    ];
  }

  later_CountsAt :
      (u : String) (sent : List Sent) (i : ℕ) (o : Option DeviceState)
      → CountsAt u sent (now_fn i) o
      → CountsAt u sent (now_fn (suc i)) o
  later_CountsAt u sent i none c = c
  later_CountsAt u sent i (some st) c = later_Counts u sent i st c

  -- The reading of the clock alone.
  read-Inv : (w : Worker) → Inv w → Inv (record w { clock_reads = suc w.clock_reads })
  read-Inv w v = record {
    limited = v.limited;
    counts = λ u. later_CountsAt u w.sent w.clock_reads _ (v.counts u);
  }

  sent_in_hour-other :
      (u : String) (h : ℕ) (s : Sent) (rest : List Sent)
      → s.uid ≢ u
      → sent_in_hour u h (s ∷ rest) ≡ sent_in_hour u h rest
  unfolding sent_in_hour
  sent_in_hour-other u h s rest ne = ground (arith, eq_iff s.uid u)

  CountsAt-other :
      (u : String) (s : Sent) (rest : List Sent) (now : ℕ) (o : Option DeviceState)
      → s.uid ≢ u
      → CountsAt u rest now o
      → CountsAt u (s ∷ rest) now o
  CountsAt-other u s rest now none ne c = λ h. sent_in_hour-other u h s rest ne ∙ c h
  CountsAt-other u s rest now (some st) ne c = record {
    exact = sent_in_hour-other u st.hour_start s rest ne ∙ c.exact;
    capped = c.capped;
    past = c.past;
    later = λ h lt. sent_in_hour-other u h s rest ne ∙ c.later h lt;
  }

  -- A notification that is sent counts for its device and its hour.
  Counts-deliver :
      (uid : String) (s : Sent) (rest : List Sent) (st st' : DeviceState)
      → s.uid ≡ uid
      → st.hour_start ≡ truncate_hour s.at
      → Counts uid rest s.at st
      → st.hour_count < 20
      → st'.hour_start ≡ st.hour_start
      → st'.hour_count ≡ suc st.hour_count
      → Counts uid (s ∷ rest) s.at st'
  unfolding sent_in_hour
  Counts-deliver uid s rest st st' same start c below p q = record {
    exact =
        rw (same, eq_refl, p) (ground (arith, c.exact, ap (λ (t : ℕ). sent_in_hour uid t rest) p));
    capped = omega (arith, q);
    past = omega (arith, c.past);
    later = λ h lt. rw (same, eq_refl) (ground (arith, c.later h));
  }

  limited-deliver :
      (uid : String) (s : Sent) (rest : List Sent) (st : DeviceState)
      → s.uid ≡ uid
      → st.hour_start ≡ truncate_hour s.at
      → Counts uid rest s.at st
      → st.hour_count < 20
      → (u : String) (h : ℕ) → sent_in_hour u h rest ≤ 20
      → sent_in_hour u h (s ∷ rest) ≤ 20
  unfolding sent_in_hour
  limited-deliver uid s rest st same start c below u h le = elim (text_cases s.uid u) [
    | inl p ↦ rw (p, eq_refl) (ground (arith, c.exact, rw (same ∙ refl) at p))
    | inr (p, q) ↦ rw q le
  ]

  send-Inv :
      (uid : String) (st : DeviceState) (w : Worker)
      → Inv w
      → Counts uid w.sent (now_fn w.clock_reads) st
      → Inv (send now_fn vendor_fails uid st w)
  send-Inv uid st w v c =
      let now = now_fn w.clock_reads in
      let rolled = roll_hour now st in
      let c' = roll-Counts uid w.sent w.clock_reads st c in
      let next = later_Counts uid w.sent w.clock_reads rolled c' in
      let others =
        λ (u : String) (ne : uid ≢ u). later_CountsAt u w.sent w.clock_reads _ (v.counts u) in
      send_cases now_fn vendor_fails Inv uid st w
        (λ full. put-Inv uid rolled _ w.devices refl v.limited next others)
        (put-Inv uid rolled _ w.devices refl v.limited next others)
        λ below.
          put-Inv uid _ _ w.devices refl
            (λ u h.
              limited-deliver uid (delivered uid st w) w.sent rolled refl (roll-start now st) c'
                below u h (v.limited u h))
            (later_Counts uid _ w.clock_reads _ (
              Counts-deliver uid (delivered uid st w) w.sent rolled _ refl (roll-start now st) c'
                below refl refl))
            (λ u ne.
              later_CountsAt u _ w.clock_reads _
                (CountsAt-other u (delivered uid st w) w.sent now _ ne (v.counts u)))

  rebadge :
      (u : String) (sent : List Sent) (now : ℕ) (st : DeviceState) (n : ℕ)
      → Counts u sent now st
      → Counts u sent now (record st { badge = n })
  rebadge u sent now st n c = record {
    exact = c.exact;
    capped = c.capped;
    past = c.past;
    later = c.later;
  }

  device_of-Counts :
      (u : String) (sent : List Sent) (now : ℕ) (o : Option DeviceState)
      → CountsAt u sent now o
      → Counts u sent now (device_of now_fn vendor_fails now o)
  device_of-Counts u sent now none c = record {
    exact = c (truncate_hour now);
    capped = omega arith;
    past = omega arith;
    later = λ h lt. c h;
  }
  device_of-Counts u sent now (some st) c = c

  ingest-Inv : (ev : Notify) (w : Worker) → Inv w → Inv (ingest now_fn vendor_fails ev w)
  unfolding ingest
  ingest-Inv ev w v =
      let uid = ev.to_uid in
      let now = now_fn w.clock_reads in
      let st = device_of now_fn vendor_fails now (lookup uid w.devices) in
      let c =
        later_Counts uid w.sent w.clock_reads st
          (device_of-Counts uid w.sent now _ (v.counts uid)) in
      let read = read-Inv w v in
      elim (Bool-cases (window_over now st.last_sent_at)) [
        | inl over ↦ rw (over, ingest) (send-Inv uid _ _ read (rebadge uid w.sent _ st 1 c))
        | inr within ↦
            rw (within, ingest)
              (put-Inv uid _ _ w.devices refl v.limited (rebadge uid w.sent _ st (suc st.badge) c)
                (λ u ne. read.counts u))
      ]

  flush_one-Inv :
      (now : ℕ) (uid : String) (o : Option DeviceState) (w : Worker)
      → lookup uid w.devices ≡ o
      → Inv w
      → Inv (flush_one now_fn vendor_fails now uid o w)
  unfolding flush_one
  flush_one-Inv now uid none w e v = v
  flush_one-Inv now uid (some st) w e v =
      elim (Bool-cases (ltb 1 st.badge && window_over now st.last_sent_at)) [
        | inl due ↦ rw (due, flush_one) (send-Inv uid st w v (rw e at (v.counts uid)))
        | inr quiet ↦ rw (quiet, flush_one) v
      ]

  flush_each-Inv :
      (now : ℕ) (uids : List String) (w : Worker)
      → Inv w
      → Inv (flush_each now_fn vendor_fails now uids w)
  unfolding flush_each
  flush_each-Inv now [] w v = v
  flush_each-Inv now (uid ∷ rest) w v = flush_each-Inv now rest _ (flush_one-Inv now uid _ w refl v)

  flush_due-Inv : (w : Worker) → Inv w → Inv (flush_due now_fn vendor_fails w)
  unfolding flush_due
  flush_due-Inv w v = flush_each-Inv _ _ _ (read-Inv w v)

  absorb-Inv : (f : Fetch) (w : Worker) → Inv w → Inv (absorb now_fn vendor_fails f w)
  unfolding absorb
  absorb-Inv (message (some ev)) w v = ingest-Inv ev w v
  absorb-Inv (message none) w v = v
  absorb-Inv cancelled w v = v
  absorb-Inv timeout w v = v
  absorb-Inv broken w v = v

  tick_branch-Inv : (b : Bool) (w : Worker) → Inv w → Inv (tick_branch now_fn vendor_fails b w)
  unfolding tick_branch
  tick_branch-Inv true w v = flush_due-Inv w v
  tick_branch-Inv false w v = v

  run-Inv : (rs : List Round) (w : Worker) → Inv w → Inv (run now_fn vendor_fails rs w).1
  unfolding run
  run-Inv [] w v = v
  run-Inv (r ∷ rs) w v =
      let ticked = tick_branch-Inv r.ticker_fired w v in
      let absorbed = absorb-Inv r.fetch _ ticked in
      ground (arith, v, absorbed, run-Inv rs _ absorbed)

  -- From a new worker, whatever the rounds, the clock, as long as it never goes back, and the
  -- vendor channel: no device is sent more than twenty notifications in one clock hour.
  pub hourly_limit :
      (rs : List Round) (u : String) (h : ℕ)
      → sent_in_hour u h (run now_fn vendor_fails rs new).1.sent ≤ 20
  unfolding new lookup sent_in_hour
  hourly_limit rs u h =
      (run-Inv rs new (record { limited = λ v k. omega arith; counts = λ v k. refl })).limited u h
