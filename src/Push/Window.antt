-- ===== src/Push/Window.antt =====
-- worker/push/push.go: two notifications to one device are at least the merge window apart, and
-- what becomes of the messages that arrive within it.
use alfred_brave_com.Base.{
  ℕ, suc, ◌+◌, ◌≤◌, ◌≡◌, ◌≢◌, refl, subst, sym, ◌∙◌, String, Bool, true, false, ◌&&◌, Option, none,
  some, List, [], ◌∷◌, All, arith, eq_iff, eq_refl, ◌==◌, ltb, if◌then◌else◌, inl, inr, text_cases,
  Bool-cases,
}
use alfred_brave_com.Base.Table.{lookup, insert, lookup-insert}
use alfred_brave_com.Chat.{Notify}
use alfred_brave_com.Push.{
  DeviceState, Sent, Worker, new, merge_window, roll_hour, window_over, device_of, send, send_cases,
  ingest, flush_each, flush_one, flush_due, absorb, tick_branch, run, Round, Fetch, message,
  cancelled, timeout, broken,
}

-- When the device of `u` was last sent to.
unfoldable pub last_sent : String → List Sent → Option ℕ
last_sent u [] = none
last_sent u (s ∷ rest) = if s.uid == u then some s.at else last_sent u rest

-- Every notification is at least the merge window later than all earlier ones to its device.
abbrev pub Apart : List Sent → Type 0
Apart [] = Unit
Apart (s ∷ rest) = All (λ e. e.uid ≡ s.uid → e.at + merge_window ≤ s.at) rest × Apart rest

All-later :
    (u : String) (m t : ℕ) (rest : List Sent)
    → m ≤ t
    → All (λ e. e.uid ≡ u → e.at + merge_window ≤ m) rest
    → All (λ e. e.uid ≡ u → e.at + merge_window ≤ t) rest
All-later u m t [] le a = tt
All-later u m t (e ∷ rest) le a = ((λ p. omega (arith, a.0 p)), All-later u m t rest le a.1)

last-Apart :
    (u : String) (t : ℕ) (sent : List Sent)
    → Apart sent
    → window_over t (last_sent u sent) ≡ true
    → All (λ e. e.uid ≡ u → e.at + merge_window ≤ t) sent
unfolding last_sent
last-Apart u t [] a h = tt
last-Apart u t (s ∷ rest) a h = elim (text_cases s.uid u) [
  | inl p ↦
      let over : window_over t (some s.at) ≡ true = rw (p, eq_refl) at h in
      (
        (λ _. ground (arith, over)),
        subst (λ v. All (λ e. e.uid ≡ v → e.at + merge_window ≤ t) rest) p
            (All-later s.uid s.at t rest (ground (arith, over)) a.0),
      )
  | inr (p, q) ↦ ((λ e. absurd (p e)), last-Apart u t rest a.1 (rw q at h))
]

-- What the map holds of a device agrees with what was sent to it.
abbrev LastAt : String → List Sent → Option DeviceState → Type 0
LastAt u sent none = last_sent u sent ≡ none
LastAt u sent (some st) = last_sent u sent ≡ st.last_sent_at

record Inv (w : Worker) : Type 0 where
  apart : Apart w.sent
  last : (u : String) → LastAt u w.sent (lookup u w.devices)

put-Inv :
    (uid : String) (st : DeviceState) (w : Worker) (devices : List (String × DeviceState))
    → w.devices ≡ insert uid st devices
    → Apart w.sent
    → last_sent uid w.sent ≡ st.last_sent_at
    → ((u : String) → uid ≢ u → LastAt u w.sent (lookup u devices))
    → Inv w
put-Inv uid st w devices e apart mine others = record {
  apart = apart;
  last = λ u. elim (text_cases uid u) [
    | inl p ↦ rw (← p, e, lookup-insert, eq_refl) mine
    | inr (p, q) ↦ rw (e, lookup-insert, q) (others u p)
  ];
}

LastAt-other :
    (u : String) (s : Sent) (rest : List Sent) (o : Option DeviceState)
    → s.uid ≢ u
    → LastAt u rest o
    → LastAt u (s ∷ rest) o
unfolding last_sent
LastAt-other u s rest none ne c = ground (arith, eq_iff s.uid u)
LastAt-other u s rest (some st) ne c = ground (arith, eq_iff s.uid u)

last_sent_self : (s : Sent) (rest : List Sent) → last_sent s.uid (s ∷ rest) ≡ some s.at
unfolding last_sent
last_sent_self s rest = rw eq_refl

last-roll_hour : (now : ℕ) (st : DeviceState) → (roll_hour now st).last_sent_at ≡ st.last_sent_at
unfolding roll_hour
last-roll_hour now st = ground arith

window_later : (m t : ℕ) (o : Option ℕ) → m ≤ t → window_over m o ≡ true → window_over t o ≡ true
window_later m t none le h = refl
window_later m t (some last) le h = ground arith

module _ (now_fn : ℕ → ℕ) (vendor_fails : ℕ → Bool)
    (forward : (i : ℕ) → now_fn i ≤ now_fn (suc i)) where
  -- The window was found over at `now`, before the reading that `send` makes.
  send-Inv :
      (uid : String) (st : DeviceState) (w : Worker) (now : ℕ)
      → Inv w
      → last_sent uid w.sent ≡ st.last_sent_at
      → window_over now st.last_sent_at ≡ true
      → now ≤ now_fn w.clock_reads
      → Inv (send now_fn vendor_fails uid st w)
  send-Inv uid st w now v mine over le =
      let t = now_fn w.clock_reads in
      let kept = mine ∙ sym (last-roll_hour t st) in
      let others = λ (u : String) (ne : uid ≢ u). v.last u in
      let s : Sent = record { uid = uid; badge = st.badge; at = t } in
      send_cases now_fn vendor_fails Inv uid st w
        (λ full. put-Inv uid _ _ w.devices refl v.apart kept others)
        (put-Inv uid _ _ w.devices refl v.apart kept others)
        λ below.
          put-Inv uid _ _ w.devices refl
            (last-Apart uid t w.sent v.apart (rw mine (window_later now t _ le over)), v.apart)
            (last_sent_self s w.sent) (λ u ne. LastAt-other u s w.sent _ ne (v.last u))

  device_of-last :
      (u : String) (sent : List Sent) (now : ℕ) (o : Option DeviceState)
      → LastAt u sent o
      → last_sent u sent ≡ (device_of now_fn vendor_fails now o).last_sent_at
  device_of-last u sent now none e = e
  device_of-last u sent now (some st) e = e

  ingest-Inv : (ev : Notify) (w : Worker) → Inv w → Inv (ingest now_fn vendor_fails ev w)
  unfolding ingest
  ingest-Inv ev w v =
      let uid = ev.to_uid in
      let now = now_fn w.clock_reads in
      let st = device_of now_fn vendor_fails now (lookup uid w.devices) in
      let mine = device_of-last uid w.sent now _ (v.last uid) in
      elim (Bool-cases (window_over now st.last_sent_at)) [
        | inl over ↦
            rw (over, ingest)
              (send-Inv uid _ _ now (record { apart = v.apart; last = v.last }) mine over
                (forward w.clock_reads))
        | inr within ↦
            rw (within, ingest) (put-Inv uid _ _ w.devices refl v.apart mine (λ u ne. v.last u))
      ]

  flush_one-Inv :
      (now : ℕ) (uid : String) (o : Option DeviceState) (w : Worker)
      → lookup uid w.devices ≡ o
      → now ≤ now_fn w.clock_reads
      → Inv w
      → Inv (flush_one now_fn vendor_fails now uid o w)
  unfolding flush_one
  flush_one-Inv now uid none w e le v = v
  flush_one-Inv now uid (some st) w e le v =
      elim (Bool-cases (ltb 1 st.badge && window_over now st.last_sent_at)) [
        | inl due ↦
            rw (due, flush_one) (send-Inv uid st w now v (rw e at (v.last uid)) (ground arith) le)
        | inr quiet ↦ rw (quiet, flush_one) v
      ]

  clock-send :
      (uid : String) (st : DeviceState) (w : Worker)
      → (send now_fn vendor_fails uid st w).clock_reads ≡ suc w.clock_reads
  unfolding send
  clock-send uid st w = ground arith

  flush_one-clock :
      (now : ℕ) (uid : String) (o : Option DeviceState) (w : Worker)
      → now ≤ now_fn w.clock_reads
      → now ≤ now_fn (flush_one now_fn vendor_fails now uid o w).clock_reads
  unfolding flush_one
  flush_one-clock now uid none w le = le
  flush_one-clock now uid (some st) w le =
      elim (Bool-cases (ltb 1 st.badge && window_over now st.last_sent_at)) [
        | inl due ↦ rw (due, flush_one, clock-send uid st w) (omega (arith, forward w.clock_reads))
        | inr quiet ↦ rw (quiet, flush_one) le
      ]

  flush_each-Inv :
      (now : ℕ) (uids : List String) (w : Worker)
      → now ≤ now_fn w.clock_reads
      → Inv w
      → Inv (flush_each now_fn vendor_fails now uids w)
  unfolding flush_each
  flush_each-Inv now [] w le v = v
  flush_each-Inv now (uid ∷ rest) w le v =
      flush_each-Inv now rest _ (flush_one-clock now uid _ w le)
        (flush_one-Inv now uid _ w refl le v)

  flush_due-Inv : (w : Worker) → Inv w → Inv (flush_due now_fn vendor_fails w)
  unfolding flush_due
  flush_due-Inv w v =
      flush_each-Inv _ _ _ (forward w.clock_reads) (record { apart = v.apart; last = v.last })

  absorb-Inv : (f : Fetch) (w : Worker) → Inv w → Inv (absorb now_fn vendor_fails f w)
  unfolding absorb
  absorb-Inv (message (some ev)) w v = ingest-Inv ev w v
  absorb-Inv (message none) w v = v
  absorb-Inv cancelled w v = v
  absorb-Inv timeout w v = v
  absorb-Inv broken w v = v

  tick_branch-Inv : (b : Bool) (w : Worker) → Inv w → Inv (tick_branch now_fn vendor_fails b w)
  unfolding tick_branch
  tick_branch-Inv true w v = flush_due-Inv w v
  tick_branch-Inv false w v = v

  run-Inv : (rs : List Round) (w : Worker) → Inv w → Inv (run now_fn vendor_fails rs w).1
  unfolding run
  run-Inv [] w v = v
  run-Inv (r ∷ rs) w v =
      let ticked = tick_branch-Inv r.ticker_fired w v in
      let absorbed = absorb-Inv r.fetch _ ticked in
      ground (arith, v, absorbed, run-Inv rs _ absorbed)

  -- From a new worker, whatever the rounds, the clock, as long as it never goes back, and the
  -- vendor channel: any two notifications to one device are at least the merge window apart.
  pub merge_window_kept : (rs : List Round) → Apart (run now_fn vendor_fails rs new).1.sent
  unfolding new lookup last_sent
  merge_window_kept rs = (run-Inv rs new (record { apart = tt; last = λ u. refl })).apart
