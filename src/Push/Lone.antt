-- ===== src/Push/Lone.antt =====
-- worker/push/push.go: `flushDue` and a message that is alone in the merge window.
use alfred_brave_com.Base.{
  ℕ, zero, suc, ◌≤◌, ◌≡◌, ◌≢◌, refl, String, Bool, false, ◌&&◌, Option, none, some, List, [], ◌∷◌,
  arith, eq_iff, eq_refl, ◌==◌, ltb, inl, inr, Bool-cases, map,
}
use alfred_brave_com.Base.Table.{lookup, lookup-insert}
use alfred_brave_com.Chat.{Notify}
use alfred_brave_com.Push.{
  DeviceState, Worker, window_over, send, send_cases, ingest, flush_each, flush_one, flush_due,
}
use alfred_brave_com.Push.Window.{last_sent}

-- The worker `v` holds `st` for `uid`, and its device was last sent to as `w` has it.
record Same (uid : String) (st : DeviceState) (w v : Worker) : Type 0 where
  held : lookup uid v.devices ≡ some st
  unsent : last_sent uid v.sent ≡ last_sent uid w.sent

module _ (now_fn : ℕ → ℕ) (vendor_fails : ℕ → Bool) where
  send-Same :
      (uid u : String) (st st' : DeviceState) (w v : Worker)
      → u ≢ uid
      → Same uid st w v
      → Same uid st w (send now_fn vendor_fails u st' v)
  unfolding last_sent
  send-Same uid u st st' w v ne s =
      let away : (u == uid) ≡ false = ground (arith, eq_iff u uid) in
      send_cases now_fn vendor_fails (Same uid st w) u st' v
        (λ full. record { held = rw (lookup-insert, away) s.held; unsent = s.unsent })
        (record { held = rw (lookup-insert, away) s.held; unsent = s.unsent })
        λ below. record { held = rw (lookup-insert, away) s.held; unsent = rw away s.unsent }

  flush_one-Same :
      (now : ℕ) (uid u : String) (o : Option DeviceState) (st : DeviceState) (w v : Worker)
      → st.badge ≤ 1
      → lookup u v.devices ≡ o
      → Same uid st w v
      → Same uid st w (flush_one now_fn vendor_fails now u o v)
  unfolding flush_one
  flush_one-Same now uid u none st w v quiet e s = s
  flush_one-Same now uid u (some st') st w v quiet e s =
      elim (Bool-cases (ltb 1 st'.badge && window_over now st'.last_sent_at)) [
        | inl due ↦
            rw (due, flush_one)
              (send-Same uid u st st' w v (λ p. ground (arith, (rw p at e), s.held)) s)
        | inr idle ↦ rw (idle, flush_one) s
      ]

  flush_each-Same :
      (now : ℕ) (us : List String) (uid : String) (st : DeviceState) (w v : Worker)
      → st.badge ≤ 1
      → Same uid st w v
      → Same uid st w (flush_each now_fn vendor_fails now us v)
  unfolding flush_each
  flush_each-Same now [] uid st w v quiet s = s
  flush_each-Same now (u ∷ us) uid st w v quiet s =
      flush_each-Same now us uid st w _ quiet (flush_one-Same now uid u _ st w v quiet refl s)

  -- `flushDue` any number of times.
  abbrev pub flushes : ℕ → Worker → Worker
  flushes zero w = w
  flushes (suc n) w = flushes n (flush_due now_fn vendor_fails w)

  flushes-Same :
      (n : ℕ) (uid : String) (st : DeviceState) (w v : Worker)
      → st.badge ≤ 1
      → Same uid st w v
      → Same uid st w (flushes n v)
  unfolding flush_due
  flushes-Same zero uid st w v quiet s = s
  flushes-Same (suc n) uid st w v quiet s = flushes-Same n uid st w _ quiet (
      flush_each-Same (now_fn v.clock_reads) (map (λ e. e.0) v.devices) uid st w _ quiet
        (record { held = s.held; unsent = s.unsent }))

  -- After a notification has gone out (`badge` is 0), a message that arrives within the merge window
  -- and stays alone is never announced: however often, and however late, `flushDue` runs, nothing
  -- is sent to the device.
  pub lone_message_unannounced :
      (n : ℕ) (ev : Notify) (st : DeviceState) (w : Worker)
      → lookup ev.to_uid w.devices ≡ some st
      → st.badge ≡ 0
      → window_over (now_fn w.clock_reads) st.last_sent_at ≡ false
      → last_sent ev.to_uid (flushes n (ingest now_fn vendor_fails ev w)).sent
        ≡ last_sent ev.to_uid w.sent
  unfolding ingest
  lone_message_unannounced n ev st w e zero_badge within =
      (flushes-Same n ev.to_uid (record st { badge = suc st.badge }) w _ (omega arith)
        (record {
          held = rw (e, ingest, within, lookup-insert, eq_refl) refl;
          unsent = rw (e, ingest, within) refl;
        })).unsent
