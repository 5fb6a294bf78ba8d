-- ===== src/Push.antt =====
-- worker/push/push.go: the throttle of offline notifications. Times are numbers of nanoseconds.
-- The clock and the vendor channel are parameters, read by call number: `now_fn i` is the i-th
-- reading of `nowFn`, and `vendor_fails i` says whether the i-th call of `vendor.Push` returns an
-- error. A Go map is an association list, iterated in order of insertion.
pub mod Hourly
pub mod Window
pub mod Lone
mod Tests
use alfred_brave_com.Base.{
  ℕ, suc, ◌+◌, ◌-◌, ◌*◌, ◌%◌, ◌≤◌, ◌<◌, String, Bool, true, false, ◌&&◌, Option, none, some, List,
  [], ◌∷◌, map, arith, inl, inr, Bool-cases, leb→le, ltb, leb, nat_eq, if◌then◌else◌,
}
use alfred_brave_com.Base.Table.{lookup, insert}
use alfred_brave_com.Chat.{Notify}

abbrev pub second : ℕ
second = 1000000000

abbrev pub hour : ℕ
hour = 3600 * second

abbrev pub merge_window : ℕ
merge_window = 60 * second

abbrev pub device_hourly : ℕ
device_hourly = 20

-- `lastSentAt`'s zero time is `none`.
pub record DeviceState : Type 0 where
  pub last_sent_at : Option ℕ
  pub badge : ℕ
  pub hour_count : ℕ
  pub hour_start : ℕ

-- A notification that the vendor accepted.
pub record Sent : Type 0 where
  pub uid : String
  pub badge : ℕ
  pub at : ℕ

-- `sent`, newest first, is what the vendor channel has accepted so far.
pub record Worker : Type 0 where
  pub devices : List (String × DeviceState)
  pub clock_reads : ℕ
  pub vendor_calls : ℕ
  pub sent : List Sent

pub new : Worker
new = record { devices = []; clock_reads = 0; vendor_calls = 0; sent = [] }

-- now.Truncate(time.Hour)
pub truncate_hour : ℕ → ℕ
truncate_hour t = t - t % hour

-- now.Sub(st.lastSentAt) >= mergeWindow
abbrev pub window_over : ℕ → Option ℕ → Bool
window_over now none = true
window_over now (some last) = leb (last + merge_window) now

-- The hour roll of `send`.
pub roll_hour : ℕ → DeviceState → DeviceState
roll_hour now st =
    if nat_eq (truncate_hour now) st.hour_start
    then st
    else record st { hour_start = truncate_hour now; hour_count = 0 }

abbrev store : String → DeviceState → Worker → Worker
store uid st w = record w { devices = insert uid st w.devices }

-- What `FetchMessage` gives within its 3 s: a message (`none` is a payload that is not JSON), an
-- error while the worker's context is done, the end of the window, or another error.
pub data Fetch : Type 0 where
  message : Option Notify → Fetch
  cancelled timeout broken : Fetch

-- What one round of the loop of `Run` meets.
pub record Round : Type 0 where
  pub done : Bool
  pub ticker_fired : Bool
  pub fetch : Fetch
  pub commit_fails : Bool

pub data Exit : Type 0 where
  running stopped fetch_failed commit_failed : Exit

module _ (now_fn : ℕ → ℕ) (vendor_fails : ℕ → Bool) where
  -- `st` is shared with the map in the source, so it is written back on every path.
  pub send : String → DeviceState → Worker → Worker
  send uid st w =
      let now = now_fn w.clock_reads in
      let read = record w { clock_reads = suc w.clock_reads } in
      let rolled = roll_hour now st in
      let called = record read { vendor_calls = suc w.vendor_calls } in
      if leb device_hourly rolled.hour_count
      then store uid rolled read
      else if vendor_fails w.vendor_calls
      then store uid rolled called
      else record called {
        devices =
            insert uid
              (record rolled {
                last_sent_at = some now;
                hour_count = suc rolled.hour_count;
                badge = 0;
              })
              w.devices;
        sent = record { uid = uid; badge = st.badge; at = now } ∷ w.sent;
      }

  -- Rules for the three ways through `send`: suppressed by the limit, refused by the vendor, sent.
  send_cases {ℓ} :
      (P : Worker → Type ℓ) (uid : String) (st : DeviceState) (w : Worker)
      → let rolled = roll_hour (now_fn w.clock_reads) st in
        (20 ≤ rolled.hour_count
          → P (store uid rolled (record w { clock_reads = suc w.clock_reads })))
        → P (
            store uid rolled
              (record w { clock_reads = suc w.clock_reads; vendor_calls = suc w.vendor_calls }))
        → (rolled.hour_count < 20
            → P (
                store uid
                  (record rolled {
                    last_sent_at = some (now_fn w.clock_reads);
                    hour_count = suc rolled.hour_count;
                    badge = 0;
                  })
                  (record w {
                    clock_reads = suc w.clock_reads;
                    vendor_calls = suc w.vendor_calls;
                    sent =
                        record { uid = uid; badge = st.badge; at = now_fn w.clock_reads } ∷ w.sent;
                  })))
        → P (send uid st w)
  unfolding send
  send_cases P uid st w suppressed refused accepted =
      let full = leb device_hourly (roll_hour (now_fn w.clock_reads) st).hour_count in
      elim (Bool-cases full) [
        | inl over ↦ rw (over, send) (suppressed (leb→le _ _ over))
        | inr under ↦ elim (Bool-cases (vendor_fails w.vendor_calls)) [
          | inl failed ↦ rw (under, failed, send) refused
          | inr ok ↦ rw (under, ok, send) (accepted (ground arith))
        ]
      ]

  abbrev fresh_device : ℕ → DeviceState
  fresh_device now = record {
    last_sent_at = none;
    badge = 0;
    hour_count = 0;
    hour_start = truncate_hour now;
  }

  abbrev device_of : ℕ → Option DeviceState → DeviceState
  device_of now none = fresh_device now
  device_of now (some st) = st

  pub ingest : Notify → Worker → Worker
  ingest ev w =
      let now = now_fn w.clock_reads in
      let read = record w { clock_reads = suc w.clock_reads } in
      let st = device_of now (lookup ev.to_uid w.devices) in
      if window_over now st.last_sent_at
      then send ev.to_uid (record st { badge = 1 }) read
      else store ev.to_uid (record st { badge = suc st.badge }) read

  flush_one : ℕ → String → Option DeviceState → Worker → Worker
  flush_one now uid none w = w
  flush_one now uid (some st) w =
      if ltb 1 st.badge && window_over now st.last_sent_at then send uid st w else w

  -- The loop of `flushDue` over the keys of the map; the map holds pointers, so that an entry is
  -- read when its turn comes.
  pub flush_each : ℕ → List String → Worker → Worker
  flush_each now [] w = w
  flush_each now (uid ∷ rest) w = flush_each now rest (flush_one now uid (lookup uid w.devices) w)

  pub flush_due : Worker → Worker
  flush_due w =
      flush_each (now_fn w.clock_reads) (map (λ e. e.0) w.devices)
        (record w { clock_reads = suc w.clock_reads })

  tick_branch : Bool → Worker → Worker
  tick_branch true w = flush_due w
  tick_branch false w = w

  -- One round of the loop of `Run` whose context is not done, up to its commit.
  pub absorb : Fetch → Worker → Worker
  absorb (message (some ev)) w = ingest ev w
  absorb _ w = w

  pub run : List Round → Worker → Exit × Worker
  run [] w = (running, w)
  run (r ∷ rs) w =
      let ticked = tick_branch r.ticker_fired w in
      let absorbed = absorb r.fetch ticked in
      let rest = run rs absorbed in
      if r.done then (stopped, w) else elim r.fetch [
        | message _ ↦ if r.commit_fails then (commit_failed, absorbed) else rest
        | cancelled ↦ rest
        | timeout ↦ rest
        | broken ↦ (fetch_failed, absorbed)
      ]
