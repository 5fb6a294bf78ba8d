-- ===== src/Push/Tests.antt =====
-- The push worker at concrete inputs: one device, a clock that advances ten seconds a reading.
use alfred_brave_com.Base.{
  ℕ, suc, ◌+◌, ◌*◌, ◌≤◌, ◌≡◌, refl, Bool, true, false, none, some, List, [], ◌∷◌, arith,
}
use alfred_brave_com.Base.Table.{lookup, insert}
use alfred_brave_com.Chat.{Notify}
use alfred_brave_com.Push.{
  Worker, DeviceState, Round, message, second, new, truncate_hour, roll_hour, send, ingest,
  flush_one, flush_each, flush_due, absorb, tick_branch, run,
}
use alfred_brave_com.Push.Hourly.{sent_in_hour, hourly_limit}
use alfred_brave_com.Push.Window.{last_sent, Apart, merge_window_kept}
use alfred_brave_com.Push.Lone.{flushes, lone_message_unannounced}

abbrev clock : ℕ → ℕ
clock i = (i * 10 + 1000) * second

clock_forward : (i : ℕ) → clock i ≤ clock (suc i)
clock_forward i = omega arith

abbrev never : ℕ → Bool
never i = false

abbrev ping : Notify
ping = record { to_uid = "u1"; from_uid = "u2"; conv_id = "c"; seq = 1 }

abbrev round : Bool → Round
round tick = record {
  done = false;
  ticker_fired = tick;
  fetch = message (some ping);
  commit_fails = false;
}

abbrev rounds : List Round
rounds = round false ∷ round false ∷ round false ∷ round true ∷ round true ∷ round true ∷ []

abbrev after : Worker
after = (run clock never rounds new).1

-- The first message goes out at once, and the two that follow within the window as one.
sent_twice : sent_in_hour "u1" 0 after.sent ≡ 2
unfolding run new sent_in_hour send roll_hour ingest flush_each flush_one flush_due absorb
    tick_branch lookup insert truncate_hour
sent_twice = refl

hourly_limit_example : sent_in_hour "u1" 0 after.sent ≤ 20
hourly_limit_example = hourly_limit clock never clock_forward rounds "u1" 0

merge_window_kept_example : Apart after.sent
merge_window_kept_example = merge_window_kept clock never clock_forward rounds

abbrev announced : DeviceState
announced = record {
  last_sent_at = some (1000 * second);
  badge = 0;
  hour_count = 1;
  hour_start = 0;
}

abbrev one_sent : Worker
one_sent = record { devices = ("u1", announced) ∷ []; clock_reads = 2; vendor_calls = 1; sent = [] }

lone_message_unannounced_example :
    last_sent "u1" (flushes clock never 3 (ingest clock never ping one_sent)).sent ≡ none
unfolding last_sent lookup
lone_message_unannounced_example =
    lone_message_unannounced clock never 3 ping announced one_sent refl refl refl
