-- ===== src/Exchange/Tests.antt =====
-- Runs of the chat server's connection table, and the theorems at them.
use alfred_brave_com.Base.{
  ℕ, ◌≡◌, refl, String, true, false, none, [], ◌∷◌, arith, keep, exists, nat_eq, ◌&&◌, ◌||◌, eq_iff,
}
use alfred_brave_com.Base.Table.{lookup}
use alfred_brave_com.Database.{empty_db, steady}
use alfred_brave_com.Database.Kv.{online_key}
use alfred_brave_com.Exchange.{
  Client, Manager, connect, connects, registers, unregisters, reader_left, start, later, Steps,
  event_register, event_unregister, get_client, clean_idle_clients, heartbeat_expiration, is_idle,
  get_all_clients, clean,
}
use alfred_brave_com.Exchange.Routed.{IsRouted}
use alfred_brave_com.Exchange.Entries.{entry, Steps-entry}
use alfred_brave_com.Exchange.Kicked.{clean_idle_clients_lem, left_client}
use alfred_brave_com.Exchange.Stale.{stale_unregister}

abbrev ada_twice : ℕ → Client
ada_twice h = record { user_id = "ada"; send = []; last_active = h; closed = false }

abbrev hub : Manager
hub = record {
  users = [];
  register = [];
  unregister = [];
  broadcast = [];
  has_online = true;
  online_cs = "cs1:80";
  online_addr = "cs1:90";
  session = steady empty_db 0;
  heap = ada_twice;
  connections = 2;
}

hub-IsRouted : IsRouted hub
unfolding lookup
hub-IsRouted = record {
  named = λ uid h e. absurd (ground (arith, e));
  keyed = tt;
  queued = tt;
  buffered = λ h. ground arith;
}

-- Ada connects, her connection is entered, and the reader of it ends.
abbrev entered : Manager
entered = event_register 2 7 (record (connect "ada" 5 hub) { register = [] })

abbrev gone : Manager
gone = event_unregister 2 (record entered { unregister = [] })

ada_comes_and_goes : Steps hub gone
unfolding connect event_register
ada_comes_and_goes =
    later
      (later (later (later start (connects "ada" 5)) (registers 2 7 [] refl))
        (reader_left 2 (omega arith)))
      (unregisters 2 [] refl)

Steps-entry_example :
    IsRouted gone × ((uid : String) → get_client uid gone ≡ entry ada_comes_and_goes uid)
Steps-entry_example = Steps-entry hub gone ada_comes_and_goes hub-IsRouted

-- The first two connections, the second in the table, and a round long after.
abbrev before_round : Manager
before_round = record hub { users = ("ada", 1) ∷ [] }

before_round-IsRouted : IsRouted before_round
unfolding lookup
before_round-IsRouted = record {
  named = λ uid h e. (ground (arith, eq_iff "ada" uid, e), ground (arith, eq_iff "ada" uid, e));
  keyed = (refl, tt);
  queued = tt;
  buffered = λ h. ground arith;
}

-- It kicks the idle connection.
clean_idle_clients_example :
    ((uid : String)
      → get_client uid (clean_idle_clients heartbeat_expiration 3 before_round).1
        ≡ left_client (is_idle heartbeat_expiration 3 before_round) (get_client uid before_round))
    × ((clean_idle_clients heartbeat_expiration 3 before_round).0
        ≡ keep (is_idle heartbeat_expiration 3 before_round) (get_all_clients before_round))
    × ((i : ℕ)
        → ((clean_idle_clients heartbeat_expiration 3 before_round).1.heap i).closed ≡ (
            (before_round.heap i).closed
            || exists
                (λ h. is_idle heartbeat_expiration 3 before_round h && nat_eq h i)
                (get_all_clients before_round)))
clean_idle_clients_example =
    clean_idle_clients_lem heartbeat_expiration 3 before_round before_round-IsRouted

round_kicks : (clean_idle_clients heartbeat_expiration 3 before_round).0 ≡ 1 ∷ []
unfolding clean_idle_clients clean is_idle
round_kicks = refl

-- Ada's first connection is dead; the second is entered, and then the first is taken out.
stale_unregister_example :
    (get_client "ada" (event_unregister 0 (event_register 1 7 hub)) ≡ none)
    × (lookup (online_key "ada") (event_unregister 0 (event_register 1 7 hub)).session.db.kv ≡ none)
    × ((event_unregister 0 (event_register 1 7 hub)).heap 1 ≡ ada_twice 1)
stale_unregister_example = stale_unregister 0 1 7 hub refl refl refl
