-- ===== src/Exchange.antt =====
-- joker/exchange/manager.go, client.go and online.go: the connections of a chat server. Clients are
-- shared objects: the heap holds them by number, and the table and the channels hold the numbers.
-- A send channel keeps the frames that the write pump has not taken. `none` is a panic.
pub mod Acks
pub mod Entries
pub mod Idle
pub mod Kicked
pub mod Routed
pub mod Router
pub mod Stale
mod Tests
use alfred_brave_com.Base.{
  ℕ, suc, ◌+◌, ◌≡◌, ◌<◌, String, Bool, true, false, Option, none, some, List, [], ◌∷◌, ◌++◌, map,
  ltb, leb, nat_eq, length, if◌then◌else◌,
}
use alfred_brave_com.Base.Table.{lookup, insert, remove}
use alfred_brave_com.Base.Exec.{Exec}
use alfred_brave_com.Database.{Session, online}
use alfred_brave_com.Database.Kv.{put, delete_if_match, online_key}

-- Six minutes, in nanoseconds.
abbrev pub heartbeat_expiration : ℕ
heartbeat_expiration = 360000000000

abbrev pub send_capacity : ℕ
send_capacity = 32

pub record Client : Type 0 where
  pub user_id : String
  pub send : List String
  pub last_active : ℕ
  pub closed : Bool

pub record Manager : Type 0 where
  pub users : List (String × ℕ)
  pub register : List ℕ
  pub unregister : List ℕ
  pub broadcast : List String
  pub has_online : Bool
  pub online_cs : String
  pub online_addr : String
  pub session : Session
  pub heap : ℕ → Client
  pub connections : ℕ

unfoldable pub new_client : String → ℕ → Client
new_client user_id now = record { user_id = user_id; send = []; last_active = now; closed = false }

unfoldable pub touch_at : ℕ → Client → Client
touch_at t c = record c { last_active = t }

-- The second call does nothing, by closeOnce.
unfoldable pub close : Client → Client
close c = if c.closed then c else record c { closed = true }

unfoldable pub set_client : ℕ → Client → Manager → Manager
set_client h c m = record m { heap = λ i. if nat_eq i h then c else m.heap i }

unfoldable pub upsert : String → String → String → ℕ → Exec Session (Unit {0})
upsert uid cs addr ts = put (online_key uid) (online cs addr ts)

unfoldable pub delete_online : String → String → Exec Session (Unit {0})
delete_online uid cs = delete_if_match (online_key uid) cs

-- The error of the write is logged.
unfoldable pub event_register : ℕ → ℕ → Manager → Manager
event_register h ts m =
    let uid = (m.heap h).user_id in
    let stored = record m { users = insert uid h m.users } in
    if m.has_online
    then record stored { session = (upsert uid m.online_cs m.online_addr ts m.session).1 }
    else stored

unfoldable pub event_unregister : ℕ → Manager → Manager
event_unregister h m =
    let uid = (m.heap h).user_id in
    let removed = record m { users = remove uid m.users } in
    if m.has_online
    then record removed { session = (delete_online uid m.online_cs m.session).1 }
    else removed

-- The order of sync.Map's Range is unspecified; here it is the table's.
abbrev pub get_all_clients : Manager → List ℕ
get_all_clients m = map (λ row. row.1) m.users

abbrev pub get_client : String → Manager → Option ℕ
get_client user_id m = lookup user_id m.users

abbrev pub get_clients_len : Manager → ℕ
get_clients_len m = length (get_all_clients m)

-- now - last >= timeout, on signed numbers.
unfoldable pub idle_exceeded : ℕ → ℕ → ℕ → Bool
idle_exceeded last now timeout = leb (last + timeout) now

unfoldable pub is_idle : ℕ → ℕ → Manager → ℕ → Bool
unfolding idle_exceeded
is_idle now timeout m h = idle_exceeded (m.heap h).last_active now timeout

-- Client.Close of a connection of the heap.
unfoldable pub close_client : ℕ → Manager → Manager
unfolding set_client close
close_client h m = set_client h (close (m.heap h)) m

-- The loop of cleanIdleClients, with the connections it has left.
unfoldable pub clean : ℕ → ℕ → List ℕ → Manager → List ℕ × Manager
clean now timeout [] m = ([], m)
clean now timeout (h ∷ hs) m =
    let kept = clean now timeout hs m in
    let kicked = clean now timeout hs (event_unregister h (close_client h m)) in
    if is_idle now timeout m h then (h ∷ kicked.0, kicked.1) else kept

unfoldable pub clean_idle_clients : ℕ → ℕ → Manager → List ℕ × Manager
clean_idle_clients now timeout m = clean now timeout (get_all_clients m) m

-- A frame for each connection: a full channel is closed, and a send on a closed one panics.
unfoldable pub offer : String → List ℕ → Manager → Option Manager
offer message [] m = some m
offer message (h ∷ hs) m =
    let c = m.heap h in
    let queued = offer message hs (set_client h (record c { send = c.send ++ message ∷ [] }) m) in
    let kicked = offer message hs (close_client h m) in
    if c.closed then none else if ltb (length c.send) send_capacity then queued else kicked

-- NewClient, and the connection's handle in the channel Register.
unfoldable pub connect : String → ℕ → Manager → Manager
unfolding set_client new_client
connect user_id now m = record (set_client m.connections (new_client user_id now) m) {
  register = m.register ++ m.connections ∷ [];
  connections = suc m.connections;
}

-- What the goroutines do: the pumps of a connection, one case of the loop of Start each time, and the
-- sends to a connection, of SendResponse, which waits for room, of the relay's frames and of ACKs,
-- which are only sent where there is room. A send on a closed channel is no step: it panics.
pub data Step (m : Manager) : Manager → Type 0 where
  connects : (user_id : String) (now : ℕ) → Step m (connect user_id now m)
  frame_read : (h now : ℕ) → Step m (set_client h (touch_at now (m.heap h)) m)
  frame_written :
      (h : ℕ) (message : String) (rest : List String)
      → (m.heap h).send ≡ message ∷ rest
      → Step m (set_client h (record (m.heap h) { send = rest }) m)
  frame_sent :
      (h : ℕ) (message : String)
      → (m.heap h).closed ≡ false
      → ltb (length (m.heap h).send) send_capacity ≡ true
      → Step m (set_client h (record (m.heap h) { send = (m.heap h).send ++ message ∷ [] }) m)
  reader_left :
      (h : ℕ) → h < m.connections → Step m (record m { unregister = m.unregister ++ h ∷ [] })
  registers :
      (h ts : ℕ) (rest : List ℕ)
      → m.register ≡ h ∷ rest
      → Step m (event_register h ts (record m { register = rest }))
  unregisters :
      (h : ℕ) (rest : List ℕ)
      → m.unregister ≡ h ∷ rest
      → Step m (event_unregister h (record m { unregister = rest }))
  broadcasts :
      (message : String) (rest : List String) (after : Manager)
      → m.broadcast ≡ message ∷ rest
      → offer message (get_all_clients m) (record m { broadcast = rest }) ≡ some after
      → Step m after
  ticks : (now : ℕ) → Step m (clean_idle_clients now heartbeat_expiration m).1

pub data Steps (m : Manager) : Manager → Type 0 where
  start : Steps m m
  later : {n p : Manager} → Steps m n → Step n p → Steps m p
