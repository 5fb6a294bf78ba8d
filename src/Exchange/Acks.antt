-- ===== src/Exchange/Acks.antt =====
-- joker/exchange/ack.go, and GetMany of online.go: the consumer of chat.ack. What a call of the relay
-- comes to is an input: each takes the next entry of `replies`, a missing one is a failure. The order
-- in which a Go map of groups is walked is a parameter, as are json.Marshal, what encoding/json reads
-- from a value that is no record of this program, and whether a commit succeeds. `none` is a panic.
pub mod Own
mod Tests
use alfred_brave_com.Base.{
  ℕ, ◌+◌, String, Bool, true, false, not, ◌&&◌, Option, none, some, List, [], ◌∷◌, ◌++◌, map, ltb,
  length, contains, ◌==◌, if◌then◌else◌,
}
use alfred_brave_com.Base.Errors.{Error, driver}
use alfred_brave_com.Base.Table.{lookup, insert}
use alfred_brave_com.Base.Exec.{Result, ok, err, Exec, pure, ◌>>=◌}
use alfred_brave_com.Chat.{Ack}
use alfred_brave_com.Database.{Session, Value, online, counter, other, KvRow}
use alfred_brave_com.Database.Kv.{get_many_batch, online_key}
use alfred_brave_com.Exchange.{Client, Manager, get_client, set_client, send_capacity}

pub record OnlineValue : Type 0 where
  pub cs : String
  pub addr : String
  pub ts : ℕ

-- One result of the batch: `none` is nil.
pub record AckResult : Type 0 where
  pub delivered : Bool
  pub not_found : Bool

pub data AckReply : Type 0 where
  relay_failed no_response : AckReply
  results : List (Option AckResult) → AckReply

abbrev pub Groups : Type 0
Groups = List (String × List Ack)

-- `forwarded` are the calls of the relay so far.
pub record Dispatcher : Type 0 where
  pub manager : Manager
  pub replies : List AckReply
  pub forwarded : Groups

pub record World : Type 0 where
  pub marshal : Ack → Option String
  pub decode_other : String → Option OnlineValue
  pub order : Groups → Groups
  pub has_relayer : Bool
  pub commits : Bool

-- A call of the dispatcher; `none` is a panic.
abbrev pub Dispatch : Type 0 → Type 0
Dispatch A = Dispatcher → Option (Result A × Dispatcher)

module _ {A B : Type 0} where
  pub after : Option (Result A × Dispatcher) → (A → Dispatch B) → Option (Result B × Dispatcher)
  after none k = none
  after (some (ok a, d)) k = k a d
  after (some (err e, d)) k = some (err e, d)

  pub and_then : Dispatch A → (A → Dispatch B) → Dispatch B
  unfolding after
  and_then m k d = after (m d) k

module _ {A : Type 0} where
  pub return : A → Dispatch A
  return a d = some (ok a, d)

  pub on_session : Exec Session A → Dispatch A
  on_session m d =
      let (r, s) = m d.manager.session in
      some (r, record d { manager = record d.manager { session = s } })

-- The first occurrence of each.
unfoldable pub unique_strings : List String → List String → List String
unfolding contains
unique_strings seen [] = []
unique_strings seen (s ∷ rest) =
    let known = contains s seen in
    let more = unique_strings (if known then seen else s ∷ seen) rest in
    if known then more else s ∷ more

unfoldable pub unique_from_uids : List Ack → List String
unfolding unique_strings
unique_from_uids acks = unique_strings [] (map (λ a. a.from_uid) acks)

-- The ACKs whose sender the called server did not have.
unfoldable pub missed : List Ack → List (Option AckResult) → List Ack
missed [] rs = []
missed (a ∷ acks) [] = []
missed (a ∷ acks) (none ∷ rs) = missed acks rs
missed (a ∷ acks) (some r ∷ rs) =
    let rest = missed acks rs in if not r.delivered && r.not_found then a ∷ rest else rest

waiting : Option (List Ack) → List Ack
waiting none = []
waiting (some acks) = acks

pub add_to : String → Ack → Groups → Groups
unfolding waiting insert lookup
add_to addr a groups = insert addr (waiting (lookup addr groups) ++ a ∷ []) groups

-- What the next call of the relay comes to.
next_reply : List AckReply → AckReply × List AckReply
next_reply [] = (relay_failed, [])
next_reply (reply ∷ rest) = (reply, rest)

pub relay_acks : String → List Ack → Dispatcher → AckReply × Dispatcher
unfolding next_reply
relay_acks addr acks d =
    let (reply, rest) = next_reply d.replies in
    (reply, record d { replies = rest; forwarded = d.forwarded ++ (addr, acks) ∷ [] })

module _ (w : World) where
  decoded : Value → Option OnlineValue
  decoded (online cs addr ts) = some (record { cs = cs; addr = addr; ts = ts })
  decoded (counter n) = some (record { cs = ""; addr = ""; ts = 0 })
  decoded (other cs j) = w.decode_other j

  decode_rows : List (String × KvRow) → Exec Session (List (String × OnlineValue))
  unfolding decoded
  decode_rows [] s = pure [] s
  decode_rows ((key, row) ∷ rows) s = elim (decoded row.v) [
    | none ↦ (err driver, s)
    | some v ↦ (decode_rows rows >>= λ rest. pure ((key, v) ∷ rest)) s
  ]

  -- The map is kept by its keys in the table.
  unfoldable pub get_many : List String → Exec Session (List (String × OnlineValue))
  unfolding decode_rows
  get_many uids = get_many_batch (map online_key uids) >>= λ rows. decode_rows rows

  with_raw : ℕ → Option String → Dispatch (Unit {0})
  unfolding return
  with_raw h none d = return tt d
  with_raw h (some raw) d =
      let c = d.manager.heap h in
      if c.closed
      then none
      else if ltb (length c.send) send_capacity
      then some (
        ok tt,
        record d { manager = set_client h (record c { send = c.send ++ raw ∷ [] }) d.manager },
      )
      else some (ok tt, d)

  with_client : Option ℕ → Ack → Dispatch (Unit {0})
  unfolding with_raw
  with_client none a = return tt
  with_client (some h) a = with_raw h (w.marshal a)

  unfoldable pub enqueue_local : Ack → Dispatch (Unit {0})
  unfolding with_client
  enqueue_local a d = with_client (get_client a.from_uid d.manager) a d

  unfoldable pub enqueue_all : List Ack → Dispatch (Unit {0})
  unfolding enqueue_local and_then
  enqueue_all [] = return tt
  enqueue_all (a ∷ acks) = and_then (enqueue_local a) λ u. enqueue_all acks

  addr_of : Option OnlineValue → String
  addr_of none = ""
  addr_of (some v) = v.addr

  -- The loop that sends an ACK into a channel of this server, or puts it to those of its server.
  route_at : String → Ack → Groups → Dispatch Groups
  unfolding enqueue_local and_then add_to
  route_at addr a groups d =
      if addr == ""
      then return groups d
      else if addr == d.manager.online_addr
      then and_then (enqueue_local a) (λ u. return groups) d
      else return (add_to addr a groups) d

  unfoldable pub route_acks : List (String × OnlineValue) → List Ack → Groups → Dispatch Groups
  unfolding route_at addr_of and_then
  route_acks owners [] groups = return groups
  route_acks owners (a ∷ acks) groups =
      and_then (route_at (addr_of (lookup (online_key a.from_uid) owners)) a groups)
        λ groups'. route_acks owners acks groups'

  -- The second calls, whose errors are logged.
  retry_groups : Groups → Dispatch (Unit {0})
  unfolding relay_acks
  retry_groups [] d = return tt d
  retry_groups ((addr, acks) ∷ groups) d = retry_groups groups (relay_acks addr acks d).1

  retry_missed : List Ack → Dispatch (Unit {0})
  unfolding get_many on_session and_then route_acks retry_groups unique_from_uids
  retry_missed [] = return tt
  retry_missed (a ∷ acks) =
      and_then (on_session (get_many (unique_from_uids (a ∷ acks))))
        λ owners. and_then (route_acks owners (a ∷ acks) []) λ groups. retry_groups (w.order groups)

  after_relay : List Ack → AckReply → Dispatch (Unit {0})
  unfolding retry_missed missed
  after_relay acks relay_failed d = some (err driver, d)
  after_relay acks no_response d = return tt d
  after_relay acks (results rs) d = retry_missed (missed acks rs) d

  unfoldable pub forward : String → List Ack → Dispatch (Unit {0})
  unfolding after_relay relay_acks
  forward addr acks d =
      if w.has_relayer
      then (let (reply, d') = relay_acks addr acks d in after_relay acks reply d')
      else return tt d

  unfoldable pub forward_groups : Groups → Dispatch (Unit {0})
  unfolding forward and_then
  forward_groups [] = return tt
  forward_groups ((addr, acks) ∷ groups) = and_then (forward addr acks) λ u. forward_groups groups

  unfoldable pub dispatch : List Ack → Dispatch (Unit {0})
  unfolding enqueue_all get_many on_session and_then route_acks forward_groups unique_from_uids
  dispatch [] d = return tt d
  dispatch (a ∷ acks) d =
      if d.manager.has_online
      then (and_then (on_session (get_many (unique_from_uids (a ∷ acks)))) λ owners.
            and_then (route_acks owners (a ∷ acks) []) λ groups. forward_groups (w.order groups))
          d
      else enqueue_all (a ∷ acks) d

  -- The payloads that json.Unmarshal reads.
  parsed : List (Option Ack) → List Ack
  parsed [] = []
  parsed (none ∷ frames) = parsed frames
  parsed (some a ∷ frames) = a ∷ parsed frames

  commit_messages : Dispatch (Unit {0})
  commit_messages d = if w.commits then return tt d else some (err driver, d)

  -- One round of ConsumeAcksWith, from the batch that has been fetched to its commit.
  unfoldable pub consume_round : List (Option Ack) → Dispatch (Unit {0})
  unfolding dispatch and_then parsed commit_messages
  consume_round frames = and_then (dispatch (parsed frames)) λ u. commit_messages
