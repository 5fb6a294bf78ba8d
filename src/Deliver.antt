-- ===== src/Deliver.antt =====
-- worker/deliver/deliver.go: the consumer of chat.push. What the world answers is an input: each
-- dial, each call of a relay, and each write of the batch hooks and each commit takes the next entry
-- of its list; a missing one is a success, but of a call a failure. A Go map is an association list.
-- The goroutines of a round, one for each address, run one after the other, in an order that is a
-- parameter. `given_up` holds the messages that an error or a warning of the log names as not
-- delivered, and `unrouted` those whose route could not be asked for when the groups were made: the
-- log has their receiver, and they go on nowhere. The context is not cancelled.
pub mod Routes
pub mod Calls
pub mod Accounts
mod Tests
use alfred_brave_com.Base.{
  ℕ, zero, suc, ◌+◌, ◌-◌, String, Bool, true, false, not, ◌&&◌, Option, none, some, List, [], ◌∷◌,
  ◌++◌, nat_eq, length, if◌then◌else◌, ◌==◌,
}
use alfred_brave_com.Base.Errors.{Error, driver}
use alfred_brave_com.Base.Table.{lookup, insert}
use alfred_brave_com.Base.Exec.{Result, ok, err, Exec, pure, raise, ◌>>=◌, ◌>>◌}
use alfred_brave_com.Chat.{Push}
use alfred_brave_com.Database.{Fate, answered, refused, lost, next_fate}
use alfred_brave_com.Relay.{RelayMessageRequest, RelayMessageResponse, Reason, not_found}
use alfred_brave_com.Deliver.Routes.{OnlineAddr, Router, World, get_route, invalidate}
use alfred_brave_com.Deliver.Calls.{Relayer, relay, batch_relay}

abbrev pub relay_attempts : ℕ
relay_attempts = 3

-- `acked` and `notified` are the messages that the hooks of the delivered and of the offline have
-- had, one by one or in batches that were written.
pub record Worker : Type 0 where
  pub router : Router
  pub relayer : Relayer
  pub can_batch : Bool
  pub collecting : Bool
  pub pending : List Push
  pub pending_offline : List Push
  pub batch_delivered : Bool
  pub batch_offline : Bool
  pub writes : List Bool
  pub commits : List Fate
  pub acked : List Push
  pub notified : List Push
  pub given_up : List Push
  pub unrouted : List Push
  pub committed : ℕ

-- `compact` is what json.Marshal makes of a JSON text.
unfoldable pub relay_request : (String → String) → Push → RelayMessageRequest
relay_request compact p = record {
  msg_id = p.msg_id;
  cli_msg_id = p.cli_msg_id;
  conv_id = p.conv_id;
  from_uid = p.from_uid;
  to_uid = p.to_uid;
  type = p.type;
  content = compact p.content;
  seq = p.seq;
  mention = p.mention;
}

unfoldable pub on_relayer : {A : Type 0} → Exec Relayer A → Exec Worker A
on_relayer m wk = let (r, g) = m wk.relayer in (r, record wk { relayer = g })

unfoldable pub forget_route : String → Exec Worker (Unit {0})
forget_route uid wk = (ok tt, record wk { router = invalidate uid wk.router })

unfoldable pub queue : Push → Exec Worker (Unit {0})
queue p wk = (ok tt, record wk { pending = wk.pending ++ p ∷ [] })

-- A delivered message: queued in a round, handed to the hook outside one.
unfoldable pub delivered : Push → Exec Worker (Unit {0})
delivered p wk = (
  ok tt,
  if wk.collecting
      then record wk { pending = wk.pending ++ p ∷ [] }
      else record wk { acked = wk.acked ++ p ∷ [] },
)

unfoldable pub offline : Push → Exec Worker (Unit {0})
offline p wk = (ok tt, record wk { notified = wk.notified ++ p ∷ [] })

unfoldable pub offline_or_queue : Push → Exec Worker (Unit {0})
unfolding offline
offline_or_queue p wk =
    if wk.collecting
    then (ok tt, record wk { pending_offline = wk.pending_offline ++ p ∷ [] })
    else offline p wk

unfoldable pub give_up : Push → Exec Worker (Unit {0})
give_up p wk = (ok tt, record wk { given_up = wk.given_up ++ p ∷ [] })

-- The `continue` behind an error of the route, when the groups are made.
unfoldable pub pass_over : Push → Exec Worker (Unit {0})
pass_over p wk = (ok tt, record wk { unrouted = wk.unrouted ++ p ∷ [] })

-- What is done about an error.
abbrev pub handled : {A : Type 0} → (Error → Exec Worker A) → Result A → Exec Worker A
handled handle (ok a) wk = (ok a, wk)
handled handle (err e) wk = handle e wk

unfoldable pub or_else : {A : Type 0} → Exec Worker A → (Error → Exec Worker A) → Exec Worker A
or_else m handle wk = let (r, wk') = m wk in handled handle r wk'

abbrev pub is_not_found : Reason → Bool
is_not_found not_found = true
is_not_found _ = false

abbrev pub Groups : Type 0
Groups = List (String × List Push)

waiting : Option (List Push) → List Push
waiting none = []
waiting (some ps) = ps

unfoldable pub add_to_group : String → Push → Groups → Groups
unfolding waiting
add_to_group addr p groups = insert addr (waiting (lookup addr groups) ++ p ∷ []) groups

module _ (w : World) where
  unfoldable pub route : String → Exec Worker OnlineAddr
  route uid wk = let (r, router) = get_route w uid wk.router in (r, record wk { router = router })

  -- The end of Deliver, at a response.
  unfoldable pub settle : Push → RelayMessageResponse → Exec Worker (Unit {0})
  settle p resp = if resp.delivered then delivered p else give_up p

  -- The second try of Deliver.
  unfoldable pub redeliver : Push → Exec Worker (Unit {0})
  redeliver p = do
    forget_route p.to_uid
    a ← route p.to_uid
    if a.addr == "" then offline_or_queue p else on_relayer (relay a.addr) >>= λ resp. settle p resp

  unfoldable pub deliver : Push → Exec Worker (Unit {0})
  deliver p = do
    a ← route p.to_uid
    if a.addr == ""
        then offline_or_queue p
        else on_relayer (relay a.addr) >>= λ resp.
            if not resp.delivered && is_not_found resp.reason then redeliver p else settle p resp

  -- The attempts that are left, each behind an Invalidate, with the error of the last one.
  unfoldable pub retry : ℕ → Error → Push → Exec Worker (Unit {0})
  retry zero e p = raise e
  retry (suc left) e p = or_else (forget_route p.to_uid >> deliver p) λ e'. retry left e' p

  unfoldable pub deliver_with_retry : Push → Exec Worker (Unit {0})
  deliver_with_retry p = or_else (deliver p) λ e. retry (relay_attempts - 1) e p

  unfoldable pub deliver_one : Push → Exec Worker (Unit {0})
  deliver_one p = or_else (deliver_with_retry p) λ e. give_up p

  unfoldable pub deliver_individually : List Push → Exec Worker (Unit {0})
  deliver_individually [] = pure tt
  deliver_individually (p ∷ ps) = deliver_one p >> deliver_individually ps

  -- One result of a batch.
  unfoldable pub take_result : Push → RelayMessageResponse → Exec Worker (Unit {0})
  take_result p result =
      if result.delivered
      then queue p
      else if is_not_found result.reason
      then forget_route p.to_uid >> deliver_individually (p ∷ [])
      else give_up p

  unfoldable pub take_results : List Push → List RelayMessageResponse → Exec Worker (Unit {0})
  take_results (p ∷ ps) (r ∷ rs) = take_result p r >> take_results ps rs
  take_results [] rs = pure tt
  take_results (p ∷ ps) [] = pure tt

  -- What follows the call of a batch.
  after_batch : List Push → Result (List RelayMessageResponse) → Exec Worker (Unit {0})
  after_batch ps (err e) = deliver_individually ps
  after_batch ps (ok results) =
      if nat_eq (length results) (length ps)
      then take_results ps results
      else deliver_individually ps

  unfoldable pub deliver_batch : String → List Push → Exec Worker (Unit {0})
  unfolding after_batch
  deliver_batch addr ps wk =
      if not wk.can_batch
      then deliver_individually ps wk
      else let (r, wk') = on_relayer (batch_relay addr) wk in after_batch ps r wk'

  -- The step of a message in the loop that makes the groups.
  grouped : Push → Groups → Result OnlineAddr → Exec Worker Groups
  grouped p groups (err e) = pass_over p >> pure groups
  grouped p groups (ok a) =
      if a.addr == ""
      then offline_or_queue p >> pure groups
      else pure (add_to_group a.addr p groups)

  unfoldable pub group_by_addr : List Push → Groups → Exec Worker Groups
  unfolding grouped
  group_by_addr [] groups wk = (ok groups, wk)
  group_by_addr (p ∷ ps) groups wk =
      let (r, wk') = route p.to_uid wk in
      (grouped p groups r >>= λ groups'. group_by_addr ps groups') wk'

  unfoldable pub deliver_groups : Groups → Exec Worker (Unit {0})
  deliver_groups [] = pure tt
  deliver_groups ((addr, ps) ∷ groups) = deliver_batch addr ps >> deliver_groups groups

next_write : List Bool → Bool × List Bool
next_write [] = (true, [])
next_write (b ∷ rest) = (b, rest)

-- The write of a batch hook, if there is anything to write.
written : List Push → (Worker → Worker) → Exec Worker (Unit {0})
unfolding next_write
written [] done wk = (ok tt, wk)
written (p ∷ ps) done wk =
    let (works, rest) = next_write wk.writes in
    if works
    then (ok tt, done (record wk { writes = rest }))
    else (err driver, record wk { writes = rest })

flush_acks : List Push → Exec Worker (Unit {0})
unfolding written
flush_acks ps wk =
    let done = λ (x : Worker). record x { acked = x.acked ++ ps } in
    if wk.batch_delivered then written ps done wk else (ok tt, done wk)

flush_notifies : List Push → Exec Worker (Unit {0})
unfolding written
flush_notifies ps wk =
    let done = λ (x : Worker). record x { notified = x.notified ++ ps } in
    if wk.batch_offline then written ps done wk else (ok tt, done wk)

unfoldable pub flush_delivered : Exec Worker (Unit {0})
unfolding flush_acks flush_notifies
flush_delivered wk =
    (flush_acks wk.pending >> flush_notifies wk.pending_offline)
      (record wk { pending = []; pending_offline = [] })

-- A commit that is lost has reached the broker, and its confirmation has not come back.
commit_fate : Fate → ℕ → Exec Worker (Unit {0})
commit_fate answered n wk = (ok tt, record wk { committed = wk.committed + n })
commit_fate refused n wk = (err driver, wk)
commit_fate lost n wk = (err driver, record wk { committed = wk.committed + n })

unfoldable pub commit_messages : ℕ → Exec Worker (Unit {0})
unfolding commit_fate next_fate
commit_messages n wk =
    let (fate, rest) = next_fate wk.commits in commit_fate fate n (record wk { commits = rest })

-- The payloads that json.Unmarshal reads.
unfoldable pub parsed : List (Option Push) → List Push
parsed [] = []
parsed (none ∷ frames) = parsed frames
parsed (some p ∷ frames) = p ∷ parsed frames

unfoldable pub set_collecting : Bool → Exec Worker (Unit {0})
set_collecting b wk = (ok tt, record wk { collecting = b })

-- One round of Run, from the batch that has been fetched to its commit.
unfoldable pub run_round : World → (Groups → Groups) → List (Option Push) → Exec Worker (Unit {0})
run_round w order frames = do
  set_collecting true
  groups ← group_by_addr w (parsed frames) []
  deliver_groups w (order groups)
  set_collecting false
  flush_delivered
  commit_messages (length frames)
