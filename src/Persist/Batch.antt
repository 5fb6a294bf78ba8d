-- ===== src/Persist/Batch.antt =====
-- worker/persist/persist.go: the batch path of single messages, and the consumer's round. The maps
-- of the source are association lists in the order of the first use.
pub mod Counters
pub mod Numbers
pub mod Fresh
pub mod Round
pub mod Run
mod Tests
use alfred_brave_com.Base.{
  ℕ, ◌+◌, ◌-◌, String, Bool, true, false, not, ◌&&◌, Option, none, some, List, [], ◌∷◌, ◌++◌, map,
  find, exists, contains, keep, length, nat_eq, ◌==◌, if◌then◌else◌,
}
use alfred_brave_com.Base.Errors.{driver, poison, unique_violation}
use alfred_brave_com.Base.Table.{lookup, insert}
use alfred_brave_com.Base.Exec.{Result, ok, err, Exec, pure, raise, ◌>>=◌, ◌>>◌}
use alfred_brave_com.Chat.{MsgType, Msg}
use alfred_brave_com.Database.{
  Message, Conversation, Db, Fate, answered, refused, lost, Session, Sql, statement, select, Ending,
  commit_with, transaction,
}
use alfred_brave_com.Database.Kv.{bump_seq}
use alfred_brave_com.Database.Conversations.{single_key}
use alfred_brave_com.Database.Messages.{has_msg_id, in_conv, raise_last_seq}
use alfred_brave_com.Persist.{
  Worker, lift, handle, produce_push, flush_pushes, derive_msg_id, stored_row, marshal, with_type,
  next_write,
}

-- A message of the batch, and whether its conversation is known.
abbrev pub Entry : Type 0
Entry = Bool × Msg

pub distinct : List String → List String → List String
unfolding contains
distinct seen [] = []
distinct seen (x ∷ xs) =
    let same = distinct seen xs in
    let more = distinct (x ∷ seen) xs in if contains x seen then same else x ∷ more

pub keys_needed : List Msg → List String
keys_needed [] = []
keys_needed (m ∷ ms) =
    let rest = keys_needed ms in
    if m.conv_id == "" then single_key m.from_uid m.to_uid ∷ rest else rest

-- SELECT single_key, conv_id FROM conversations WHERE single_key = ANY(keys)
by_key : List String → List Conversation → List (String × String)
unfolding contains
by_key keys [] = []
by_key keys (c ∷ cs) =
    let rest = by_key keys cs in
    elim c.single_key [
      | none ↦ rest
      | some sk ↦ if contains sk keys then insert sk c.conv_id rest else rest
    ]

pub known_conversations : List String → Exec Session (List (String × String))
unfolding by_key
known_conversations [] = pure []
known_conversations (k ∷ ks) = statement (select (λ db. by_key (k ∷ ks) db.conversations))

pub resolve : List (String × String) → Msg → Entry
resolve known m =
    if m.conv_id == ""
    then elim (lookup (single_key m.from_uid m.to_uid) known) [
      | none ↦ (false, m)
      | some conv_id ↦ (true, record m { conv_id = conv_id })
    ]
    else (true, m)

pub resolved_of : List Entry → List Msg
resolved_of [] = []
resolved_of ((b, m) ∷ es) = let rest = resolved_of es in if b then m ∷ rest else rest

pub unique : List String → List Msg → List Msg
unfolding contains
unique seen [] = []
unique seen (m ∷ ms) =
    let same = unique seen ms in
    let more = unique (m.msg_id ∷ seen) ms in if contains m.msg_id seen then same else m ∷ more

-- The messages that are stored already, with their rows, and the others.
pub replays_of : List Message → List Msg → List (Msg × Message)
unfolding find has_msg_id
replays_of rows [] = []
replays_of rows (m ∷ ms) =
    let rest = replays_of rows ms in
    elim (find (has_msg_id m.msg_id) rows) [ none ↦ rest | some row ↦ (m, row) ∷ rest ]

pub fresh_of : List Message → List Msg → List Msg
unfolding find has_msg_id
fresh_of rows [] = []
fresh_of rows (m ∷ ms) =
    let rest = fresh_of rows ms in
    elim (find (has_msg_id m.msg_id) rows) [ none ↦ m ∷ rest | some row ↦ rest ]

pub uids_of : List Msg → List String
uids_of [] = []
uids_of (m ∷ ms) = m.from_uid ∷ m.to_uid ∷ uids_of ms

pub count_in : String → List (String × ℕ) → ℕ
count_in key counts = elim (lookup key counts) [ none ↦ 0 | some n ↦ n ]

-- convCount
pub counts_of : List (String × ℕ) → List Msg → List (String × ℕ)
unfolding count_in
counts_of counts [] = counts
counts_of counts (m ∷ ms) = counts_of (insert m.conv_id (count_in m.conv_id counts + 1) counts) ms

-- The UPSERT of all counters at once: each conversation with its counter after it.
pub bump_all : List (String × ℕ) → Sql (List (String × ℕ))
bump_all [] db = ok ([], db)
bump_all ((conv_id, n) ∷ rest) db = elim (bump_seq conv_id n db) [
  | err e ↦ err e
  | ok (next, db') ↦ elim (bump_all rest db') [
    | err e ↦ err e
    | ok (nexts, db'') ↦ ok ((conv_id, next) ∷ nexts, db'')
  ]
]

pub assign : List (String × ℕ) → List (String × ℕ) → List (String × ℕ) → List Msg → List (Msg × ℕ)
unfolding count_in
assign nexts counts assigned [] = []
assign nexts counts assigned (m ∷ ms) =
    let seen = count_in m.conv_id assigned in
    let seq = count_in m.conv_id nexts + seen + 1 - count_in m.conv_id counts in
    (m, seq) ∷ assign nexts counts (insert m.conv_id (seen + 1) assigned) ms

pub takes_seq : String → ℕ → Message → Bool
unfolding in_conv
takes_seq conv_id seq m = in_conv conv_id m && nat_eq m.seq seq

pub insert_row : Message → List Message → Result (List Message)
unfolding exists has_msg_id takes_seq
insert_row m rows =
    if exists (has_msg_id m.msg_id) rows
    then ok rows
    else if exists (takes_seq m.conv_id m.seq) rows
    then err unique_violation
    else ok (rows ++ m ∷ [])

-- INSERT of all rows at once, ON CONFLICT (msg_id) DO NOTHING.
pub insert_rows : List (Msg × ℕ) → List Message → Result (List Message)
unfolding insert_row
insert_rows [] rows = ok rows
insert_rows ((m, seq) ∷ ms) rows = elim (insert_row (stored_row m seq (marshal m.content)) rows) [
  | err e ↦ err e
  | ok rows' ↦ insert_rows ms rows'
]

pub insert_all : List (Msg × ℕ) → Sql (Unit {0})
unfolding insert_rows
insert_all ms db = elim (insert_rows ms db.messages) [
  | err e ↦ err e
  | ok rows ↦ ok (tt, record db { messages = rows })
]

pub raise_all : List (String × ℕ) → Sql (Unit {0})
raise_all [] db = ok (tt, db)
raise_all ((conv_id, n) ∷ rest) db = elim (raise_last_seq conv_id n db) [
  | err e ↦ err e
  | ok (u, db') ↦ raise_all rest db'
]

pub batch_body : List Msg → List (String × ℕ) → Exec Session (Ending (List (Msg × ℕ)))
batch_body fresh counts = do
  nexts ← statement (bump_all counts)
  let rows = assign nexts counts [] fresh
  statement (insert_all rows)
  statement (raise_all nexts)
  pure (commit_with rows)

pub batch_tx : List Msg → List (String × ℕ) → Exec Session (List (Msg × ℕ))
batch_tx fresh counts = transaction (batch_body fresh counts)

pub push_rows : List (Msg × ℕ) → Exec Worker (Unit {0})
push_rows [] = pure tt
push_rows ((m, seq) ∷ rest) = do produce_push m seq m.to_uid false; push_rows rest

pub push_replays : List (Msg × Message) → Exec Worker (Unit {0})
push_replays [] = pure tt
push_replays ((m, row) ∷ rest) = do
  produce_push (record m { content = row.content }) row.seq m.to_uid false
  push_replays rest

-- How the batch path ends: with all done, or with ErrBatchFallback and the messages as it leaves
-- them, since the source changes them in place.
pub data BatchEnd : Type 0 where
  done : BatchEnd
  fallback : List Msg → BatchEnd

count_users : List String → Db → ℕ
unfolding keep contains
count_users uids db = length (keep (λ u. contains u.uid uids) db.users)

count_conversations : List String → Db → ℕ
unfolding keep contains
count_conversations ids db = length (keep (λ c. contains c.conv_id ids) db.conversations)

firsts : List (String × ℕ) → List String
firsts counts = map (λ c. c.0) counts

-- The new messages of the batch, behind the two counts.
pub store_fresh : List Entry → List Msg → List (Msg × Message) → Exec Worker BatchEnd
store_fresh entries fresh replays = do
  let uids = distinct [] (uids_of fresh)
  users ← lift (statement (select (count_users uids)))
  if not (nat_eq users (length uids)) then pure (fallback (map (λ e. e.1) entries)) else do
    let counts = counts_of [] fresh
    convs ← lift (statement (select (count_conversations (firsts counts))))
    if not (nat_eq convs (length counts))
        then pure (fallback (map (λ e. e.1) entries))
        else do rows ← lift (batch_tx fresh counts); push_rows rows; push_replays replays; pure done

pub split_replays : List Entry → List Msg → List Message → Exec Worker BatchEnd
split_replays entries ms rows = elim (fresh_of rows ms) [
  | [] ↦ do push_replays (replays_of rows ms); pure done
  | (f ∷ fs) ↦ store_fresh entries (f ∷ fs) (replays_of rows ms)
]

pub store_resolved : List Entry → List Msg → Exec Worker BatchEnd
store_resolved entries [] = pure done
store_resolved entries (m ∷ ms) = do
  let ids = unique [] (m ∷ ms)
  rows ← lift (
      statement
        (select (λ db. keep (λ r. contains r.msg_id (map (λ x. x.msg_id) ids)) db.messages)))
  split_replays entries ids rows

-- An error that is no ErrPoison stops the loop; at one, the message is passed over.
pub skip_poison : {A : Type 0} → A → Result A → Exec Worker A
skip_poison a (ok b) = pure b
skip_poison a (err poison) = pure a
skip_poison a (err e) = raise e

pub attempt : {A : Type 0} → A → Exec Worker A → Exec Worker A
unfolding skip_poison
attempt a m w = let (r, w') = m w in skip_poison a r w'

-- A decoded frame by its type, as the loops of the round take it.
is_single : MsgType → Bool
is_single MsgType.single = true
is_single _ = false

frames_of : Bool → List (Option Msg) → List Msg
unfolding is_single with_type
frames_of singles [] = []
frames_of singles (none ∷ fs) = frames_of singles fs
frames_of singles (some m ∷ fs) =
    let rest = frames_of singles fs in
    if is_single (with_type m).type
    then (if singles then with_type m ∷ rest else rest)
    else (if singles then rest else with_type m ∷ rest)

set_collecting : Bool → Exec Worker (Unit {0})
set_collecting b w = (ok tt, record w { collecting = b })

commit_fate : Fate → ℕ → Worker → Result (Unit {0}) × Worker
commit_fate answered n w = (ok tt, record w { committed = w.committed + n })
commit_fate refused n w = (err driver, w)
commit_fate lost n w = (err driver, record w { committed = w.committed + n })

-- reader.CommitMessages on the whole batch.
pub commit_messages : ℕ → Exec Worker (Unit {0})
unfolding commit_fate next_write
commit_messages n w =
    let (fate, rest) = next_write w.commits in commit_fate fate n (record w { commits = rest })

-- The pushes are flushed whatever the handlers gave; an error of the flush comes first.
pub flush_after : Result (Unit {0}) → Exec Worker (Unit {0})
flush_after r w =
    let (f, w') = flush_pushes w in
    (elim f [ ok u ↦ r | err e ↦ err e ], record w' { collecting = false })

module _ (new_uuid : ℕ → String) (uuid5 : String → String) where
  -- The messages whose conversation is not known, one by one.
  pub handle_unresolved : List Entry → Exec Worker (List Entry)
  unfolding attempt
  handle_unresolved [] = pure []
  handle_unresolved ((b, m) ∷ es) = do
    m' ← (if b then pure m else attempt m (handle new_uuid uuid5 m))
    rest ← handle_unresolved es
    pure ((b, m') ∷ rest)

  pub named : Entry → Exec Worker Msg
  unfolding lift derive_msg_id
  named (b, m) =
      if b && m.msg_id == ""
      then (do
        msg_id ← lift (derive_msg_id new_uuid uuid5 m.conv_id m.from_uid m.cli_msg_id)
        pure (record m { msg_id = msg_id }))
      else pure m

  -- The deterministic ids of the messages with a conversation.
  pub name_all : List Entry → Exec Worker (List Entry)
  name_all [] = pure []
  name_all ((b, m) ∷ es) = do m' ← named (b, m); rest ← name_all es; pure ((b, m') ∷ rest)

  pub handle_single_batch : List Msg → Exec Worker BatchEnd
  handle_single_batch msgs = do
    known ← lift (known_conversations (distinct [] (keys_needed msgs)))
    entries ← handle_unresolved (map (resolve known) msgs)
    named_entries ← name_all entries
    store_resolved named_entries (resolved_of named_entries)

  pub handle_each : List Msg → Exec Worker (Unit {0})
  unfolding attempt
  handle_each [] = pure tt
  handle_each (m ∷ ms) = do attempt m (handle new_uuid uuid5 m); handle_each ms

  pub handle_singles : List Msg → Exec Worker (Unit {0})
  handle_singles [] = pure tt
  handle_singles (m ∷ ms) = do
    end ← handle_single_batch (m ∷ ms)
    elim end [ done ↦ pure tt | fallback msgs ↦ handle_each msgs ]

  pub handle_all : List (Option Msg) → Exec Worker (Unit {0})
  handle_all frames = do
    handle_singles (frames_of true frames)
    handle_each (frames_of false frames)

  -- One round of the loop of Run, from the fetched batch to its commit; `none` is a bad frame.
  pub run_round : List (Option Msg) → Exec Worker (Unit {0})
  run_round frames w =
      let (r, w') = handle_all frames (record w { collecting = true }) in
      (do flush_after r; commit_messages (length frames)) w'
