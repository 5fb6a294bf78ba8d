-- ===== src/Database/Conversations.antt =====
-- database/conversation.go, and IsMember of database/message.go.
use alfred_brave_com.Base.{
  ℕ, ◌+◌, String, Bool, false, ◌&&◌, ◌||◌, Option, none, some, List, [], ◌∷◌, ◌++◌, find, exists,
  ◌==◌, if◌then◌else◌, prefixed,
}
use alfred_brave_com.Base.Errors.{not_found, unique_violation, duplicate}
use alfred_brave_com.Base.Order.{gtb}
use alfred_brave_com.Base.Exec.{ok, err, Exec, pure, raise, with_error, ◌>>=◌, ◌>>◌}
use alfred_brave_com.Database.{
  ConvType, Conversation, Member, Session, Sql, statement, select, select_one, commit_with, Ending,
  transaction,
}

unfoldable pub single_key : String → String → String
single_key a b = if gtb a b then prefixed ":" b a else prefixed ":" a b

-- google/uuid: the n-th random UUID.
unfoldable pub draw : (ℕ → String) → Exec Session String
draw new_uuid s = (ok (new_uuid s.drawn), record s { drawn = s.drawn + 1 })

unfoldable pub has_conv : String → Conversation → Bool
has_conv conv_id c = c.conv_id == conv_id

same_key : String → Option String → Bool
same_key sk none = false
same_key sk (some key) = key == sk

unfoldable pub has_single_key : String → Conversation → Bool
unfolding same_key
has_single_key sk c = same_key sk c.single_key

clashes : Conversation → Conversation → Bool
unfolding same_key
clashes new c =
    c.conv_id == new.conv_id
    || elim new.single_key [ none ↦ false | some sk ↦ same_key sk c.single_key ]

-- The primary key of `conversations`, and UNIQUE (single_key).
unfoldable pub insert_conversation : Conversation → Sql (Unit {0})
unfolding exists clashes
insert_conversation c db =
    if exists (clashes c) db.conversations
    then err unique_violation
    else ok (tt, record db { conversations = db.conversations ++ c ∷ [] })

unfoldable pub is_row : String → String → Member → Bool
is_row conv_id uid m = m.conv_id == conv_id && m.uid == uid

member_row : String → String → List Member → List Member
member_row conv_id uid rows = rows ++ record { conv_id = conv_id; uid = uid } ∷ []

unfoldable pub insert_member : String → String → Sql (Unit {0})
unfolding exists member_row is_row
insert_member conv_id uid db =
    if exists (is_row conv_id uid) db.conversation_members
    then err unique_violation
    else ok
        (tt, record db { conversation_members = member_row conv_id uid db.conversation_members })

-- ON CONFLICT DO NOTHING.
unfoldable pub insert_member_once : String → String → Sql (Unit {0})
unfolding exists member_row is_row
insert_member_once conv_id uid db =
    if exists (is_row conv_id uid) db.conversation_members
    then ok (tt, db)
    else ok
        (tt, record db { conversation_members = member_row conv_id uid db.conversation_members })

unfoldable pub get_conversation : String → Exec Session Conversation
unfolding find has_conv
get_conversation conv_id = statement (select_one (λ db. find (has_conv conv_id) db.conversations))

unfoldable pub get_by_single_key : String → String → Exec Session Conversation
unfolding find has_single_key
get_by_single_key a b =
    statement (select_one (λ db. find (has_single_key (single_key a b)) db.conversations))

unfoldable pub is_member : String → String → Exec Session Bool
unfolding exists is_row
is_member conv_id uid =
    statement (select (λ db. exists (is_row conv_id uid) db.conversation_members))

abbrev pub single_conversation : String → String → String → Conversation
single_conversation conv_id a b = record {
  conv_id = conv_id;
  type = ConvType.single;
  single_key = some (single_key a b);
  members = a ∷ b ∷ [];
  last_seq = 0;
}

module _ (new_uuid : ℕ → String) where
  unfoldable pub create_single : String → String → Exec Session Conversation
  create_single a b = do
    conv_id ← draw new_uuid
    with_error (λ e. elim e [ unique_violation ↦ duplicate | other ↦ other ])
        (statement (insert_conversation (single_conversation conv_id a b)))
    get_conversation conv_id

  unfoldable pub new_single : String → String → Exec Session String
  new_single a b = do
    conv_id ← draw new_uuid
    statement (insert_conversation (single_conversation conv_id a b))
    statement (insert_member conv_id a)
    statement (insert_member conv_id b)
    pure conv_id

  unfoldable pub resolve : String → String → Option Conversation → Exec Session (Ending String)
  resolve a b (some c) = pure (commit_with c.conv_id)
  resolve a b none = do conv_id ← new_single a b; pure (commit_with conv_id)

  unfoldable pub ensure_single_tx : String → String → Exec Session (Ending String)
  ensure_single_tx a b = do
    row ← statement (select (λ db. find (has_single_key (single_key a b)) db.conversations))
    resolve a b row

  unfoldable pub ensure_single : String → String → Exec Session Conversation
  ensure_single a b =
      if a == b
      then raise not_found
      else do conv_id ← transaction (ensure_single_tx a b); get_conversation conv_id

add_each : String → List String → Exec Session (Unit {0})
add_each conv_id [] = pure tt
add_each conv_id (uid ∷ uids) = do statement (insert_member_once conv_id uid); add_each conv_id uids

unfoldable pub add_members : String → List String → Exec Session (Unit {0})
unfolding add_each
add_members conv_id uids = transaction (do add_each conv_id uids; pure (commit_with tt))
