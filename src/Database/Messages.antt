-- ===== src/Database/Messages.antt =====
-- The statements on the table messages: database/message.go, and the ones that database/group.go
-- and worker/persist/persist.go have in common.
use alfred_brave_com.Base.{
  ℕ, String, Bool, ◌&&◌, ◌||◌, List, [], ◌∷◌, ◌++◌, exists, keep, take, update_where, ltb, leb,
  nat_eq, ◌==◌, if◌then◌else◌,
}
use alfred_brave_com.Base.Errors.{unique_violation}
use alfred_brave_com.Base.Exec.{ok, err, Exec}
use alfred_brave_com.Database.{Message, Conversation, Session, Sql, statement, select}

unfoldable pub message_clashes : Message → Message → Bool
message_clashes new m = m.msg_id == new.msg_id || (m.conv_id == new.conv_id && nat_eq m.seq new.seq)

-- The primary key of `messages`, and UNIQUE (conv_id, seq).
unfoldable pub insert_message : Message → Sql (Unit {0})
unfolding exists message_clashes
insert_message m db =
    if exists (message_clashes m) db.messages
    then err unique_violation
    else ok (tt, record db { messages = db.messages ++ m ∷ [] })

raised : ℕ → Conversation → Conversation
raised seq c = if ltb c.last_seq seq then record c { last_seq = seq } else c

-- UPDATE conversations SET last_seq = $2 WHERE conv_id = $1 AND last_seq < $2
unfoldable pub raise_last_seq : String → ℕ → Sql (Unit {0})
unfolding raised update_where
raise_last_seq conv_id seq db = ok (
  tt,
  record db {
    conversations = update_where (λ c. c.conv_id == conv_id) (raised seq) db.conversations;
  },
)

unfoldable pub has_msg_id : String → Message → Bool
has_msg_id msg_id m = m.msg_id == msg_id

unfoldable pub in_conv : String → Message → Bool
in_conv conv_id m = m.conv_id == conv_id

-- ORDER BY seq ASC
unfoldable pub insert_by_seq : Message → List Message → List Message
insert_by_seq m [] = m ∷ []
insert_by_seq m (n ∷ rest) =
    let later = insert_by_seq m rest in if leb m.seq n.seq then m ∷ n ∷ rest else n ∷ later

unfoldable pub sort_by_seq : List Message → List Message
unfolding insert_by_seq
sort_by_seq [] = []
sort_by_seq (m ∷ rest) = insert_by_seq m (sort_by_seq rest)

-- `limit <= 0 || limit > 100`; a negative limit is a 0 here.
unfoldable pub page_limit : ℕ → ℕ
page_limit limit = if nat_eq limit 0 || ltb 100 limit then 50 else limit

after : String → ℕ → Message → Bool
unfolding in_conv
after conv_id after_seq m = in_conv conv_id m && ltb after_seq m.seq

unfoldable pub page : String → ℕ → ℕ → List Message → List Message
unfolding after sort_by_seq page_limit take keep
page conv_id after_seq limit rows =
    take (page_limit limit) (sort_by_seq (keep (after conv_id after_seq) rows))

unfoldable pub list_after : String → ℕ → ℕ → Exec Session (List Message)
unfolding page
list_after conv_id after_seq limit =
    statement (select (λ db. page conv_id after_seq limit db.messages))
