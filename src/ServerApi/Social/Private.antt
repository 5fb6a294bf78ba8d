-- ===== src/ServerApi/Social/Private.antt =====
-- server/api/conversation.go: who reads a conversation's messages.
use alfred_brave_com.Base.{ℕ, ◌≡◌, refl, sym, ap, ◌∙◌, String, Bool, true, false, List, exists}
use alfred_brave_com.Abort.{answered, answered-injective, call-answered, answer, abort}
use alfred_brave_com.Database.{Db, Session, Message}
use alfred_brave_com.Database.Ends.{Ends-select}
use alfred_brave_com.Database.Conversations.{is_member, is_row}
use alfred_brave_com.Database.Messages.{list_after, page}
use alfred_brave_com.ServerApi.Social.{get_messages, messages_if, database_failed}

messages_if-answered :
    (member : Bool) (conv_id : String) (after_seq limit : ℕ) (before : Db) (s : Session)
    (msgs : List Message)
    → before ≡ s.db
    → (messages_if member conv_id after_seq limit s).0 ≡ answered msgs
    → (member ≡ true) × (msgs ≡ page conv_id after_seq limit before.messages)
unfolding messages_if answer abort list_after
messages_if-answered false conv_id after_seq limit before s msgs same = λ e. cc
messages_if-answered true conv_id after_seq limit before s msgs same =
    call-answered _ (list_after conv_id after_seq limit) database_failed _ s msgs λ found got e.
      let read =
        (Ends-select {P = λ db. before ≡ db} (λ db. page conv_id after_seq limit db.messages)).at s
          found same got in
      (
        refl,
        sym (answered-injective found msgs e)
            ∙ sym read.1
            ∙ ap (λ (d : Db). page conv_id after_seq limit d.messages) (sym read.0),
      )

-- Messages are only given to a user who is a member of the conversation, and they are the page of
-- the table that was asked for.
pub get_messages_private :
    (uid conv_id : String) (after_seq limit : ℕ) (s : Session) (msgs : List Message)
    → (get_messages uid conv_id after_seq limit s).0 ≡ answered msgs
    → (exists (is_row conv_id uid) s.db.conversation_members ≡ true)
      × (msgs ≡ page conv_id after_seq limit s.db.messages)
unfolding get_messages is_member
get_messages_private uid conv_id after_seq limit s msgs =
    call-answered _ (is_member conv_id uid) database_failed _ s msgs λ member got e.
      let read =
        (Ends-select {P = λ db. s.db ≡ db}
            (λ db. exists (is_row conv_id uid) db.conversation_members)).at
          s member refl got in
      let shown = messages_if-answered member conv_id after_seq limit s.db _ msgs read.0 e in
      (
        ap (λ (d : Db). exists (is_row conv_id uid) d.conversation_members) read.0
            ∙ read.1
            ∙ shown.0,
        shown.1,
      )
