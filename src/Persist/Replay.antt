-- ===== src/Persist/Replay.antt =====
-- worker/persist/persist.go: what persistTx returns for a new message and for one that comes again.
use mathlib.Core.Option.{some-injective}
use alfred_brave_com.Base.{
  ℕ, ◌+◌, ◌≡◌, refl, sym, ◌∙◌, ap, ◌⊎◌, inl, inr, String, true, false, Option, none, some, [], ◌∷◌,
  ◌++◌, find,
}
use alfred_brave_com.Base.Exec.{Result, ok, err, ◌>>=◌}
use alfred_brave_com.Chat.{Msg}
use alfred_brave_com.Database.{
  Message, Db, Session, statement, transaction, begun, finish, settle, next_fate, select, steady,
  commit_with, left_with,
}
use alfred_brave_com.Database.Ends.{
  Ends, Ends-statement, Ends-bind, Ends-pure, Ends-select, EitherEnd, Ends-Keeps, Committed,
  transaction_result,
}
use alfred_brave_com.Database.Kv.{next_seq, bump_seq}
use alfred_brave_com.Database.Messages.{has_msg_id, insert_message, raise_last_seq}
use alfred_brave_com.Database.Sequence.{
  count, bump_seq-value, bump_seq-messages, insert_message_lem, raise_last_seq-messages,
}
use alfred_brave_com.Persist.{
  Stored, persist_tx, persist_body, replay_or_insert, insert_new, stored_row,
}

module _ (msg : Msg) (content : String) (before : Db) where
  -- A new message: the next number, the content that was given, and one more row.
  pub record IsInserted (st : Stored) (db : Db) : Type 0 where
    pub new : find (has_msg_id msg.msg_id) before.messages ≡ none
    pub stored :
        st ≡ record { seq = count msg.conv_id before + 1; content = content; created = true }
    pub rows :
        db.messages ≡ before.messages ++ stored_row msg (count msg.conv_id before + 1) content ∷ []

  -- A message that is there already: its own number and content, and no change.
  pub record IsReplayed (st : Stored) (db : Db) : Type 0 where
    pub row : Message
    pub known : find (has_msg_id msg.msg_id) before.messages ≡ some row
    pub stored : st ≡ record { seq = row.seq; content = row.content; created = false }
    pub unchanged : db ≡ before

  abbrev pub Returned : Stored → Db → Type 0
  Returned st db = IsInserted st db ⊎ IsReplayed st db

  -- Behind the counter's step, and behind the row's.
  record HasNumber (seq : ℕ) (db : Db) : Type 0 where
    value : seq ≡ count msg.conv_id before + 1
    rows : db.messages ≡ before.messages

  record HasRow (seq : ℕ) (db : Db) : Type 0 where
    value : seq ≡ count msg.conv_id before + 1
    rows : db.messages ≡ before.messages ++ stored_row msg seq content ∷ []

  next_seq-HasNumber : Ends (λ db. before ≡ db) (next_seq msg.conv_id) HasNumber
  unfolding next_seq
  next_seq-HasNumber = Ends-statement (bump_seq msg.conv_id 1) λ db n db' same h. record {
    value = bump_seq-value msg.conv_id 1 n db db' h ∙ ap (λ d. count msg.conv_id d + 1) (sym same);
    rows = bump_seq-messages msg.conv_id 1 n db db' h ∙ ap (λ d. d.messages) (sym same);
  }

  insert-HasRow :
      (seq : ℕ)
      → Ends
          (HasNumber seq)
          (statement (insert_message (stored_row msg seq content)))
          (λ u db. HasRow seq db)
  insert-HasRow seq = Ends-statement (insert_message (stored_row msg seq content)) λ db u db' n h.
      record {
        value = n.value;
        rows =
            ap (λ d. d.messages) (insert_message_lem (stored_row msg seq content) u db db' h)
            ∙ ap (λ rows. rows ++ stored_row msg seq content ∷ []) n.rows;
      }

  raise-HasRow :
      (seq : ℕ)
      → Ends (HasRow seq) (statement (raise_last_seq msg.conv_id seq)) (λ u db. HasRow seq db)
  raise-HasRow seq = Ends-statement (raise_last_seq msg.conv_id seq) λ db u db' r h. record {
    value = r.value;
    rows = (raise_last_seq-messages msg.conv_id seq u db db' h).0 ∙ r.rows;
  }

  row-IsInserted :
      (seq : ℕ) (db : Db)
      → find (has_msg_id msg.msg_id) before.messages ≡ none
      → HasRow seq db
      → IsInserted (record { seq = seq; content = content; created = true }) db
  row-IsInserted seq db new r = record {
    new = new;
    stored = ap (λ n. record { seq = n; content = content; created = true }) r.value;
    rows = r.rows ∙ ap (λ n. before.messages ++ stored_row msg n content ∷ []) r.value;
  }

  insert_new-IsInserted :
      find (has_msg_id msg.msg_id) before.messages ≡ none
      → Ends (λ db. before ≡ db) (insert_new msg content) (EitherEnd before Returned)
  unfolding insert_new
  insert_new-IsInserted new = Ends-bind _ _ next_seq-HasNumber λ seq.
      Ends-bind _ _ (insert-HasRow seq) λ u.
        Ends-bind _ _ (raise-HasRow seq)
          λ v. Ends-pure (commit_with _) (λ db r. inl (row-IsInserted seq db new r))

  replay-Returned :
      (row : Option Message)
      → find (has_msg_id msg.msg_id) before.messages ≡ row
      → Ends (λ db. before ≡ db) (replay_or_insert msg content row) (EitherEnd before Returned)
  unfolding replay_or_insert
  replay-Returned none e = insert_new-IsInserted e
  replay-Returned (some row) e =
      Ends-pure (left_with _)
        (λ db same. inr (record { row = row; known = e; stored = refl; unchanged = refl }))

  body-Returned : Ends (λ db. before ≡ db) (persist_body msg content) (EitherEnd before Returned)
  unfolding persist_body
  body-Returned =
      Ends-bind _ _ (Ends-select (λ db. find (has_msg_id msg.msg_id) db.messages)) λ row. record {
        at = λ s x h e.
            (replay-Returned row (ap (λ d. find (has_msg_id msg.msg_id) d.messages) h.0 ∙ h.1)).at s
              x h.0 e;
      }

-- persistTx, whenever it returns: either the message is new, takes the next number of its
-- conversation and is one more row, or a row with its id was there and its number and content come
-- back with the tables as they were.
pub persist_tx_outcome :
    (msg : Msg) (content : String) (s : Session) (st : Stored)
    → (persist_tx msg content s).0 ≡ ok st
    → Returned msg content s.db st (persist_tx msg content s).1.db
unfolding persist_tx
persist_tx_outcome msg content s st h =
    transaction_result (Returned msg content s.db) (persist_body msg content) s st
      (body-Returned msg content s.db) h

-- What persistTx says of a row that is there.
abbrev pub first_answer : Message → Stored
first_answer row = record { seq = row.seq; content = row.content; created = false }

-- A call that has no result but this one.
abbrev pub Only : Stored → Result Stored → Type 0
Only st (ok st') = st' ≡ st
Only st (err e) = Unit

module _ (msg : Msg) (content : String) (row : Message) where
  known-Ends :
      (before : Db)
      → find (has_msg_id msg.msg_id) before.messages ≡ some row
      → Ends (λ db. before ≡ db) (persist_body msg content) (Committed (λ db. before ≡ db))
  unfolding persist_body
  known-Ends before known =
      Ends-bind _ _ (Ends-select (λ db. find (has_msg_id msg.msg_id) db.messages)) λ got. record {
        at = λ s x h e.
            (of_row got
                (sym h.1 ∙ sym (ap (λ d. find (has_msg_id msg.msg_id) d.messages) h.0) ∙ known)).at
              s x h.0 e;
      }
    where
      of_row :
          (got : Option Message)
          → got ≡ some row
          → Ends
              (λ db. before ≡ db)
              (replay_or_insert msg content got)
              (Committed (λ db. before ≡ db))
      of_row none e = cc
      of_row (some r) e = unfold replay_or_insert in (Ends-pure (left_with _) (λ db same. tt))

  Returned-Only :
      (before db : Db) (st : Stored)
      → find (has_msg_id msg.msg_id) before.messages ≡ some row
      → Returned msg content before st db
      → st ≡ first_answer row
  Returned-Only before db st known (inl i) = absurd (cc (i.new, known))
  Returned-Only before db st known (inr r) =
      r.stored ∙ ap first_answer (some-injective r.row row (sym r.known ∙ known))

  result-Only :
      (r : Result Stored) (s : Session)
      → ((st : Stored) → r ≡ ok st → st ≡ first_answer row)
      → Only (first_answer row) r
  result-Only (ok st) s k = k st refl
  result-Only (err e) s k = tt

  known-again :
      (db : Db) (drawn : ℕ)
      → find (has_msg_id msg.msg_id) db.messages ≡ some row
      → persist_tx msg content (steady db drawn) ≡ (ok (first_answer row), steady db drawn)
  unfolding persist_tx persist_body transaction begun finish statement settle select next_fate
      replay_or_insert ◌>>=◌
  known-again db drawn known = rw known refl

  -- A message whose row is in the tables, with whatever content it comes: whatever persistTx meets
  -- at the database, the tables stay as they were, and if it returns, then with the row's number and
  -- content; and where every round trip is answered it returns.
  pub persist_tx_again :
      (s : Session)
      → find (has_msg_id msg.msg_id) s.db.messages ≡ some row
      → ((persist_tx msg content s).1.db ≡ s.db)
        × Only (first_answer row) (persist_tx msg content s).0
        × (persist_tx msg content (steady s.db s.drawn)
            ≡ (ok (first_answer row), steady s.db s.drawn))
  unfolding persist_tx
  persist_tx_again s known = (
    sym ((Ends-Keeps (persist_body msg content) (known-Ends s.db known)).at s refl),
    result-Only (persist_tx msg content s).0 s
        (λ st e. Returned-Only s.db _ st known (persist_tx_outcome msg content s st e)),
    known-again s.db s.drawn known,
  )
