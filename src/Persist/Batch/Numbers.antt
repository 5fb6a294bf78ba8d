-- ===== src/Persist/Batch/Numbers.antt =====
-- worker/persist/persist.go, handleSingleBatch: the sequence numbers after the transaction of a batch.
use alfred_brave_com.Base.{
  ℕ, ◌+◌, ◌≡◌, refl, sym, subst, ◌∙◌, ap, inl, inr, String, Bool, true, false, Option, none, some,
  List, [], ◌∷◌, ◌++◌, map, arith, exists, ◌==◌, if◌then◌else◌,
}
use mathlib.Core.List.{append_assoc}
use alfred_brave_com.Base.Table.{lookup, insert}
use alfred_brave_com.Base.Exec.{ok, err, ok-injective, ok-ne-err, Result-cases}
use alfred_brave_com.Chat.{Msg}
use alfred_brave_com.Database.{Message, Db, Session, commit_with}
use alfred_brave_com.Database.Rules.{transaction-On}
use alfred_brave_com.Database.Ends.{Ends, Ends-statement, Ends-bind, Ends-pure, Committed}
use alfred_brave_com.Database.Messages.{has_msg_id, raise_last_seq}
use alfred_brave_com.Database.Sequence.{
  IsDense, count, seqs_of, up_to, seqs-append, append-nil, raise_last_seq-messages, same-IsDense,
}
use alfred_brave_com.Persist.{stored_row, marshal}
use alfred_brave_com.Persist.Batch.{
  count_in, counts_of, bump_all, assign, insert_row, insert_rows, insert_all, raise_all, batch_body,
  batch_tx,
}
use alfred_brave_com.Persist.Batch.Counters.{
  occurs, count_in-counts_of, counts_of-Once, AllBumped, bump_all-AllBumped, seqs_in, range,
  up_to-range, seqs_in-assign,
}

-- Rows whose numbers are taken and which are not stored yet.
record IsPending (rows : List (Msg × ℕ)) (db : Db) : Type 0 where
  numbered : (c : String) → seqs_of c db.messages ++ seqs_in c rows ≡ up_to (count c db)

-- No row of the batch has the id of a stored message or of another row.
abbrev pub AreNew : List Msg → List Message → Type 0
AreNew [] stored = Unit
AreNew (m ∷ ms) stored =
    (exists (has_msg_id m.msg_id) stored ≡ false)
    × ((seq : ℕ) → AreNew ms (stored ++ stored_row m seq (marshal m.content) ∷ []))

insert_row_lem :
    (m : Message) (rows rows' : List Message)
    → exists (has_msg_id m.msg_id) rows ≡ false
    → insert_row m rows ≡ ok rows'
    → rows' ≡ rows ++ m ∷ []
unfolding insert_row
insert_row_lem m rows rows' new h = ground arith

append_one :
    (here : Bool) (n : ℕ) (xs ys : List ℕ)
    → (xs ++ (if here then n ∷ [] else [])) ++ ys ≡ xs ++ (if here then n ∷ ys else ys)
append_one true n xs ys = append_assoc xs (n ∷ []) ys
append_one false n xs ys = rw (append-nil xs)

-- New rows are all stored, in their order.
insert_rows-seqs :
    (c : String) (rows : List (Msg × ℕ)) (stored stored' : List Message)
    → AreNew (map (λ r. r.0) rows) stored
    → insert_rows rows stored ≡ ok stored'
    → seqs_of c stored' ≡ seqs_of c stored ++ seqs_in c rows
unfolding insert_rows seqs_in stored_row
insert_rows-seqs c [] stored stored' new h =
    rw (← ok-injective h) (sym (append-nil (seqs_of c stored)))
insert_rows-seqs c ((m, seq) ∷ rows) stored stored' new h =
    elim (Result-cases (insert_row (stored_row m seq (marshal m.content)) stored)) [
      | inr (e, failed) ↦
          let computed : insert_rows ((m, seq) ∷ rows) stored ≡ err e = rw (failed, insert_rows) in
          absurd (ok-ne-err (sym h ∙ computed))
      | inl (between, first) ↦
          let computed : insert_rows ((m, seq) ∷ rows) stored ≡ insert_rows rows between =
            rw (first, insert_rows) in
          let appended =
            insert_row_lem (stored_row m seq (marshal m.content)) stored between new.0 first in
          let tail =
            insert_rows-seqs c rows between stored'
              (subst (AreNew (map (λ r. r.0) rows)) (sym appended) (new.1 seq))
              (sym computed ∙ h) in
          let step = seqs-append c (stored_row m seq (marshal m.content)) stored in
          tail
          ∙ ap (λ xs. xs ++ seqs_in c rows) (ap (seqs_of c) appended ∙ step)
          ∙ append_one (m.conv_id == c) seq (seqs_of c stored) (seqs_in c rows)
    ]

module _ (c : String) (ms : List Msg) (nexts : List (String × ℕ)) (db db' : Db) where
  occurs_counted : count_in c (counts_of [] ms) ≡ occurs c ms
  unfolding count_in lookup
  occurs_counted = omega (arith, count_in-counts_of c [] ms)

  numbers_given :
      (o : Option ℕ)
      → lookup c (counts_of [] ms) ≡ o
      → AllBumped (counts_of [] ms) nexts db db'
      → seqs_in c (assign nexts (counts_of [] ms) [] ms) ≡ range (count c db) (occurs c ms)
  unfolding count_in range lookup
  numbers_given none e b =
      ground (arith, occurs_counted, b.nexts_are c, seqs_in-assign c nexts (counts_of [] ms) [] ms)
  numbers_given (some n) e b =
      ground (arith, occurs_counted, b.nexts_are c, seqs_in-assign c nexts (counts_of [] ms) [] ms)

-- Behind the counters' step: the batch's own numbers are the ones that are missing.
bumped-IsPending :
    (ms : List Msg) (nexts : List (String × ℕ)) (db db' : Db)
    → IsDense db
    → bump_all (counts_of [] ms) db ≡ ok (nexts, db')
    → IsPending (assign nexts (counts_of [] ms) [] ms) db'
bumped-IsPending ms nexts db db' d h =
    let b = bump_all-AllBumped (counts_of [] ms) nexts db db' (counts_of-Once [] ms tt) h in
    record {
      numbered = λ c.
          let given = numbers_given c ms nexts db db' (lookup c (counts_of [] ms)) refl b in
          ground (
            arith,
            given,
            b.messages,
            b.counted c,
            occurs_counted c ms nexts db db',
            d.numbered c,
            up_to-range (occurs c ms) (count c db),
          );
    }

insert_all-IsDense :
    (rows : List (Msg × ℕ)) (u : Unit {0}) (db db' : Db)
    → IsPending rows db
    → AreNew (map (λ r. r.0) rows) db.messages
    → insert_all rows db ≡ ok (u, db')
    → IsDense db'
unfolding insert_all
insert_all-IsDense rows u db db' p new h = elim (Result-cases (insert_rows rows db.messages)) [
  | inr (e, failed) ↦
      let computed : insert_all rows db ≡ err e = rw (failed, insert_all) in
      absurd (ok-ne-err (sym h ∙ computed))
  | inl (stored, done) ↦
      let computed : insert_all rows db ≡ ok (tt, record db { messages = stored }) =
        rw (done, insert_all) in
      let here = ap (λ (q : Unit {0} × Db). q.1) (ok-injective (sym computed ∙ h)) in
      subst IsDense here (record {
        numbered = λ c. insert_rows-seqs c rows db.messages stored new done ∙ p.numbered c;
      })
]

messages-assign :
    (nexts counts seen : List (String × ℕ)) (ms : List Msg)
    → map (λ r. r.0) (assign nexts counts seen ms) ≡ ms
unfolding assign
messages-assign nexts counts seen [] = refl
messages-assign nexts counts seen (m ∷ ms) =
    ap (λ rest. m ∷ rest)
      (messages-assign nexts counts (insert m.conv_id (count_in m.conv_id seen + 1) seen) ms)

raise_all-IsDense :
    (nexts : List (String × ℕ)) (u : Unit {0}) (db db' : Db)
    → IsDense db
    → raise_all nexts db ≡ ok (u, db')
    → IsDense db'
unfolding raise_all
raise_all-IsDense [] u db db' d h =
    subst IsDense (ap (λ (q : Unit {0} × Db). q.1) (ok-injective h)) d
raise_all-IsDense ((c, n) ∷ nexts) u db db' d h = elim (Result-cases (raise_last_seq c n db)) [
  | inr (e, failed) ↦
      let computed : raise_all ((c, n) ∷ nexts) db ≡ err e = rw (failed, raise_all) in
      absurd (ok-ne-err (sym h ∙ computed))
  | inl ((v, between), first) ↦
      let computed : raise_all ((c, n) ∷ nexts) db ≡ raise_all nexts between =
        rw (first, raise_all) in
      let (em, ek) = raise_last_seq-messages c n v db between first in
      raise_all-IsDense nexts u between db' (same-IsDense db between em ek d) (sym computed ∙ h)
]

-- The tables before a batch of new messages.
abbrev pub IsReady : List Msg → Db → Type 0
IsReady ms db = IsDense db × AreNew ms db.messages

batch_body-IsDense :
    (ms : List Msg) → Ends (IsReady ms) (batch_body ms (counts_of [] ms)) (Committed IsDense)
unfolding batch_body
batch_body-IsDense ms =
    Ends-bind
      {R = λ nexts db. IsPending (assign nexts (counts_of [] ms) [] ms) db × AreNew ms db.messages}
      _ _
      (Ends-statement (bump_all (counts_of [] ms)) λ db nexts db' ready h. (
        bumped-IsPending ms nexts db db' ready.0 h,
        subst (AreNew ms)
            (sym
              (bump_all-AllBumped (counts_of [] ms) nexts db db' (counts_of-Once [] ms tt)
                h).messages)
            ready.1,
      ))
      λ nexts.
        Ends-bind {R = λ u db. IsDense db} _ _
          (Ends-statement (insert_all (assign nexts (counts_of [] ms) [] ms)) λ db u db' p h.
            insert_all-IsDense (assign nexts (counts_of [] ms) [] ms) u db db' p.0
              (subst (λ l. AreNew l db.messages)
                (sym (messages-assign nexts (counts_of [] ms) [] ms)) p.1)
              h)
          λ u.
            Ends-bind {R = λ v db. IsDense db} _ _
              (Ends-statement (raise_all nexts)
                (λ db v db' d h. raise_all-IsDense nexts v db db' d h))
              λ v. Ends-pure (commit_with _) (λ db d. d)

-- The transaction of a batch: what it meets does not matter, the numbers are dense behind it.
pub batch_tx-IsDense :
    (ms : List Msg) (s : Session) → IsReady ms s.db → IsDense (batch_tx ms (counts_of [] ms) s).1.db
unfolding batch_tx
batch_tx-IsDense ms s ready =
    transaction-On IsDense (batch_body ms (counts_of [] ms)) s ready.0 λ s' a same e.
      (batch_body-IsDense ms).at s' (commit_with a) (subst (IsReady ms) (sym same) ready) e
