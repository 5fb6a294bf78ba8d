-- ===== src/Persist/Batch/Round.antt =====
-- worker/persist/persist.go: the sequence numbers after handleSingleBatch and after a round of Run.
use alfred_brave_com.Base.{
  ℕ, ◌≡◌, refl, subst, String, Bool, true, false, not, List, [], ◌∷◌, map, length, nat_eq,
  if◌then◌else◌,
}
use alfred_brave_com.Base.Errors.{poison}
use alfred_brave_com.Base.Exec.{
  Result, ok, err, Exec, Keeps, Keeps-bind, Keeps-pure, Keeps-raise, resume, pure, ◌>>=◌, ◌>>◌,
}
use alfred_brave_com.Chat.{Msg}
use alfred_brave_com.Database.{
  Fate, answered, refused, lost, Message, Db, statement, select, settle, next_fate,
}
use alfred_brave_com.Database.Rules.{On, Keeps-select}
use alfred_brave_com.Database.Sequence.{IsDense}
use alfred_brave_com.Persist.{Worker, lift}
use alfred_brave_com.Persist.Sequence.{Numbered, produce_push-Numbered}
use alfred_brave_com.Persist.Batch.{
  Entry, BatchEnd, done, fallback, distinct, known_conversations, unique, fresh_of, replays_of,
  uids_of, counts_of, batch_tx, push_rows, push_replays, store_fresh, split_replays, store_resolved,
  attempt, skip_poison,
}
use alfred_brave_com.Persist.Batch.Numbers.{AreNew, IsReady, batch_tx-IsDense}
use alfred_brave_com.Persist.Batch.Fresh.{fresh-AreNew}

-- From tables with `P` a call leaves the numbers dense, whether it returns or fails.
record Leads {A : Type 0} (P : Db → Type 0) (m : Exec Worker A) : Type 0 where
  at : (w : Worker) → P w.session.db → Numbered (m w).1

module _ {A B : Type 0} (P : Db → Type 0) (dense : (db : Db) → P db → IsDense db) where
  read_resume :
      (f : Db → A) (k : A → Exec Worker B) (fate : Fate) (rest : List Fate) (w : Worker)
      → ((a : A) → Leads (λ db. P db × (f db ≡ a)) (k a))
      → P w.session.db
      → Numbered
          (resume k
            (settle fate (select f w.session.db) (record w.session { fates = rest })).0
            (record w {
              session = (settle fate (select f w.session.db) (record w.session { fates = rest })).1;
            })).1
  unfolding settle select
  read_resume f k answered rest w h p = (h (f w.session.db)).at _ (p, refl)
  read_resume f k refused rest w h p = dense w.session.db p
  read_resume f k lost rest w h p = dense w.session.db p

  -- Behind a read, the rest of the call may use what was read.
  Leads-read :
      (f : Db → A) (k : A → Exec Worker B)
      → ((a : A) → Leads (λ db. P db × (f db ≡ a)) (k a))
      → Leads P (lift (statement (select f)) >>= k)
  unfolding ◌>>=◌ lift statement
  Leads-read f k h = record {
    at = λ w p. read_resume f k (next_fate w.session.fates).0 (next_fate w.session.fates).1 w h p;
  }

module _ {A : Type 0} {P : Db → Type 0} where
  Leads-if :
      (test : Bool) (m n : Exec Worker A) → Leads P m → Leads P n → Leads P (if test then m else n)
  Leads-if true m n first second = first
  Leads-if false m n first second = second

  Leads-pure : (a : A) → ((db : Db) → P db → IsDense db) → Leads P (pure a)
  unfolding pure
  Leads-pure a dense = record { at = λ w p. dense w.session.db p }

push_rows-Numbered : (rows : List (Msg × ℕ)) → Keeps Numbered (push_rows rows)
unfolding push_rows
push_rows-Numbered [] = Keeps-pure tt
push_rows-Numbered ((m, seq) ∷ rest) =
    Keeps-bind _ _ (produce_push-Numbered m seq m.to_uid false) (λ u. push_rows-Numbered rest)

push_replays-Numbered : (replays : List (Msg × Message)) → Keeps Numbered (push_replays replays)
unfolding push_replays
push_replays-Numbered [] = Keeps-pure tt
push_replays-Numbered ((m, row) ∷ rest) =
    Keeps-bind _ _ (produce_push-Numbered _ row.seq m.to_uid false)
      (λ u. push_replays-Numbered rest)

after_push :
    (rows : List (Msg × ℕ)) (replays : List (Msg × Message))
    → Keeps Numbered (do push_rows rows; push_replays replays; pure done)
after_push rows replays =
    Keeps-bind _ _ (push_rows-Numbered rows)
      (λ u. Keeps-bind _ _ (push_replays-Numbered replays) (λ v. Keeps-pure done))

resume-Numbered :
    {A B : Type 0} (k : A → Exec Worker B) (r : Result A) (w : Worker)
    → ((a : A) → Keeps Numbered (k a))
    → Numbered w
    → Numbered (resume k r w).1
resume-Numbered k (ok a) w h d = (h a).at w d
resume-Numbered k (err e) w h d = d

store_rows :
    (ms : List Msg) (replays : List (Msg × Message)) (w : Worker)
    → IsReady ms w.session.db
    → Numbered
        ((do
          rows ← lift (batch_tx ms (counts_of [] ms))
          push_rows rows
          push_replays replays
          pure done)
          w).1
unfolding ◌>>=◌ lift
store_rows ms replays w ready =
    resume-Numbered _ (batch_tx ms (counts_of [] ms) w.session).0 _
      (λ rows. after_push rows replays) (batch_tx-IsDense ms w.session ready)

store_fresh-Leads :
    (entries : List Entry) (ms : List Msg) (replays : List (Msg × Message))
    → Leads (IsReady ms) (store_fresh entries ms replays)
unfolding store_fresh
store_fresh-Leads entries ms replays =
    let back = fallback (map (λ e. e.1) entries) in
    Leads-read (IsReady ms) (λ db p. p.0) _ _
      λ users.
        Leads-if (not (nat_eq users (length (distinct [] (uids_of ms))))) (pure back) _
          (Leads-pure back (λ db p. p.0.0))
          (Leads-read _ (λ db p. p.0.0) _ _
            λ convs.
              Leads-if (not (nat_eq convs (length (counts_of [] ms)))) (pure back) _
                (Leads-pure back (λ db p. p.0.0.0))
                (record { at = λ w p. store_rows ms replays w p.0.0 }))

-- What the messages of the batch become once their stored rows are read.
split_replays-Numbered :
    (entries : List Entry) (ms : List Msg) (rows : List Message) (w : Worker)
    → Numbered w
    → AreNew (fresh_of rows ms) w.session.db.messages
    → Numbered (split_replays entries ms rows w).1
unfolding split_replays
split_replays-Numbered entries ms rows w d new = split_cases (fresh_of rows ms) new
  where
    split_cases :
        (fresh : List Msg)
        → AreNew fresh w.session.db.messages
        → Numbered
            (elim fresh as (λ x. Exec Worker BatchEnd) [
              | [] ↦ push_replays (replays_of rows ms) >> pure done
              | (f ∷ fs) ↦ store_fresh entries (f ∷ fs) (replays_of rows ms)
            ]
              w).1
    split_cases [] none_new =
        (Keeps-bind _ _ (push_replays-Numbered (replays_of rows ms)) (λ u. Keeps-pure done)).at w d
    split_cases (f ∷ fs) all_new =
        (store_fresh-Leads entries (f ∷ fs) (replays_of rows ms)).at w (d, all_new)

pub store_resolved-Numbered :
    (entries : List Entry) (ms : List Msg) → Keeps Numbered (store_resolved entries ms)
unfolding store_resolved
store_resolved-Numbered entries [] = Keeps-pure done
store_resolved-Numbered entries (m ∷ ms) = record {
  at =
      (Leads-read IsDense (λ db d. d) _ _
        λ rows. record {
          at = λ w p. split_replays-Numbered entries (unique [] (m ∷ ms)) rows w p.0 (
              subst (λ l. AreNew (fresh_of l (unique [] (m ∷ ms))) w.session.db.messages) p.1
                (fresh-AreNew (m ∷ ms) w.session.db.messages));
        }).at;
}

pub known-IsDense : (keys : List String) → Keeps (On IsDense) (known_conversations keys)
unfolding known_conversations
known-IsDense [] = Keeps-pure []
known-IsDense (k ∷ ks) = Keeps-select IsDense _

skip_poison-Numbered : {A : Type 0} (a : A) (r : Result A) → Keeps Numbered (skip_poison a r)
unfolding skip_poison
skip_poison-Numbered a (ok b) = Keeps-pure b
skip_poison-Numbered a (err poison) = Keeps-pure a
skip_poison-Numbered a (err e) = Keeps-raise e

pub attempt-Numbered :
    {A : Type 0} (a : A) (m : Exec Worker A) → Keeps Numbered m → Keeps Numbered (attempt a m)
unfolding attempt
attempt-Numbered a m k = record {
  at = λ w d. (skip_poison-Numbered a (m w).0).at (m w).1 (k.at w d);
}
