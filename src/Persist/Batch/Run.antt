-- ===== src/Persist/Batch/Run.antt =====
-- worker/persist/persist.go: the sequence numbers after a round of Run.
use alfred_brave_com.Base.{
  ℕ, ◌≡◌, refl, sym, subst, String, Bool, true, ◌&&◌, Option, List, [], ◌∷◌, map, length, ◌==◌,
}
use alfred_brave_com.Base.Exec.{Result, ok, Exec, Keeps, Keeps-bind, Keeps-pure, Keeps-if, pure}
use alfred_brave_com.Chat.{Msg, Push}
use alfred_brave_com.Database.{Fate, answered, refused, lost}
use alfred_brave_com.Database.Sequence.{IsDense}
use alfred_brave_com.Persist.{Worker, flush_pushes, flushed, write, next_write}
use alfred_brave_com.Persist.Sequence.{
  Numbered, Keeps-lift, handle-Numbered, write-session, derive_msg_id-IsDense,
}
use alfred_brave_com.Persist.Batch.{
  Entry, BatchEnd, done, fallback, resolved_of, handle_unresolved, named, name_all,
  handle_single_batch, handle_each, handle_singles, handle_all, run_round, flush_after,
  commit_messages, commit_fate, resolve,
}
use alfred_brave_com.Persist.Batch.Round.{store_resolved-Numbered, known-IsDense, attempt-Numbered}

flush_pushes-session : (w : Worker) → (flush_pushes w).1.session ≡ w.session
unfolding flush_pushes
flush_pushes-session w = flush_cases w.pending
  where
    flush_cases :
        (ps : List (String × Push))
        → (elim ps as (λ x. Result (Unit {0}) × Worker) [
          | [] ↦ (ok tt, w)
          | (p ∷ rest) ↦ flushed (write (p ∷ rest) w)
        ]).1.session
          ≡ w.session
    flush_cases [] = refl
    flush_cases (p ∷ rest) = write-session (p ∷ rest) w

commit_fate-session : (f : Fate) (n : ℕ) (w : Worker) → (commit_fate f n w).1.session ≡ w.session
unfolding commit_fate
commit_fate-session answered n w = refl
commit_fate-session refused n w = refl
commit_fate-session lost n w = refl

commit-Numbered : (n : ℕ) → Keeps Numbered (commit_messages n)
unfolding commit_messages
commit-Numbered n = record {
  at = λ w d. subst (λ s. IsDense s.db) (sym (commit_fate-session (next_write w.commits).0 n _)) d;
}

flush_after-Numbered : (r : Result (Unit {0})) → Keeps Numbered (flush_after r)
unfolding flush_after
flush_after-Numbered r = record {
  at = λ w d. subst (λ s. IsDense s.db) (sym (flush_pushes-session w)) d;
}

module _ (new_uuid : ℕ → String) (uuid5 : String → String) where
  handle_unresolved-Numbered :
      (es : List Entry) → Keeps Numbered (handle_unresolved new_uuid uuid5 es)
  unfolding handle_unresolved
  handle_unresolved-Numbered [] = Keeps-pure []
  handle_unresolved-Numbered ((b, m) ∷ es) =
      Keeps-bind _ _
        (Keeps-if b (pure m) _ (Keeps-pure m)
          (attempt-Numbered m _ (handle-Numbered new_uuid uuid5 m)))
        λ m'. Keeps-bind _ _ (handle_unresolved-Numbered es) (λ rest. Keeps-pure _)

  named-Numbered : (b : Bool) (m : Msg) → Keeps Numbered (named new_uuid uuid5 (b, m))
  unfolding named
  named-Numbered b m =
      Keeps-if (b && m.msg_id == "") _ (pure m)
        (Keeps-bind _ _
          (Keeps-lift _ (derive_msg_id-IsDense new_uuid uuid5 m.conv_id m.from_uid m.cli_msg_id))
          (λ msg_id. Keeps-pure _))
        (Keeps-pure m)

  name_all-Numbered : (es : List Entry) → Keeps Numbered (name_all new_uuid uuid5 es)
  unfolding name_all
  name_all-Numbered [] = Keeps-pure []
  name_all-Numbered ((b, m) ∷ es) =
      Keeps-bind _ _ (named-Numbered b m)
        λ m'. Keeps-bind _ _ (name_all-Numbered es) (λ rest. Keeps-pure _)

  handle_single_batch-Numbered :
      (msgs : List Msg) → Keeps Numbered (handle_single_batch new_uuid uuid5 msgs)
  unfolding handle_single_batch
  handle_single_batch-Numbered msgs = Keeps-bind _ _ (Keeps-lift _ (known-IsDense _)) λ known.
      Keeps-bind _ _ (handle_unresolved-Numbered (map (resolve known) msgs)) λ entries.
        Keeps-bind _ _ (name_all-Numbered entries) λ es. store_resolved-Numbered es (resolved_of es)

  handle_each-Numbered : (ms : List Msg) → Keeps Numbered (handle_each new_uuid uuid5 ms)
  unfolding handle_each
  handle_each-Numbered [] = Keeps-pure tt
  handle_each-Numbered (m ∷ ms) =
      Keeps-bind _ _ (attempt-Numbered m _ (handle-Numbered new_uuid uuid5 m))
        (λ m'. handle_each-Numbered ms)

  batch_end-Numbered :
      (end : BatchEnd)
      → Keeps Numbered (elim end as (λ x. Exec Worker (Unit {0})) [
        | done ↦ pure tt
        | fallback msgs ↦ handle_each new_uuid uuid5 msgs
      ])
  batch_end-Numbered done = Keeps-pure tt
  batch_end-Numbered (fallback msgs) = handle_each-Numbered msgs

  handle_singles-Numbered : (ms : List Msg) → Keeps Numbered (handle_singles new_uuid uuid5 ms)
  unfolding handle_singles
  handle_singles-Numbered [] = Keeps-pure tt
  handle_singles-Numbered (m ∷ ms) =
      Keeps-bind _ _ (handle_single_batch-Numbered (m ∷ ms)) batch_end-Numbered

  handle_all-Numbered :
      (frames : List (Option Msg)) → Keeps Numbered (handle_all new_uuid uuid5 frames)
  unfolding handle_all
  handle_all-Numbered frames =
      Keeps-bind _ _ (handle_singles-Numbered _) (λ u. handle_each-Numbered _)

  -- A round of Run, with its batch path, its fallback to single messages, its flush and its commit,
  -- whatever the database and the broker do on the way: if the numbers of every conversation's messages
  -- were 1, 2, 3 and so on up to its counter, they are so after the round.
  pub run_round-IsDense :
      (frames : List (Option Msg)) (w : Worker)
      → IsDense w.session.db
      → IsDense (run_round new_uuid uuid5 frames w).1.session.db
  unfolding run_round
  run_round-IsDense frames w d =
      let after = (handle_all-Numbered frames).at (record w { collecting = true }) d in
      (Keeps-bind _ _ (flush_after-Numbered _) (λ u. commit-Numbered (length frames))).at _ after
