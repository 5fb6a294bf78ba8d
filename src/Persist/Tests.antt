-- ===== src/Persist/Tests.antt =====
-- Runs of worker/persist/persist.go on a small database, and the theorems at them.
use alfred_brave_com.Base.{none, List, ◌≡◌, refl, String, true, some, [], ◌∷◌, find, keep}
use alfred_brave_com.Base.Errors.{not_found}
use alfred_brave_com.Base.Table.{lookup}
use alfred_brave_com.Base.Exec.{ok, err, ◌>>=◌}
use alfred_brave_com.Chat.{Msg}
use alfred_brave_com.Database.{Session, answered, lost, steady, statement, select, transaction}
use alfred_brave_com.Database.Kv.{next_seq}
use alfred_brave_com.Database.Users.{has_uid}
use alfred_brave_com.Database.Messages.{insert_message, raise_last_seq, has_msg_id}
use alfred_brave_com.Database.Sequence.{IsDense}
use alfred_brave_com.Persist.{
  handle, persist_tx, persist_body, replay_or_insert, insert_new, stored_row,
}
use alfred_brave_com.Persist.Sequence.{handle-IsDense}
use alfred_brave_com.Persist.Replay.{
  persist_tx_outcome, persist_tx_again, Returned, Only, first_answer,
}
use alfred_brave_com.Database.Groups.Changes.{Field}
use alfred_brave_com.Database.Groups.Changes.Calls.{create}
use alfred_brave_com.Persist.Batch.{run_round}
use alfred_brave_com.Persist.Batch.Run.{run_round-IsDense}
use alfred_brave_com.Persist.History.{Event, message, group_call, round, history, history-IsDense}
use alfred_brave_com.Persist.Samples.{new_uuid, uuid5, user, two_users, hello, worker}
use alfred_brave_com.Persist.Stuck.{self_message_stuck}

two_users-IsDense : IsDense two_users
unfolding lookup keep
two_users-IsDense = record { numbered = λ conv_id. refl }

first_number :
    (persist_tx hello "\"hello\"" (steady two_users 0)).0
    ≡ ok (record { seq = 1; content = "\"hello\""; created = true })
unfolding persist_tx persist_body replay_or_insert insert_new transaction statement select next_seq
    insert_message raise_last_seq find has_msg_id stored_row ◌>>=◌ lookup
first_number = refl

persist_tx_outcome_example :
    Returned hello "\"hello\"" two_users
      (record { seq = 1; content = "\"hello\""; created = true })
      (persist_tx hello "\"hello\"" (steady two_users 0)).1.db
persist_tx_outcome_example =
    persist_tx_outcome hello "\"hello\"" (steady two_users 0)
      (record { seq = 1; content = "\"hello\""; created = true }) first_number

-- The first call's commit was lost: the row is there, and the message comes again.
abbrev stored_unseen : Session
stored_unseen =
    (persist_tx hello "\"hello\"" (record {
      db = two_users;
      fates = answered ∷ answered ∷ answered ∷ answered ∷ answered ∷ lost ∷ [];
      drawn = 0;
    })).1

hello_kept :
    find (has_msg_id hello.msg_id) stored_unseen.db.messages ≡ some (stored_row hello 1 "\"hello\"")
unfolding persist_tx persist_body replay_or_insert insert_new transaction statement select next_seq
    insert_message raise_last_seq find has_msg_id stored_row ◌>>=◌ lookup
hello_kept = refl

persist_tx_again_example :
    ((persist_tx hello "null" stored_unseen).1.db ≡ stored_unseen.db)
    × Only (first_answer (stored_row hello 1 "\"hello\"")) (persist_tx hello "null" stored_unseen).0
    × (persist_tx hello "null" (steady stored_unseen.db stored_unseen.drawn) ≡ (
      ok (first_answer (stored_row hello 1 "\"hello\"")),
      steady stored_unseen.db stored_unseen.drawn,
    ))
persist_tx_again_example =
    persist_tx_again hello "null" (stored_row hello 1 "\"hello\"") stored_unseen hello_kept

handle-IsDense_example : IsDense (handle new_uuid uuid5 hello worker).1.session.db
handle-IsDense_example = handle-IsDense new_uuid uuid5 hello worker two_users-IsDense

abbrev note_to_self : Msg
note_to_self = record hello { conv_id = ""; to_uid = "ada"; msg_id = "" }

self_message_stuck_example : handle new_uuid uuid5 note_to_self worker ≡ (err not_found, worker)
self_message_stuck_example =
    self_message_stuck new_uuid uuid5 note_to_self (user "ada") worker refl refl refl ada_known refl
  where
    ada_known : find (has_uid "ada") two_users.users ≡ some (user "ada")
    ada_known = unfold find has_uid in refl

run_round-IsDense_example :
    IsDense (run_round new_uuid uuid5 (some hello ∷ none ∷ some hello ∷ []) worker).1.session.db
run_round-IsDense_example =
    run_round-IsDense new_uuid uuid5 (some hello ∷ none ∷ some hello ∷ []) worker two_users-IsDense

abbrev marshal_event : List (String × Field) → String
marshal_event fields = "{}"

abbrev some_events : List Event
some_events =
    message hello
    ∷ group_call (create (some "g1") "ada" "friends" ("bob" ∷ []))
    ∷ round (some hello ∷ [])
    ∷ []

history-IsDense_example :
    IsDense (history new_uuid uuid5 marshal_event some_events worker).session.db
history-IsDense_example = history-IsDense new_uuid uuid5 marshal_event some_events worker refl refl
