-- ===== src/Persist/Batch/Tests.antt =====
-- Rounds of worker/persist/persist.go on a small database.
use alfred_brave_com.Base.{
  ℕ, ◌≡◌, refl, String, none, some, List, [], ◌∷◌, map, keep, contains, update_where,
}
use alfred_brave_com.Base.Table.{lookup, insert}
use alfred_brave_com.Base.Exec.{◌>>=◌}
use alfred_brave_com.Chat.{Msg}
use alfred_brave_com.Database.{Db, Message, steady, statement, select, transaction}
use alfred_brave_com.Database.Kv.{bump_seq}
use alfred_brave_com.Database.Messages.{raise_last_seq}
use alfred_brave_com.Persist.{Worker, lift, produce_push, flush_pushes, write, stored_row}
use alfred_brave_com.Persist.Samples.{new_uuid, uuid5, user, two_users, hello, worker}
use alfred_brave_com.Persist.Batch.{
  run_round, handle_all, handle_singles, handle_single_batch, frames_of, distinct, keys_needed,
  known_conversations, resolve, resolved_of, handle_unresolved, name_all, named, store_resolved,
  split_replays, store_fresh, unique, fresh_of, replays_of, uids_of, counts_of, count_in, bump_all,
  assign, insert_all, raise_all, batch_body, batch_tx, push_rows, push_replays, count_users,
  count_conversations, firsts, handle_each, attempt, flush_after, commit_messages,
}

abbrev eve : Msg
eve = record hello { from_uid = "eve"; msg_id = "m2" }

abbrev three_users : Db
three_users = record two_users { users = user "eve" ∷ two_users.users }

abbrev with_eve : Worker
with_eve = record worker { session = steady three_users 0 }

abbrev ends : List Message → List (String × ℕ)
ends rows = map (λ m. (m.from_uid, m.seq)) rows

-- A frame that comes twice in a batch is stored once.
stores_once :
    ends
      (run_round new_uuid uuid5 (some hello ∷ none ∷ some hello ∷ []) worker).1.session.db.messages
    ≡ ("ada", 1) ∷ []
unfolding run_round handle_all handle_singles handle_single_batch frames_of distinct keys_needed
    known_conversations resolve resolved_of handle_unresolved name_all named store_resolved
    split_replays store_fresh unique fresh_of replays_of uids_of counts_of count_in bump_all assign
    insert_all raise_all batch_body batch_tx push_rows push_replays count_users count_conversations
    firsts handle_each attempt flush_after commit_messages lookup insert ◌>>=◌ statement select
    transaction bump_seq raise_last_seq lift produce_push keep contains update_where flush_pushes
    write stored_row
stores_once = refl

-- In a batch a user who is no member of the conversation writes into it.
outsider_stored :
    ends (run_round new_uuid uuid5 (some eve ∷ []) with_eve).1.session.db.messages ≡ ("eve", 1) ∷ []
unfolding run_round handle_all handle_singles handle_single_batch frames_of distinct keys_needed
    known_conversations resolve resolved_of handle_unresolved name_all named store_resolved
    split_replays store_fresh unique fresh_of replays_of uids_of counts_of count_in bump_all assign
    insert_all raise_all batch_body batch_tx push_rows push_replays count_users count_conversations
    firsts handle_each attempt flush_after commit_messages lookup insert ◌>>=◌ statement select
    transaction bump_seq raise_last_seq lift produce_push keep contains update_where flush_pushes
    write stored_row
outsider_stored = refl
