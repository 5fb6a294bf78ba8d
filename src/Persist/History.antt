-- ===== src/Persist/History.antt =====
-- worker/persist/persist.go and database/group.go on the same tables: messages that are handled, one
-- by one or in the rounds of Run, and groups that are changed, one after the other in any order.
use alfred_brave_com.Base.{ℕ, ◌≡◌, String, Option, List, [], ◌∷◌, keep}
use alfred_brave_com.Base.Table.{lookup}
use alfred_brave_com.Chat.{Msg}
use alfred_brave_com.Database.Sequence.{IsDense}
use alfred_brave_com.Database.Groups.Changes.{Field}
use alfred_brave_com.Database.Groups.Changes.Calls.{Call, perform}
use alfred_brave_com.Database.Groups.Changes.Numbers.{perform-IsDense}
use alfred_brave_com.Persist.{Worker, lift, handle}
use alfred_brave_com.Persist.Sequence.{handle-IsDense}
use alfred_brave_com.Persist.Batch.{run_round}
use alfred_brave_com.Persist.Batch.Run.{run_round-IsDense}

pub data Event : Type 0 where
  message : Msg → Event
  group_call : Call → Event
  round : List (Option Msg) → Event

module _ (new_uuid : ℕ → String) (uuid5 : String → String)
    (marshal : List (String × Field) → String) where
  -- What an event leaves behind, whether it returns or fails.
  pub happen : Event → Worker → Worker
  happen (message msg) w = (handle new_uuid uuid5 msg w).1
  happen (group_call c) w = (lift (perform new_uuid marshal c) w).1
  happen (round frames) w = (run_round new_uuid uuid5 frames w).1

  pub history : List Event → Worker → Worker
  history [] w = w
  history (e ∷ es) w = history es (happen e w)

  happen-IsDense : (e : Event) (w : Worker) → IsDense w.session.db → IsDense (happen e w).session.db
  unfolding happen lift
  happen-IsDense (message msg) w d = handle-IsDense new_uuid uuid5 msg w d
  happen-IsDense (group_call c) w d = perform-IsDense new_uuid marshal c w.session d
  happen-IsDense (round frames) w d = run_round-IsDense new_uuid uuid5 frames w d

  history_keeps :
      (es : List Event) (w : Worker) → IsDense w.session.db → IsDense (history es w).session.db
  unfolding history
  history_keeps [] w d = d
  history_keeps (e ∷ es) w d = history_keeps es (happen e w) (happen-IsDense e w d)

  -- From tables with no messages and no counters, after any messages, any rounds of Run and any
  -- changes of groups in any order, each of which may fail at any round trip: the numbers of every conversation's messages
  -- are 1, 2, 3 and so on up to its counter, in the order of the rows.
  pub history-IsDense :
      (es : List Event) (w : Worker)
      → w.session.db.messages ≡ []
      → w.session.db.kv ≡ []
      → IsDense (history es w).session.db
  unfolding lookup keep
  history-IsDense es w no_messages no_counters =
      history_keeps es w (record { numbered = λ conv_id. rw (no_messages, no_counters) })
