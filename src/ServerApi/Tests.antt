-- ===== src/ServerApi/Tests.antt =====
-- Runs of the gateway's handlers on small tables, and the theorems at them.
use alfred_brave_com.Base.{
  ◌≡◌, refl, String, true, false, none, some, [], ◌∷◌, inr, exists, keep, take, find, eq_iff, arith,
}
use alfred_brave_com.Abort.{answered, answer, call}
use alfred_brave_com.Database.{Db, empty_db, steady, statement, select, Group, GroupStatus}
use alfred_brave_com.Database.Groups.{has_gid}
use alfred_brave_com.Database.Groups.Changes.Refusals.{IsBarred}
use alfred_brave_com.Database.Conversations.{is_member, is_row}
use alfred_brave_com.Database.Messages.{list_after, page, sort_by_seq, page_limit, in_conv}
use alfred_brave_com.Chat.{Msg, MsgType}
use alfred_brave_com.Base.{update_where}
use alfred_brave_com.Base.Table.{lookup, insert}
use alfred_brave_com.Base.Exec.{◌>>=◌, pure}
use alfred_brave_com.Database.{select_one, transaction}
use alfred_brave_com.Database.Kv.{next_seq, bump_seq}
use alfred_brave_com.Database.Conversations.{draw}
use alfred_brave_com.Database.Messages.{insert_message, message_clashes, raise_last_seq}
use alfred_brave_com.Database.Groups.{insert_system_event}
use alfred_brave_com.Database.Groups.Rows.{update_group}
use alfred_brave_com.Database.Groups.Changes.Calls.{apply}
use alfred_brave_com.Database.Groups.Changes.{
  rename, mutate_as_owner, owner_tx, guarded, set_group, is_dismissed, with_extra,
}
use alfred_brave_com.ServerApi.Groups.{
  Gateway, Mutation, group_rename, manage, renamed, checked, respond_group_mutation,
}
use alfred_brave_com.ServerApi.Groups.Announced.{IsAnnounced, manage-IsAnnounced}
use alfred_brave_com.ServerApi.Groups.Barred.{IsTurnedAway, manage-IsTurnedAway}
use alfred_brave_com.ServerApi.Social.{get_messages}
use alfred_brave_com.ServerApi.Social.Private.{get_messages_private}

abbrev chess : Group
chess = record {
  gid = "g1";
  name = "chess";
  announcement = "";
  announced = false;
  owner_uid = "ada";
  pinned_msg_id = none;
  status = GroupStatus.active;
  member_count = 2;
}

abbrev chess_only : Db
chess_only = record empty_db { groups = chess ∷ [] }

abbrev gateway : Gateway
gateway = record {
  new_uuid = λ n. "e1";
  marshal = λ fields. "{}";
  id_gen = some "g2";
  has_producer = true;
  now = 5;
}

bob-IsBarred : IsBarred "g1" "bob" chess_only
unfolding find has_gid
bob-IsBarred = record { group = chess; found = refl; reason = inr (λ e. not_bob e) }
  where
    not_bob : ◌≡◌ {A = String} "ada" "bob" → ⊥
    not_bob e = ground (arith, eq_iff "ada" "bob")

manage-IsTurnedAway_example :
    IsTurnedAway chess_only
      (manage gateway "bob" "g1" (group_rename (some "go")) (steady chess_only 0))
manage-IsTurnedAway_example =
    manage-IsTurnedAway gateway "bob" "g1" (group_rename (some "go")) (steady chess_only 0)
      bob-IsBarred

abbrev ada_in_c1 : Db
ada_in_c1 = record empty_db { conversation_members = record { conv_id = "c1"; uid = "ada" } ∷ [] }

shown : (get_messages "ada" "c1" 0 50 (steady ada_in_c1 0)).0 ≡ answered []
unfolding get_messages call answer is_member is_row exists statement select list_after page keep
    take sort_by_seq page_limit in_conv
shown = refl

get_messages_private_example :
    (exists (is_row "c1" "ada") ada_in_c1.conversation_members ≡ true)
    × ([] ≡ page "c1" 0 50 ada_in_c1.messages)
get_messages_private_example = get_messages_private "ada" "c1" 0 50 (steady ada_in_c1 0) [] shown

abbrev rename_event : Msg
rename_event = record {
  msg_id = "e1";
  cli_msg_id = "";
  conv_id = "g1";
  from_uid = "ada";
  to_uid = "";
  type = MsgType.system_event;
  content = "{}";
  mentions = [];
  mention_all = false;
  sent_at = 5;
}

abbrev renamed_to_go : Mutation
renamed_to_go = record { gid = "g1"; payload = renamed "go"; event = some rename_event }

answered_rename :
    (manage gateway "ada" "g1" (group_rename (some "go")) (steady chess_only 0)).0
    ≡ answered renamed_to_go
unfolding manage checked respond_group_mutation call answer apply rename mutate_as_owner owner_tx
    guarded set_group is_dismissed with_extra insert_system_event next_seq bump_seq draw
    insert_message message_clashes raise_last_seq update_group statement select select_one
    transaction find exists update_where lookup insert has_gid ◌>>=◌ pure
answered_rename = refl

manage-IsAnnounced_example :
    IsAnnounced "g1" "ada" rename_event
      (manage gateway "ada" "g1" (group_rename (some "go")) (steady chess_only 0)).1.db
manage-IsAnnounced_example =
    manage-IsAnnounced gateway "ada" "g1" (group_rename (some "go")) (steady chess_only 0)
      renamed_to_go rename_event answered_rename refl
