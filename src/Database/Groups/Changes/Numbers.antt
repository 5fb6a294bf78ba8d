-- ===== src/Database/Groups/Changes/Numbers.antt =====
-- database/group.go: the sequence numbers that the events of a group take.
use alfred_brave_com.Base.{ℕ, String, not, ◌||◌, List, [], ◌∷◌, ◌==◌}
use alfred_brave_com.Base.Errors.{bad_target, group_dismissed, not_owner}
use alfred_brave_com.Base.Exec.{
  Exec, Keeps, keeps_rules, Keeps-bind, Keeps-pure, Keeps-if, Keeps-raise, Keeps-or_raise,
}
use alfred_brave_com.Database.{Group, Session, commit_with}
use alfred_brave_com.Database.Rules.{On, Keeps-select_one}
use alfred_brave_com.Database.Ends.{Ends, Ends-bind, Ends-pure, Ends-Keeps, Committed}
use alfred_brave_com.Database.Conversations.{draw}
use alfred_brave_com.Database.Sequence.{
  IsDense, HasTaken, Ends-next_seq, Ends-insert_message, Ends-raise_last_seq, Keeps-Ends,
}
use alfred_brave_com.Database.Single.{insert_conversation-IsDense}
use alfred_brave_com.Database.Groups.{insert_system_event}
use alfred_brave_com.Database.Groups.Changes.Calls.{
  Change, join, kick, rename_to, announce, pin, dissolve, Call, create, leave, manage, apply,
  perform,
}
use alfred_brave_com.Database.Groups.Changes.{
  Field, is_dismissed, create_tx, create_group, guarded, owner_tx, mutate_as_owner, add_members,
  remove_member, quit_tx, quit, rename, set_announcement, set_pin, dismiss,
}
use alfred_brave_com.Database.Groups.Changes.Steps.{
  insert_group-IsDense, insert_group_member-IsDense, recount-IsDense, mark_left-IsDense,
  delete_member-IsDense, get_member_role-IsDense, get_group-IsDense, refuse_if-IsDense,
  member_rows-IsDense, conversation_rows-IsDense, join_change-IsDense, kick_change-IsDense,
  set_group-IsDense,
}

module _ (new_uuid : ℕ → String) where
  draw-HasTaken :
      (gid : String) (seq : ℕ)
      → Ends (HasTaken gid seq) (draw new_uuid) (λ c db. HasTaken gid seq db)
  unfolding draw
  draw-HasTaken gid seq = record { at = λ s c h e. h }

  event-IsDense :
      (gid actor content : String)
      → Ends IsDense (insert_system_event new_uuid gid actor content) (λ c db. IsDense db)
  unfolding insert_system_event
  event-IsDense gid actor content = Ends-bind _ _ (Ends-next_seq gid) λ seq.
      Ends-bind _ _ (draw-HasTaken gid seq) λ msg_id.
        Ends-bind _ _ (Ends-insert_message _)
          λ u. Ends-bind _ _ (Ends-raise_last_seq gid seq) (λ v. Ends-pure msg_id (λ db d. d))

guarded-IsDense :
    (gid operator : String) (g : Group) (change : Exec Session (Unit {0}))
    → Keeps (On IsDense) change
    → Keeps (On IsDense) (guarded gid operator g change)
unfolding guarded
guarded-IsDense gid operator g change k =
    Keeps-if (is_dismissed g.status) _ _ (Keeps-raise group_dismissed)
      (Keeps-if (not (g.owner_uid == operator)) _ _ (Keeps-raise not_owner) k)

module _ (new_uuid : ℕ → String) (marshal : List (String × Field) → String) where
  owner_tx-IsDense :
      (gid operator event : String) (change : Exec Session (Unit {0}))
      (extra : List (String × Field))
      → Keeps (On IsDense) change
      → Ends IsDense (owner_tx new_uuid marshal gid operator event change extra) (Committed IsDense)
  unfolding owner_tx
  owner_tx-IsDense gid operator event change extra k =
      Ends-bind _ _ (Keeps-Ends _ (Keeps-select_one IsDense _)) λ g.
        Ends-bind _ _ (Keeps-Ends _ (guarded-IsDense gid operator g change k)) λ u.
          Ends-bind _ _ (event-IsDense new_uuid gid operator _)
            λ msg_id. Ends-pure (commit_with msg_id) (λ db d. d)

  mutate-IsDense :
      (gid operator event : String) (change : Exec Session (Unit {0}))
      (extra : List (String × Field))
      → Keeps (On IsDense) change
      → Keeps (On IsDense) (mutate_as_owner new_uuid marshal gid operator event change extra)
  unfolding mutate_as_owner
  mutate-IsDense gid operator event change extra k =
      Ends-Keeps _ (owner_tx-IsDense gid operator event change extra k)

  create_tx-IsDense :
      (gid owner_uid name : String) (uids : List String)
      → Ends IsDense (create_tx new_uuid marshal gid owner_uid name uids) (Committed IsDense)
  unfolding create_tx
  create_tx-IsDense gid owner_uid name uids =
      Ends-bind _ _ (Keeps-Ends _ (insert_group-IsDense _)) λ u.
        Ends-bind _ _ (Keeps-Ends _ (insert_group_member-IsDense gid owner_uid _)) λ v.
          Ends-bind _ _ (Keeps-Ends _ (member_rows-IsDense gid owner_uid uids)) λ others.
            Ends-bind _ _ (Keeps-Ends _ (insert_conversation-IsDense _)) λ w.
              Ends-bind _ _ (Keeps-Ends _ (conversation_rows-IsDense gid (owner_uid ∷ others))) λ x.
                Ends-bind _ _ (event-IsDense new_uuid gid owner_uid _)
                  λ msg_id. Ends-pure (commit_with (gid, msg_id)) (λ db d. d)

  quit_tx-IsDense :
      (gid uid : String) → Ends IsDense (quit_tx new_uuid marshal gid uid) (Committed IsDense)
  unfolding quit_tx
  quit_tx-IsDense gid uid = Ends-bind _ _ (Keeps-Ends _ (get_member_role-IsDense gid uid)) λ seen.
      Ends-bind _ _ (Keeps-Ends _ (refuse_if-IsDense _ _)) λ u.
        Ends-bind _ _ (Keeps-Ends _ (refuse_if-IsDense _ _)) λ v.
          Ends-bind _ _ (Keeps-Ends _ (mark_left-IsDense gid uid)) λ n.
            Ends-bind _ _ (Keeps-Ends _ (recount-IsDense gid)) λ w.
              Ends-bind _ _ (Keeps-Ends _ (delete_member-IsDense gid uid)) λ x.
                Ends-bind _ _ (event-IsDense new_uuid gid uid _)
                  λ msg_id. Ends-pure (commit_with msg_id) (λ db d. d)

  apply-IsDense :
      (gid operator : String) (c : Change)
      → Keeps (On IsDense) (apply new_uuid marshal gid operator c)
  unfolding apply add_members remove_member rename set_announcement set_pin dismiss
  apply-IsDense gid operator (join []) = search keeps_rules
  apply-IsDense gid operator (join (uid ∷ uids)) =
      mutate-IsDense gid operator _ _ _ (join_change-IsDense gid (uid ∷ uids))
  apply-IsDense gid operator (kick target) = Keeps-bind _ _ (get_group-IsDense gid) λ g.
      Keeps-if (g.owner_uid == target) _ _ (Keeps-raise bad_target)
        (mutate-IsDense gid operator _ _ _ (kick_change-IsDense gid target))
  apply-IsDense gid operator (rename_to name) =
      Keeps-if (name == "") _ _ (Keeps-raise bad_target)
        (mutate-IsDense gid operator _ _ _ (set_group-IsDense gid _))
  apply-IsDense gid operator (announce content) =
      mutate-IsDense gid operator _ _ _ (set_group-IsDense gid _)
  apply-IsDense gid operator (pin msg_id) =
      mutate-IsDense gid operator _ _ _ (set_group-IsDense gid _)
  apply-IsDense gid operator dissolve = mutate-IsDense gid operator _ _ _ (set_group-IsDense gid _)

  perform-Numbered : (c : Call) → Keeps (On IsDense) (perform new_uuid marshal c)
  unfolding perform create_group quit
  perform-Numbered (create id_gen owner_uid name uids) =
      Keeps-bind _ _
        (Keeps-if (owner_uid == "" || name == "") _ _ (Keeps-raise bad_target) (
          Keeps-bind _ _ (Keeps-or_raise id_gen _)
            (λ gid. Ends-Keeps _ (create_tx-IsDense gid owner_uid name uids))))
        (λ u. Keeps-pure tt)
  perform-Numbered (leave gid uid) =
      Keeps-bind _ _ (Ends-Keeps _ (quit_tx-IsDense gid uid)) (λ u. Keeps-pure tt)
  perform-Numbered (manage gid operator c) =
      Keeps-bind _ _ (apply-IsDense gid operator c) (λ u. Keeps-pure tt)

  -- Every call that changes a group, whatever its statements meet, keeps the sequence numbers of all
  -- conversations at 1, 2, 3 and so on up to their counters.
  pub perform-IsDense :
      (c : Call) (s : Session) → IsDense s.db → IsDense (perform new_uuid marshal c s).1.db
  perform-IsDense c s d = (perform-Numbered c).at s d
