-- ===== src/Database/Groups/Changes/Events.antt =====
-- database/group.go: the message of a group's event.
use alfred_brave_com.Base.{
  ℕ, ◌≡◌, refl, ◌∙◌, subst, String, false, some, List, [], ◌∷◌, arith, eq_refl, find, exists,
  find-append, exists-find, ◌==◌, both_ways,
}
use alfred_brave_com.Base.Errors.{bad_target}
use alfred_brave_com.Base.Exec.{Result, ok, Exec, ok-injective}
use alfred_brave_com.Chat.{MsgType}
use alfred_brave_com.Database.{Db, Session, Message, commit_with}
use alfred_brave_com.Database.Ends.{
  Ends, Ends-bind, Ends-pure, Ends-statement, Ends-raise, Ends-if, Ends-transaction,
}
use alfred_brave_com.Database.Messages.{insert_message, message_clashes, raise_last_seq, has_msg_id}
use alfred_brave_com.Database.Groups.{insert_system_event}
use alfred_brave_com.Database.Groups.Changes.{
  Field, owner_tx, mutate_as_owner, add_members, remove_member, rename, set_announcement, set_pin,
  dismiss,
}
use alfred_brave_com.Database.Groups.Changes.Calls.{
  Change, join, kick, rename_to, announce, pin, dissolve, apply,
}

-- The first message with the id is an event of the group that the actor has caused.
pub record IsStored (gid actor msg_id : String) (db : Db) : Type 0 where
  pub row : Message
  pub found : find (has_msg_id msg_id) db.messages ≡ some row
  pub conv_id : row.conv_id ≡ gid
  pub type : row.type ≡ MsgType.system_event
  pub from_uid : row.from_uid ≡ actor

abbrev Anything : Db → Type 0
Anything db = Unit

Anything-Ends : {A : Type 0} (m : Exec Session A) → Ends Anything m (λ a db. Anything db)
Anything-Ends m = record { at = λ s a h e. tt }

no_clash :
    (m : Message) (rows : List Message)
    → exists (message_clashes m) rows ≡ false
    → exists (has_msg_id m.msg_id) rows ≡ false
unfolding exists message_clashes has_msg_id
no_clash m [] h = refl
no_clash m (n ∷ rows) h = ground (arith, h, no_clash m rows)

insert_message-IsStored :
    (m : Message) (db db' : Db) (u : Unit {0})
    → m.type ≡ MsgType.system_event
    → insert_message m db ≡ ok (u, db')
    → IsStored m.conv_id m.from_uid m.msg_id db'
unfolding insert_message has_msg_id find
insert_message-IsStored m db db' u event =
    both_ways
      (λ (r : Result (Unit {0} × Db)). r ≡ ok (u, db') → IsStored m.conv_id m.from_uid m.msg_id db')
      (exists (message_clashes m) db.messages) _ _ (λ clash e. cc)
      (λ new e.
        subst (λ (p : Unit {0} × Db). IsStored m.conv_id m.from_uid m.msg_id p.1) (ok-injective e)
          (record {
            row = m;
            found =
                find-append (has_msg_id m.msg_id) db.messages (m ∷ [])
                ∙ rw
                    (
                      exists-find (has_msg_id m.msg_id) db.messages (no_clash m db.messages new),
                      eq_refl m.msg_id,
                    )
                    refl;
            conv_id = refl;
            type = event;
            from_uid = refl;
          }))

raise_last_seq-IsStored :
    (gid actor msg_id : String) (seq : ℕ) (db db' : Db) (u : Unit {0})
    → IsStored gid actor msg_id db
    → raise_last_seq gid seq db ≡ ok (u, db')
    → IsStored gid actor msg_id db'
unfolding raise_last_seq
raise_last_seq-IsStored gid actor msg_id seq db db' u stored e =
    subst (λ (p : Unit {0} × Db). IsStored gid actor msg_id p.1) (ok-injective e)
      (record {
        row = stored.row;
        found = stored.found;
        conv_id = stored.conv_id;
        type = stored.type;
        from_uid = stored.from_uid;
      })

module _ (new_uuid : ℕ → String) where
  event-IsStored :
      (gid actor content : String)
      → Ends Anything
          (insert_system_event new_uuid gid actor content)
          (λ msg_id db. IsStored gid actor msg_id db)
  unfolding insert_system_event
  event-IsStored gid actor content = Ends-bind _ _ (Anything-Ends _) λ seq.
      Ends-bind _ _ (Anything-Ends _) λ msg_id.
        Ends-bind {R = λ u db. IsStored gid actor msg_id db} _ _
          (Ends-statement (insert_message _)
            λ db u db' h e. insert_message-IsStored _ db db' u refl e)
          λ u.
            Ends-bind {R = λ v db. IsStored gid actor msg_id db} _ _
              (Ends-statement (raise_last_seq gid seq)
                λ db v db' h e. raise_last_seq-IsStored gid actor msg_id seq db db' v h e)
              λ v. Ends-pure msg_id λ db h. h

module _ (new_uuid : ℕ → String) (marshal : List (String × Field) → String) where
  mutate-IsStored :
      (gid operator event : String) (change : Exec Session (Unit {0}))
      (extra : List (String × Field))
      → Ends Anything
          (mutate_as_owner new_uuid marshal gid operator event change extra)
          (λ msg_id db. IsStored gid operator msg_id db)
  unfolding mutate_as_owner owner_tx
  mutate-IsStored gid operator event change extra = Ends-transaction _ (
      Ends-bind _ _ (Anything-Ends _) λ g. Ends-bind _ _ (Anything-Ends _) λ u.
        Ends-bind _ _ (event-IsStored new_uuid gid operator _)
          λ msg_id. Ends-pure (commit_with msg_id) λ db h. h)

  -- Each of the owner's operations, whenever it returns, has stored the event whose id it returns.
  pub apply-IsStored :
      (gid operator : String) (c : Change)
      → Ends Anything
          (apply new_uuid marshal gid operator c)
          (λ msg_id db. IsStored gid operator msg_id db)
  unfolding apply add_members remove_member rename set_announcement set_pin dismiss
  apply-IsStored gid operator (join []) = Ends-raise bad_target
  apply-IsStored gid operator (join (uid ∷ uids)) = mutate-IsStored gid operator _ _ _
  apply-IsStored gid operator (kick target) = Ends-bind _ _ (Anything-Ends _) λ g.
      Ends-if (g.owner_uid == target) _ _ (Ends-raise bad_target)
        (mutate-IsStored gid operator _ _ _)
  apply-IsStored gid operator (rename_to name) =
      Ends-if (name == "") _ _ (Ends-raise bad_target) (mutate-IsStored gid operator _ _ _)
  apply-IsStored gid operator (announce content) = mutate-IsStored gid operator _ _ _
  apply-IsStored gid operator (pin msg_id) = mutate-IsStored gid operator _ _ _
  apply-IsStored gid operator dissolve = mutate-IsStored gid operator _ _ _
