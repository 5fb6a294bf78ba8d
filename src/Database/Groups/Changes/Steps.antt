-- ===== src/Database/Groups/Changes/Steps.antt =====
-- database/group.go: the statements of a group's changes leave the messages and their numbers alone.
use alfred_brave_com.Base.{String, Bool, true, false, List, [], ◌∷◌, arith, ◌==◌}
use alfred_brave_com.Base.Errors.{Error}
use alfred_brave_com.Base.Exec.{Keeps, keeps_rules, Keeps-bind, Keeps-pure, Keeps-if}
use alfred_brave_com.Database.{Group, Role, member, Db, statement, select}
use alfred_brave_com.Database.Rules.{On, Keeps-select, Keeps-select_one}
use alfred_brave_com.Database.Conversations.{insert_member_once}
use alfred_brave_com.Database.Sequence.{IsDense, Keeps-still}
use alfred_brave_com.Database.Single.{insert_conversation-IsDense}
use alfred_brave_com.Database.Groups.{get_group}
use alfred_brave_com.Database.Groups.Rows.{
  insert_group, insert_group_member, upsert_group_member, update_group, recount, mark_left,
  delete_member, get_member_role,
}
use alfred_brave_com.Database.Groups.Changes.{
  refuse_if, add_rows, newcomers, join_change, kick_change, set_group, member_rows,
  conversation_rows,
}

pub insert_group-IsDense : (g : Group) → Keeps (On IsDense) (statement (insert_group g))
insert_group-IsDense g =
    Keeps-still (insert_group g) (λ db u db' h. unfold insert_group in (ground arith))

pub insert_group_member-IsDense :
    (gid uid : String) (role : Role)
    → Keeps (On IsDense) (statement (insert_group_member gid uid role))
insert_group_member-IsDense gid uid role =
    Keeps-still (insert_group_member gid uid role)
      (λ db u db' h. unfold insert_group_member in (ground arith))

upsert-IsDense : (gid uid : String) → Keeps (On IsDense) (statement (upsert_group_member gid uid))
upsert-IsDense gid uid =
    Keeps-still (upsert_group_member gid uid)
      (λ db u db' h. unfold upsert_group_member in (ground arith))

update_group-IsDense :
    (gid : String) (f : Group → Group) → Keeps (On IsDense) (statement (update_group gid f))
update_group-IsDense gid f =
    Keeps-still (update_group gid f) (λ db u db' h. unfold update_group in (ground arith))

pub recount-IsDense : (gid : String) → Keeps (On IsDense) (statement (recount gid))
recount-IsDense gid = Keeps-still (recount gid) (λ db u db' h. unfold recount in (ground arith))

pub mark_left-IsDense : (gid uid : String) → Keeps (On IsDense) (statement (mark_left gid uid))
mark_left-IsDense gid uid =
    Keeps-still (mark_left gid uid) (λ db n db' h. unfold mark_left in (ground arith))

pub delete_member-IsDense :
    (gid uid : String) → Keeps (On IsDense) (statement (delete_member gid uid))
delete_member-IsDense gid uid =
    Keeps-still (delete_member gid uid) (λ db u db' h. unfold delete_member in (ground arith))

insert_member_once-IsDense :
    (gid uid : String) → Keeps (On IsDense) (statement (insert_member_once gid uid))
insert_member_once-IsDense gid uid =
    Keeps-still (insert_member_once gid uid)
      (λ db u db' h. unfold insert_member_once in (ground arith))

pub get_member_role-IsDense :
    (gid uid : String) → Keeps (On IsDense) (statement (get_member_role gid uid))
unfolding get_member_role
get_member_role-IsDense gid uid = Keeps-select_one IsDense _

pub get_group-IsDense : (gid : String) → Keeps (On IsDense) (get_group gid)
unfolding get_group
get_group-IsDense gid = Keeps-select_one IsDense _

select-IsDense : {A : Type 0} (f : Db → A) → Keeps (On IsDense) (statement (select f))
select-IsDense f = Keeps-select IsDense f

pub refuse_if-IsDense : (b : Bool) (e : Error) → Keeps (On IsDense) (refuse_if b e)
unfolding refuse_if
refuse_if-IsDense true e = search keeps_rules
refuse_if-IsDense false e = search keeps_rules

ruleset row_rules = (
  keeps_rules, insert_group-IsDense, insert_group_member-IsDense, upsert-IsDense,
  update_group-IsDense, recount-IsDense, mark_left-IsDense, delete_member-IsDense,
  insert_member_once-IsDense, insert_conversation-IsDense, get_member_role-IsDense,
  get_group-IsDense, select-IsDense, refuse_if-IsDense,
)

add_rows-IsDense : (gid : String) (uids : List String) → Keeps (On IsDense) (add_rows gid uids)
unfolding add_rows
add_rows-IsDense gid [] = search keeps_rules
add_rows-IsDense gid (uid ∷ uids) =
    Keeps-bind _ _ (upsert-IsDense gid uid)
      λ u. Keeps-bind _ _ (insert_member_once-IsDense gid uid) (λ v. add_rows-IsDense gid uids)

newcomers-IsDense : (gid : String) (uids : List String) → Keeps (On IsDense) (newcomers gid uids)
unfolding newcomers
newcomers-IsDense gid [] = search keeps_rules
newcomers-IsDense gid (uid ∷ uids) =
    Keeps-bind _ _ (select-IsDense _)
      λ here. Keeps-bind _ _ (newcomers-IsDense gid uids) (λ rest. Keeps-pure _)

pub member_rows-IsDense :
    (gid owner_uid : String) (uids : List String)
    → Keeps (On IsDense) (member_rows gid owner_uid uids)
unfolding member_rows
member_rows-IsDense gid owner_uid [] = search keeps_rules
member_rows-IsDense gid owner_uid (uid ∷ uids) =
    Keeps-bind _ _
      (Keeps-if (uid == owner_uid) _ _ (Keeps-pure [])
        (Keeps-bind _ _ (insert_group_member-IsDense gid uid member) (λ u. Keeps-pure _)))
      λ joined. Keeps-bind _ _ (member_rows-IsDense gid owner_uid uids) (λ rest. Keeps-pure _)

pub conversation_rows-IsDense :
    (gid : String) (uids : List String) → Keeps (On IsDense) (conversation_rows gid uids)
unfolding conversation_rows
conversation_rows-IsDense gid [] = search keeps_rules
conversation_rows-IsDense gid (uid ∷ uids) =
    Keeps-bind _ _ (insert_member_once-IsDense gid uid) (λ u. conversation_rows-IsDense gid uids)

pub join_change-IsDense :
    (gid : String) (uids : List String) → Keeps (On IsDense) (join_change gid uids)
unfolding join_change
join_change-IsDense gid uids = search (row_rules, add_rows-IsDense, newcomers-IsDense) depth 20

pub kick_change-IsDense : (gid target : String) → Keeps (On IsDense) (kick_change gid target)
unfolding kick_change
kick_change-IsDense gid target = search row_rules depth 20

pub set_group-IsDense : (gid : String) (f : Group → Group) → Keeps (On IsDense) (set_group gid f)
unfolding set_group
set_group-IsDense gid f = search row_rules
