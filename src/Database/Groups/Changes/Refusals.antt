-- ===== src/Database/Groups/Changes/Refusals.antt =====
-- database/group.go: what the owner's operations refuse.
use alfred_brave_com.Base.{
  ℕ, ◌≡◌, refl, sym, ◌∙◌, ap, subst, ◌≢◌, ◌⊎◌, inl, inr, String, Bool, true, false, some, List, [],
  ◌∷◌, find, text_cases, ◌==◌, if◌then◌else◌,
}
use mathlib.Core.Option.{some-injective}
use alfred_brave_com.Base.Errors.{Error, driver, bad_target, group_dismissed, not_owner}
use alfred_brave_com.Base.Exec.{Result, ok, err, Exec, raise, ◌>>=◌, resume}
use alfred_brave_com.Database.{
  Group, dismissed, Db, Session, Fate, answered, refused, lost, next_fate, Ending, begun, finish,
  transaction,
}
use alfred_brave_com.Database.Rules.{Keeps-select_one}
use alfred_brave_com.Database.Ends.{Ends, Ends-bind, Ends-if, Ends-raise, Ends-select_one}
use alfred_brave_com.Database.Groups.{has_gid, get_group}
use alfred_brave_com.Database.Groups.Changes.{
  Field, text, kick_change, is_dismissed, guarded, owner_tx, mutate_as_owner, add_members,
  remove_member, rename, set_announcement, set_pin, dismiss,
}
use alfred_brave_com.Database.Groups.Changes.Calls.{
  Change, join, kick, rename_to, announce, pin, dissolve, apply,
}

-- The call has failed and the tables are as before.
pub record IsRefused {A : Type 0} (before : Db) (end : Result A × Session) : Type 0 where
  pub error : Error
  pub failed : end.0 ≡ err error
  pub unchanged : end.1.db ≡ before

module _ {A : Type 0} where
  finish-IsRefused :
      (r : Result (Ending A)) (before : Db) (s : Session)
      → ((x : Ending A) → r ≢ ok x)
      → IsRefused before (finish r before s)
  unfolding finish
  finish-IsRefused (ok x) before s never = absurd (never x refl)
  finish-IsRefused (err e) before s never = record { error = e; failed = refl; unchanged = refl }

  begun-IsRefused :
      (f : Fate) (m : Exec Session (Ending A)) (s : Session)
      → Ends (λ db. s.db ≡ db) m (λ x db. ⊥)
      → IsRefused s.db (begun f m s)
  unfolding begun
  begun-IsRefused answered m s k = finish-IsRefused (m s).0 s.db (m s).1 (λ x e. k.at s x refl e)
  begun-IsRefused refused m s k = record { error = driver; failed = refl; unchanged = refl }
  begun-IsRefused lost m s k = record { error = driver; failed = refl; unchanged = refl }

  -- A transaction whose body never comes to its end.
  transaction-IsRefused :
      (m : Exec Session (Ending A)) (s : Session)
      → Ends (λ db. s.db ≡ db) m (λ x db. ⊥)
      → IsRefused s.db (transaction m s)
  unfolding transaction
  transaction-IsRefused m s k = begun-IsRefused (next_fate s.fates).0 m _ k

-- The operator may not change the group: it is dismissed, or another user owns it.
pub record IsBarred (gid operator : String) (db : Db) : Type 0 where
  pub group : Group
  pub found : find (has_gid gid) db.groups ≡ some group
  pub reason : (group.status ≡ dismissed) ⊎ (group.owner_uid ≢ operator)

guarded_barred :
    {P : Db → Type 0} (gid operator : String) (g : Group) (step : Exec Session (Unit {0}))
    → (g.status ≡ dismissed) ⊎ (g.owner_uid ≢ operator)
    → Ends P (guarded gid operator g step) (λ u db. ⊥)
unfolding guarded is_dismissed
guarded_barred gid operator g step (inl gone) = rw gone (Ends-raise group_dismissed)
guarded_barred gid operator g step (inr other) = elim (text_cases g.owner_uid operator) [
  | inl same ↦ absurd (other same)
  | inr (ne, off) ↦
      rw off
        (Ends-if (is_dismissed g.status) _ _ (Ends-raise group_dismissed) (Ends-raise not_owner))
]

module _ (new_uuid : ℕ → String) (marshal : List (String × Field) → String) where
  mutate_barred :
      (gid operator event : String) (step : Exec Session (Unit {0})) (extra : List (String × Field))
      (s : Session)
      → IsBarred gid operator s.db
      → IsRefused s.db (mutate_as_owner new_uuid marshal gid operator event step extra s)
  unfolding mutate_as_owner owner_tx
  mutate_barred gid operator event step extra s b = transaction-IsRefused _ s (
      Ends-bind _ _ (Ends-select_one (λ db. find (has_gid gid) db.groups)) λ g.
        Ends-bind {R = λ u db. ⊥} _ _
          (record {
            at = λ s' u h e.
                (guarded_barred {P = λ db. Unit {0}} gid operator g step (
                    same_reason b.group g
                      (some-injective b.group g
                        (sym b.found ∙ ap (λ d. find (has_gid gid) d.groups) h.0 ∙ h.1))
                      b.reason)).at
                  s' u tt e;
          })
          λ u. record { at = λ s' x h e. absurd h })
    where
      same_reason :
          (g g' : Group)
          → g ≡ g'
          → (g.status ≡ dismissed) ⊎ (g.owner_uid ≢ operator)
          → (g'.status ≡ dismissed) ⊎ (g'.owner_uid ≢ operator)
      same_reason g g' e r = subst (λ x. (x.status ≡ dismissed) ⊎ (x.owner_uid ≢ operator)) e r

  get_group_reads : (gid : String) (s : Session) → s.db ≡ (get_group gid s).1.db
  unfolding get_group
  get_group_reads gid s =
      (Keeps-select_one (λ db. s.db ≡ db) (λ db. find (has_gid gid) db.groups)).at s refl

  if_IsRefused :
      {A : Type 0} (test : Bool) (before : Db) (m n : Exec Session A) (s : Session)
      → IsRefused before (m s)
      → IsRefused before (n s)
      → IsRefused before ((if test then m else n) s)
  if_IsRefused true before m n s first second = first
  if_IsRefused false before m n s first second = second

  kick_barred :
      (gid operator target : String) (r : Result Group) (s' s : Session)
      → s'.db ≡ s.db
      → IsBarred gid operator s.db
      → IsRefused s.db (
          resume
            (λ g.
              if g.owner_uid == target
              then raise bad_target
              else mutate_as_owner new_uuid marshal gid operator "member_kick"
                  (kick_change gid target)
                  (("target", text target) ∷ []))
            r
            s')
  unfolding raise
  kick_barred gid operator target (err e) s' s same b = record {
    error = e;
    failed = refl;
    unchanged = same;
  }
  kick_barred gid operator target (ok g) s' s same b =
      if_IsRefused (g.owner_uid == target) s.db _ _ s'
        (record { error = bad_target; failed = refl; unchanged = same })
        (let refused_there =
            mutate_barred gid operator "member_kick" (kick_change gid target)
              (("target", text target) ∷ []) s' (subst (IsBarred gid operator) (sym same) b) in
          record {
            error = refused_there.error;
            failed = refused_there.failed;
            unchanged = refused_there.unchanged ∙ same;
          })

  -- Where the group is dismissed or the operator is not its owner, each of the owner's operations
  -- fails and leaves the tables as they were, whatever its statements meet.
  pub apply_barred :
      (gid operator : String) (c : Change) (s : Session)
      → IsBarred gid operator s.db
      → IsRefused s.db (apply new_uuid marshal gid operator c s)
  unfolding apply add_members remove_member rename set_announcement set_pin dismiss raise ◌>>=◌
  apply_barred gid operator (join []) s b = record {
    error = bad_target;
    failed = refl;
    unchanged = refl;
  }
  apply_barred gid operator (join (uid ∷ uids)) s b = mutate_barred gid operator _ _ _ s b
  apply_barred gid operator (kick target) s b =
      kick_barred gid operator target (get_group gid s).0 (get_group gid s).1 s
        (sym (get_group_reads gid s)) b
  apply_barred gid operator (rename_to name) s b =
      if_IsRefused (name == "") s.db _ _ s
        (record { error = bad_target; failed = refl; unchanged = refl })
        (mutate_barred gid operator _ _ _ s b)
  apply_barred gid operator (announce content) s b = mutate_barred gid operator _ _ _ s b
  apply_barred gid operator (pin msg_id) s b = mutate_barred gid operator _ _ _ s b
  apply_barred gid operator dissolve s b = mutate_barred gid operator _ _ _ s b
