-- ===== src/ServerApi/Groups/Barred.antt =====
-- server/api/group.go: what a request gets that the group's rules refuse.
use alfred_brave_com.Base.{◌≡◌, refl, String, Option, none, some}
use alfred_brave_com.Base.Exec.{Result, ok, err, ok-ne-err}
use alfred_brave_com.Abort.{Abort, aborted, Handler, call, abort, Answer, continue, bad_request}
use alfred_brave_com.Database.{Db, Session}
use alfred_brave_com.Database.Groups.Changes.Calls.{Change, apply}
use alfred_brave_com.Database.Groups.Changes.Refusals.{IsBarred, IsRefused, apply_barred}
use alfred_brave_com.ServerApi.Groups.{
  Gateway, Mutation, Payload, Request, checked, manage, manage_checked, respond_group_mutation,
  mutation_refusal,
}

-- The request is aborted, so that no event is handed to the producer, and the tables are as before.
pub record IsTurnedAway (before : Db) (end : Answer Mutation × Session) : Type 0 where
  pub reason : Abort
  pub answer : end.0 ≡ aborted reason
  pub unchanged : end.1.db ≡ before

refused-IsTurnedAway :
    (k : String → Handler Mutation) (r : Result String) (before : Db) (s : Session)
    → IsRefused before (r, s)
    → IsTurnedAway before (continue mutation_refusal k r s)
refused-IsTurnedAway k (ok a) before s b = absurd (ok-ne-err b.failed)
refused-IsTurnedAway k (err e) before s b = record {
  reason = mutation_refusal e;
  answer = refl;
  unchanged = b.unchanged;
}

module _ (g : Gateway) where
  manage_checked-IsTurnedAway :
      (uid gid : String) (o : Option (Change × Payload)) (s : Session)
      → IsBarred gid uid s.db
      → IsTurnedAway s.db (manage_checked g uid gid o s)
  unfolding manage_checked respond_group_mutation call abort
  manage_checked-IsTurnedAway uid gid none s barred = record {
    reason = bad_request;
    answer = refl;
    unchanged = refl;
  }
  manage_checked-IsTurnedAway uid gid (some (change, payload)) s barred =
      let b = apply_barred g.new_uuid g.marshal gid uid change s barred in
      refused-IsTurnedAway _ (apply g.new_uuid g.marshal gid uid change s).0 s.db
        (apply g.new_uuid g.marshal gid uid change s).1 b

  -- Where the group is dismissed or the user is not its owner, each of the six requests that are the
  -- owner's (to add or to take out members, to rename, to announce, to pin and to dissolve) is
  -- aborted, with no event for chat.msg and the tables as they were, whatever the statements meet.
  pub manage-IsTurnedAway :
      (uid gid : String) (request : Request) (s : Session)
      → IsBarred gid uid s.db
      → IsTurnedAway s.db (manage g uid gid request s)
  unfolding manage
  manage-IsTurnedAway uid gid request s barred =
      manage_checked-IsTurnedAway uid gid (checked request) s barred
