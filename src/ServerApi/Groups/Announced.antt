-- ===== src/ServerApi/Groups/Announced.antt =====
-- server/api/group.go: the event that goes into chat.msg behind a change of a group.
use alfred_brave_com.Base.{◌≡◌, refl, ap, ◌∙◌, subst, String, Option, none, some, ◌==◌, both_ways}
use mathlib.Core.Option.{some-injective}
use alfred_brave_com.Base.Exec.{Result, ok, err}
use alfred_brave_com.Chat.{Msg, MsgType}
use alfred_brave_com.Abort.{answered, Handler, call, abort, answer, continue, answered-injective}
use alfred_brave_com.Database.{Db, Session}
use alfred_brave_com.Database.Groups.Changes.Calls.{Change, apply}
use alfred_brave_com.Database.Groups.Changes.Events.{IsStored, apply-IsStored}
use alfred_brave_com.ServerApi.Groups.{
  Gateway, Mutation, Payload, Request, checked, manage, manage_checked, respond_group_mutation,
  mutation_refusal, emit_group_event, group_event,
}

-- The event of an answer, if it has one, is a message that is stored.
pub record IsAnnounced (gid uid : String) (e : Msg) (db : Db) : Type 0 where
  pub stored : IsStored gid uid e.msg_id db
  pub conv_id : e.conv_id ≡ gid
  pub from_uid : e.from_uid ≡ uid
  pub type : e.type ≡ MsgType.system_event

module _ (g : Gateway) where
  emitted :
      (gid uid msg_id : String) (e : Msg) (db : Db)
      → IsStored gid uid msg_id db
      → emit_group_event g gid uid msg_id ≡ some e
      → IsAnnounced gid uid e db
  unfolding emit_group_event
  emitted gid uid msg_id e db stored =
      both_ways (λ (o : Option Msg). o ≡ some e → IsAnnounced gid uid e db) (msg_id == "") none _
        (λ empty x. cc)
        (λ full.
          both_ways (λ (o : Option Msg). o ≡ some e → IsAnnounced gid uid e db) g.has_producer
            (some (group_event g gid uid msg_id)) none
            (λ there x.
              subst (λ (m : Msg). IsAnnounced gid uid m db)
                (some-injective (group_event g gid uid msg_id) e x)
                (record { stored = stored; conv_id = refl; from_uid = refl; type = refl }))
            (λ gone x. cc))

  abbrev answer_with : String → String → Payload → String → Handler Mutation
  answer_with gid uid payload msg_id =
      answer (record { gid = gid; payload = payload; event = emit_group_event g gid uid msg_id })

  responded :
      (gid uid : String) (payload : Payload) (r : Result String) (s : Session) (m : Mutation)
      (e : Msg)
      → ((msg_id : String) → r ≡ ok msg_id → IsStored gid uid msg_id s.db)
      → (continue mutation_refusal (answer_with gid uid payload) r s).0 ≡ answered m
      → m.event ≡ some e
      → IsAnnounced gid uid e (continue mutation_refusal (answer_with gid uid payload) r s).1.db
  unfolding answer
  responded gid uid payload (ok msg_id) s m e stored same event =
      emitted gid uid msg_id e s.db (stored msg_id refl)
        (ap (λ (x : Mutation). x.event) (answered-injective _ m same) ∙ event)
  responded gid uid payload (err x) s m e stored same event = cc

  manage_checked-IsAnnounced :
      (uid gid : String) (o : Option (Change × Payload)) (s : Session) (m : Mutation) (e : Msg)
      → (manage_checked g uid gid o s).0 ≡ answered m
      → m.event ≡ some e
      → IsAnnounced gid uid e (manage_checked g uid gid o s).1.db
  unfolding manage_checked respond_group_mutation call abort
  manage_checked-IsAnnounced uid gid none s m e = λ same event. cc
  manage_checked-IsAnnounced uid gid (some (change, payload)) s m e =
      responded gid uid payload (apply g.new_uuid g.marshal gid uid change s).0
        (apply g.new_uuid g.marshal gid uid change s).1 m e
        λ msg_id got. (apply-IsStored g.new_uuid g.marshal gid uid change).at s msg_id tt got

  -- The event that an answered request of a group's owner hands to the producer of chat.msg is one of
  -- that group with that user as its sender, and the tables hold a message of that group by that user
  -- under its id.
  pub manage-IsAnnounced :
      (uid gid : String) (request : Request) (s : Session) (m : Mutation) (e : Msg)
      → (manage g uid gid request s).0 ≡ answered m
      → m.event ≡ some e
      → IsAnnounced gid uid e (manage g uid gid request s).1.db
  unfolding manage
  manage-IsAnnounced uid gid request s m e =
      manage_checked-IsAnnounced uid gid (checked request) s m e
