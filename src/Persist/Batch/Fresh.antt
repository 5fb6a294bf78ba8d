-- ===== src/Persist/Batch/Fresh.antt =====
-- worker/persist/persist.go, handleSingleBatch: the messages that are left after those of the batch
-- that come twice and those that are stored already are taken out.
use alfred_brave_com.Base.{
  ℕ, ◌≡◌, refl, String, Bool, true, false, ◌||◌, Option, none, some, List, [], ◌∷◌, ◌++◌, map,
  arith, keep, find, exists, contains, All, eq_iff, eq_refl, ◌==◌,
}
use alfred_brave_com.Chat.{Msg}
use alfred_brave_com.Database.{Message}
use alfred_brave_com.Database.Messages.{has_msg_id}
use alfred_brave_com.Persist.{stored_row, marshal}
use alfred_brave_com.Persist.Batch.{unique, fresh_of}
use alfred_brave_com.Persist.Batch.Numbers.{AreNew}

-- Ids that differ from each other and from those seen.
abbrev AreApart : List String → List Msg → Type 0
AreApart seen [] = Unit
AreApart seen (m ∷ ms) = (contains m.msg_id seen ≡ false) × AreApart (m.msg_id ∷ seen) ms

unique-AreApart : (seen : List String) (ms : List Msg) → AreApart seen (unique seen ms)
unfolding unique contains
unique-AreApart seen [] = tt
unique-AreApart seen (m ∷ ms) =
    ground (arith, unique-AreApart seen ms, unique-AreApart (m.msg_id ∷ seen) ms)

AreApart-fewer :
    (seen fewer : List String) (ms : List Msg)
    → ((x : String) → contains x seen ≡ false → contains x fewer ≡ false)
    → AreApart seen ms
    → AreApart fewer ms
unfolding contains
AreApart-fewer seen fewer [] h a = tt
AreApart-fewer seen fewer (m ∷ ms) h a = (
  h m.msg_id a.0,
  AreApart-fewer (m.msg_id ∷ seen) (m.msg_id ∷ fewer) ms (λ x e. ground (arith, h x)) a.1,
)

fresh_of-AreApart :
    (rows : List Message) (seen : List String) (ms : List Msg)
    → AreApart seen ms
    → AreApart seen (fresh_of rows ms)
unfolding fresh_of
fresh_of-AreApart rows seen [] a = tt
fresh_of-AreApart rows seen (m ∷ ms) a =
    fresh_cases (find (has_msg_id m.msg_id) rows) (fresh_of-AreApart rows (m.msg_id ∷ seen) ms a.1)
  where
    fresh_cases :
        (o : Option Message)
        → AreApart (m.msg_id ∷ seen) (fresh_of rows ms)
        → AreApart seen (elim o [ none ↦ m ∷ fresh_of rows ms | some row ↦ fresh_of rows ms ])
    fresh_cases none rest = (a.0, rest)
    fresh_cases (some row) rest =
        AreApart-fewer (m.msg_id ∷ seen) seen (fresh_of rows ms)
          (λ x e. unfold contains in (ground arith)) rest

-- No stored message has the id.
abbrev IsAbsent : List Message → Msg → Type 0
IsAbsent stored m = exists (has_msg_id m.msg_id) stored ≡ false

exists-append_one :
    (p : Message → Bool) (rows : List Message) (r : Message)
    → exists p (rows ++ r ∷ []) ≡ (exists p rows || p r)
unfolding exists
exists-append_one p [] r = ground arith
exists-append_one p (x ∷ rows) r = ground (arith, exists-append_one p rows r)

are_new :
    (before : List Message) (ms : List Msg) (stored : List Message) (seen : List String)
    → AreApart seen ms
    → All (IsAbsent before) ms
    → ((x : String)
        → contains x seen ≡ false
        → exists (has_msg_id x) before ≡ false
        → exists (has_msg_id x) stored ≡ false)
    → AreNew ms stored
unfolding contains stored_row
are_new before [] stored seen a absent h = tt
are_new before (m ∷ ms) stored seen a absent h = (
  h m.msg_id a.0 absent.0,
  λ seq.
      are_new before ms (stored ++ stored_row m seq (marshal m.content) ∷ []) (m.msg_id ∷ seen) a.1
        absent.1
        λ x e absent_before. ground (
          arith,
          h x,
          has_id x m seq,
          exists-append_one (has_msg_id x) stored (stored_row m seq (marshal m.content)),
        ),
)
  where
    has_id :
        (x : String) (m : Msg) (seq : ℕ)
        → has_msg_id x (stored_row m seq (marshal m.content)) ≡ (m.msg_id == x)
    has_id x m seq = unfold has_msg_id in refl

not_kept :
    (x : String) (ids : List String) (stored : List Message)
    → contains x ids ≡ true
    → find (has_msg_id x) (keep (λ r. contains r.msg_id ids) stored) ≡ none
    → exists (has_msg_id x) stored ≡ false
unfolding find keep exists has_msg_id
not_kept x ids [] listed h = refl
not_kept x ids (r ∷ stored) listed h = ground (arith, eq_iff r.msg_id x, not_kept x ids stored)

All-listed :
    (ms : List Msg) (ids : List String)
    → ((x : String) → contains x (map (λ m. m.msg_id) ms) ≡ true → contains x ids ≡ true)
    → All (λ m. contains m.msg_id ids ≡ true) ms
unfolding contains
All-listed [] ids h = tt
All-listed (m ∷ ms) ids h = (
  h m.msg_id (ground (arith, eq_refl m.msg_id)),
  All-listed ms ids (λ x e. h x (ground (arith, e))),
)

fresh_of-IsAbsent :
    (ids : List String) (stored : List Message) (ms : List Msg)
    → All (λ m. contains m.msg_id ids ≡ true) ms
    → All (IsAbsent stored) (fresh_of (keep (λ r. contains r.msg_id ids) stored) ms)
unfolding fresh_of
fresh_of-IsAbsent ids stored [] listed = tt
fresh_of-IsAbsent ids stored (m ∷ ms) listed =
    absent_cases (find (has_msg_id m.msg_id) (keep (λ r. contains r.msg_id ids) stored)) refl
      (fresh_of-IsAbsent ids stored ms listed.1)
  where
    absent_cases :
        (o : Option Message)
        → find (has_msg_id m.msg_id) (keep (λ r. contains r.msg_id ids) stored) ≡ o
        → All (IsAbsent stored) (fresh_of (keep (λ r. contains r.msg_id ids) stored) ms)
        → All (IsAbsent stored) (elim o [
          | none ↦ m ∷ fresh_of (keep (λ r. contains r.msg_id ids) stored) ms
          | some row ↦ fresh_of (keep (λ r. contains r.msg_id ids) stored) ms
        ])
    absent_cases none e rest = (not_kept m.msg_id ids stored listed.0 e, rest)
    absent_cases (some row) e rest = rest

abbrev pub ids_of : List Msg → List String
ids_of ms = map (λ m. m.msg_id) ms

-- What is left of a batch is new.
pub fresh-AreNew :
    (ms : List Msg) (stored : List Message)
    → AreNew
        (fresh_of (keep (λ r. contains r.msg_id (ids_of (unique [] ms))) stored) (unique [] ms))
        stored
unfolding contains
fresh-AreNew ms stored =
    are_new stored _ stored [] (fresh_of-AreApart _ [] (unique [] ms) (unique-AreApart [] ms))
      (fresh_of-IsAbsent (ids_of (unique [] ms)) stored (unique [] ms)
        (All-listed (unique [] ms) (ids_of (unique [] ms)) (λ x e. e)))
      (λ x e absent. absent)
