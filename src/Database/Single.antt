-- ===== src/Database/Single.antt =====
-- database/conversation.go: the conversations of two users, and the sequence numbers beside them.
use mathlib.Core.Option.{some-injective}
use alfred_brave_com.Base.{
  ℕ, ◌≡◌, refl, sym, ap, ◌∙◌, inl, inr, String, Bool, true, false, not, Option, none, some, List,
  [], ◌∷◌, ◌++◌, arith, find, find-append, find-passes, subst, eq_refl, eq_iff, Bool-cases, ◌==◌,
  if◌then◌else◌, prefixed,
}
use alfred_brave_com.Base.Errors.{not_found}
use alfred_brave_com.Base.Order.{gtb, gtb-swap}
use alfred_brave_com.Base.Exec.{
  ◌>>=◌, Result, ok, err, Keeps, Keeps-if, Keeps-raise, Keeps-bind, keeps_rules,
}
use alfred_brave_com.Database.{
  Conversation, Db, Session, statement, select, transaction, begun, finish, commit, settle,
  next_fate, select_one, one_row, commit_with, Ending, steady,
}
use alfred_brave_com.Database.Ends.{
  Ends, Ends-statement, Ends-bind, Ends-pure, Ends-raise, Ends-if, Ends-select, Ends-select_one,
  Ends-transaction, Always,
}
use alfred_brave_com.Database.Rules.{
  On, Keeps-transaction, Keeps-transaction_body, Keeps-select, Keeps-select_one,
}
use alfred_brave_com.Database.Conversations.{
  single_key, draw, insert_conversation, insert_member, get_conversation, ensure_single, new_single,
  resolve, has_conv, has_single_key, single_conversation, ensure_single_tx,
}
use alfred_brave_com.Database.Sequence.{IsDense, Keeps-still}

single_key_cases :
    (a b : String) (g : Bool)
    → (if not g then prefixed ":" a b else prefixed ":" b a)
      ≡ (if g then prefixed ":" b a else prefixed ":" a b)
single_key_cases a b true = refl
single_key_cases a b false = refl

-- The key of a pair does not depend on the order in which its two users are given.
pub single_key_comm : (a b : String) → single_key b a ≡ single_key a b
unfolding single_key
single_key_comm a b = elim (gtb-swap a b) [
  | inl e ↦ rw e
  | inr e ↦ rw e (single_key_cases a b (gtb a b))
]

==_comm : (a b : String) → (a == b) ≡ (b == a)
==_comm a b = ground (arith, eq_iff a b, eq_iff b a)

pub draw-IsDense : (new_uuid : ℕ → String) → Keeps (On IsDense) (draw new_uuid)
unfolding draw
draw-IsDense new_uuid = record { at = λ s h. h }

pub insert_conversation-IsDense :
    (c : Conversation) → Keeps (On IsDense) (statement (insert_conversation c))
insert_conversation-IsDense c =
    Keeps-still (insert_conversation c) (λ db u db' h. unfold insert_conversation in (ground arith))

insert_member-IsDense : (c u : String) → Keeps (On IsDense) (statement (insert_member c u))
insert_member-IsDense c u =
    Keeps-still (insert_member c u) (λ db x db' h. unfold insert_member in (ground arith))

pub get_conversation-IsDense : (c : String) → Keeps (On IsDense) (get_conversation c)
unfolding get_conversation
get_conversation-IsDense c = Keeps-select_one IsDense (λ db. find (has_conv c) db.conversations)

ruleset quiet = (keeps_rules, draw-IsDense, insert_conversation-IsDense, insert_member-IsDense)

module _ (new_uuid : ℕ → String) (a b : String) where
  new_single-IsDense : Keeps (On IsDense) (new_single new_uuid a b)
  unfolding new_single
  new_single-IsDense = search quiet

  resolve-IsDense : (row : Option Conversation) → Keeps (On IsDense) (resolve new_uuid a b row)
  unfolding resolve
  resolve-IsDense none = search (quiet, new_single-IsDense)
  resolve-IsDense (some c) = search quiet

  ensure_single_tx-IsDense : Keeps (On IsDense) (ensure_single_tx new_uuid a b)
  unfolding ensure_single_tx
  ensure_single_tx-IsDense = search (quiet, resolve-IsDense, Keeps-select)

  pub ensure_single-IsDense : Keeps (On IsDense) (ensure_single new_uuid a b)
  unfolding ensure_single
  ensure_single-IsDense =
      search (quiet, Keeps-transaction_body, ensure_single_tx-IsDense, get_conversation-IsDense)

-- The row under a key, and its id.
pub record IsResolved (sk conv_id : String) (db : Db) : Type 0 where
  pub row : Conversation
  pub found : find (has_single_key sk) db.conversations ≡ some row
  pub id : row.conv_id ≡ conv_id

has_key_self :
    (c : Conversation) (sk : String) → c.single_key ≡ some sk → has_single_key sk c ≡ true
unfolding has_single_key
has_key_self c sk e = ground (arith, eq_refl sk)

insert_conversation_lem :
    (c : Conversation) (u : Unit {0}) (db db' : Db)
    → insert_conversation c db ≡ ok (u, db')
    → db'.conversations ≡ db.conversations ++ c ∷ []
unfolding insert_conversation
insert_conversation_lem c u db db' h = ground arith

insert_member-conversations :
    (c uid : String) (u : Unit {0}) (db db' : Db)
    → insert_member c uid db ≡ ok (u, db')
    → db'.conversations ≡ db.conversations
unfolding insert_member
insert_member-conversations c uid u db db' h = ground arith

module _ (sk : String) where
  abbrev Unknown : Db → Type 0
  Unknown db = find (has_single_key sk) db.conversations ≡ none

  insert_conversation-IsResolved :
      (c : Conversation)
      → c.single_key ≡ some sk
      → Ends Unknown (statement (insert_conversation c)) (λ u db. IsResolved sk c.conv_id db)
  insert_conversation-IsResolved c e = Ends-statement (insert_conversation c) λ db u db' new h.
      record {
        row = c;
        found =
            unfold find in
            (ground (
              arith,
              insert_conversation_lem c u db db' h,
              new,
              has_key_self c sk e,
              find-append (has_single_key sk) db.conversations (c ∷ []),
            ));
        id = refl;
      }

  insert_member-IsResolved :
      (c uid : String)
      → Ends (IsResolved sk c) (statement (insert_member c uid)) (λ u db. IsResolved sk c db)
  insert_member-IsResolved c uid = Ends-statement (insert_member c uid) λ db u db' r h. record {
    row = r.row;
    found = rw (insert_member-conversations c uid u db db' h) r.found;
    id = r.id;
  }

module _ (new_uuid : ℕ → String) (a b : String) where
  draw-Unknown : (sk : String) → Ends (Unknown sk) (draw new_uuid) (λ c db. Unknown sk db)
  unfolding draw
  draw-Unknown sk = record { at = λ s c h e. h }

  new_single-IsResolved :
      Ends
        (Unknown (single_key a b))
        (new_single new_uuid a b)
        (λ c db. IsResolved (single_key a b) c db)
  unfolding new_single
  new_single-IsResolved = Ends-bind (draw new_uuid) _ (draw-Unknown (single_key a b)) λ c.
      Ends-bind _ _
        (insert_conversation-IsResolved (single_key a b) (single_conversation c a b) refl)
        λ u. Ends-bind _ _ (insert_member-IsResolved (single_key a b) c a) λ v.
          Ends-bind _ _ (insert_member-IsResolved (single_key a b) c b) λ w. Ends-pure c (λ db h. h)

  resolve-IsResolved :
      (row : Option Conversation)
      → Ends
          (λ db. Unit {0} × (find (has_single_key (single_key a b)) db.conversations ≡ row))
          (resolve new_uuid a b row)
          (Always (IsResolved (single_key a b)))
  unfolding resolve
  resolve-IsResolved none =
      Ends-bind _ _ (record { at = λ s c h e. new_single-IsResolved.at s c h.1 e })
        λ c. Ends-pure (commit_with c) (λ db h. h)
  resolve-IsResolved (some c) =
      Ends-pure (commit_with c.conv_id) (λ db h. record { row = c; found = h.1; id = refl })

  ensure_single_tx-IsResolved :
      Ends
        (λ db. Unit {0})
        (transaction (ensure_single_tx new_uuid a b))
        (λ c db. IsResolved (single_key a b) c db)
  unfolding ensure_single_tx
  ensure_single_tx-IsResolved = Ends-transaction _ (
      Ends-bind _ _ (Ends-select (λ db. find (has_single_key (single_key a b)) db.conversations))
        resolve-IsResolved)

  -- The conversation is the row under the key of the two, and they differ.
  pub record IsEnsured (c : Conversation) (db : Db) : Type 0 where
    pub resolved : IsResolved (single_key a b) c.conv_id db
    pub stored : find (has_conv c.conv_id) db.conversations ≡ some c
    pub differ : (a == b) ≡ false

  find_conv-id :
      (conv_id : String) (rows : List Conversation) (c : Conversation)
      → find (has_conv conv_id) rows ≡ some c
      → c.conv_id ≡ conv_id
  unfolding has_conv
  find_conv-id conv_id rows c h =
      (eq_iff c.conv_id conv_id).0 (find-passes (has_conv conv_id) rows c h)

  get_conversation-IsEnsured :
      (conv_id : String)
      → (a == b) ≡ false
      → Ends
          (IsResolved (single_key a b) conv_id)
          (get_conversation conv_id)
          (λ c db. IsEnsured c db)
  unfolding get_conversation
  get_conversation-IsEnsured conv_id ne = record {
    at = λ s c h e.
        let db = (get_conversation conv_id s).1.db in
        let (r, stored) =
          (Ends-select_one {P = IsResolved (single_key a b) conv_id}
              (λ db. find (has_conv conv_id) db.conversations)).at
            s c h e in
        let same = find_conv-id conv_id db.conversations c stored in
        record {
          resolved = subst (λ x. IsResolved (single_key a b) x db) (sym same) r;
          stored = subst (λ x. find (has_conv x) db.conversations ≡ some c) (sym same) stored;
          differ = ne;
        };
  }

  ensure_single-IsEnsured :
      Ends (λ db. Unit {0}) (ensure_single new_uuid a b) (λ c db. IsEnsured c db)
  unfolding ensure_single
  ensure_single-IsEnsured = elim (Bool-cases (a == b)) [
    | inl e ↦ rw e (Ends-raise not_found)
    | inr e ↦ rw e (
        Ends-bind _ _ ensure_single_tx-IsResolved (λ conv_id. get_conversation-IsEnsured conv_id e))
  ]

module _ (new_uuid : ℕ → String) (a b : String) where
  get_conversation-known :
      (conv_id : String) (c : Conversation) (db : Db) (drawn : ℕ)
      → find (has_conv conv_id) db.conversations ≡ some c
      → get_conversation conv_id (steady db drawn) ≡ (ok c, steady db drawn)
  unfolding get_conversation statement settle select_one one_row next_fate
  get_conversation-known conv_id c db drawn e = rw e

  ensure_single-known :
      (c : Conversation) (db : Db) (drawn : ℕ)
      → IsEnsured new_uuid a b c db
      → ensure_single new_uuid b a (steady db drawn) ≡ (ok c, steady db drawn)
  unfolding ensure_single ensure_single_tx transaction begun finish commit statement settle select
      select_one one_row get_conversation next_fate resolve ◌>>=◌
  ensure_single-known c db drawn e =
      rw (==_comm b a, e.differ, single_key_comm a b, e.resolved.found)
        (get_conversation-known e.resolved.row.conv_id c db drawn
          (subst (λ x. find (has_conv x) db.conversations ≡ some c) (sym e.resolved.id) e.stored))

  module _ (c : Conversation) (before : Db) (held : IsEnsured new_uuid a b c before) where
    known_row :
        (db : Db) (got : Option Conversation)
        → before ≡ db
        → find (has_single_key (single_key b a)) db.conversations ≡ got
        → got ≡ some held.resolved.row
    known_row db got same e =
        sym e
        ∙ ap (λ sk. find (has_single_key sk) db.conversations) (single_key_comm a b)
        ∙ ap (λ (d : Db). find (has_single_key (single_key a b)) d.conversations) (sym same)
        ∙ held.resolved.found

    -- What the transaction commits with: the row's id, on tables that have not changed.
    abbrev Kept : Ending String → Db → Type 0
    Kept = Always (λ id db. (before ≡ db) × (id ≡ c.conv_id))

    resolve-Kept :
        (got : Option Conversation)
        → got ≡ some held.resolved.row
        → Ends (λ db. before ≡ db) (resolve new_uuid b a got) Kept
    unfolding resolve
    resolve-Kept none e = cc
    resolve-Kept (some r) e = Ends-pure (commit_with r.conv_id) (λ db same.
        (same, ap (λ x. x.conv_id) (some-injective r held.resolved.row e) ∙ held.resolved.id))

    tx-Kept : Ends (λ db. before ≡ db) (ensure_single_tx new_uuid b a) Kept
    unfolding ensure_single_tx
    tx-Kept =
        Ends-bind _ _ (Ends-select (λ db. find (has_single_key (single_key b a)) db.conversations))
          λ got. record {
            at = λ s x h e. (resolve-Kept got (known_row s.db got h.0 h.1)).at s x h.0 e;
          }

    found-only :
        (conv_id : String)
        → Ends
            (λ db. (before ≡ db) × (conv_id ≡ c.conv_id))
            (get_conversation conv_id)
            (λ x db. x ≡ c)
    unfolding get_conversation
    found-only conv_id = record {
      at = λ s x h e.
          let (kept, got) =
            (Ends-select_one {P = λ db. (before ≡ db) × (conv_id ≡ c.conv_id)}
                (λ db. find (has_conv conv_id) db.conversations)).at
              s x h e in
          let db = (get_conversation conv_id s).1.db in
          some-injective x c (
            sym got
            ∙ ap (λ i. find (has_conv i) db.conversations) kept.1
            ∙ ap (λ (d : Db). find (has_conv c.conv_id) d.conversations) (sym kept.0)
            ∙ held.stored);
    }

    ensure_single-only : Ends (λ db. before ≡ db) (ensure_single new_uuid b a) (λ x db. x ≡ c)
    unfolding ensure_single
    ensure_single-only =
        Ends-if (b == a) _ _ (Ends-raise not_found)
          (Ends-bind _ _ (Ends-transaction (ensure_single_tx new_uuid b a) tx-Kept) found-only)

    ensure_single-still : Keeps (On (λ db. before ≡ db)) (ensure_single new_uuid b a)
    unfolding ensure_single get_conversation
    ensure_single-still = Keeps-if (b == a) _ _ (Keeps-raise not_found) (
        Keeps-bind _ _
          (Keeps-transaction (λ db. before ≡ db) (ensure_single_tx new_uuid b a)
            λ s id h e. (tx-Kept.at s (commit_with id) h e).0)
          λ id. Keeps-select_one (λ db. before ≡ db) (λ db. find (has_conv id) db.conversations))

  -- A call that has no result but this one.
  abbrev pub Only : Conversation → Result Conversation → Type 0
  Only c (ok x) = x ≡ c
  Only c (err e) = Unit

  result-Only :
      (c : Conversation) (r : Result Conversation)
      → ((x : Conversation) → r ≡ ok x → x ≡ c)
      → Only c r
  result-Only c (ok x) k = k x refl
  result-Only c (err e) k = tt

  -- A conversation of two different users that the tables hold under their key is what EnsureSingle
  -- gives for them in the other order: whatever the call meets at the database, the tables stay as
  -- they were, and if it returns, then with the row of the table; and where every round trip is
  -- answered it returns.
  pub ensure_single_again :
      (s : Session) (c : Conversation)
      → IsEnsured new_uuid a b c s.db
      → ((ensure_single new_uuid b a s).1.db ≡ s.db)
        × Only c (ensure_single new_uuid b a s).0
        × (ensure_single new_uuid b a (steady s.db s.drawn) ≡ (ok c, steady s.db s.drawn))
  ensure_single_again s c held = (
    sym ((ensure_single-still c s.db held).at s refl),
    result-Only c (ensure_single new_uuid b a s).0
        (λ x e. (ensure_single-only c s.db held).at s x refl e),
    ensure_single-known c s.db s.drawn held,
  )
