-- ===== src/Database/Sequence.antt =====
-- The sequence numbers of a conversation's messages (database/kv.go, database/group.go and
-- worker/persist/persist.go): they are 1, 2, 3 and so on up to the counter, in the order of the rows.
use alfred_brave_com.Base.{
  ℕ, zero, suc, ◌+◌, ◌≡◌, refl, sym, ap, String, Option, none, some, List, [], ◌∷◌, ◌++◌, map,
  arith, keep, eq_iff, ◌==◌, if◌then◌else◌,
}
use text.Mathlib.Text.{is_eq}
use native.Mathlib.Numerals.{add-one}
use alfred_brave_com.Base.Order.{compare-append}
use alfred_brave_com.Base.Table.{lookup, lookup-insert}
use alfred_brave_com.Base.Exec.{ok, Exec, Keeps, ok-injective}
use alfred_brave_com.Database.{counter, online, other, KvRow, Message, Db, Session, Sql, statement}
use alfred_brave_com.Database.Kv.{seq_key, bumped, bump_seq, bump_seq_lem, next_seq}
use alfred_brave_com.Database.Messages.{in_conv, insert_message, raise_last_seq}
use alfred_brave_com.Database.Ends.{Ends, Ends-statement}
use alfred_brave_com.Database.Rules.{On, Keeps-statement}

abbrev pub up_to : ℕ → List ℕ
up_to zero = []
up_to (suc n) = up_to n ++ suc n ∷ []

-- The counter of a conversation; one that was never bumped stands at 0.
abbrev pub counter_of : Option KvRow → ℕ
counter_of none = 0
counter_of (some row) = elim row.v [ counter n ↦ n | online cs addr ts ↦ 0 | other cs j ↦ 0 ]

abbrev pub count : String → Db → ℕ
count conv_id db = counter_of (lookup (seq_key conv_id) db.kv)

abbrev pub seqs_of : String → List Message → List ℕ
seqs_of conv_id rows = map (λ m. m.seq) (keep (in_conv conv_id) rows)

-- The numbers of every conversation have no hole and no number twice.
pub record IsDense (db : Db) : Type 0 where
  pub numbered : (conv_id : String) → seqs_of conv_id db.messages ≡ up_to (count conv_id db)

-- In a transaction, between the counter and the row: `seq` is taken and not used yet.
pub record HasTaken (conv_id : String) (seq : ℕ) (db : Db) : Type 0 where
  pub numbered :
      (c : String)
      → seqs_of c db.messages ++ (if conv_id == c then seq ∷ [] else []) ≡ up_to (count c db)

seq_key_eq : (a b : String) → (seq_key a == seq_key b) ≡ (a == b)
seq_key_eq a b = ap is_eq (compare-append "seq:" a b)

bumped_lem : (by n : ℕ) (row : Option KvRow) → bumped by row ≡ ok n → n ≡ counter_of row + by
unfolding bumped
bumped_lem by n none e = ground arith
bumped_lem by n (some row) e = ground arith

pub count-bumped :
    (conv_id c : String) (by n : ℕ) (db db' : Db)
    → bump_seq conv_id by db ≡ ok (n, db')
    → count c db' ≡ (if conv_id == c then count c db + by else count c db)
count-bumped conv_id c by n db db' h =
    let (version, r, e) = bump_seq_lem conv_id by n db db' h in
    ground (
      arith,
      e,
      ap (λ d. d.kv) e,
      lookup-insert (seq_key conv_id) (seq_key c) (record { v = counter n; version = version })
          db.kv,
      seq_key_eq conv_id c,
      eq_iff conv_id c,
      bumped_lem by n (lookup (seq_key conv_id) db.kv) r,
    )

pub bump_seq-value :
    (conv_id : String) (by n : ℕ) (db db' : Db)
    → bump_seq conv_id by db ≡ ok (n, db')
    → n ≡ count conv_id db + by
bump_seq-value conv_id by n db db' h =
    let (version, r, e) = bump_seq_lem conv_id by n db db' h in
    bumped_lem by n (lookup (seq_key conv_id) db.kv) r

pub bump_seq-messages :
    (conv_id : String) (by n : ℕ) (db db' : Db)
    → bump_seq conv_id by db ≡ ok (n, db')
    → db'.messages ≡ db.messages
bump_seq-messages conv_id by n db db' h =
    let (version, r, e) = bump_seq_lem conv_id by n db db' h in ap (λ d. d.messages) e

pub up_to-next : (n : ℕ) → up_to (n + 1) ≡ up_to n ++ (n + 1) ∷ []
up_to-next n = rw (add-one n)

pub append-nil : (xs : List ℕ) → xs ++ [] ≡ xs
append-nil [] = refl
append-nil (x ∷ xs) = rw (append-nil xs)

-- The counter's next number is taken.
bump-HasTaken :
    (conv_id : String) (n : ℕ) (db db' : Db)
    → IsDense db
    → bump_seq conv_id 1 db ≡ ok (n, db')
    → HasTaken conv_id n db'
bump-HasTaken conv_id n db db' d h = record {
  numbered = λ c. ground (
    arith,
    eq_iff conv_id c,
    count-bumped conv_id c 1 n db db' h,
    bump_seq-value conv_id 1 n db db' h,
    bump_seq-messages conv_id 1 n db db' h,
    d.numbered c,
    up_to-next (count c db),
    append-nil (seqs_of c db.messages),
  );
}

pub seqs-append :
    (c : String) (m : Message) (rows : List Message)
    → seqs_of c (rows ++ m ∷ []) ≡ seqs_of c rows ++ (if m.conv_id == c then m.seq ∷ [] else [])
unfolding in_conv keep
seqs-append c m [] = ground arith
seqs-append c m (r ∷ rows) = ground (arith, seqs-append c m rows)

pub insert_message_lem :
    (m : Message) (u : Unit {0}) (db db' : Db)
    → insert_message m db ≡ ok (u, db')
    → db' ≡ record db { messages = db.messages ++ m ∷ [] }
unfolding insert_message
insert_message_lem m u db db' h = ground arith

-- The row with the number that was taken makes the numbers dense again.
insert-IsDense :
    (m : Message) (u : Unit {0}) (db db' : Db)
    → HasTaken m.conv_id m.seq db
    → insert_message m db ≡ ok (u, db')
    → IsDense db'
insert-IsDense m u db db' t h = record {
  numbered = λ c. ground (
    arith,
    ap (λ d. d.messages) (insert_message_lem m u db db' h),
    ap (λ d. d.kv) (insert_message_lem m u db db' h),
    seqs-append c m db.messages,
    t.numbered c,
  );
}

-- Tables with the same messages and the same counters.
pub same-IsDense :
    (db db' : Db) → db'.messages ≡ db.messages → db'.kv ≡ db.kv → IsDense db → IsDense db'
same-IsDense db db' em ek d = record { numbered = λ c. ground (arith, d.numbered c) }

pub raise_last_seq-messages :
    (conv_id : String) (seq : ℕ) (u : Unit {0}) (db db' : Db)
    → raise_last_seq conv_id seq db ≡ ok (u, db')
    → (db'.messages ≡ db.messages) × (db'.kv ≡ db.kv)
unfolding raise_last_seq
raise_last_seq-messages conv_id seq u db db' h =
    let e = ap (λ (p : Unit {0} × Db). p.1) (ok-injective h) in
    (sym (ap (λ d. d.messages) e), sym (ap (λ d. d.kv) e))

-- The three statements that store a message.
pub Ends-next_seq :
    (conv_id : String) → Ends IsDense (next_seq conv_id) (λ seq db. HasTaken conv_id seq db)
unfolding next_seq
Ends-next_seq conv_id =
    Ends-statement (bump_seq conv_id 1) (λ db n db' d h. bump-HasTaken conv_id n db db' d h)

pub Ends-insert_message :
    (m : Message)
    → Ends (HasTaken m.conv_id m.seq) (statement (insert_message m)) (λ u db. IsDense db)
Ends-insert_message m =
    Ends-statement (insert_message m) (λ db u db' t h. insert-IsDense m u db db' t h)

pub Ends-raise_last_seq :
    (conv_id : String) (seq : ℕ)
    → Ends IsDense (statement (raise_last_seq conv_id seq)) (λ u db. IsDense db)
Ends-raise_last_seq conv_id seq = Ends-statement (raise_last_seq conv_id seq) λ db u db' d h.
    let (em, ek) = raise_last_seq-messages conv_id seq u db db' h in same-IsDense db db' em ek d

-- A statement that leaves the messages and the table kv alone.
pub Keeps-still :
    {A : Type 0} (q : Sql A)
    → ((db : Db) (a : A) (db' : Db)
        → q db ≡ ok (a, db')
        → (db'.messages ≡ db.messages) × (db'.kv ≡ db.kv))
    → Keeps (On IsDense) (statement q)
Keeps-still q k =
    Keeps-statement IsDense q
      (λ db a db' d h. let (em, ek) = k db a db' h in same-IsDense db db' em ek d)

pub Keeps-Ends :
    {A : Type 0} (m : Exec Session A) → Keeps (On IsDense) m → Ends IsDense m (λ a db. IsDense db)
Keeps-Ends m k = record { at = λ s a h e. k.at s h }
