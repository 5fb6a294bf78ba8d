-- ===== src/Persist/Batch/Counters.antt =====
-- worker/persist/persist.go, handleSingleBatch: the counters that a batch takes, and the numbers that
-- it gives to its messages.
use alfred_brave_com.Base.{
  ℕ, zero, suc, ◌+◌, ◌-◌, ◌≤◌, ◌≡◌, refl, sym, ◌∙◌, ap, inl, inr, String, none, some, List, [], ◌∷◌,
  ◌++◌, arith, eq_iff, ◌==◌, if◌then◌else◌,
}
use mathlib.Core.List.{append_assoc}
use alfred_brave_com.Base.Table.{lookup, insert, lookup-insert}
use alfred_brave_com.Base.Exec.{ok, err, ok-injective, ok-ne-err, Result-cases}
use alfred_brave_com.Chat.{Msg}
use alfred_brave_com.Database.{Db}
use alfred_brave_com.Database.Kv.{bump_seq}
use alfred_brave_com.Database.Sequence.{
  count, up_to, up_to-next, append-nil, count-bumped, bump_seq-value, bump_seq-messages,
}
use alfred_brave_com.Persist.Batch.{count_in, counts_of, bump_all, assign}

-- No key stands twice.
abbrev pub Once : List (String × ℕ) → Type 0
Once [] = Unit
Once ((k, n) ∷ rest) = (lookup k rest ≡ none) × Once rest

insert-Once :
    (k : String) (n : ℕ) (counts : List (String × ℕ)) → Once counts → Once (insert k n counts)
unfolding insert lookup
insert-Once k n [] h = (refl, tt)
insert-Once k n ((j, m) ∷ rest) h =
    ground (arith, insert-Once k n rest, lookup-insert k j n rest, eq_iff j k, eq_iff k j)

-- How many messages of the batch go to a conversation.
unfoldable pub occurs : String → List Msg → ℕ
occurs c [] = 0
occurs c (m ∷ ms) = let rest = occurs c ms in if m.conv_id == c then suc rest else rest

count_in-insert :
    (k c : String) (n : ℕ) (counts : List (String × ℕ))
    → count_in c (insert k n counts) ≡ (if k == c then n else count_in c counts)
unfolding count_in
count_in-insert k c n counts = ground (arith, lookup-insert k c n counts)

pub count_in-counts_of :
    (c : String) (counts : List (String × ℕ)) (ms : List Msg)
    → count_in c (counts_of counts ms) ≡ count_in c counts + occurs c ms
unfolding counts_of occurs
count_in-counts_of c counts [] = omega arith
count_in-counts_of c counts (m ∷ ms) = ground (
  arith,
  count_in-counts_of c (insert m.conv_id (count_in m.conv_id counts + 1) counts) ms,
  count_in-insert m.conv_id c (count_in m.conv_id counts + 1) counts,
  eq_iff m.conv_id c,
)

pub counts_of-Once :
    (counts : List (String × ℕ)) (ms : List Msg) → Once counts → Once (counts_of counts ms)
unfolding counts_of
counts_of-Once counts [] h = h
counts_of-Once counts (m ∷ ms) h =
    counts_of-Once (insert m.conv_id (count_in m.conv_id counts + 1) counts) ms
      (insert-Once m.conv_id (count_in m.conv_id counts + 1) counts h)

-- The first counter of a batch, and the others.
record Stepped (k : String) (n : ℕ) (rest nexts : List (String × ℕ)) (db db' : Db) : Type 0 where
  next : ℕ
  between : Db
  more : List (String × ℕ)
  first : bump_seq k n db ≡ ok (next, between)
  others : bump_all rest between ≡ ok (more, db')
  joined : nexts ≡ (k, next) ∷ more

bump_all-cons :
    (k : String) (n : ℕ) (rest nexts : List (String × ℕ)) (db db' : Db)
    → bump_all ((k, n) ∷ rest) db ≡ ok (nexts, db')
    → Stepped k n rest nexts db db'
unfolding bump_all
bump_all-cons k n rest nexts db db' h = elim (Result-cases (bump_seq k n db)) [
  | inr (e, failed) ↦
      let computed : bump_all ((k, n) ∷ rest) db ≡ err e = rw (failed, bump_all) in
      absurd (ok-ne-err (sym h ∙ computed))
  | inl ((next, between), first) ↦ elim (Result-cases (bump_all rest between)) [
    | inr (e, failed) ↦
        let computed : bump_all ((k, n) ∷ rest) db ≡ err e = rw (first, failed, bump_all) in
        absurd (ok-ne-err (sym h ∙ computed))
    | inl ((more, db''), others) ↦
        let computed : bump_all ((k, n) ∷ rest) db ≡ ok ((k, next) ∷ more, db'') =
          rw (first, others, bump_all) in
        let same = ok-injective (sym computed ∙ h) in
        record {
          next = next;
          between = between;
          more = more;
          first = first;
          others = others ∙ ap (λ d. ok (more, d)) (ap (λ (p : List (String × ℕ) × Db). p.1) same);
          joined = sym (ap (λ (p : List (String × ℕ) × Db). p.0) same);
        }
  ]
]

-- Behind the step of all counters: what it returns, and what it changes.
pub record AllBumped (counts nexts : List (String × ℕ)) (db db' : Db) : Type 0 where
  pub messages : db'.messages ≡ db.messages
  pub counted : (c : String) → count c db' ≡ count c db + count_in c counts
  pub nexts_are :
      (c : String)
      → count_in c nexts ≡ elim (lookup c counts) [ none ↦ 0 | some n ↦ count c db + n ]

pub bump_all-AllBumped :
    (counts nexts : List (String × ℕ)) (db db' : Db)
    → Once counts
    → bump_all counts db ≡ ok (nexts, db')
    → AllBumped counts nexts db db'
unfolding bump_all count_in lookup
bump_all-AllBumped [] nexts db db' once h =
    let same = ok-injective h in
    let none_more = ap (λ (p : List (String × ℕ) × Db). p.0) same in
    let here = ap (λ (p : List (String × ℕ) × Db). p.1) same in
    record {
      messages = sym (ap (λ d. d.messages) here);
      counted = λ c. ground (arith, here);
      nexts_are = λ c. ground (arith, none_more);
    }
bump_all-AllBumped ((k, n) ∷ rest) nexts db db' once h =
    let s = bump_all-cons k n rest nexts db db' h in
    let tail = bump_all-AllBumped rest s.more s.between db' once.1 s.others in
    record {
      messages = tail.messages ∙ bump_seq-messages k n s.next db s.between s.first;
      counted = λ c. ground (
        arith,
        tail.counted c,
        count-bumped k c n s.next db s.between s.first,
        once.0,
        eq_iff k c,
      );
      nexts_are = λ c. ground (
        arith,
        s.joined,
        tail.nexts_are c,
        count-bumped k c n s.next db s.between s.first,
        bump_seq-value k n s.next db s.between s.first,
        once.0,
        eq_iff k c,
      );
    }

-- The numbers that a list of rows gives to the messages of a conversation.
unfoldable pub seqs_in : String → List (Msg × ℕ) → List ℕ
seqs_in c [] = []
seqs_in c ((m, seq) ∷ rows) =
    let rest = seqs_in c rows in if m.conv_id == c then seq ∷ rest else rest

-- from + 1, from + 2 and so on, as many as given.
unfoldable pub range : ℕ → ℕ → List ℕ
range from zero = []
range from (suc k) = (from + 1) ∷ range (from + 1) k

pub up_to-range : (k from : ℕ) → up_to (from + k) ≡ up_to from ++ range from k
unfolding range
up_to-range zero from =
    let same : from + 0 ≡ from = omega arith in rw (same, append-nil (up_to from))
up_to-range (suc k) from =
    let moved : from + suc k ≡ from + 1 + k = omega arith in
    rw (moved, up_to-range k (from + 1), up_to-next from, append_assoc)

-- Each conversation's messages get the numbers behind those that it has got in the batch.
pub seqs_in-assign :
    (c : String) (nexts counts seen : List (String × ℕ)) (ms : List Msg)
    → count_in c counts ≤ count_in c nexts
    → seqs_in c (assign nexts counts seen ms)
      ≡ range (count_in c nexts + count_in c seen - count_in c counts) (occurs c ms)
unfolding seqs_in assign range occurs
seqs_in-assign c nexts counts seen [] h = refl
seqs_in-assign c nexts counts seen (m ∷ ms) h = ground (
  arith,
  seqs_in-assign c nexts counts (insert m.conv_id (count_in m.conv_id seen + 1) seen) ms,
  count_in-insert m.conv_id c (count_in m.conv_id seen + 1) seen,
  eq_iff m.conv_id c,
)
