-- ===== src/Ghost/Pages.antt =====
-- worker/ghost/ghost.go: a sweep comes to the end of its pages.
use alfred_brave_com.Base.{
  ℕ, zero, suc, ◌+◌, ◌≡◌, ◌≢◌, ◌≤◌, ◌<◌, refl, sym, ap, ◌∙◌, subst, String, Bool, true, false, ◌&&◌,
  Option, none, some, List, [], ◌∷◌, arith, eq_iff, eq_refl, ltb, length, length-keep-le, keep,
  exists, All, All-keep, All-take, ◌==◌, both_ways, starts_with, Bool-cases, inl, inr,
}
use alfred_brave_com.Base.Order.{gtb, gtb_trans, gtb_irrefl}
use alfred_brave_com.Base.Sort.{All-sort_by}
use alfred_brave_com.Base.Table.{remove, lookup}
use alfred_brave_com.Base.Exec.{
  Result, ok, err, Exec, Keeps, Keeps-pure, Keeps-if, Keeps-bind, ok-injective, ◌>>=◌, pure, resume,
}
use alfred_brave_com.Database.{Db, Session, KvRow}
use alfred_brave_com.Database.Rules.{On, Keeps-statement}
use alfred_brave_com.Database.Ends.{Ends-select}
use alfred_brave_com.Database.Kv.{
  cs_matches, delete_if_match, delete_if_match_sql, scan_prefix, page_after, smaller_key,
  scan_limit,
}
use alfred_brave_com.Ghost.{
  Reconciler, online_cs, remove_stale, sweep_record, sweep_page, last_key, sweep_from, sweep,
}

abbrev Rows : Type 0
Rows = List (String × KvRow)

-- How many rows of the table have a key behind the given one.
unfoldable pub rows_after : String → Rows → ℕ
unfolding keep
rows_after key rows = length (keep (λ row. gtb row.0 key) rows)

has_key : String → Rows → Bool
unfolding exists
has_key key rows = exists (λ row. row.0 == key) rows

rows_after-le :
    (key later : String) (rows : Rows)
    → gtb later key ≡ true
    → rows_after later rows ≤ rows_after key rows
unfolding rows_after keep
rows_after-le key later [] h = omega arith
rows_after-le key later ((k, row) ∷ rows) h =
    ground (arith, h, gtb_trans k later key, rows_after-le key later rows h)

-- Behind a row's key there is one row fewer.
rows_after-lt :
    (key later : String) (rows : Rows)
    → gtb later key ≡ true
    → has_key later rows ≡ true
    → rows_after later rows < rows_after key rows
unfolding rows_after keep has_key exists
rows_after-lt key later [] h there = cc
rows_after-lt key later ((k, row) ∷ rows) h there = elim (Bool-cases (k == later)) [
  | inl here ↦
      let same = (eq_iff k later).0 here in
      let gone : gtb k later ≡ false =
        subst (λ x. gtb x later ≡ false) (sym same) (gtb_irrefl later) in
      let stays : gtb k key ≡ true = subst (λ x. gtb x key ≡ true) (sym same) h in
      ground (arith, gone, stays, rows_after-le key later rows h)
  | inr off ↦ ground (arith, off, h, there, gtb_trans k later key, rows_after-lt key later rows h)
]

rows_after-remove :
    (key gone : String) (rows : Rows) → rows_after key (remove gone rows) ≤ rows_after key rows
unfolding rows_after keep remove
rows_after-remove key gone [] = omega arith
rows_after-remove key gone ((k, row) ∷ rows) = ground (arith, rows_after-remove key gone rows)

-- A row of the table has the key, which lies behind the given one.
IsNext : String → Rows → String → Type 0
IsNext key rows k = (gtb k key ≡ true) × (has_key k rows ≡ true)

All-IsNext :
    (prefix key : String) (whole rows : Rows)
    → ((k : String) → has_key k rows ≡ true → has_key k whole ≡ true)
    → All (λ row. (starts_with row.0 prefix && gtb row.0 key) ≡ true → IsNext key whole row.0) rows
unfolding has_key exists IsNext
All-IsNext prefix key whole [] known = tt
All-IsNext prefix key whole ((k, row) ∷ rows) known = (
  λ h. (ground (arith, h), known k (ground (arith, eq_refl k))),
  All-IsNext prefix key whole rows λ x there. known x (ground (arith, there)),
)

page_after-IsNext :
    (prefix key : String) (limit : ℕ) (db : Db)
    → All (λ row. IsNext key db.kv row.0) (page_after prefix key limit db)
unfolding page_after IsNext
page_after-IsNext prefix key limit db =
    All-take (λ row. IsNext key db.kv row.0) (scan_limit limit) _
      (All-sort_by smaller_key (λ row. IsNext key db.kv row.0) _
        (All-keep (λ row. IsNext key db.kv row.0) _ db.kv
          (All-IsNext prefix key db.kv db.kv λ k there. there)))

last_key-All :
    (Q : String → Type 0) (key : String) (entries : Rows)
    → Q key
    → All (λ row. Q row.0) entries
    → Q (last_key key entries)
unfolding last_key
last_key-All Q key [] q h = q
last_key-All Q key ((next, row) ∷ entries) q (hn, hs) = last_key-All Q next entries hn hs

-- The last key of a page that is not empty.
last_key-IsNext :
    (key : String) (rows entries : Rows)
    → 0 < length entries
    → All (λ row. IsNext key rows row.0) entries
    → IsNext key rows (last_key key entries)
unfolding last_key IsNext
last_key-IsNext key rows [] some_row h = absurd (omega (arith, some_row))
last_key-IsNext key rows ((next, row) ∷ entries) some_row (hn, hs) =
    last_key-All (IsNext key rows) next entries hn hs

module _ {S A B : Type 0} where
  resume-never :
      (f : A → Exec S B) (r : Result A) (s : S) (b : B)
      → ((a : A) → r ≡ ok a → (f a s).0 ≢ ok b)
      → (resume f r s).0 ≢ ok b
  resume-never f (ok a) s b never = never a refl
  resume-never f (err e) s b never = λ h. cc

module _ (r : Reconciler) where
  abbrev Bounded : String → ℕ → Session → Type 0
  Bounded key n = On (λ db. rows_after key db.kv ≤ n)

  remove_stale-Keeps :
      (gone cs key : String) (n : ℕ) → Keeps (Bounded key n) (remove_stale r gone cs)
  unfolding remove_stale delete_if_match delete_if_match_sql
  remove_stale-Keeps gone cs key n = record {
    at =
        (Keeps-statement (λ db. rows_after key db.kv ≤ n) (delete_if_match_sql gone cs)
          λ db u db' few e.
            subst (λ (p : Unit {0} × Db). rows_after key p.1.kv ≤ n) (ok-injective e)
              (both_ways (λ (d : Db). rows_after key d.kv ≤ n) (cs_matches cs (lookup gone db.kv)) _
                _ (λ hit. omega (arith, few, rows_after-remove key gone db.kv)) (λ miss. few))).at;
  }

  sweep_record-Keeps :
      (gone : String) (o : Option String) (key : String) (n : ℕ)
      → Keeps (Bounded key n) (sweep_record r gone o)
  unfolding sweep_record
  sweep_record-Keeps gone none key n = Keeps-pure 0
  sweep_record-Keeps gone (some cs) key n =
      Keeps-if (r.alive_fn cs) _ _ (Keeps-pure 0) (remove_stale-Keeps gone cs key n)

  sweep_page-Keeps :
      (entries : Rows) (key : String) (n : ℕ) → Keeps (Bounded key n) (sweep_page r entries)
  unfolding sweep_page
  sweep_page-Keeps [] key n = Keeps-pure 0
  sweep_page-Keeps ((gone, row) ∷ entries) key n =
      Keeps-bind _ _ (sweep_record-Keeps gone (online_cs r row.v) key n)
        λ one. Keeps-bind _ _ (sweep_page-Keeps entries key n) λ more. Keeps-pure (one + more)

  -- Behind a full page fewer rows are left, also where some of its rows are gone.
  full_page_fewer :
      (s s1 : Session) (entries : Rows) (key : String) (fuel : ℕ)
      → 0 < r.page_size
      → rows_after key s.db.kv < suc fuel
      → s.db ≡ s1.db
      → ltb (length entries) r.page_size ≡ false
      → All (λ row. IsNext key s.db.kv row.0) entries
      → rows_after (last_key key entries) (sweep_page r entries s1).1.db.kv < fuel
  unfolding IsNext
  full_page_fewer s s1 entries key fuel size enough same full next =
      let last = last_key-IsNext key s.db.kv entries (ground (arith, size, full)) next in
      let fewer = rows_after-lt key (last_key key entries) s.db.kv last.0 last.1 in
      let kept =
        (sweep_page-Keeps entries (last_key key entries)
            (rows_after (last_key key entries) s.db.kv)).at
          s1
          (subst
            (λ (d : Db).
              rows_after (last_key key entries) d.kv ≤ rows_after (last_key key entries) s.db.kv)
            same (omega arith)) in
      omega (arith, fewer, kept, enough)

  sweep_from-ends :
      (fuel : ℕ) (key : String) (removed : ℕ) (s : Session)
      → 0 < r.page_size
      → rows_after key s.db.kv < fuel
      → (sweep_from r fuel key removed s).0 ≢ ok none
  unfolding sweep_from ◌>>=◌ scan_prefix pure
  sweep_from-ends zero key removed s size enough = absurd (omega (arith, enough))
  sweep_from-ends (suc fuel) key removed s size enough =
      resume-never _ (scan_prefix "online:" key r.page_size s).0
        (scan_prefix "online:" key r.page_size s).1 none
        λ entries got.
          let read =
            (Ends-select {P = λ db. s.db ≡ db} (page_after "online:" key r.page_size)).at s entries
              refl got in
          let next =
            subst (λ (es : Rows). All (λ row. IsNext key s.db.kv row.0) es)
              (ap (page_after "online:" key r.page_size) read.0 ∙ read.1)
              (page_after-IsNext "online:" key r.page_size s.db) in
          let s1 = (scan_prefix "online:" key r.page_size s).1 in
          resume-never _ (sweep_page r entries s1).0 (sweep_page r entries s1).1 none λ n swept.
            both_ways (λ (m : Exec Session (Option ℕ)). (m (sweep_page r entries s1).1).0 ≢ ok none)
              (ltb (length entries) r.page_size) _ _ (λ short e. cc)
              (λ full.
                sweep_from-ends fuel (last_key key entries) (removed + n) _ size
                  (full_page_fewer s s1 entries key fuel size enough read.0 full next))

  -- A sweep comes to its end, or fails at a scan, whatever its statements meet: one unit of fuel more
  -- than the table has rows is enough.
  pub sweep_ends : (s : Session) → 0 < r.page_size → (sweep r (suc (length s.db.kv)) s).0 ≢ ok none
  unfolding sweep rows_after
  sweep_ends s size =
      sweep_from-ends (suc (length s.db.kv)) "" 0 s size
        (omega (arith, length-keep-le (λ row. gtb row.0 "") s.db.kv))
