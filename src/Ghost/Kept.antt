-- ===== src/Ghost/Kept.antt =====
-- worker/ghost/ghost.go: what a sweep never touches.
use alfred_brave_com.Base.{
  ℕ, zero, suc, ◌+◌, ◌≡◌, refl, ◌∙◌, subst, String, Bool, true, false, Option, none, some, List, [],
  ◌∷◌, arith, eq_iff, ltb, length, both_ways, text_cases, inl, inr,
}
use alfred_brave_com.Base.Table.{lookup, remove, lookup-remove}
use alfred_brave_com.Base.Exec.{Keeps, Keeps-pure, Keeps-if, Keeps-bind, ok-injective, pure}
use alfred_brave_com.Database.{Db, Session, KvRow}
use alfred_brave_com.Database.Rules.{On, Keeps-statement, Keeps-select}
use alfred_brave_com.Database.Kv.{
  cs_matches, stored_cs, is_equal, delete_if_match, delete_if_match_sql, scan_prefix,
}
use alfred_brave_com.Ghost.{
  Reconciler, online_cs, remove_stale, sweep_record, sweep_page, last_key, sweep_from, sweep,
}

module _ (r : Reconciler) where
  abbrev alive_or_none : Option String → Bool
  alive_or_none none = true
  alive_or_none (some cs) = r.alive_fn cs

  -- No record of a server that is gone: the value names no server, or one that lives.
  unfoldable pub is_kept : Option KvRow → Bool
  unfolding stored_cs
  is_kept none = true
  is_kept (some row) = alive_or_none (stored_cs row.v)

  abbrev Stays : String → Option KvRow → Session → Type 0
  Stays key before = On (λ db. lookup key db.kv ≡ before)

  kept-cs_matches :
      (cs : String) (before : Option KvRow)
      → r.alive_fn cs ≡ false
      → is_kept before ≡ true
      → cs_matches cs before ≡ false
  unfolding is_kept cs_matches is_equal
  kept-cs_matches cs none dead kept = refl
  kept-cs_matches cs (some row) dead kept = of_cs (stored_cs row.v) kept
    where
      of_cs : (o : Option String) → alive_or_none o ≡ true → is_equal cs o ≡ false
      of_cs none alive = refl
      of_cs (some c) alive = ground (arith, eq_iff c cs, alive, dead)

  remove_stale-Keeps :
      (key cs k : String) (before : Option KvRow)
      → r.alive_fn cs ≡ false
      → is_kept before ≡ true
      → Keeps (Stays k before) (remove_stale r key cs)
  unfolding remove_stale delete_if_match delete_if_match_sql
  remove_stale-Keeps key cs k before dead kept = record {
    at =
        (Keeps-statement (λ db. lookup k db.kv ≡ before) (delete_if_match_sql key cs)
          λ db u db' same e.
            subst (λ (p : Unit {0} × Db). lookup k p.1.kv ≡ before) (ok-injective e)
              (both_ways (λ (d : Db). lookup k d.kv ≡ before) (cs_matches cs (lookup key db.kv))
                (record db { kv = remove key db.kv }) db
                (λ hit. lookup-remove key k db.kv ∙ elim (text_cases key k) [
                  | inl one ↦ absurd (not_hit db one same hit)
                  | inr (ne, off) ↦ rw off same
                ])
                (λ miss. same))).at;
  }
    where
      not_hit :
          (db : Db)
          → key ≡ k
          → lookup k db.kv ≡ before
          → cs_matches cs (lookup key db.kv) ≡ true
          → ⊥
      not_hit db one same hit =
          let miss = kept-cs_matches cs before dead kept in
          let here = subst (λ (x : String). cs_matches cs (lookup x db.kv) ≡ true) one hit in
          ground (arith, miss, subst (λ (o : Option KvRow). cs_matches cs o ≡ true) same here)

  sweep_record-Keeps :
      (key : String) (o : Option String) (k : String) (before : Option KvRow)
      → is_kept before ≡ true
      → Keeps (Stays k before) (sweep_record r key o)
  unfolding sweep_record
  sweep_record-Keeps key none k before kept = Keeps-pure 0
  sweep_record-Keeps key (some cs) k before kept =
      both_ways (Keeps (Stays k before)) (r.alive_fn cs) (pure 0) (remove_stale r key cs)
        (λ alive. Keeps-pure 0) (λ dead. remove_stale-Keeps key cs k before dead kept)

  sweep_page-Keeps :
      (entries : List (String × KvRow)) (k : String) (before : Option KvRow)
      → is_kept before ≡ true
      → Keeps (Stays k before) (sweep_page r entries)
  unfolding sweep_page
  sweep_page-Keeps [] k before kept = Keeps-pure 0
  sweep_page-Keeps ((key, row) ∷ entries) k before kept =
      Keeps-bind _ _ (sweep_record-Keeps key (online_cs r row.v) k before kept) λ one.
        Keeps-bind _ _ (sweep_page-Keeps entries k before kept) λ more. Keeps-pure (one + more)

  sweep_from-Keeps :
      (fuel : ℕ) (after_key : String) (removed : ℕ) (k : String) (before : Option KvRow)
      → is_kept before ≡ true
      → Keeps (Stays k before) (sweep_from r fuel after_key removed)
  unfolding sweep_from scan_prefix
  sweep_from-Keeps zero after_key removed k before kept = Keeps-pure none
  sweep_from-Keeps (suc fuel) after_key removed k before kept =
      Keeps-bind _ _ (Keeps-select (λ db. lookup k db.kv ≡ before) _) λ entries.
        Keeps-bind _ _ (sweep_page-Keeps entries k before kept) λ n.
          Keeps-if (ltb (length entries) r.page_size) _ _ (Keeps-pure (some (removed + n)))
            (sweep_from-Keeps fuel (last_key after_key entries) (removed + n) k before kept)

  -- A sweep, whatever its statements meet and however far it comes, leaves each key of the table as
  -- it was whose value has no field cs or the name of a server there that lives.
  pub sweep_spares :
      (fuel : ℕ) (key : String) (s : Session)
      → is_kept (lookup key s.db.kv) ≡ true
      → lookup key (sweep r fuel s).1.db.kv ≡ lookup key s.db.kv
  unfolding sweep
  sweep_spares fuel key s kept =
      (sweep_from-Keeps fuel "" 0 key (lookup key s.db.kv) kept).at s refl
