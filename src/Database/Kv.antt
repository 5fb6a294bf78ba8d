-- ===== src/Database/Kv.antt =====
-- database/kv.go: the table kv.
use alfred_brave_com.Base.{
  ℕ, ◌+◌, ◌≡◌, sym, subst, ap, String, Bool, false, Option, none, some, List, [], ◌∷◌, ltb, nat_eq,
  take, starts_with, ◌&&◌, contains, keep, ◌==◌, if◌then◌else◌,
}
use Prim.Native.String.{◌++◌}
use alfred_brave_com.Base.Order.{gtb}
use alfred_brave_com.Base.Sort.{sort_by}
use alfred_brave_com.Base.Errors.{driver, not_found}
use alfred_brave_com.Base.Table.{lookup, insert, remove}
use alfred_brave_com.Base.Exec.{Result, ok, err, Exec, ok-injective}
use alfred_brave_com.Database.{
  Value, online, counter, other, KvRow, Db, Session, Sql, statement, select,
}

-- PostgreSQL's largest bigint.
abbrev pub max_bigint : ℕ
max_bigint = 9223372036854775807

abbrev pub online_key : String → String
online_key uid = "online:" ++ uid

abbrev pub seq_key : String → String
seq_key conv_id = "seq:" ++ conv_id

next_version : Option KvRow → ℕ
next_version none = 1
next_version (some row) = row.version + 1

unfoldable pub put_sql : String → Value → Sql (Unit {0})
unfolding next_version
put_sql key v db =
    let version = next_version (lookup key db.kv) in
    ok (tt, record db { kv = insert key (record { v = v; version = version }) db.kv })

unfoldable pub put : String → Value → Exec Session (Unit {0})
unfolding put_sql
put key v = statement (put_sql key v)

found : Option KvRow → Db → Result (Value × Db)
found none db = err not_found
found (some row) db = ok (row.v, db)

unfoldable pub get : String → Exec Session Value
unfolding found
get key = statement (λ db. found (lookup key db.kv) db)

-- v = ANY(keys): the rows of the table whose key is listed.
unfoldable pub get_many_batch : List String → Exec Session (List (String × KvRow))
unfolding keep contains
get_many_batch [] s = (ok [], s)
get_many_batch (k ∷ ks) s = statement (select (λ db. keep (λ row. contains row.0 (k ∷ ks)) db.kv)) s

-- `limit <= 0` is 1000; a negative limit is a 0 here.
unfoldable pub scan_limit : ℕ → ℕ
scan_limit limit = if nat_eq limit 0 then 1000 else limit

-- ORDER BY k, in the order of the bytes. The prefixes of the program hold no wildcard of LIKE.
unfoldable pub smaller_key : String × KvRow → String × KvRow → Bool
unfolding gtb
smaller_key row next = gtb next.0 row.0

unfoldable pub page_after : String → String → ℕ → Db → List (String × KvRow)
unfolding take sort_by smaller_key keep scan_limit gtb
page_after prefix after_key limit db =
    take (scan_limit limit)
      (sort_by smaller_key (keep (λ row. starts_with row.0 prefix && gtb row.0 after_key) db.kv))

unfoldable pub scan_prefix : String → String → ℕ → Exec Session (List (String × KvRow))
unfolding page_after
scan_prefix prefix after_key limit = statement (select (page_after prefix after_key limit))

unfoldable pub delete : String → Exec Session (Unit {0})
delete key = statement (λ db. ok (tt, record db { kv = remove key db.kv }))

-- v->>'cs', `none` for NULL.
unfoldable pub stored_cs : Value → Option String
stored_cs (online cs addr ts) = some cs
stored_cs (counter n) = none
stored_cs (other cs j) = cs

unfoldable pub is_equal : String → Option String → Bool
is_equal self none = false
is_equal self (some cs) = cs == self

-- v->>'cs' = self, the only field that the source matches on.
unfoldable pub cs_matches : String → Option KvRow → Bool
unfolding stored_cs is_equal
cs_matches self none = false
cs_matches self (some row) = is_equal self (stored_cs row.v)

unfoldable pub delete_if_match_sql : String → String → Sql (Unit {0})
unfolding cs_matches
delete_if_match_sql key self db =
    ok (tt, if cs_matches self (lookup key db.kv) then record db { kv = remove key db.kv } else db)

unfoldable pub delete_if_match : String → String → Exec Session (Unit {0})
unfolding delete_if_match_sql
delete_if_match key self = statement (delete_if_match_sql key self)

-- The counter's next value: of a row with no `next`, jsonb_set gives NULL, which the column refuses.
unfoldable pub bumped : ℕ → Option KvRow → Result ℕ
bumped by none = ok by
bumped by (some row) = elim row.v [
  | counter n ↦ if ltb max_bigint (n + by) then err driver else ok (n + by)
  | online cs addr ts ↦ err driver
  | other cs j ↦ err driver
]

write_seq : String → Result ℕ → Sql ℕ
unfolding next_version
write_seq key (err e) db = err e
write_seq key (ok n) db =
    let version = next_version (lookup key db.kv) in
    ok (n, record db { kv = insert key (record { v = counter n; version = version }) db.kv })

-- The UPSERT of a session's counter, by as many as are given.
unfoldable pub bump_seq : String → ℕ → Sql ℕ
unfolding bumped write_seq
bump_seq conv_id by db = write_seq (seq_key conv_id) (bumped by (lookup (seq_key conv_id) db.kv)) db

-- NextSeqTx, and NextSeq outside a transaction.
unfoldable pub next_seq : String → Exec Session ℕ
unfolding bump_seq
next_seq conv_id = statement (bump_seq conv_id 1)

write_seq_lem :
    (key : String) (r : Result ℕ) (n : ℕ) (db db' : Db)
    → write_seq key r db ≡ ok (n, db')
    → (version : ℕ) × (r ≡ ok n)
      × (db' ≡ record db { kv = insert key (record { v = counter n; version = version }) db.kv })
unfolding write_seq
write_seq_lem key (err e) n db db' h = cc
write_seq_lem key (ok m) n db db' h =
    let e = ok-injective h in
    let m-n = ap (λ (p : ℕ × Db). p.0) e in
    (
      next_version (lookup key db.kv),
      ap ok m-n,
      subst
          (λ x. db' ≡ record db {
            kv =
                insert key (record { v = counter x; version = next_version (lookup key db.kv) })
                  db.kv;
          })
          m-n (sym (ap (λ (p : ℕ × Db). p.1) e)),
    )

-- A counter that was bumped holds the number that was returned, and nothing else has changed.
pub bump_seq_lem :
    (conv_id : String) (by n : ℕ) (db db' : Db)
    → bump_seq conv_id by db ≡ ok (n, db')
    → (version : ℕ) × (bumped by (lookup (seq_key conv_id) db.kv) ≡ ok n)
      × (db' ≡ record db {
        kv = insert (seq_key conv_id) (record { v = counter n; version = version }) db.kv;
      })
unfolding bump_seq
bump_seq_lem conv_id by n db db' h = write_seq_lem (seq_key conv_id) _ n db db' h
