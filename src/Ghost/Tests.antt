-- ===== src/Ghost/Tests.antt =====
-- Sweeps of small tables, and the theorems at them.
use alfred_brave_com.Base.{◌≡◌, ◌≢◌, refl, true, none, some, [], ◌∷◌, arith, ◌==◌, keep, take}
use alfred_brave_com.Base.Sort.{sort_by, insert_sorted}
use alfred_brave_com.Base.Order.{gtb}
use alfred_brave_com.Base.Table.{lookup, remove}
use alfred_brave_com.Base.Exec.{ok, ◌>>=◌, pure}
use alfred_brave_com.Database.{Db, empty_db, steady, online, statement, select}
use alfred_brave_com.Database.Kv.{
  scan_prefix, page_after, smaller_key, scan_limit, delete_if_match, delete_if_match_sql,
  cs_matches,
}
use alfred_brave_com.Ghost.{
  Reconciler, sweep, sweep_from, sweep_page, sweep_record, remove_stale, online_cs, last_key,
}
use alfred_brave_com.Ghost.Kept.{is_kept, sweep_spares}
use alfred_brave_com.Ghost.Pages.{sweep_ends}

abbrev reconciler : Reconciler
reconciler = record { alive_fn = λ cs. cs == "s1"; page_size = 1; cs_field = λ j. none }

-- Bob's server is gone.
abbrev tables : Db
tables = record empty_db {
  kv =
      ("online:ada", record { v = online "s1" "a1" 1; version = 1 })
      ∷ ("online:bob", record { v = online "s2" "a2" 1; version = 1 })
      ∷ [];
}

one_removed : (sweep reconciler 3 (steady tables 0)).0 ≡ ok (some 1)
unfolding sweep sweep_from sweep_page sweep_record remove_stale online_cs last_key scan_prefix
    page_after smaller_key scan_limit delete_if_match delete_if_match_sql cs_matches statement
    select ◌>>=◌ pure sort_by insert_sorted gtb keep take lookup remove
one_removed = refl

ada_stays : is_kept reconciler (lookup "online:ada" tables.kv) ≡ true
unfolding is_kept lookup
ada_stays = refl

sweep_spares_example :
    lookup "online:ada" (sweep reconciler 3 (steady tables 0)).1.db.kv
    ≡ lookup "online:ada" tables.kv
sweep_spares_example = sweep_spares reconciler 3 "online:ada" (steady tables 0) ada_stays

sweep_ends_example : (sweep reconciler 3 (steady tables 0)).0 ≢ ok none
sweep_ends_example = sweep_ends reconciler (steady tables 0) (omega arith)
