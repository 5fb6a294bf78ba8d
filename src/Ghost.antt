-- ===== src/Ghost.antt =====
-- worker/ghost/ghost.go: the sweep of the online records of servers that are gone. The servers that
-- live are a parameter, as is what encoding/json reads from a value that is no record of this
-- program. The loop over the pages takes fuel; `none` stands for fuel that ran out. The count that
-- comes with an error is read by nobody and is left out.
pub mod Kept
pub mod Pages
mod Tests
use alfred_brave_com.Base.{
  ℕ, zero, suc, ◌+◌, String, Bool, true, false, Option, none, some, List, [], ◌∷◌, ltb, length,
  if◌then◌else◌,
}
use alfred_brave_com.Base.Errors.{Error}
use alfred_brave_com.Base.Exec.{Result, ok, err, Exec, pure, ◌>>=◌}
use alfred_brave_com.Database.{Session, Value, online, counter, other, KvRow}
use alfred_brave_com.Database.Kv.{scan_prefix, delete_if_match}

pub record Reconciler : Type 0 where
  pub alive_fn : String → Bool
  pub page_size : ℕ
  pub cs_field : String → Option String

module _ (r : Reconciler) where
  -- A JSON object without the field has the empty text there.
  unfoldable pub online_cs : Value → Option String
  online_cs (online cs addr ts) = some cs
  online_cs (counter n) = some ""
  online_cs (other cs j) = r.cs_field j

  -- One, if the call has returned; its error is logged.
  one_if_deleted : Result (Unit {0}) → ℕ
  one_if_deleted (ok u) = 1
  one_if_deleted (err e) = 0

  unfoldable pub remove_stale : String → String → Exec Session ℕ
  unfolding one_if_deleted
  remove_stale key cs s = let (end, s') = delete_if_match key cs s in (ok (one_if_deleted end), s')

  sweep_record : String → Option String → Exec Session ℕ
  unfolding remove_stale
  sweep_record key none = pure 0
  sweep_record key (some cs) = if r.alive_fn cs then pure 0 else remove_stale key cs

  unfoldable pub sweep_page : List (String × KvRow) → Exec Session ℕ
  unfolding sweep_record online_cs
  sweep_page [] = pure 0
  sweep_page ((key, row) ∷ entries) = do
    one ← sweep_record key (online_cs row.v)
    more ← sweep_page entries
    pure (one + more)

unfoldable pub last_key : String → List (String × KvRow) → String
last_key key [] = key
last_key key ((next, row) ∷ entries) = last_key next entries

module _ (r : Reconciler) where
  unfoldable pub sweep_from : ℕ → String → ℕ → Exec Session (Option ℕ)
  unfolding sweep_page last_key
  sweep_from zero after_key removed = pure none
  sweep_from (suc fuel) after_key removed = do
    entries ← scan_prefix "online:" after_key r.page_size
    n ← sweep_page r entries
    if ltb (length entries) r.page_size
        then pure (some (removed + n))
        else sweep_from fuel (last_key after_key entries) (removed + n)

  unfoldable pub sweep : ℕ → Exec Session (Option ℕ)
  unfolding sweep_from
  sweep fuel = sweep_from fuel "" 0
