-- ===== src/Deliver/Routes.antt =====
-- worker/deliver/router.go: the cache of routes in front of the online records. The clock and the
-- database are parameters, read by number: `now_fn i` is the i-th reading of the clock, in
-- nanoseconds, and `session_at i` the database as it answers a query made after i readings.
-- `decode_other` is what encoding/json reads from a value that is no record of this program.
pub mod Fresh
use alfred_brave_com.Base.{
  ℕ, suc, ◌+◌, ◌*◌, ◌≡◌, ◌<◌, ◌≤◌, String, Bool, true, false, Option, none, some, List, [], ◌∷◌,
  ltb, if◌then◌else◌, arith, refl, inl, inr, ◌⊎◌,
}
use alfred_brave_com.Base.Errors.{Error, not_found, driver}
use alfred_brave_com.Base.Table.{lookup, insert, remove}
use alfred_brave_com.Base.Exec.{Result, ok, err}
use alfred_brave_com.Database.{Session, Value, online, counter, other}
use alfred_brave_com.Database.Kv.{get, online_key}

-- Thirty seconds.
abbrev pub route_ttl : ℕ
route_ttl = 30000000000

pub record OnlineAddr : Type 0 where
  pub cs : String
  pub addr : String

pub record RouteEntry : Type 0 where
  pub addr : OnlineAddr
  pub expire_at : ℕ

-- `reads` is the number of readings of the clock so far.
pub record Router : Type 0 where
  pub cache : List (String × RouteEntry)
  pub reads : ℕ

abbrev pub offline_addr : OnlineAddr
offline_addr = record { cs = ""; addr = "" }

unfoldable pub new_router : Router
new_router = record { cache = []; reads = 0 }

unfoldable pub invalidate : String → Router → Router
invalidate uid r = record r { cache = remove uid r.cache }

pub record World : Type 0 where
  pub now_fn : ℕ → ℕ
  pub session_at : ℕ → Session
  pub decode_other : String → Option OnlineAddr

module _ (w : World) where
  decoded : Value → Result OnlineAddr
  decoded (online cs addr ts) = ok (record { cs = cs; addr = addr })
  decoded (counter n) = ok offline_addr
  decoded (other cs j) = elim (w.decode_other j) [ none ↦ err driver | some a ↦ ok a ]

  -- kv.Get of the user's record, where a missing one counts as offline.
  route_of : Result Value → Result OnlineAddr
  unfolding decoded
  route_of (ok v) = decoded v
  route_of (err e) = elim e [ not_found ↦ ok offline_addr | other_error ↦ err other_error ]

  -- What the database says of the user's route after so many readings.
  unfoldable pub authoritative : ℕ → String → Result OnlineAddr
  unfolding route_of
  authoritative i uid = route_of (get (online_key uid) (w.session_at i)).0

  stored : String → Result OnlineAddr → Router → Result OnlineAddr × Router
  stored uid (err e) r = (err e, r)
  stored uid (ok a) r = (
    ok a,
    record {
      cache = insert uid (record { addr = a; expire_at = w.now_fn r.reads + route_ttl }) r.cache;
      reads = suc r.reads;
    },
  )

  -- The cached entry is there and `now` is before its end.
  unfoldable pub fresh_entry : ℕ → Option RouteEntry → Option OnlineAddr
  fresh_entry now none = none
  fresh_entry now (some e) = if ltb now e.expire_at then some e.addr else none

  -- The clock is read only where there is an entry.
  reads_after : Option RouteEntry → ℕ → ℕ
  reads_after none i = i
  reads_after (some e) i = suc i

  answer_or : Option OnlineAddr → String → Router → Result OnlineAddr × Router
  unfolding stored
  answer_or (some a) uid r = (ok a, r)
  answer_or none uid r = stored uid (authoritative r.reads uid) r

  unfoldable pub get_route : String → Router → Result OnlineAddr × Router
  unfolding answer_or reads_after fresh_entry
  get_route uid r =
      let entry = lookup uid r.cache in
      answer_or (fresh_entry (w.now_fn r.reads) entry) uid
        (record r { reads = reads_after entry r.reads })

  -- An answer that the database gave when `i` readings had been made, less than the lifetime of an
  -- entry before the time `now`.
  pub record IsFresh (uid : String) (a : OnlineAddr) (limit now : ℕ) : Type 0 where
    pub i : ℕ
    pub made : i < limit
    pub said : authoritative i uid ≡ ok a
    pub recent : now < w.now_fn i + route_ttl

  -- Every entry holds what the database said when the clock was read for its end.
  pub record IsHonest (r : Router) : Type 0 where
    pub entries :
        (uid : String) (e : RouteEntry)
        → lookup uid r.cache ≡ some e
        → (i : ℕ) × (i < r.reads)
          × (authoritative i uid ≡ ok e.addr)
          × (e.expire_at ≡ w.now_fn i + route_ttl)

  -- The routers that calls of Get and Invalidate lead to.
  pub data Reached : Router → Type 0 where
    start : Reached new_router
    asked : {r : Router} (uid : String) → Reached r → Reached (get_route uid r).1
    invalidated : {r : Router} (uid : String) → Reached r → Reached (invalidate uid r)
