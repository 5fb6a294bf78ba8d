-- ===== src/Exchange/Kicked.antt =====
-- joker/exchange/manager.go: what a round of cleanIdleClients does to the table and the connections.
use alfred_brave_com.Base.{
  ℕ, ◌≡◌, refl, ap, ◌∙◌, String, Bool, false, ◌&&◌, ◌||◌, Option, none, some, List, [], ◌∷◌, arith,
  eq_iff, exists, keep, map, nat_eq, if◌then◌else◌,
}
use alfred_brave_com.Base.Table.{lookup}
use alfred_brave_com.Exchange.{
  Manager, close, close_client, set_client, event_unregister, idle_exceeded, is_idle, clean,
  clean_idle_clients, get_all_clients, get_client,
}
use alfred_brave_com.Exchange.Idle.{
  IsNamed, is_kicked, kicked-IsNamed, clean-lookup, event_unregister-heap,
}
use alfred_brave_com.Exchange.Routed.{IsKeyed, IsRouted}

-- A user's connection after the round: the one there was, if it is not idle.
abbrev pub left_client : (ℕ → Bool) → Option ℕ → Option ℕ
left_client idle none = none
left_client idle (some h) = if idle h then none else some h

kicked-heap_closed :
    (h i : ℕ) (m : Manager)
    → ((event_unregister h (close_client h m)).heap i).closed ≡ ((m.heap i).closed || nat_eq h i)
unfolding close_client set_client close
kicked-heap_closed h i m =
    ap (λ heap. (heap i).closed) (event_unregister-heap h (close_client h m)) ∙ ground arith

module _ (ids : ℕ → String) (active : ℕ → ℕ) (now timeout : ℕ) where
  abbrev stale : ℕ → Bool
  stale h = idle_exceeded (active h) now timeout

  own_stale : Option ℕ → Bool
  own_stale none = false
  own_stale (some h) = stale h

  -- In a table that names each connection's user, a user is kicked when its own connection is idle.
  exists-kicked :
      (uid : String) (rows : List (String × ℕ))
      → IsKeyed rows
      → ((key : String) (h : ℕ) → lookup key rows ≡ some h → ids h ≡ key)
      → exists (is_kicked ids active now timeout uid) (map (λ row. row.1) rows)
        ≡ own_stale (lookup uid rows)
  unfolding exists lookup own_stale
  exists-kicked uid [] keyed named = refl
  exists-kicked uid ((key, h) ∷ rows) keyed named =
      let head = named key h (ground (arith, eq_iff key key)) in
      let rest =
        exists-kicked uid rows keyed.1
          (λ other i e. ground (arith, named other i, eq_iff key other, keyed.0, e)) in
      ground (arith, eq_iff key uid, eq_iff (ids h) uid, keyed.0, head, rest)

  own_stale-left : (o : Option ℕ) → (if own_stale o then none else o) ≡ left_client stale o
  unfolding own_stale
  own_stale-left none = refl
  own_stale-left (some h) = refl

  clean-kicked :
      (hs : List ℕ) (m : Manager)
      → IsNamed ids active m
      → (clean now timeout hs m).0 ≡ keep stale hs
  unfolding clean keep is_idle
  clean-kicked [] m named = refl
  clean-kicked (h ∷ hs) m named = ground (
    arith,
    named.active_agree h,
    clean-kicked hs m named,
    clean-kicked hs _ (kicked-IsNamed ids active h m named),
  )

  clean-closed :
      (i : ℕ) (hs : List ℕ) (m : Manager)
      → IsNamed ids active m
      → ((clean now timeout hs m).1.heap i).closed
        ≡ ((m.heap i).closed || exists (λ h. stale h && nat_eq h i) hs)
  unfolding clean exists is_idle
  clean-closed i [] m named = ground arith
  clean-closed i (h ∷ hs) m named = ground (
    arith,
    named.active_agree h,
    kicked-heap_closed h i m,
    clean-closed i hs m named,
    clean-closed i hs _ (kicked-IsNamed ids active h m named),
  )

-- A round of the idle sweep, in a state where each user of the table is led to a connection of that
-- user, no user stands twice, the connections that wait for their entry have been made and no send
-- channel is over its capacity: afterwards a user is led to the connection it had if that one is not idle, and to none
-- otherwise; the connections reported are the idle ones of the table, in its order; and closed are
-- those that were closed before and the idle ones of the table.
pub clean_idle_clients_lem :
    (now timeout : ℕ) (m : Manager)
    → IsRouted m
    → ((uid : String)
        → get_client uid (clean_idle_clients now timeout m).1
          ≡ left_client (is_idle now timeout m) (get_client uid m))
      × ((clean_idle_clients now timeout m).0 ≡ keep (is_idle now timeout m) (get_all_clients m))
      × ((i : ℕ)
          → ((clean_idle_clients now timeout m).1.heap i).closed ≡ (
              (m.heap i).closed
              || exists (λ h. is_idle now timeout m h && nat_eq h i) (get_all_clients m)))
unfolding clean_idle_clients is_idle
clean_idle_clients_lem now timeout m r = (
  λ uid.
      clean-lookup ids active now timeout uid (get_all_clients m) m same
      ∙ ap (λ b. if b then none else lookup uid m.users)
          (exists-kicked ids active now timeout uid m.users r.keyed
            λ key h found. (r.named key h found).0)
      ∙ own_stale-left ids active now timeout (lookup uid m.users),
  clean-kicked ids active now timeout (get_all_clients m) m same,
  λ i. clean-closed ids active now timeout i (get_all_clients m) m same,
)
  where
    ids : ℕ → String
    ids h = (m.heap h).user_id

    active : ℕ → ℕ
    active h = (m.heap h).last_active

    same : IsNamed ids active m
    same = record { ids_agree = λ h. refl; active_agree = λ h. refl }
