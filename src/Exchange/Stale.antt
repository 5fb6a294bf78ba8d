-- ===== src/Exchange/Stale.antt =====
-- joker/exchange/manager.go: a connection that is taken out after its user has come back.
use alfred_brave_com.Base.{
  ℕ, ◌≡◌, refl, sym, ap, ◌∙◌, String, true, none, some, [], arith, if◌then◌else◌, subst, eq_refl,
}
use alfred_brave_com.Base.Table.{lookup, insert, remove, lookup-insert_same, lookup-remove}
use alfred_brave_com.Database.{Value, Session, statement, settle, next_fate, online, steady}
use alfred_brave_com.Database.Kv.{
  online_key, put, put_sql, delete_if_match, delete_if_match_sql, cs_matches,
}
use alfred_brave_com.Exchange.Idle.{event_unregister-users, event_unregister-heap}
use alfred_brave_com.Exchange.{
  Manager, event_register, event_unregister, get_client, upsert, delete_online,
}

module _ (s : Session) (no_fates : s.fates ≡ []) (key : String) where
  is_steady : steady s.db s.drawn ≡ s
  is_steady = ap (λ fates. record s { fates = fates }) (sym no_fates)

  put-steady :
      (v : Value)
      → ((version : ℕ) × (lookup key (put key v s).1.db.kv
            ≡ some (record { v = v; version = version })))
        × ((put key v s).1.fates ≡ [])
  unfolding put put_sql statement settle next_fate
  put-steady v =
      subst
        (λ s.
          ((version : ℕ) × (lookup key (put key v s).1.db.kv
              ≡ some (record { v = v; version = version })))
          × ((put key v s).1.fates ≡ []))
        is_steady ((_, lookup-insert_same key _ s.db.kv), refl)

  delete_if_match-steady :
      (cs addr : String) (ts version : ℕ)
      → lookup key s.db.kv ≡ some (record { v = online cs addr ts; version = version })
      → lookup key (delete_if_match key cs s).1.db.kv ≡ none
  unfolding delete_if_match delete_if_match_sql cs_matches statement settle next_fate
  delete_if_match-steady cs addr ts version there =
      subst (λ s. lookup key (delete_if_match key cs s).1.db.kv ≡ none) is_steady
        (ground (arith, there, eq_refl cs, eq_refl key, lookup-remove key key s.db.kv))

module _ (h ts : ℕ) (m : Manager) where
  event_register-users : (event_register h ts m).users ≡ insert (m.heap h).user_id h m.users
  unfolding event_register
  event_register-users = ground arith

  event_register-heap : (event_register h ts m).heap ≡ m.heap
  unfolding event_register
  event_register-heap = ground arith

  event_register-online :
      m.has_online ≡ true
      → ((event_register h ts m).has_online ≡ true)
        × ((event_register h ts m).online_cs ≡ m.online_cs)
        × ((event_register h ts m).session
            ≡ (upsert (m.heap h).user_id m.online_cs m.online_addr ts m.session).1)
  unfolding event_register
  event_register-online on = (ground (arith, on), ground arith, ground (arith, on))

  event_unregister-session :
      m.has_online ≡ true
      → (event_unregister h m).session ≡ (delete_online (m.heap h).user_id m.online_cs m.session).1
  unfolding event_unregister
  event_unregister-session on = ground (arith, on)

-- A user's second connection is entered and then the first one is taken out, as it happens when a
-- client comes back before its old connection has been noticed to be dead, with every round trip to
-- PostgreSQL answered: the user has no connection in the table and no record in kv, though the
-- second connection is as it was.
pub stale_unregister :
    (old fresh ts : ℕ) (m : Manager)
    → (m.heap old).user_id ≡ (m.heap fresh).user_id
    → m.has_online ≡ true
    → m.session.fates ≡ []
    → let after = event_unregister old (event_register fresh ts m) in
      (get_client (m.heap fresh).user_id after ≡ none)
      × (lookup (online_key (m.heap fresh).user_id) after.session.db.kv ≡ none)
      × (after.heap fresh ≡ m.heap fresh)
unfolding upsert delete_online
stale_unregister old fresh ts m same kept no_fates =
    let entered = event_register fresh ts m in
    let uid = (m.heap fresh).user_id in
    let key = online_key uid in
    let owner = ap (λ heap. (heap old).user_id) (event_register-heap fresh ts m) ∙ same in
    let on = event_register-online fresh ts m kept in
    let written = put-steady m.session no_fates key (online m.online_cs m.online_addr ts) in
    (
      ap (lookup uid) (event_unregister-users old entered)
          ∙ ap (λ own. lookup uid (remove own entered.users)) owner
          ∙ lookup-remove uid uid entered.users
          ∙ ap (λ b. if b then none else lookup uid entered.users) (eq_refl uid),
      ap (λ s. lookup key s.db.kv)
            (event_unregister-session old ts entered on.0
              ∙ ap (λ own. (delete_online own entered.online_cs entered.session).1) owner
              ∙ ap (λ cs. (delete_online uid cs entered.session).1) on.1
              ∙ ap (λ s. (delete_online uid m.online_cs s).1) on.2)
          ∙ delete_if_match-steady _ written.1 key m.online_cs m.online_addr ts written.0.0
              written.0.1,
      ap (λ heap. heap fresh) (event_unregister-heap old entered ∙ event_register-heap fresh ts m),
    )
