-- ===== src/Exchange/Entries.antt =====
-- joker/exchange/manager.go: whom the table leads a user to, as the events of the goroutines decide.
use alfred_brave_com.Base.{
  ℕ, ◌≡◌, refl, sym, ap, ◌∙◌, String, Option, none, some, List, [], ◌∷◌, both_ways, ltb, length,
  ◌==◌, if◌then◌else◌,
}
use mathlib.Core.Option.{some-injective}
use alfred_brave_com.Base.Table.{lookup, lookup-insert, lookup-remove}
use alfred_brave_com.Exchange.{
  Manager, Step, connects, frame_read, frame_written, frame_sent, reader_left, registers,
  unregisters, broadcasts, ticks, Steps, start, later, offer, connect, event_register,
  event_unregister, get_client, get_all_clients, set_client, close_client, is_idle,
  heartbeat_expiration, send_capacity,
}
use alfred_brave_com.Exchange.Routed.{IsRouted, Step-IsRouted}
use alfred_brave_com.Exchange.Kicked.{left_client, clean_idle_clients_lem}

-- What a step makes of the connection that a user is led to: an entry of the user is a new one, the
-- end of any connection of the user takes it, and the sweep takes it if it is idle.
unfoldable entry_after : {m n : Manager} → Step m n → String → Option ℕ → Option ℕ
entry_after {m} (registers h ts rest queue) uid o = if (m.heap h).user_id == uid then some h else o
entry_after {m} (unregisters h rest queue) uid o = if (m.heap h).user_id == uid then none else o
entry_after {m} (ticks now) uid o = left_client (is_idle now heartbeat_expiration m) o
entry_after step uid o = o

-- The connection that a user is led to behind a run, from the events alone.
unfoldable pub entry : {m n : Manager} → Steps m n → String → Option ℕ
unfolding entry_after
entry {m} start uid = get_client uid m
entry (later run step) uid = entry_after step uid (entry run uid)

offer-users :
    (message : String) (hs : List ℕ) (m after : Manager)
    → offer message hs m ≡ some after
    → after.users ≡ m.users
unfolding offer set_client close_client
offer-users message [] m after = λ e. ap (λ (x : Manager). x.users) (sym (some-injective m after e))
offer-users message (h ∷ hs) m after =
    both_ways (λ (o : Option Manager). o ≡ some after → after.users ≡ m.users) (m.heap h).closed
      none _ (λ closed e. cc)
      (λ open_still.
        both_ways (λ (o : Option Manager). o ≡ some after → after.users ≡ m.users)
          (ltb (length (m.heap h).send) send_capacity) _ _
          (λ fits e. offer-users message hs _ after e) (λ full e. offer-users message hs _ after e))

registered :
    (h ts : ℕ) (rest : List ℕ) (uid : String) (m : Manager)
    → get_client uid (event_register h ts (record m { register = rest }))
      ≡ (if (m.heap h).user_id == uid then some h else get_client uid m)
unfolding event_register
registered h ts rest uid m =
    both_ways
      (λ (x : Manager).
        get_client uid x ≡ (if (m.heap h).user_id == uid then some h else get_client uid m))
      m.has_online _ _ (λ e. lookup-insert (m.heap h).user_id uid h m.users)
      (λ e. lookup-insert (m.heap h).user_id uid h m.users)

unregistered :
    (h : ℕ) (rest : List ℕ) (uid : String) (m : Manager)
    → get_client uid (event_unregister h (record m { unregister = rest }))
      ≡ (if (m.heap h).user_id == uid then none else get_client uid m)
unfolding event_unregister
unregistered h rest uid m =
    both_ways
      (λ (x : Manager).
        get_client uid x ≡ (if (m.heap h).user_id == uid then none else get_client uid m))
      m.has_online _ _ (λ e. lookup-remove (m.heap h).user_id uid m.users)
      (λ e. lookup-remove (m.heap h).user_id uid m.users)

Step-entry :
    (uid : String) (m n : Manager) (step : Step m n)
    → IsRouted m
    → get_client uid n ≡ entry_after step uid (get_client uid m)
unfolding entry_after connect set_client
Step-entry uid m n (connects user_id now) r = refl
Step-entry uid m n (frame_read h now) r = refl
Step-entry uid m n (frame_written h message rest queue) r = refl
Step-entry uid m n (frame_sent h message open_still fits) r = refl
Step-entry uid m n (reader_left h below) r = refl
Step-entry uid m n (registers h ts rest queue) r = registered h ts rest uid m
Step-entry uid m n (unregisters h rest queue) r = unregistered h rest uid m
Step-entry uid m n (broadcasts message rest after queue done) r =
    ap (λ rows. lookup uid rows) (offer-users message (get_all_clients m) _ after done)
Step-entry uid m n (ticks now) r = (clean_idle_clients_lem now heartbeat_expiration m r).0 uid

-- Whatever the goroutines of a chat server do, in whatever order, from a state where each user of the
-- table is led to a connection of that user, no user stands twice, the connections that wait for their
-- entry have been made and no send channel is over its capacity: all this is so afterwards, and a user
-- is led to the connection that the last of the user's events decides, which are its entries, the ends
-- of its connections and the sweeps that find it idle.
pub Steps-entry :
    (m n : Manager) (run : Steps m n)
    → IsRouted m
    → IsRouted n × ((uid : String) → get_client uid n ≡ entry run uid)
unfolding entry
Steps-entry m n start r = (r, λ uid. refl)
Steps-entry m n (later {n = before} run step) r =
    let (routed, led) = Steps-entry m before run r in
    (
      Step-IsRouted before n routed step,
      λ uid. Step-entry uid before n step routed ∙ ap (entry_after step uid) (led uid),
    )
