-- ===== src/Exchange/Routed.antt =====
-- joker/exchange/manager.go and client.go: the table leads to the user's own connections, and no send
-- channel holds more than its capacity, whatever the goroutines do in whatever order.
use mathlib.Core.Option.{some-injective}
use alfred_brave_com.Base.{
  ℕ, suc, ◌≡◌, ◌<◌, ◌≤◌, refl, sym, ◌∙◌, String, true, Option, none, some, List, [], ◌∷◌, ◌++◌, All,
  arith, eq_iff, nat_eq, subst, length, length-append, ◌==◌, ltb, ltb→lt, both_ways,
}
use alfred_brave_com.Base.Table.{lookup, insert, remove, lookup-insert, lookup-remove}
use alfred_brave_com.Database.{Session}
use alfred_brave_com.Exchange.{
  delete_online, upsert, Client, Manager, Step, connects, frame_read, frame_written, frame_sent,
  reader_left, registers, unregisters, broadcasts, ticks, close, close_client, set_client,
  event_register, event_unregister, is_idle, clean, offer, connect, new_client, touch_at,
  clean_idle_clients, get_all_clients, send_capacity, heartbeat_expiration,
}
use alfred_brave_com.Exchange.Idle.{set_client-field, close-user_id}

-- No key stands twice.
abbrev pub IsKeyed : List (String × ℕ) → Type 0
IsKeyed [] = Unit
IsKeyed ((key, h) ∷ rows) = (lookup key rows ≡ none) × IsKeyed rows

pub record IsRouted (m : Manager) : Type 0 where
  pub named :
      (uid : String) (h : ℕ)
      → lookup uid m.users ≡ some h
      → ((m.heap h).user_id ≡ uid) × (h < m.connections)
  pub keyed : IsKeyed m.users
  pub queued : All (λ h. h < m.connections) m.register
  pub buffered : (h : ℕ) → length (m.heap h).send ≤ send_capacity

IsKeyed-insert :
    (key : String) (h : ℕ) (rows : List (String × ℕ)) → IsKeyed rows → IsKeyed (insert key h rows)
unfolding insert lookup
IsKeyed-insert key h [] keyed = (refl, keyed)
IsKeyed-insert key h ((own, i) ∷ rows) keyed =
    both_ways IsKeyed (own == key) _ _ (λ e. keyed)
      (λ e. (
        ground (arith, lookup-insert key own h rows, eq_iff own key, eq_iff key own, keyed.0),
        IsKeyed-insert key h rows keyed.1,
      ))

IsKeyed-remove :
    (key : String) (rows : List (String × ℕ)) → IsKeyed rows → IsKeyed (remove key rows)
unfolding remove
IsKeyed-remove key [] keyed = keyed
IsKeyed-remove key ((own, i) ∷ rows) keyed =
    both_ways IsKeyed (own == key) _ _ (λ e. IsKeyed-remove key rows keyed.1)
      (λ e. (ground (arith, lookup-remove key own rows), IsKeyed-remove key rows keyed.1))

-- Between two states, what an operation that only takes entries out has to keep.
record Shrinks (m m' : Manager) : Type 0 where
  entries : (uid : String) (h : ℕ) → lookup uid m'.users ≡ some h → lookup uid m.users ≡ some h
  keyed : IsKeyed m.users → IsKeyed m'.users
  ids : (h : ℕ) → (m'.heap h).user_id ≡ (m.heap h).user_id
  connections : m'.connections ≡ m.connections
  register : m'.register ≡ m.register
  sends :
      ((h : ℕ) → length (m.heap h).send ≤ send_capacity)
      → (h : ℕ) → length (m'.heap h).send ≤ send_capacity

Shrinks-IsRouted : (m m' : Manager) → Shrinks m m' → IsRouted m → IsRouted m'
Shrinks-IsRouted m m' sh r = record {
  named = λ uid h e.
      let old = r.named uid h (sh.entries uid h e) in
      (sh.ids h ∙ old.0, subst (λ n. h < n) (sym sh.connections) old.1);
  keyed = sh.keyed r.keyed;
  queued =
      subst (λ hs. All (λ h. h < m'.connections) hs) (sym sh.register)
        (subst (λ n. All (λ h. h < n) m.register) (sym sh.connections) r.queued);
  buffered = sh.sends r.buffered;
}

close-send : (c : Client) → (close c).send ≡ c.send
unfolding close
close-send c = ground arith

-- Closing a connection, or writing another one with the same user and no more than a full channel.
set_client-Shrinks :
    (h : ℕ) (c : Client) (m : Manager)
    → c.user_id ≡ (m.heap h).user_id
    → (length (m.heap h).send ≤ send_capacity → length c.send ≤ send_capacity)
    → Shrinks m (set_client h c m)
unfolding set_client
set_client-Shrinks h c m same bounded = record {
  entries = λ uid i e. e;
  keyed = λ k. k;
  ids = λ i. set_client-field (λ d. d.user_id) h i c m same;
  connections = refl;
  register = refl;
  sends = λ all i.
      both_ways (λ d. length d.send ≤ send_capacity) (nat_eq i h) c (m.heap i)
        (λ e. bounded (all h)) (λ e. all i);
}

close_client-Shrinks : (h : ℕ) (m : Manager) → Shrinks m (close_client h m)
unfolding close_client
close_client-Shrinks h m =
    set_client-Shrinks h (close (m.heap h)) m (close-user_id (m.heap h))
      λ b. subst (λ s. length s ≤ send_capacity) (sym (close-send (m.heap h))) b

removed-Shrinks :
    (key : String) (s : Session) (m : Manager)
    → Shrinks m (record m { users = remove key m.users; session = s })
removed-Shrinks key s m = record {
  entries = λ uid h e. ground (arith, lookup-remove key uid m.users);
  keyed = λ k. IsKeyed-remove key m.users k;
  ids = λ h. refl;
  connections = refl;
  register = refl;
  sends = λ all. all;
}

event_unregister-Shrinks : (h : ℕ) (m : Manager) → Shrinks m (event_unregister h m)
unfolding event_unregister
event_unregister-Shrinks h m =
    both_ways (Shrinks m) m.has_online _ _
      (λ e.
        removed-Shrinks (m.heap h).user_id
          (delete_online (m.heap h).user_id m.online_cs m.session).1 m)
      (λ e. removed-Shrinks (m.heap h).user_id m.session m)

unregister-IsRouted : (h : ℕ) (m : Manager) → IsRouted m → IsRouted (event_unregister h m)
unregister-IsRouted h m r = Shrinks-IsRouted m _ (event_unregister-Shrinks h m) r

clean-IsRouted :
    (now timeout : ℕ) (hs : List ℕ) (m : Manager) → IsRouted m → IsRouted (clean now timeout hs m).1
unfolding clean
clean-IsRouted now timeout [] m r = r
clean-IsRouted now timeout (h ∷ hs) m r =
    both_ways {A = List ℕ × Manager} (λ p. IsRouted p.1) (is_idle now timeout m h) _ _
      (λ e.
        clean-IsRouted now timeout hs _
          (unregister-IsRouted h _ (Shrinks-IsRouted m _ (close_client-Shrinks h m) r)))
      (λ e. clean-IsRouted now timeout hs m r)

room :
    (s : List String) (message : String)
    → ltb (length s) send_capacity ≡ true
    → length (s ++ message ∷ []) ≤ send_capacity
room s message e = ground (arith, ltb→lt (length s) send_capacity e, length-append s (message ∷ []))

-- A message put into a channel that has room.
pub send-IsRouted :
    (h : ℕ) (message : String) (m : Manager)
    → ltb (length (m.heap h).send) send_capacity ≡ true
    → IsRouted m
    → IsRouted (set_client h (record (m.heap h) { send = (m.heap h).send ++ message ∷ [] }) m)
send-IsRouted h message m fits r =
    Shrinks-IsRouted m _ (set_client-Shrinks h _ m refl λ b. room (m.heap h).send message fits) r

-- Every state that a broadcast can end in.
Ended : Option Manager → Type 0
Ended o = (m : Manager) → o ≡ some m → IsRouted m

offer-IsRouted :
    (message : String) (hs : List ℕ) (m : Manager) → IsRouted m → Ended (offer message hs m)
unfolding offer Ended
offer-IsRouted message [] m r = λ after e. subst IsRouted (some-injective m after e) r
offer-IsRouted message (h ∷ hs) m r =
    both_ways Ended (m.heap h).closed _ _ (λ e. λ after none-some. cc)
      (λ e.
        both_ways Ended (ltb (length (m.heap h).send) send_capacity) _ _
          (λ fits. offer-IsRouted message hs _ (
            Shrinks-IsRouted m _
              (set_client-Shrinks h _ m refl λ b. room (m.heap h).send message fits) r))
          (λ full. offer-IsRouted message hs _ (Shrinks-IsRouted m _ (close_client-Shrinks h m) r)))

register-IsRouted :
    (h ts : ℕ) (rest : List ℕ) (m : Manager)
    → m.register ≡ h ∷ rest
    → IsRouted m
    → IsRouted (event_register h ts (record m { register = rest }))
unfolding event_register
register-IsRouted h ts rest m queue r =
    both_ways IsRouted m.has_online _ _
      (λ e. entered (upsert (m.heap h).user_id m.online_cs m.online_addr ts m.session).1)
      (λ e. entered m.session)
  where
    key : String
    key = (m.heap h).user_id

    held : All (λ i. i < m.connections) (h ∷ rest)
    held = subst (λ q. All (λ i. i < m.connections) q) queue r.queued

    entered :
        (s : Session)
        → IsRouted
            (record m { register = rest; users = insert (m.heap h).user_id h m.users; session = s })
    entered s = record {
      named = λ uid i e. (
        ground (arith, lookup-insert key uid h m.users, eq_iff key uid, r.named uid i),
        ground (arith, lookup-insert key uid h m.users, r.named uid i, held.0),
      );
      keyed = IsKeyed-insert (m.heap h).user_id h m.users r.keyed;
      queued = held.1;
      buffered = r.buffered;
    }

queued_one_more : (n : ℕ) (hs : List ℕ) → All (λ h. h < n) hs → All (λ h. h < suc n) (hs ++ n ∷ [])
queued_one_more n [] all = (omega arith, tt)
queued_one_more n (h ∷ hs) all = (omega (arith, all.0), queued_one_more n hs all.1)

connect-IsRouted :
    (user_id : String) (now : ℕ) (m : Manager) → IsRouted m → IsRouted (connect user_id now m)
unfolding connect new_client set_client
connect-IsRouted user_id now m r = record {
  named =
      λ uid h e. let old = r.named uid h e in (ground (arith, old.0, old.1), omega (arith, old.1));
  keyed = r.keyed;
  queued = queued_one_more m.connections m.register r.queued;
  buffered = λ h.
      both_ways {A = Client} (λ c. length c.send ≤ send_capacity) (nat_eq h m.connections) _ _
        (λ e. omega arith) (λ e. r.buffered h);
}

touch_at_lem :
    (t : ℕ) (c : Client) → ((touch_at t c).user_id ≡ c.user_id) × ((touch_at t c).send ≡ c.send)
unfolding touch_at
touch_at_lem t c = (refl, refl)

tick-IsRouted :
    (now timeout : ℕ) (m : Manager) → IsRouted m → IsRouted (clean_idle_clients now timeout m).1
unfolding clean_idle_clients
tick-IsRouted now timeout m r = clean-IsRouted now timeout (get_all_clients m) m r

pub Step-IsRouted : (m n : Manager) → IsRouted m → Step m n → IsRouted n
unfolding Ended
Step-IsRouted m n r (connects user_id now) = connect-IsRouted user_id now m r
Step-IsRouted m n r (frame_read h now) =
    Shrinks-IsRouted m _
      (set_client-Shrinks h (touch_at now (m.heap h)) m (touch_at_lem now (m.heap h)).0
        λ b. subst (λ s. length s ≤ send_capacity) (sym (touch_at_lem now (m.heap h)).1) b)
      r
Step-IsRouted m n r (frame_written h message rest queue) =
    Shrinks-IsRouted m _
      (set_client-Shrinks h (record (m.heap h) { send = rest }) m refl
        λ b. omega (arith, subst (λ s. length s ≤ send_capacity) queue b))
      r
Step-IsRouted m n r (frame_sent h message open_still fits) = send-IsRouted h message m fits r
Step-IsRouted m n r (reader_left h below) = record {
  named = r.named;
  keyed = r.keyed;
  queued = r.queued;
  buffered = r.buffered;
}
Step-IsRouted m n r (registers h ts rest queue) = register-IsRouted h ts rest m queue r
Step-IsRouted m n r (unregisters h rest queue) =
    unregister-IsRouted h _
      (record { named = r.named; keyed = r.keyed; queued = r.queued; buffered = r.buffered })
Step-IsRouted m n r (broadcasts message rest after queue done) =
    offer-IsRouted message (get_all_clients m) _
      (record { named = r.named; keyed = r.keyed; queued = r.queued; buffered = r.buffered }) after
      done
Step-IsRouted m n r (ticks now) = tick-IsRouted now heartbeat_expiration m r
