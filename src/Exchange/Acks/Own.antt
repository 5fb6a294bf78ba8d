-- ===== src/Exchange/Acks/Own.antt =====
-- joker/exchange/ack.go: whose connection an ACK reaches.
use mathlib.Core.Option.{some-injective}
use mathlib.Core.List.{append_assoc, append-nil}
use alfred_brave_com.Base.{
  ℕ, ◌≡◌, refl, sym, ap, ◌∙◌, subst, String, Bool, true, false, Option, none, some, List, [], ◌∷◌,
  ◌++◌, All, ltb, nat_eq, nat_eq_iff, length, if◌then◌else◌, ◌==◌, both_ways, inl, inr, Bool-cases,
}
use alfred_brave_com.Base.Errors.{driver}
use alfred_brave_com.Base.Table.{lookup}
use alfred_brave_com.Base.Exec.{Result, ok, err, Exec}
use alfred_brave_com.Chat.{Ack}
use alfred_brave_com.Database.{Session}
use alfred_brave_com.Database.Kv.{online_key}
use alfred_brave_com.Exchange.{Client, set_client, send_capacity, get_client}
use alfred_brave_com.Exchange.Acks.{
  World, Dispatcher, Dispatch, Groups, AckReply, relay_failed, no_response, results, OnlineValue,
  after, and_then, return, on_session, add_to, relay_acks, with_raw, with_client, enqueue_local,
  enqueue_all, route_at, route_acks, retry_groups, retry_missed, after_relay, forward,
  forward_groups, dispatch, consume_round, commit_messages, missed, unique_from_uids, get_many,
  addr_of, parsed,
}

All-append : {A : Type 0} (P : A → Type 0) (xs ys : List A) → All P xs → All P ys → All P (xs ++ ys)
All-append P [] ys hx hy = hy
All-append P (x ∷ xs) ys (h, hx) hy = (h, All-append P xs ys hx hy)

module _ (w : World) where
  -- The frame of an ACK whose sender the table leads to the connection.
  pub IsOwn : List (String × ℕ) → ℕ → String → Type 0
  IsOwn users h raw = (a : Ack) × (w.marshal a ≡ some raw) × (lookup a.from_uid users ≡ some h)

  -- The connection table is the same, and each channel has only got frames of its own user.
  pub record Adds (d d' : Dispatcher) : Type 0 where
    pub users : d'.manager.users ≡ d.manager.users
    pub sends :
        (h : ℕ)
        → (extra : List String) × ((d'.manager.heap h).send ≡ (d.manager.heap h).send ++ extra)
          × All (IsOwn d.manager.users h) extra

  Adds-refl :
      (d d' : Dispatcher)
      → d'.manager.users ≡ d.manager.users
      → d'.manager.heap ≡ d.manager.heap
      → Adds d d'
  Adds-refl d d' same_users same_heap = record {
    users = same_users;
    sends = λ h. (
      [],
      ap (λ (heap : ℕ → Client). (heap h).send) same_heap
          ∙ sym (append-nil (d.manager.heap h).send),
      tt,
    );
  }

  Adds-trans : (d d1 d2 : Dispatcher) → Adds d d1 → Adds d1 d2 → Adds d d2
  Adds-trans d d1 d2 a b = record {
    users = b.users ∙ a.users;
    sends = λ h.
        let (extra, first, own) = a.sends h in
        let (more, second, own') = b.sends h in
        (
          extra ++ more,
          second
              ∙ ap (λ (xs : List String). xs ++ more) first
              ∙ append_assoc (d.manager.heap h).send extra more,
          All-append (IsOwn d.manager.users h) extra more own
              (subst (λ (users : List (String × ℕ)). All (IsOwn users h) more) a.users own'),
        );
  }

  -- A call that, where it does not panic, only adds frames of their own users.
  record IsPolite {A : Type 0} (m : Dispatch A) : Type 0 where
    at : (d d' : Dispatcher) (r : Result A) → m d ≡ some (r, d') → Adds d d'

  module _ {A : Type 0} where
    to_state :
        (d : Dispatcher) (r r' : Result A) (d1 d' : Dispatcher)
        → ◌≡◌ {A = Option (Result A × Dispatcher)} (some (r, d1)) (some (r', d'))
        → Adds d d1
        → Adds d d'
    to_state d r r' d1 d' e a =
        subst (Adds d) (ap (λ (p : Result A × Dispatcher). p.1) (some-injective (r, d1) (r', d') e))
          a

    return-IsPolite : (a : A) → IsPolite (return a)
    unfolding return
    return-IsPolite a = record {
      at = λ d d' r e. to_state d (ok a) r d d' e (Adds-refl d d refl refl);
    }

    on_session-IsPolite : (m : Exec Session A) → IsPolite (on_session m)
    unfolding on_session
    on_session-IsPolite m = record {
      at = λ d d' r e. to_state d (m d.manager.session).0 r _ d' e (Adds-refl d _ refl refl);
    }

    if_polite :
        (b : Bool) (m n : Dispatch A) (d d' : Dispatcher) (r : Result A)
        → IsPolite m
        → IsPolite n
        → (if b then m d else n d) ≡ some (r, d')
        → Adds d d'
    if_polite true m n d d' r km kn = km.at d d' r
    if_polite false m n d d' r km kn = kn.at d d' r

  module _ {A B : Type 0} where
    after-Adds :
        (d d' : Dispatcher) (o : Option (Result A × Dispatcher)) (k : A → Dispatch B) (r : Result B)
        → ((a : A) → IsPolite (k a))
        → ((x : Result A) (d1 : Dispatcher) → o ≡ some (x, d1) → Adds d d1)
        → after o k ≡ some (r, d')
        → Adds d d'
    unfolding after
    after-Adds d d' none k r polite first e = cc
    after-Adds d d' (some (ok a, d1)) k r polite first e =
        Adds-trans d d1 d' (first (ok a) d1 refl) ((polite a).at d1 d' r e)
    after-Adds d d' (some (err x, d1)) k r polite first e =
        to_state d (err x) r d1 d' e (first (err x) d1 refl)

    and_then-IsPolite :
        (m : Dispatch A) (k : A → Dispatch B)
        → IsPolite m
        → ((a : A) → IsPolite (k a))
        → IsPolite (and_then m k)
    unfolding and_then
    and_then-IsPolite m k km kk = record {
      at = λ d d' r e. after-Adds d d' (m d) k r kk (λ x d1 got. km.at d d1 x got) e;
    }

  put-Adds :
      (d : Dispatcher) (h : ℕ) (raw : String) (a : Ack)
      → w.marshal a ≡ some raw
      → lookup a.from_uid d.manager.users ≡ some h
      → Adds d (record d {
        manager =
            set_client h
              (record (d.manager.heap h) { send = (d.manager.heap h).send ++ raw ∷ [] })
              d.manager;
      })
  unfolding set_client IsOwn
  put-Adds d h raw a made led = record {
    users = refl;
    sends = λ i. elim (Bool-cases (nat_eq i h)) [
      | inl here ↦
          let same = (nat_eq_iff i h).0 here in
          (
            raw ∷ [],
            rw here (ap (λ x. (d.manager.heap x).send ++ raw ∷ []) (sym same)),
            ((a, made, led ∙ ap some (sym same)), tt),
          )
      | inr other ↦ ([], rw other (sym (append-nil (d.manager.heap i).send)), tt)
    ];
  }

  with_raw-Adds :
      (d d' : Dispatcher) (h : ℕ) (o : Option String) (a : Ack) (r : Result (Unit {0}))
      → w.marshal a ≡ o
      → lookup a.from_uid d.manager.users ≡ some h
      → with_raw w h o d ≡ some (r, d')
      → Adds d d'
  unfolding with_raw return
  with_raw-Adds d d' h none a r made led = λ e. to_state d _ r d d' e (Adds-refl d d refl refl)
  with_raw-Adds d d' h (some raw) a r made led =
      both_ways (λ (o : Option (Result (Unit {0}) × Dispatcher)). o ≡ some (r, d') → Adds d d')
        (d.manager.heap h).closed none _ (λ closed e. cc)
        (λ open_yet.
          both_ways (λ (o : Option (Result (Unit {0}) × Dispatcher)). o ≡ some (r, d') → Adds d d')
            (ltb (length (d.manager.heap h).send) send_capacity) _ _
            (λ room e. to_state d _ r _ d' e (put-Adds d h raw a made led))
            (λ full e. to_state d _ r d d' e (Adds-refl d d refl refl)))

  with_client-Adds :
      (d d' : Dispatcher) (o : Option ℕ) (a : Ack) (r : Result (Unit {0}))
      → lookup a.from_uid d.manager.users ≡ o
      → with_client w o a d ≡ some (r, d')
      → Adds d d'
  unfolding with_client return
  with_client-Adds d d' none a r led e = to_state d _ r d d' e (Adds-refl d d refl refl)
  with_client-Adds d d' (some h) a r led e = with_raw-Adds d d' h (w.marshal a) a r refl led e

  enqueue_local-IsPolite : (a : Ack) → IsPolite (enqueue_local w a)
  unfolding enqueue_local
  enqueue_local-IsPolite a = record {
    at = λ d d' r e. with_client-Adds d d' (get_client a.from_uid d.manager) a r refl e;
  }

  enqueue_all-IsPolite : (acks : List Ack) → IsPolite (enqueue_all w acks)
  unfolding enqueue_all
  enqueue_all-IsPolite [] = return-IsPolite tt
  enqueue_all-IsPolite (a ∷ acks) =
      and_then-IsPolite _ _ (enqueue_local-IsPolite a) λ u. enqueue_all-IsPolite acks

  route_at-IsPolite :
      (addr : String) (a : Ack) (groups : Groups) → IsPolite (route_at w addr a groups)
  unfolding route_at
  route_at-IsPolite addr a groups = record {
    at = λ d d' r.
        if_polite (addr == "") (return groups) _ d d' r (return-IsPolite groups) (record {
          at = λ x x' q.
              if_polite (addr == x.manager.online_addr) _ (return (add_to addr a groups)) x x' q
                (and_then-IsPolite _ _ (enqueue_local-IsPolite a) λ u. return-IsPolite groups)
                (return-IsPolite (add_to addr a groups));
        });
  }

  route_acks-IsPolite :
      (owners : List (String × OnlineValue)) (acks : List Ack) (groups : Groups)
      → IsPolite (route_acks w owners acks groups)
  unfolding route_acks
  route_acks-IsPolite owners [] groups = return-IsPolite groups
  route_acks-IsPolite owners (a ∷ acks) groups =
      and_then-IsPolite _ _
        (route_at-IsPolite (addr_of w (lookup (online_key a.from_uid) owners)) a groups)
        λ groups'. route_acks-IsPolite owners acks groups'

  retry_groups-IsPolite : (groups : Groups) → IsPolite (retry_groups w groups)
  unfolding retry_groups relay_acks
  retry_groups-IsPolite [] = record { at = (return-IsPolite tt).at }
  retry_groups-IsPolite ((addr, acks) ∷ groups) = record {
    at = λ d d' r e.
        Adds-trans d (relay_acks addr acks d).1 d' (Adds-refl d _ refl refl)
          ((retry_groups-IsPolite groups).at _ d' r e);
  }

  retry_missed-IsPolite : (acks : List Ack) → IsPolite (retry_missed w acks)
  unfolding retry_missed
  retry_missed-IsPolite [] = return-IsPolite tt
  retry_missed-IsPolite (a ∷ acks) =
      and_then-IsPolite _ _ (on_session-IsPolite (get_many w (unique_from_uids (a ∷ acks))))
        λ owners.
          and_then-IsPolite _ _ (route_acks-IsPolite owners (a ∷ acks) [])
            λ groups. retry_groups-IsPolite (w.order groups)

  after_relay-IsPolite : (acks : List Ack) (reply : AckReply) → IsPolite (after_relay w acks reply)
  unfolding after_relay
  after_relay-IsPolite acks relay_failed = record {
    at = λ d d' r e. to_state d _ r d d' e (Adds-refl d d refl refl);
  }
  after_relay-IsPolite acks no_response = record { at = (return-IsPolite tt).at }
  after_relay-IsPolite acks (results rs) = record {
    at = (retry_missed-IsPolite (missed acks rs)).at;
  }

  forward-IsPolite : (addr : String) (acks : List Ack) → IsPolite (forward w addr acks)
  unfolding forward relay_acks
  forward-IsPolite addr acks = record {
    at = λ d d' r.
        both_ways (λ (o : Option (Result (Unit {0}) × Dispatcher)). o ≡ some (r, d') → Adds d d')
          w.has_relayer _ _
          (λ calls e.
            Adds-trans d (relay_acks addr acks d).1 d' (Adds-refl d _ refl refl)
              ((after_relay-IsPolite acks (relay_acks addr acks d).0).at _ d' r e))
          (λ none_there e. (return-IsPolite tt).at d d' r e);
  }

  forward_groups-IsPolite : (groups : Groups) → IsPolite (forward_groups w groups)
  unfolding forward_groups
  forward_groups-IsPolite [] = return-IsPolite tt
  forward_groups-IsPolite ((addr, acks) ∷ groups) =
      and_then-IsPolite _ _ (forward-IsPolite addr acks) λ u. forward_groups-IsPolite groups

  dispatch-IsPolite : (acks : List Ack) → IsPolite (dispatch w acks)
  unfolding dispatch
  dispatch-IsPolite [] = record { at = (return-IsPolite tt).at }
  dispatch-IsPolite (a ∷ acks) = record {
    at = λ d d' r.
        if_polite d.manager.has_online _ (enqueue_all w (a ∷ acks)) d d' r
          (and_then-IsPolite _ _ (on_session-IsPolite (get_many w (unique_from_uids (a ∷ acks))))
            λ owners.
              and_then-IsPolite _ _ (route_acks-IsPolite owners (a ∷ acks) [])
                λ groups. forward_groups-IsPolite (w.order groups))
          (enqueue_all-IsPolite (a ∷ acks));
  }

  commit-IsPolite : IsPolite (commit_messages w)
  unfolding commit_messages
  commit-IsPolite = record {
    at = λ d d' r.
        if_polite w.commits (return tt) (λ x. some (err driver, x)) d d' r (return-IsPolite tt)
          (record { at = λ x x' q e. to_state x _ q x x' e (Adds-refl x x refl refl) });
  }

  -- A round of the consumer that does not panic, whether it returns or fails and whatever comes of
  -- its queries, calls and commit: the connection table is the same, and each channel has, behind
  -- what it had, only frames of ACKs whose sender the table leads to that connection.
  pub consume_round-Adds :
      (frames : List (Option Ack)) (d d' : Dispatcher) (r : Result (Unit {0}))
      → consume_round w frames d ≡ some (r, d')
      → Adds d d'
  unfolding consume_round
  consume_round-Adds frames d d' r e =
      (and_then-IsPolite _ _ (dispatch-IsPolite (parsed w frames)) λ u. commit-IsPolite).at d d' r e
