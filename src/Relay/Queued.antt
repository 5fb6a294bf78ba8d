-- ===== src/Relay/Queued.antt =====
-- joker/relay/server.go: what a batch puts into the send channels, and what it answers.
use alfred_brave_com.Base.{
  ℕ, ◌+◌, ◌≡◌, refl, sym, ap, ◌∙◌, inl, inr, String, true, ◌&&◌, ◌||◌, Option, none, some, List, [],
  ◌∷◌, ◌++◌, arith, ltb, nat_eq, length, subst, if◌then◌else◌, both_ways, Option-cases,
}
use mathlib.Core.Option.{some-injective}
use mathlib.Core.List.{append_assoc, append-nil}
use alfred_brave_com.Base.Table.{lookup}
use alfred_brave_com.Exchange.{set_client, get_client, send_capacity}
use alfred_brave_com.Exchange.Routed.{IsRouted, send-IsRouted}
use alfred_brave_com.Relay.{
  RelayMessageRequest, RelayMessageResponse, Stats, Server, Frame, delivery, ack, Context,
  select_send, with_raw, with_client, enqueue_message, enqueue_messages, batch_relay_messages,
  push_of_request, count_enqueued, canceled, dropped, queued, refused, Reason, ctx_canceled,
  send_full, not_found, marshal_error,
}

-- What one request has put into a channel: its frame, if it was answered with delivered.
abbrev pub put_into : ℕ → Option ℕ → Option String → RelayMessageResponse → List String
put_into h (some i) (some raw) r = if r.delivered && nat_eq h i then raw ∷ [] else []
put_into h _ _ r = []

-- How many requests the counters of the server have seen.
abbrev pub requests_seen : Stats → ℕ
requests_seen st =
    st.message_enqueued + st.ack_enqueued + st.send_full + st.not_found + st.marshal_error
    + st.ctx_canceled

-- What one request does to the server.
record Enqueues (client : Option ℕ) (raw : Option String) (s : Server) (r : RelayMessageResponse)
    (s' : Server) : Type 0 where
  users : s'.manager.users ≡ s.manager.users
  sends : (h : ℕ) → (s'.manager.heap h).send ≡ (s.manager.heap h).send ++ put_into h client raw r
  counted : requests_seen s'.stats ≡ requests_seen s.stats + 1
  routed : IsRouted s.manager → IsRouted s'.manager

module _ (client : Option ℕ) (raw : Option String) (s : Server) where
  Ended : Option (RelayMessageResponse × Server) → Type 0
  Ended o = (r : RelayMessageResponse) (s' : Server) → o ≡ some (r, s') → Enqueues client raw s r s'

  Ended-some : (p : RelayMessageResponse × Server) → Enqueues client raw s p.0 p.1 → Ended (some p)
  unfolding Ended
  Ended-some p good r s' e =
      subst (λ (q : RelayMessageResponse × Server). Enqueues client raw s q.0 q.1)
        (some-injective p (r, s') e) good

  Ended-none : Ended none
  unfolding Ended
  Ended-none r s' e = cc

  nothing-put :
      (why : Reason) (h : ℕ) (c : Option ℕ) (t : Option String) → [] ≡ put_into h c t (refused why)
  nothing-put why h none t = refl
  nothing-put why h (some i) none = refl
  nothing-put why h (some i) (some t) = refl

  refused-Enqueues :
      (why : Reason) (st : Stats)
      → requests_seen st ≡ requests_seen s.stats + 1
      → Enqueues client raw s (refused why) (record s { stats = st })
  refused-Enqueues why st one_more = record {
    users = refl;
    sends = λ h.
        sym (append-nil _) ∙ ap (λ t. (s.manager.heap h).send ++ t) (nothing-put why h client raw);
    counted = one_more;
    routed = λ r. r;
  }

counted_once :
    (frame : Frame) (st : Stats) → requests_seen (count_enqueued frame st) ≡ requests_seen st + 1
unfolding count_enqueued
counted_once (delivery p) st = omega arith
counted_once (ack a) st = omega arith

queued-Enqueues :
    (frame : Frame) (raw : String) (h : ℕ) (s : Server)
    → ltb (length (s.manager.heap h).send) send_capacity ≡ true
    → Enqueues (some h) (some raw) s (queued frame raw h s).0 (queued frame raw h s).1
unfolding queued set_client
queued-Enqueues frame raw h s fits = record {
  users = refl;
  sends = λ i. ground (arith, append-nil (s.manager.heap i).send);
  counted = counted_once frame s.stats;
  routed = λ r. sent r;
}
  where
    sent :
        IsRouted s.manager
        → IsRouted (
            set_client h
              (record (s.manager.heap h) { send = (s.manager.heap h).send ++ raw ∷ [] })
              s.manager)
    sent r = send-IsRouted h raw s.manager fits r

canceled-Enqueues :
    (h : ℕ) (raw : String) (s : Server)
    → Enqueues (some h) (some raw) s (canceled s).0 (canceled s).1
unfolding canceled
canceled-Enqueues h raw s = refused-Enqueues (some h) (some raw) s ctx_canceled _ (omega arith)

dropped-Enqueues :
    (h : ℕ) (raw : String) (s : Server) → Enqueues (some h) (some raw) s (dropped s).0 (dropped s).1
unfolding dropped
dropped-Enqueues h raw s = refused-Enqueues (some h) (some raw) s send_full _ (omega arith)

select_send-Ended :
    (ctx : Context) (frame : Frame) (raw : String) (h : ℕ) (s : Server)
    → Ended (some h) (some raw) s (select_send ctx frame raw h s)
unfolding select_send
select_send-Ended ctx frame raw h s =
    both_ways Good ((s.manager.heap h).closed || ltb (length (s.manager.heap h).send) send_capacity)
      taken left
      (λ ready.
        both_ways Good (ctx.is_done && ctx.takes_done) (some (canceled s)) sent (λ e. out)
          (λ e.
            both_ways Good (s.manager.heap h).closed none (some (queued frame raw h s))
              (λ e. Ended-none (some h) (some raw) s)
              (λ e'.
                Ended-some (some h) (some raw) s (queued frame raw h s)
                  (queued-Enqueues frame raw h s (ground (arith, ready, e'))))))
      (λ shut.
        both_ways Good ctx.is_done (some (canceled s)) (some (dropped s)) (λ e. out) (λ e. full))
  where
    Good : Option (RelayMessageResponse × Server) → Type 0
    Good = Ended (some h) (some raw) s

    sent : Option (RelayMessageResponse × Server)
    sent = if (s.manager.heap h).closed then none else some (queued frame raw h s)

    taken : Option (RelayMessageResponse × Server)
    taken = if ctx.is_done && ctx.takes_done then some (canceled s) else sent

    left : Option (RelayMessageResponse × Server)
    left = if ctx.is_done then some (canceled s) else some (dropped s)

    out : Good (some (canceled s))
    out = Ended-some (some h) (some raw) s (canceled s) (canceled-Enqueues h raw s)

    full : Good (some (dropped s))
    full = Ended-some (some h) (some raw) s (dropped s) (dropped-Enqueues h raw s)

module _ (marshal : Frame → Option String) where
  with_raw-Ended :
      (ctx : Context) (frame : Frame) (h : ℕ) (raw : Option String) (s : Server)
      → Ended (some h) raw s (with_raw marshal ctx frame h raw s)
  unfolding with_raw
  with_raw-Ended ctx frame h none s =
      Ended-some (some h) none s _ (refused-Enqueues (some h) none s marshal_error _ (omega arith))
  with_raw-Ended ctx frame h (some raw) s = select_send-Ended ctx frame raw h s

  with_client-Ended :
      (ctx : Context) (frame : Frame) (client : Option ℕ) (s : Server)
      → Ended client (marshal frame) s (with_client marshal ctx frame client s)
  unfolding with_client
  with_client-Ended ctx frame none s =
      Ended-some none (marshal frame) s _
        (refused-Enqueues none (marshal frame) s not_found _ (omega arith))
  with_client-Ended ctx frame (some h) s = with_raw-Ended ctx frame h (marshal frame) s

  -- What a batch has put into a connection's channel: the frames of the requests that were answered
  -- with delivered and whose user the table leads to that connection, in the order of the requests.
  abbrev pub put_in_order :
      ℕ
      → List (String × ℕ)
      → List (Context × RelayMessageRequest)
      → List RelayMessageResponse
      → List String
  put_in_order h users [] results = []
  put_in_order h users (m ∷ ms) [] = []
  put_in_order h users (m ∷ ms) (r ∷ rs) =
      put_into h (lookup m.1.to_uid users) (marshal (delivery (push_of_request m.1))) r
      ++ put_in_order h users ms rs

  -- What a batch does, whenever it returns.
  pub record Batched (messages : List (Context × RelayMessageRequest)) (s : Server)
      (results : List RelayMessageResponse) (s' : Server) : Type 0 where
    pub answered : length results ≡ length messages
    pub users : s'.manager.users ≡ s.manager.users
    pub sends :
        (h : ℕ)
        → (s'.manager.heap h).send
          ≡ (s.manager.heap h).send ++ put_in_order h s.manager.users messages results
    pub counted : requests_seen s'.stats ≡ requests_seen s.stats + length messages
    pub routed : IsRouted s.manager → IsRouted s'.manager

  Batched-cons :
      (ctx : Context) (req : RelayMessageRequest) (rest : List (Context × RelayMessageRequest))
      (s s1 s2 : Server) (r : RelayMessageResponse) (rs : List RelayMessageResponse)
      → Enqueues
          (lookup req.to_uid s.manager.users)
          (marshal (delivery (push_of_request req)))
          s
          r
          s1
      → Batched rest s1 rs s2
      → Batched ((ctx, req) ∷ rest) s (r ∷ rs) s2
  Batched-cons ctx req rest s s1 s2 r rs one more = record {
    answered = omega (arith, more.answered);
    users = more.users ∙ one.users;
    sends = λ h.
        more.sends h
        ∙ ap (λ t. t ++ put_in_order h s1.manager.users rest rs) (one.sends h)
        ∙ ap (λ users. ((s.manager.heap h).send ++ first h) ++ put_in_order h users rest rs)
            one.users
        ∙ append_assoc (s.manager.heap h).send (first h) (put_in_order h s.manager.users rest rs);
    counted = omega (arith, more.counted, one.counted);
    routed = λ held. more.routed (one.routed held);
  }
    where
      first : ℕ → List String
      first h =
          put_into h (lookup req.to_uid s.manager.users) (marshal (delivery (push_of_request req)))
            r

  Results :
      List (Context × RelayMessageRequest)
      → Server
      → Option (List RelayMessageResponse × Server)
      → Type 0
  Results messages s o =
      (results : List RelayMessageResponse) (s' : Server)
      → o ≡ some (results, s')
      → Batched messages s results s'

  enqueue_message-Enqueues :
      (ctx : Context) (req : RelayMessageRequest) (s s1 : Server) (r : RelayMessageResponse)
      → enqueue_message marshal ctx req s ≡ some (r, s1)
      → Enqueues
          (lookup req.to_uid s.manager.users)
          (marshal (delivery (push_of_request req)))
          s
          r
          s1
  unfolding enqueue_message Ended
  enqueue_message-Enqueues ctx req s s1 r e =
      with_client-Ended ctx (delivery (push_of_request req)) (get_client req.to_uid s.manager) s r
        s1 e

  enqueue_messages-Batched :
      (messages : List (Context × RelayMessageRequest)) (s : Server)
      → Results messages s (enqueue_messages marshal messages s)
  unfolding enqueue_messages Results
  enqueue_messages-Batched [] s results s' e =
      subst (λ (q : List RelayMessageResponse × Server). Batched [] s q.0 q.1)
        (some-injective ([], s) (results, s') e)
        (record {
          answered = refl;
          users = refl;
          sends = λ h. sym (append-nil _);
          counted = omega arith;
          routed = λ held. held;
        })
  enqueue_messages-Batched ((ctx, req) ∷ rest) s results s' e =
      elim (Option-cases (enqueue_message marshal ctx req s)) [
        | inl failed ↦ absurd (ground (arith, failed, e))
        | inr ((r, s1), got) ↦ elim (Option-cases (enqueue_messages marshal rest s1)) [
          | inl failed ↦ absurd (ground (arith, got, failed, e))
          | inr ((rs, s2), more) ↦
              subst
                (λ (q : List RelayMessageResponse × Server). Batched ((ctx, req) ∷ rest) s q.0 q.1)
                (ground (arith, got, more, e))
                (Batched-cons ctx req rest s s1 s2 r rs
                  (enqueue_message-Enqueues ctx req s s1 r got)
                  (enqueue_messages-Batched rest s1 rs s2 more))
        ]
      ]

  -- A batch of messages, whatever contexts it meets: whenever it returns, it has one answer for each
  -- message; a connection's channel has, behind what it had, the frames of the messages answered with
  -- delivered whose user the table leads to it, in the order of the messages; every message is
  -- counted once; and the connection table keeps its invariant.
  pub batch_relay_messages-Batched :
      (messages : List (Context × RelayMessageRequest)) (s s' : Server)
      (results : List RelayMessageResponse)
      → batch_relay_messages marshal messages s ≡ some (results, s')
      → Batched messages s results s'
  unfolding batch_relay_messages Results
  batch_relay_messages-Batched messages s s' results e =
      let b = enqueue_messages-Batched messages _ results s' e in
      record {
        answered = b.answered;
        users = b.users;
        sends = b.sends;
        counted = b.counted;
        routed = b.routed;
      }
