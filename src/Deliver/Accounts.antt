-- ===== src/Deliver/Accounts.antt =====
-- worker/deliver/deliver.go: where the messages of a round end up.
mod Grouping
pub mod Flush
mod Uncommitted
pub mod Round
use alfred_brave_com.Base.{
  ℕ, zero, suc, ◌+◌, ◌-◌, ◌≡◌, refl, sym, ap, ◌∙◌, subst, inl, inr, String, Bool, true, false, not,
  ◌&&◌, Option, none, some, List, [], ◌∷◌, ◌++◌, arith, keep, keep-append, length, length-append,
  nat_eq, nat_eq_iff, Bool-cases, both_ways, if◌then◌else◌, ◌==◌,
}
use alfred_brave_com.Base.Errors.{Error}
use alfred_brave_com.Base.Exec.{
  Result, ok, err, Exec, pure, raise, ◌>>=◌, ◌>>◌, resume, Result-cases,
}
use alfred_brave_com.Chat.{Push}
use alfred_brave_com.Relay.{RelayMessageResponse}
use alfred_brave_com.Deliver.Routes.{OnlineAddr, Router, World, get_route, invalidate}
use alfred_brave_com.Deliver.Calls.{Relayer, relay, batch_relay}
use alfred_brave_com.Deliver.{
  Worker, queue, on_relayer, forget_route, delivered, offline, offline_or_queue, give_up, pass_over,
  route, settle, redeliver, deliver, retry, deliver_with_retry, deliver_one, deliver_individually,
  take_result, take_results, after_batch, or_else, handled, deliver_batch, is_not_found,
  relay_attempts,
}

-- How many messages of a list pass a test. A list holds the same messages as another, as often and
-- whatever their order, when this is the same for every test.
abbrev pub count : (Push → Bool) → List Push → ℕ
count q ps = length (keep q ps)

module _ (q : Push → Bool) where
  -- The messages that the worker has dealt with, in every way there is.
  abbrev pub tally : Worker → ℕ
  tally wk =
      count q wk.pending
      + count q wk.pending_offline
      + count q wk.acked
      + count q wk.notified
      + count q wk.given_up
      + count q wk.unrouted

  count-snoc : (ps : List Push) (p : Push) → count q (ps ++ p ∷ []) ≡ count q ps + count q (p ∷ [])
  count-snoc ps p =
      ap length (keep-append q ps (p ∷ [])) ∙ length-append (keep q ps) (keep q (p ∷ []))

  pub count-append : (ps rs : List Push) → count q (ps ++ rs) ≡ count q ps + count q rs
  count-append ps rs = ap length (keep-append q ps rs) ∙ length-append (keep q ps) (keep q rs)

  -- What a call books: `n` messages if it returns, and none if it fails.
  abbrev Books : {A : Type 0} → ℕ → Result A → ℕ → ℕ → Type 0
  Books n (ok a) before after = after ≡ before + n
  Books n (err e) before after = after ≡ before

  record Adds {A : Type 0} (n : ℕ) (m : Exec Worker A) : Type 0 where
    at : (wk : Worker) → Books n (m wk).0 (tally wk) (tally (m wk).1)

  resume-Adds :
      {A B : Type 0} (n before : ℕ) (r : Result A) (wk : Worker) (f : A → Exec Worker B)
      → Books 0 r before (tally wk)
      → ((a : A) → Adds n (f a))
      → Books n (resume f r wk).0 before (tally (resume f r wk).1)
  resume-Adds n before (ok a) wk f booked all =
      subst (λ t. Books n (f a wk).0 t (tally (f a wk).1)) (omega (arith, booked)) ((all a).at wk)
  resume-Adds n before (err e) wk f booked all = booked

  Adds-bind :
      {A B : Type 0} (n : ℕ) (m : Exec Worker A) (f : A → Exec Worker B)
      → Adds 0 m
      → ((a : A) → Adds n (f a))
      → Adds n (m >>= f)
  unfolding ◌>>=◌
  Adds-bind n m f first all = record {
    at = λ wk. resume-Adds n (tally wk) (m wk).0 (m wk).1 f (first.at wk) all;
  }

  Adds-if :
      {A : Type 0} (n : ℕ) (b : Bool) (m other : Exec Worker A)
      → Adds n m
      → Adds n other
      → Adds n (if b then m else other)
  Adds-if n true m other first second = first
  Adds-if n false m other first second = second

  same-Books :
      {A : Type 0} (r : Result A) (before after : ℕ) → after ≡ before → Books 0 r before after
  same-Books (ok a) before after e = omega (arith, e)
  same-Books (err er) before after e = e

  on_relayer-Adds : {A : Type 0} (m : Exec Relayer A) → Adds 0 (on_relayer m)
  unfolding on_relayer
  on_relayer-Adds m = record { at = λ wk. same-Books (m wk.relayer).0 _ _ refl }

  route-Adds : (w : World) (uid : String) → Adds 0 (route w uid)
  unfolding route
  route-Adds w uid = record { at = λ wk. same-Books (get_route w uid wk.router).0 _ _ refl }

  forget_route-Adds : (uid : String) → Adds 0 (forget_route uid)
  unfolding forget_route
  forget_route-Adds uid = record { at = λ wk. omega arith }

  abbrev one : Push → ℕ
  one p = count q (p ∷ [])

  delivered-Adds : (p : Push) → Adds (one p) (delivered p)
  unfolding delivered
  delivered-Adds p = record {
    at = λ wk. ground (arith, count-snoc wk.pending p, count-snoc wk.acked p);
  }

  give_up-Adds : (p : Push) → Adds (one p) (give_up p)
  unfolding give_up
  give_up-Adds p = record { at = λ wk. omega (arith, count-snoc wk.given_up p) }

  offline_or_queue-Adds : (p : Push) → Adds (one p) (offline_or_queue p)
  unfolding offline_or_queue offline
  offline_or_queue-Adds p = record {
    at = λ wk. ground (arith, count-snoc wk.pending_offline p, count-snoc wk.notified p);
  }

  Adds-raise : {A : Type 0} (n : ℕ) (e : Error) → Adds n (raise {A = A} e)
  unfolding raise
  Adds-raise n e = record { at = λ wk. refl }

  handled-Adds :
      {A : Type 0} (n before : ℕ) (r : Result A) (wk : Worker) (handle : Error → Exec Worker A)
      → Books n r before (tally wk)
      → ((e : Error) → Adds n (handle e))
      → Books n (handled handle r wk).0 before (tally (handled handle r wk).1)
  handled-Adds n before (ok a) wk handle booked all = booked
  handled-Adds n before (err e) wk handle booked all =
      subst (λ t. Books n (handle e wk).0 t (tally (handle e wk).1)) booked ((all e).at wk)

  Adds-or_else :
      {A : Type 0} (n : ℕ) (m : Exec Worker A) (handle : Error → Exec Worker A)
      → Adds n m
      → ((e : Error) → Adds n (handle e))
      → Adds n (or_else m handle)
  unfolding or_else
  Adds-or_else n m handle first all = record {
    at = λ wk. handled-Adds n (tally wk) (m wk).0 (m wk).1 handle (first.at wk) all;
  }

  ruleset adds_rules = (
    Adds-bind, Adds-if, on_relayer-Adds, route-Adds, forget_route-Adds, delivered-Adds,
    give_up-Adds, offline_or_queue-Adds,
  )

  module _ (w : World) where
    settle-Adds : (p : Push) (resp : RelayMessageResponse) → Adds (one p) (settle w p resp)
    unfolding settle
    settle-Adds p resp = search adds_rules

    redeliver-Adds : (p : Push) → Adds (one p) (redeliver w p)
    unfolding redeliver
    redeliver-Adds p = search (adds_rules, settle-Adds)

    deliver-Adds : (p : Push) → Adds (one p) (deliver w p)
    unfolding deliver
    deliver-Adds p = search (adds_rules, settle-Adds, redeliver-Adds)

    retry-Adds : (left : ℕ) (e : Error) (p : Push) → Adds (one p) (retry w left e p)
    unfolding retry
    retry-Adds zero e p = Adds-raise (one p) e
    retry-Adds (suc left) e p =
        Adds-or_else (one p) _ _
          (Adds-bind (one p) _ _ (forget_route-Adds p.to_uid) λ u. deliver-Adds p)
          λ e'. retry-Adds left e' p

    deliver_with_retry-Adds : (p : Push) → Adds (one p) (deliver_with_retry w p)
    unfolding deliver_with_retry
    deliver_with_retry-Adds p =
        Adds-or_else (one p) _ _ (deliver-Adds p) λ e. retry-Adds (relay_attempts - 1) e p

  -- A call that returns, whatever happens, and books `n` messages.
  record Sure {A : Type 0} (n : ℕ) (m : Exec Worker A) : Type 0 where
    at : (wk : Worker) → (a : A) × ((m wk).0 ≡ ok a) × (tally (m wk).1 ≡ tally wk + n)

  resume-Sure :
      {A B : Type 0} (i j before : ℕ) (r : Result A) (wk : Worker) (f : A → Exec Worker B)
      → (a : A) × (r ≡ ok a) × (tally wk ≡ before + i)
      → ((a : A) → Sure j (f a))
      → (b : B) × ((resume f r wk).0 ≡ ok b) × (tally (resume f r wk).1 ≡ before + (i + j))
  resume-Sure i j before (ok a) wk f booked all =
      let next = (all a).at wk in (next.0, next.1, omega (arith, next.2, booked.2))
  resume-Sure i j before (err e) wk f booked all = cc

  Sure-bind :
      {A B : Type 0} (i j : ℕ) (m : Exec Worker A) (f : A → Exec Worker B)
      → Sure i m
      → ((a : A) → Sure j (f a))
      → Sure (i + j) (m >>= f)
  unfolding ◌>>=◌
  Sure-bind i j m f first all = record {
    at = λ wk. resume-Sure i j (tally wk) (m wk).0 (m wk).1 f (first.at wk) all;
  }

  Sure-if :
      {A : Type 0} (n : ℕ) (b : Bool) (m other : Exec Worker A)
      → Sure n m
      → Sure n other
      → Sure n (if b then m else other)
  Sure-if n true m other first second = first
  Sure-if n false m other first second = second

  Sure-pure : {A : Type 0} (a : A) → Sure 0 (pure a)
  unfolding pure
  Sure-pure a = record { at = λ wk. (a, refl, omega arith) }

  handled-Sure :
      {A : Type 0} (n before : ℕ) (r : Result A) (wk : Worker) (handle : Error → Exec Worker A)
      → Books n r before (tally wk)
      → ((e : Error) → Sure n (handle e))
      → (a : A) × ((handled handle r wk).0 ≡ ok a) × (tally (handled handle r wk).1 ≡ before + n)
  handled-Sure n before (ok a) wk handle booked all = (a, refl, booked)
  handled-Sure n before (err e) wk handle booked all =
      let next = (all e).at wk in (next.0, next.1, omega (arith, next.2, booked))

  Sure-or_else :
      {A : Type 0} (n : ℕ) (m : Exec Worker A) (handle : Error → Exec Worker A)
      → Adds n m
      → ((e : Error) → Sure n (handle e))
      → Sure n (or_else m handle)
  unfolding or_else
  Sure-or_else n m handle first all = record {
    at = λ wk. handled-Sure n (tally wk) (m wk).0 (m wk).1 handle (first.at wk) all;
  }

  give_up-Sure : (p : Push) → Sure (one p) (give_up p)
  unfolding give_up
  give_up-Sure p = record { at = λ wk. (tt, refl, omega (arith, count-snoc wk.given_up p)) }

  offline_or_queue-Sure : (p : Push) → Sure (one p) (offline_or_queue p)
  unfolding offline_or_queue offline
  offline_or_queue-Sure p = record {
    at = λ wk.
        both_ways
          (λ (o : Result (Unit {0}) × Worker).
            (u : Unit {0}) × (o.0 ≡ ok u) × (tally o.1 ≡ tally wk + one p))
          wk.collecting _ _ (λ e. (tt, refl, omega (arith, count-snoc wk.pending_offline p)))
          (λ e. (tt, refl, omega (arith, count-snoc wk.notified p)));
  }

  forget_route-Sure : (uid : String) → Sure 0 (forget_route uid)
  unfolding forget_route
  forget_route-Sure uid = record { at = λ wk. (tt, refl, omega arith) }

  pass_over-Sure : (p : Push) → Sure (one p) (pass_over p)
  unfolding pass_over
  pass_over-Sure p = record { at = λ wk. (tt, refl, omega (arith, count-snoc wk.unrouted p)) }

  queue-Sure : (p : Push) → Sure (one p) (queue p)
  unfolding queue
  queue-Sure p = record { at = λ wk. (tt, refl, omega (arith, count-snoc wk.pending p)) }

  -- The same books, with the number written in another way.
  Sure-as : {A : Type 0} {m : Exec Worker A} (n k : ℕ) → n ≡ k → Sure n m → Sure k m
  Sure-as n k e s = record {
    at = λ wk. let booked = s.at wk in (booked.0, booked.1, omega (arith, e, booked.2));
  }

  pub count-cons : (p : Push) (ps : List Push) → count q (p ∷ ps) ≡ one p + count q ps
  count-cons p ps = count-append (p ∷ []) ps

  module _ (w : World) where
    deliver_one-Sure : (p : Push) → Sure (one p) (deliver_one w p)
    unfolding deliver_one
    deliver_one-Sure p = Sure-or_else (one p) _ _ (deliver_with_retry-Adds w p) λ e. give_up-Sure p

    deliver_individually-Sure : (ps : List Push) → Sure (count q ps) (deliver_individually w ps)
    unfolding deliver_individually keep
    deliver_individually-Sure [] = Sure-pure tt
    deliver_individually-Sure (p ∷ ps) =
        Sure-as _ _ (sym (count-cons p ps)) (
          Sure-bind (one p) (count q ps) _ _ (deliver_one-Sure p) λ u. deliver_individually-Sure ps)

    take_result-Sure : (p : Push) (r : RelayMessageResponse) → Sure (one p) (take_result w p r)
    unfolding take_result
    take_result-Sure p r = Sure-if (one p) r.delivered _ _ (queue-Sure p) (
        Sure-if (one p) (is_not_found r.reason) _ _
          (Sure-as _ _ (omega arith) (
            Sure-bind 0 (one p) _ _ (forget_route-Sure p.to_uid)
              λ u. deliver_individually-Sure (p ∷ [])))
          (give_up-Sure p))

    take_results-Sure :
        (ps : List Push) (rs : List RelayMessageResponse)
        → length rs ≡ length ps
        → Sure (count q ps) (take_results w ps rs)
    unfolding take_results keep
    take_results-Sure [] rs e = Sure-pure tt
    take_results-Sure (p ∷ ps) [] e = absurd (omega (arith, e))
    take_results-Sure (p ∷ ps) (r ∷ rs) e = Sure-as _ _ (sym (count-cons p ps)) (
        Sure-bind (one p) (count q ps) _ _ (take_result-Sure p r)
          λ u. take_results-Sure ps rs (omega (arith, e)))
