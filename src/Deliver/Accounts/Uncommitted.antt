-- ===== src/Deliver/Accounts/Uncommitted.antt =====
-- worker/deliver/deliver.go: nothing of a round is committed before its end.
use alfred_brave_com.Base.{
  ℕ, zero, suc, ◌-◌, ◌≡◌, String, not, List, [], ◌∷◌, arith, length, nat_eq, both_ways,
}
use alfred_brave_com.Base.Errors.{Error}
use alfred_brave_com.Base.Exec.{Result, ok, err, Exec, Keeps, Keeps-bind, Keeps-pure, keeps_rules}
use alfred_brave_com.Chat.{Push}
use alfred_brave_com.Relay.{RelayMessageResponse}
use alfred_brave_com.Deliver.Routes.{OnlineAddr, World}
use alfred_brave_com.Deliver.Calls.{Relayer, batch_relay}
use alfred_brave_com.Deliver.{
  Worker, Groups, queue, on_relayer, forget_route, delivered, offline, offline_or_queue, give_up,
  pass_over, or_else, handled, route, settle, redeliver, deliver, retry, deliver_with_retry,
  deliver_one, deliver_individually, take_result, take_results, after_batch, deliver_batch, grouped,
  group_by_addr, deliver_groups, relay_attempts, is_not_found,
}

module _ (c : ℕ) where
  unfoldable pub Uncommitted : Worker → Type 0
  Uncommitted wk = wk.committed ≡ c

  on_relayer-Keeps : {A : Type 0} (m : Exec Relayer A) → Keeps Uncommitted (on_relayer m)
  unfolding on_relayer Uncommitted
  on_relayer-Keeps m = record { at = λ wk h. h }

  forget_route-Keeps : (uid : String) → Keeps Uncommitted (forget_route uid)
  unfolding forget_route Uncommitted
  forget_route-Keeps uid = record { at = λ wk h. h }

  delivered-Keeps : (p : Push) → Keeps Uncommitted (delivered p)
  unfolding delivered Uncommitted
  delivered-Keeps p = record { at = λ wk h. ground arith }

  queue-Keeps : (p : Push) → Keeps Uncommitted (queue p)
  unfolding queue Uncommitted
  queue-Keeps p = record { at = λ wk h. h }

  give_up-Keeps : (p : Push) → Keeps Uncommitted (give_up p)
  unfolding give_up Uncommitted
  give_up-Keeps p = record { at = λ wk h. h }

  pass_over-Keeps : (p : Push) → Keeps Uncommitted (pass_over p)
  unfolding pass_over Uncommitted
  pass_over-Keeps p = record { at = λ wk h. h }

  offline_or_queue-Keeps : (p : Push) → Keeps Uncommitted (offline_or_queue p)
  unfolding offline_or_queue offline Uncommitted
  offline_or_queue-Keeps p = record { at = λ wk h. ground arith }

  handled-Keeps :
      {A : Type 0} (handle : Error → Exec Worker A) (r : Result A) (wk : Worker)
      → ((e : Error) → Keeps Uncommitted (handle e))
      → Uncommitted wk
      → Uncommitted (handled handle r wk).1
  handled-Keeps handle (ok a) wk all h = h
  handled-Keeps handle (err e) wk all h = (all e).at wk h

  Keeps-or_else :
      {A : Type 0} (m : Exec Worker A) (handle : Error → Exec Worker A)
      → Keeps Uncommitted m
      → ((e : Error) → Keeps Uncommitted (handle e))
      → Keeps Uncommitted (or_else m handle)
  unfolding or_else
  Keeps-or_else m handle first all = record {
    at = λ wk h. handled-Keeps handle (m wk).0 (m wk).1 all (first.at wk h);
  }

  ruleset leaf_rules = (
    on_relayer-Keeps, forget_route-Keeps, delivered-Keeps, give_up-Keeps, offline_or_queue-Keeps,
    Keeps-or_else,
  )

  module _ (w : World) where
    route-Keeps : (uid : String) → Keeps Uncommitted (route w uid)
    unfolding route Uncommitted
    route-Keeps uid = record { at = λ wk h. h }

    settle-Keeps : (p : Push) (resp : RelayMessageResponse) → Keeps Uncommitted (settle w p resp)
    unfolding settle
    settle-Keeps p resp = search (keeps_rules, leaf_rules)

    redeliver-Keeps : (p : Push) → Keeps Uncommitted (redeliver w p)
    unfolding redeliver
    redeliver-Keeps p = search (keeps_rules, leaf_rules, route-Keeps, settle-Keeps)

    deliver-Keeps : (p : Push) → Keeps Uncommitted (deliver w p)
    unfolding deliver
    deliver-Keeps p = search (keeps_rules, leaf_rules, route-Keeps, settle-Keeps, redeliver-Keeps)

    retry-Keeps : (left : ℕ) (e : Error) (p : Push) → Keeps Uncommitted (retry w left e p)
    unfolding retry
    retry-Keeps zero e p = search keeps_rules
    retry-Keeps (suc left) e p =
        Keeps-or_else _ _ (Keeps-bind _ _ (forget_route-Keeps p.to_uid) λ u. deliver-Keeps p)
          λ e'. retry-Keeps left e' p

    deliver_one-Keeps : (p : Push) → Keeps Uncommitted (deliver_one w p)
    unfolding deliver_one deliver_with_retry
    deliver_one-Keeps p =
        Keeps-or_else _ _
          (Keeps-or_else _ _ (deliver-Keeps p) λ e. retry-Keeps (relay_attempts - 1) e p)
          λ e. give_up-Keeps p

    deliver_individually-Keeps : (ps : List Push) → Keeps Uncommitted (deliver_individually w ps)
    unfolding deliver_individually
    deliver_individually-Keeps [] = Keeps-pure tt
    deliver_individually-Keeps (p ∷ ps) =
        Keeps-bind _ _ (deliver_one-Keeps p) λ u. deliver_individually-Keeps ps

    take_result-Keeps :
        (p : Push) (r : RelayMessageResponse) → Keeps Uncommitted (take_result w p r)
    unfolding take_result
    take_result-Keeps p r =
        both_ways (Keeps Uncommitted) r.delivered _ _ (λ e. queue-Keeps p)
          (λ e.
            both_ways (Keeps Uncommitted) (is_not_found r.reason) _ _
              (λ e'.
                Keeps-bind _ _ (forget_route-Keeps p.to_uid)
                  λ u. deliver_individually-Keeps (p ∷ []))
              (λ e'. give_up-Keeps p))

    take_results-Keeps :
        (ps : List Push) (rs : List RelayMessageResponse) → Keeps Uncommitted (take_results w ps rs)
    unfolding take_results
    take_results-Keeps [] rs = Keeps-pure tt
    take_results-Keeps (p ∷ ps) [] = Keeps-pure tt
    take_results-Keeps (p ∷ ps) (r ∷ rs) =
        Keeps-bind _ _ (take_result-Keeps p r) λ u. take_results-Keeps ps rs

    after_batch-Keeps :
        (ps : List Push) (r : Result (List RelayMessageResponse))
        → Keeps Uncommitted (after_batch w ps r)
    unfolding after_batch
    after_batch-Keeps ps (err e) = deliver_individually-Keeps ps
    after_batch-Keeps ps (ok rs) =
        both_ways (Keeps Uncommitted) (nat_eq (length rs) (length ps)) _ _
          (λ e. take_results-Keeps ps rs) (λ e. deliver_individually-Keeps ps)

    deliver_batch-Keeps :
        (addr : String) (ps : List Push) → Keeps Uncommitted (deliver_batch w addr ps)
    unfolding deliver_batch
    deliver_batch-Keeps addr ps = record {
      at = λ wk h.
          both_ways (λ (o : Result (Unit {0}) × Worker). Uncommitted o.1) (not wk.can_batch) _ _
            (λ e. (deliver_individually-Keeps ps).at wk h)
            (λ e.
              (after_batch-Keeps ps (on_relayer (batch_relay addr) wk).0).at _
                ((on_relayer-Keeps (batch_relay addr)).at wk h));
    }

    pub deliver_groups-Keeps : (groups : Groups) → Keeps Uncommitted (deliver_groups w groups)
    unfolding deliver_groups
    deliver_groups-Keeps [] = Keeps-pure tt
    deliver_groups-Keeps ((addr, ps) ∷ groups) =
        Keeps-bind _ _ (deliver_batch-Keeps addr ps) λ u. deliver_groups-Keeps groups

    grouped-Keeps :
        (p : Push) (groups : Groups) (r : Result OnlineAddr)
        → Keeps Uncommitted (grouped w p groups r)
    unfolding grouped
    grouped-Keeps p groups (err e) = search (keeps_rules, leaf_rules, pass_over-Keeps)
    grouped-Keeps p groups (ok a) = search (keeps_rules, leaf_rules)

    pub group_by_addr-Keeps :
        (ps : List Push) (groups : Groups) → Keeps Uncommitted (group_by_addr w ps groups)
    unfolding group_by_addr
    group_by_addr-Keeps [] groups = record { at = λ wk h. h }
    group_by_addr-Keeps (p ∷ ps) groups = record {
      at = λ wk h.
          (Keeps-bind (grouped w p groups (route w p.to_uid wk).0) (λ gs. group_by_addr w ps gs)
              (grouped-Keeps p groups (route w p.to_uid wk).0) (λ gs. group_by_addr-Keeps ps gs)).at
            _ ((route-Keeps p.to_uid).at wk h);
    }
