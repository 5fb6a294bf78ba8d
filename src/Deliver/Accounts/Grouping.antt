-- ===== src/Deliver/Accounts/Grouping.antt =====
-- worker/deliver/deliver.go: the groups of a round, and their delivery.
use alfred_brave_com.Base.{
  ℕ, ◌+◌, ◌≡◌, refl, sym, subst, String, Bool, not, List, [], ◌∷◌, arith, keep, length, nat_eq,
  nat_eq_iff, both_ways, ◌==◌,
}
use alfred_brave_com.Base.Table.{lookup, insert}
use alfred_brave_com.Base.Exec.{Result, ok, err, Exec, pure, ◌>>=◌, ◌>>◌, resume}
use alfred_brave_com.Chat.{Push}
use alfred_brave_com.Relay.{RelayMessageResponse}
use alfred_brave_com.Deliver.Routes.{OnlineAddr, World, get_route}
use alfred_brave_com.Deliver.Calls.{batch_relay}
use alfred_brave_com.Deliver.{
  Worker, Groups, on_relayer, pass_over, route, after_batch, deliver_batch, add_to_group, waiting,
  grouped, group_by_addr, deliver_groups, offline_or_queue,
}
use alfred_brave_com.Deliver.Accounts.{
  count, tally, one, count-snoc, count-cons, Sure, Sure-bind, Sure-pure, deliver_individually-Sure,
  take_results-Sure, pass_over-Sure, offline_or_queue-Sure,
}

module _ (q : Push → Bool) where
  abbrev pub total : Groups → ℕ
  total [] = 0
  total ((addr, ps) ∷ groups) = count q ps + total groups

  add_to_group-total :
      (addr : String) (p : Push) (groups : Groups)
      → total (add_to_group addr p groups) ≡ total groups + one q p
  unfolding add_to_group lookup insert waiting
  add_to_group-total addr p [] = omega arith
  add_to_group-total addr p ((other, ps) ∷ groups) =
      ground (arith, count-snoc q ps p, add_to_group-total addr p groups)

  module _ (w : World) where
    after_batch-Sure :
        (ps : List Push) (r : Result (List RelayMessageResponse))
        → Sure q (count q ps) (after_batch w ps r)
    unfolding after_batch
    after_batch-Sure ps (err e) = deliver_individually-Sure q w ps
    after_batch-Sure ps (ok rs) =
        both_ways (Sure q (count q ps)) (nat_eq (length rs) (length ps)) _ _
          (λ e. take_results-Sure q w ps rs ((nat_eq_iff _ _).0 e))
          (λ e. deliver_individually-Sure q w ps)

    deliver_batch-Sure :
        (addr : String) (ps : List Push) → Sure q (count q ps) (deliver_batch w addr ps)
    unfolding deliver_batch on_relayer
    deliver_batch-Sure addr ps = record {
      at = λ wk.
          both_ways
            (λ (o : Result (Unit {0}) × Worker).
              (u : Unit {0}) × (o.0 ≡ ok u) × (tally q o.1 ≡ tally q wk + count q ps))
            (not wk.can_batch) _ _ (λ e. (deliver_individually-Sure q w ps).at wk)
            (λ e. (after_batch-Sure ps (batch_relay addr wk.relayer).0).at _);
    }

    pub deliver_groups-Sure : (groups : Groups) → Sure q (total groups) (deliver_groups w groups)
    unfolding deliver_groups
    deliver_groups-Sure [] = Sure-pure q tt
    deliver_groups-Sure ((addr, ps) ∷ groups) =
        Sure-bind q (count q ps) (total groups) _ _ (deliver_batch-Sure addr ps)
          λ u. deliver_groups-Sure groups

    -- The groups that a call has made, and the books of those that it has not put into one.
    abbrev pub Grouped : ℕ → Result Groups × Worker → Type 0
    Grouped all o = (groups : Groups) × (o.0 ≡ ok groups) × (tally q o.1 + total groups ≡ all)

    -- The rest of the loop behind a call that books the message and leaves the groups.
    booked-Grouped :
        (p : Push) (groups : Groups) (k : Groups → Exec Worker Groups) (m : Exec Worker (Unit {0}))
        (wk : Worker) (rest : ℕ)
        → Sure q (one q p) m
        → ((groups : Groups) (wk : Worker)
            → Grouped (tally q wk + total groups + rest) (k groups wk))
        → Grouped (tally q wk + total groups + (one q p + rest)) (((m >> pure groups) >>= k) wk)
    unfolding ◌>>=◌ pure
    booked-Grouped p groups k m wk rest sure all =
        let booked = sure.at wk in
        subst
          (λ (r : Result (Unit {0})). Grouped (tally q wk + total groups + (one q p + rest)) (
            resume k (resume (λ u. pure groups) r (m wk).1).0
              (resume (λ u. pure groups) r (m wk).1).1))
          (sym booked.1)
          (let next = all groups (m wk).1 in (next.0, next.1, omega (arith, next.2, booked.2)))

    grouped-Grouped :
        (p : Push) (groups : Groups) (k : Groups → Exec Worker Groups) (r : Result OnlineAddr)
        (wk : Worker) (rest : ℕ)
        → ((groups : Groups) (wk : Worker)
            → Grouped (tally q wk + total groups + rest) (k groups wk))
        → Grouped (tally q wk + total groups + (one q p + rest)) ((grouped w p groups r >>= k) wk)
    unfolding grouped ◌>>=◌ pure
    grouped-Grouped p groups k (err e) wk rest all =
        booked-Grouped p groups k (pass_over p) wk rest (pass_over-Sure q p) all
    grouped-Grouped p groups k (ok a) wk rest all =
        both_ways
          (λ (m : Exec Worker Groups).
            Grouped (tally q wk + total groups + (one q p + rest)) ((m >>= k) wk))
          (a.addr == "") _ _
          (λ e.
            booked-Grouped p groups k (offline_or_queue p) wk rest (offline_or_queue-Sure q p) all)
          (λ e.
            let next = all (add_to_group a.addr p groups) wk in
            (next.0, next.1, omega (arith, next.2, add_to_group-total a.addr p groups)))

    pub group_by_addr-Grouped :
        (ps : List Push) (groups : Groups) (wk : Worker)
        → Grouped (tally q wk + total groups + count q ps) (group_by_addr w ps groups wk)
    unfolding group_by_addr keep route
    group_by_addr-Grouped [] groups wk = (groups, refl, omega arith)
    group_by_addr-Grouped (p ∷ ps) groups wk =
        let next =
          grouped-Grouped p groups (λ gs. group_by_addr w ps gs) (get_route w p.to_uid wk.router).0
            (record wk { router = (get_route w p.to_uid wk.router).1 }) (count q ps)
            (λ gs wk'. group_by_addr-Grouped ps gs wk') in
        (next.0, next.1, omega (arith, next.2, count-cons q p ps))
