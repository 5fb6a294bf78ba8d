-- ===== src/Deliver/Routes/Fresh.antt =====
-- worker/deliver/router.go: how old an answer of the cache can be.
use alfred_brave_com.Base.{
  ℕ, suc, ◌+◌, ◌≡◌, ◌<◌, ◌≤◌, refl, sym, ap, ◌∙◌, subst, inl, inr, String, none, some, ltb, ltb→lt,
  arith, eq_iff, Bool-cases, Option-cases, ◌==◌,
}
use mathlib.Core.Option.{some-injective}
use alfred_brave_com.Base.Table.{lookup, remove, lookup-insert, lookup-remove}
use alfred_brave_com.Base.Exec.{Result, ok, err, ok-ne-err, Result-cases}
use alfred_brave_com.Deliver.Routes.{
  World, OnlineAddr, RouteEntry, Router, route_ttl, IsFresh, IsHonest, get_route, invalidate,
  authoritative, answer_or, stored, fresh_entry, reads_after, new_router, Reached, start, asked,
  invalidated,
}

module _ (w : World) where
  abbrev Honest : Router → Type 0
  Honest = IsHonest w

  stored-Honest :
      (uid : String) (a : OnlineAddr) (r : Router)
      → authoritative w r.reads uid ≡ ok a
      → Honest r
      → Honest (stored w uid (ok a) r).1
  unfolding stored
  stored-Honest uid a r said h = record {
    entries = λ other e found.
        let entry : RouteEntry = record { addr = a; expire_at = w.now_fn r.reads + route_ttl } in
        let written = lookup-insert uid other entry r.cache in
        elim (Bool-cases (uid == other)) [
          | inl same ↦
              let is_entry = some-injective entry e (ground (arith, written, same, found)) in
              (
                r.reads,
                omega arith,
                ap (authoritative w r.reads) (sym ((eq_iff uid other).0 same))
                    ∙ said
                    ∙ ap (λ (x : RouteEntry). ok x.addr) is_entry,
                sym (ap (λ (x : RouteEntry). x.expire_at) is_entry),
              )
          | inr apart ↦
              let old = h.entries other e (ground (arith, written, apart, found)) in
              (old.0, omega (arith, old.1), old.2, old.3)
        ];
  }

  reads-Honest : (r : Router) (n : ℕ) → r.reads ≤ n → Honest r → Honest (record r { reads = n })
  reads-Honest r n more h = record {
    entries = λ uid e found.
        let old = h.entries uid e found in (old.0, omega (arith, old.1), old.2, old.3);
  }

  pub invalidate-Honest : (uid : String) (r : Router) → Honest r → Honest (invalidate uid r)
  unfolding invalidate
  invalidate-Honest uid r h = record {
    entries =
        λ other e found. h.entries other e (ground (arith, lookup-remove uid other r.cache, found));
  }

  pub new_router-Honest : Honest new_router
  unfolding new_router lookup
  new_router-Honest = record { entries = λ uid e found. absurd (cc) }

  -- After a call: the cache is honest again, and an answer is fresh at the last reading.
  record Got (uid : String) (r : Router) (p : Result OnlineAddr × Router) : Type 0 where
    honest : Honest p.1
    answer :
        (a : OnlineAddr)
        → p.0 ≡ ok a
        → (last : ℕ) × (p.1.reads ≡ suc last) × IsFresh w uid a p.1.reads (w.now_fn last)
    later : r.reads ≤ p.1.reads

  missed-Got : (uid : String) (r : Router) → Honest r → Got uid r (answer_or w none uid r)
  unfolding answer_or stored
  missed-Got uid r h = elim (Result-cases (authoritative w r.reads uid)) [
    | inl (a, said) ↦
        subst (λ o. Got uid r (stored w uid o r)) (sym said)
          (record {
            honest = stored-Honest uid a r said h;
            answer = λ b e. (
              r.reads,
              refl,
              record { i = r.reads; made = omega arith; said = said ∙ e; recent = omega arith },
            );
            later = omega arith;
          })
    | inr (e, said) ↦
        subst (λ o. Got uid r (stored w uid o r)) (sym said)
          (record { honest = h; answer = λ b e. absurd (ok-ne-err (sym e)); later = omega arith })
  ]

  hit-Got :
      (uid : String) (r : Router) (e : RouteEntry)
      → Honest r
      → lookup uid r.cache ≡ some e
      → w.now_fn r.reads < e.expire_at
      → Got uid r (ok e.addr, record r { reads = suc r.reads })
  hit-Got uid r e h found valid =
      let old = h.entries uid e found in
      record {
        honest = reads-Honest r (suc r.reads) (omega arith) h;
        answer = λ a said. (
          r.reads,
          refl,
          record {
            i = old.0;
            made = omega (arith, old.1);
            said = old.2 ∙ said;
            recent = omega (arith, valid, old.3);
          },
        );
        later = omega arith;
      }

  later-Got :
      (uid : String) (r : Router) {p : Result OnlineAddr × Router}
      → Got uid (record r { reads = suc r.reads }) p
      → Got uid r p
  later-Got uid r got = record {
    honest = got.honest;
    answer = got.answer;
    later = omega (arith, got.later);
  }

  get_route-Got : (uid : String) (r : Router) → Honest r → Got uid r (get_route w uid r)
  unfolding get_route fresh_entry reads_after
  get_route-Got uid r h = elim (Option-cases (lookup uid r.cache)) [
    | inl absent ↦ rw absent (missed-Got uid r h)
    | inr (e, found) ↦ elim (Bool-cases (ltb (w.now_fn r.reads) e.expire_at)) [
      | inl valid ↦ rw (found, valid) (hit-Got uid r e h found (ltb→lt _ _ valid))
      | inr over ↦
          rw (found, over)
            (later-Got uid r (
              missed-Got uid (record r { reads = suc r.reads })
                (reads-Honest r (suc r.reads) (omega arith) h)))
    ]
  ]

  Reached-Honest : {r : Router} → Reached w r → Honest r
  Reached-Honest start = new_router-Honest
  Reached-Honest (asked uid before) = (get_route-Got uid _ (Reached-Honest before)).honest
  Reached-Honest (invalidated uid before) = invalidate-Honest uid _ (Reached-Honest before)

  -- In a router that any calls of Get and Invalidate have led to: an answer of Get is what the
  -- database said at a reading of the clock less than thirty seconds before the call's last one.
  pub get_route-IsFresh :
      (uid : String) (a : OnlineAddr) (r r' : Router)
      → Reached w r
      → get_route w uid r ≡ (ok a, r')
      → (last : ℕ) × (r'.reads ≡ suc last) × IsFresh w uid a r'.reads (w.now_fn last)
  get_route-IsFresh uid a r r' reached e =
      let got = get_route-Got uid r (Reached-Honest reached) in
      let there = got.answer a (ap (λ (p : Result OnlineAddr × Router). p.0) e) in
      subst
        (λ (q : Router).
          (last : ℕ) × (q.reads ≡ suc last) × IsFresh w uid a q.reads (w.now_fn last))
        (ap (λ (p : Result OnlineAddr × Router). p.1) e) there

  -- The next Get after an Invalidate asks the database, whatever the cache held.
  pub get_route-invalidate :
      (uid : String) (r : Router)
      → (get_route w uid (invalidate uid r)).0 ≡ authoritative w r.reads uid
  unfolding get_route invalidate fresh_entry reads_after answer_or stored
  get_route-invalidate uid r =
      let absent : lookup uid (remove uid r.cache) ≡ none =
        ground (arith, lookup-remove uid uid r.cache, eq_iff uid uid) in
      rw absent (stored-answer (authoritative w r.reads uid))
    where
      stored-answer :
          (o : Result OnlineAddr)
          → (stored w uid o (record { cache = remove uid r.cache; reads = r.reads })).0 ≡ o
      stored-answer (ok b) = refl
      stored-answer (err e) = refl
