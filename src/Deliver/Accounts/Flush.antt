-- ===== src/Deliver/Accounts/Flush.antt =====
-- worker/deliver/deliver.go: the end of a round, from flushDelivered to the commit.
use alfred_brave_com.Base.{
  ℕ, ◌+◌, ◌≡◌, ◌⊎◌, inl, inr, refl, sym, subst, Bool, List, [], ◌∷◌, ◌++◌, arith, keep, both_ways,
}
use alfred_brave_com.Base.Exec.{Result, ok, err, Exec, ◌>>=◌, ◌>>◌, resume}
use alfred_brave_com.Chat.{Push}
use alfred_brave_com.Database.{Fate, answered, refused, lost, next_fate}
use alfred_brave_com.Deliver.{
  Worker, commit_messages, commit_fate, next_write, written, flush_acks, flush_notifies,
  flush_delivered,
}
use alfred_brave_com.Deliver.Accounts.{count, tally, count-append}

-- The end of a round.
module _ (q : Push → Bool) (all before n : ℕ) where
  -- Everything is booked, and the frames are committed.
  abbrev pub IsDone : Worker → Type 0
  IsDone wk =
      (tally q wk ≡ all)
      × (wk.pending ≡ [])
      × (wk.pending_offline ≡ [])
      × (wk.committed ≡ before + n)

  -- A round that returns is done; one that fails has committed nothing, or is done and only the
  -- confirmation of its commit has not come back.
  abbrev pub Final : Result (Unit {0}) × Worker → Type 0
  Final (ok u, wk) = IsDone wk
  Final (err e, wk) = (wk.committed ≡ before) ⊎ IsDone wk

  -- Nothing is pending, and nothing committed yet.
  record IsFlushed (booked : ℕ) (wk : Worker) : Type 0 where
    books : tally q wk + booked ≡ all
    no_pending : wk.pending ≡ []
    no_offline : wk.pending_offline ≡ []
    uncommitted : wk.committed ≡ before

  fate-Final : (fate : Fate) (wk : Worker) → IsFlushed 0 wk → Final (commit_fate fate n wk)
  unfolding commit_fate
  fate-Final answered wk f =
      (omega (arith, f.books), f.no_pending, f.no_offline, omega (arith, f.uncommitted))
  fate-Final refused wk f = inl f.uncommitted
  fate-Final lost wk f =
      inr (omega (arith, f.books), f.no_pending, f.no_offline, omega (arith, f.uncommitted))

  commit-Final : (wk : Worker) → IsFlushed 0 wk → Final (commit_messages n wk)
  unfolding commit_messages
  commit-Final wk f = fate-Final (next_fate wk.commits).0 _ (record {
    books = f.books;
    no_pending = f.no_pending;
    no_offline = f.no_offline;
    uncommitted = f.uncommitted;
  })

  written-Final :
      (booked : ℕ) (ps : List Push) (done : Worker → Worker) (k : Exec Worker (Unit {0}))
      (wk : Worker)
      → IsFlushed booked wk
      → (ps ≡ [] → Final (k wk))
      → ((rest : List Bool) → Final (k (done (record wk { writes = rest }))))
      → Final ((written ps done >> k) wk)
  unfolding written ◌>>=◌
  written-Final booked [] done k wk f empty wrote = empty refl
  written-Final booked (p ∷ ps) done k wk f empty wrote =
      both_ways (λ (o : Result (Unit {0}) × Worker). Final (resume (λ u. k) o.0 o.1))
        (next_write wk.writes).0 _ _ (λ e. wrote (next_write wk.writes).1) (λ e. inl f.uncommitted)

  nothing-count : (ps : List Push) → ps ≡ [] → count q ps ≡ 0
  unfolding keep
  nothing-count [] e = refl
  nothing-count (p ∷ ps) e = cc

  notifies-Final :
      (ps : List Push) (wk : Worker)
      → IsFlushed (count q ps) wk
      → Final ((flush_notifies ps >> commit_messages n) wk)
  unfolding flush_notifies ◌>>=◌
  notifies-Final ps wk f =
      both_ways
        (λ (o : Result (Unit {0}) × Worker). Final (resume (λ u. commit_messages n) o.0 o.1))
        wk.batch_offline _ _
        (λ e.
          written-Final (count q ps) ps _ (commit_messages n) wk f
            (λ empty. commit-Final wk (record {
              books = omega (arith, f.books, nothing-count ps empty);
              no_pending = f.no_pending;
              no_offline = f.no_offline;
              uncommitted = f.uncommitted;
            }))
            (λ rest. commit-Final _ (given rest)))
        (λ e. commit-Final _ (given wk.writes))
    where
      given :
          (rest : List Bool)
          → IsFlushed 0 (record wk { notified = wk.notified ++ ps; writes = rest })
      given rest = record {
        books = omega (arith, f.books, count-append q wk.notified ps);
        no_pending = f.no_pending;
        no_offline = f.no_offline;
        uncommitted = f.uncommitted;
      }

  acks-Final :
      (ps rs : List Push) (wk : Worker)
      → IsFlushed (count q ps + count q rs) wk
      → Final ((flush_acks ps >> (flush_notifies rs >> commit_messages n)) wk)
  unfolding flush_acks ◌>>=◌
  acks-Final ps rs wk f =
      both_ways
        (λ (o : Result (Unit {0}) × Worker).
          Final (resume (λ u. flush_notifies rs >> commit_messages n) o.0 o.1))
        wk.batch_delivered _ _
        (λ e.
          written-Final (count q ps + count q rs) ps _ (flush_notifies rs >> commit_messages n) wk f
            (λ empty. notifies-Final rs wk (record {
              books = omega (arith, f.books, nothing-count ps empty);
              no_pending = f.no_pending;
              no_offline = f.no_offline;
              uncommitted = f.uncommitted;
            }))
            (λ rest. notifies-Final rs _ (given rest)))
        (λ e. notifies-Final rs _ (given wk.writes))
    where
      given :
          (rest : List Bool)
          → IsFlushed (count q rs) (record wk { acked = wk.acked ++ ps; writes = rest })
      given rest = record {
        books = omega (arith, f.books, count-append q wk.acked ps);
        no_pending = f.no_pending;
        no_offline = f.no_offline;
        uncommitted = f.uncommitted;
      }

  >>_assoc :
      (r : Result (Unit {0})) (s : Worker) (b c : Exec Worker (Unit {0}))
      → resume (λ u. c) (resume (λ u. b) r s).0 (resume (λ u. b) r s).1 ≡ resume (λ u. b >> c) r s
  unfolding ◌>>=◌
  >>_assoc (ok u) s b c = refl
  >>_assoc (err e) s b c = refl

  pub flush-Final :
      (wk : Worker)
      → tally q wk ≡ all
      → wk.committed ≡ before
      → Final ((flush_delivered >> commit_messages n) wk)
  unfolding flush_delivered ◌>>=◌ keep
  flush-Final wk booked uncommitted =
      subst Final
        (sym (
          >>_assoc (flush_acks wk.pending emptied).0 (flush_acks wk.pending emptied).1
            (flush_notifies wk.pending_offline) (commit_messages n)))
        (acks-Final wk.pending wk.pending_offline emptied (record {
          books = omega (arith, booked);
          no_pending = refl;
          no_offline = refl;
          uncommitted = uncommitted;
        }))
    where
      emptied : Worker
      emptied = record wk { pending = []; pending_offline = [] }
