-- ===== src/Deliver/Accounts/Round.antt =====
-- worker/deliver/deliver.go: a round of Run loses no message and takes none twice.
use alfred_brave_com.Base.{
  ℕ, ◌+◌, ◌≡◌, refl, sym, subst, Bool, true, false, Option, List, [], arith, length,
}
use alfred_brave_com.Base.Exec.{Result, Exec, ◌>>=◌, ◌>>◌, resume}
use alfred_brave_com.Chat.{Push}
use alfred_brave_com.Deliver.Routes.{World}
use alfred_brave_com.Deliver.{
  Worker, Groups, group_by_addr, deliver_groups, set_collecting, run_round, parsed, flush_delivered,
  commit_messages,
}
use alfred_brave_com.Deliver.Accounts.{count, tally}
use alfred_brave_com.Deliver.Accounts.Grouping.{total, group_by_addr-Grouped, deliver_groups-Sure}
use alfred_brave_com.Deliver.Accounts.Flush.{Final, flush-Final}
use alfred_brave_com.Deliver.Accounts.Uncommitted.{
  Uncommitted, group_by_addr-Keeps, deliver_groups-Keeps,
}

module _ (q : Push → Bool) (w : World) (order : Groups → Groups) (frames : List (Option Push))
    (wk : Worker) where
  after_groups : (groups : Groups) → Exec Worker (Unit {0})
  after_groups groups =
      deliver_groups w (order groups)
      >> (set_collecting false >> (flush_delivered >> commit_messages (length frames)))

  abbrev all : ℕ
  all = tally q wk + count q (parsed frames)

  abbrev Ended : Result (Unit {0}) × Worker → Type 0
  Ended = Final q all wk.committed (length frames)

  delivered-Final :
      (groups : Groups) (x : Worker)
      → tally q x + total q (order groups) ≡ all
      → x.committed ≡ wk.committed
      → Ended (after_groups groups x)
  unfolding after_groups set_collecting ◌>>=◌ Uncommitted
  delivered-Final groups x books uncommitted =
      let done = (deliver_groups-Sure q w (order groups)).at x in
      subst
        (λ (r : Result (Unit {0})). Ended (
          resume (λ u. set_collecting false >> (flush_delivered >> commit_messages (length frames)))
            r (deliver_groups w (order groups) x).1))
        (sym done.1)
        (flush-Final q all wk.committed (length frames) _ (omega (arith, done.2, books))
          ((deliver_groups-Keeps wk.committed w (order groups)).at x uncommitted))

  -- A round of Run, whatever comes of its dials, calls, writes and commit, and in whatever order the
  -- groups are delivered. If it returns, every message that could be read has been handed to the hook
  -- of the delivered or of the offline, or is named in the log as given up, or was passed over because
  -- its route could not be asked for, each as often as it came; nothing waits; and the frames are
  -- committed. If it fails, none is committed, or all this is so and only the confirmation of the
  -- commit has not come back.
  pub run_round-Final :
      ((groups : Groups) → total q (order groups) ≡ total q groups)
      → Ended (run_round w order frames wk)
  unfolding run_round set_collecting ◌>>=◌ Uncommitted after_groups
  run_round-Final reorders =
      let wk1 : Worker = record wk { collecting = true } in
      let made = group_by_addr-Grouped q w (parsed frames) [] wk1 in
      subst
        (λ (r : Result Groups).
          Ended (resume after_groups r (group_by_addr w (parsed frames) [] wk1).1))
        (sym made.1)
        (delivered-Final made.0 _ (omega (arith, made.2, reorders made.0))
          ((group_by_addr-Keeps wk.committed w (parsed frames) []).at wk1 refl))
