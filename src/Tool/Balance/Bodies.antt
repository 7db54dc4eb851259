-- ===== src/Tool/Balance/Bodies.antt =====
-- The commands of ttwind-info on an open handle, in the rules of Balance.
use tt_wind.Base.{ℕ, zero, suc, ◌+◌, Bool, List}
use tt_wind.Context.{NocTlbConfig}
use tt_wind.Tool.Calls.{Host, Answer, success, failure, T}
use tt_wind.Tool.Windows.{bar0_body, read_window, with_window}
use tt_wind.Tool.Messages.{arcmsg_body, arcstatus_body, polled, poll_loop, reset_body}
use tt_wind.Tool.Sysmem.{
  sysmem_body, write_pattern, clear_pattern, read_pattern, compare_over_noc, with_sysmem,
  sysmemtest_body,
}
use tt_wind.Tool.Balance.{
  Balanced, Balanced-pure, Balanced-bind, Balanced-seq, Balanced-store, Balanced-load,
  Balanced-branch, Balanced-sleep,
}
use tt_wind.Tool.Balance.Rules.{balance_rules}

module _ ⦃host : Host⦄ where
  pub bar0_body-Balanced : (offset h : ℕ) → Balanced (bar0_body offset h)
  unfolding bar0_body
  bar0_body-Balanced offset h = search balance_rules depth 16

  pub with_window-Balanced :
      (h : ℕ) (body : ℕ → T ℕ) → ((id : ℕ) → Balanced (body id)) → Balanced (with_window h body)
  unfolding with_window
  with_window-Balanced h body p = search (balance_rules, p) depth 16

  pub read_window-Balanced :
      (cfg : NocTlbConfig) (mode addr h id : ℕ) → Balanced (read_window cfg mode addr h id)
  unfolding read_window
  read_window-Balanced cfg mode addr h id = search balance_rules depth 16

  write_pattern-Balanced : (left i va : ℕ) → Balanced (write_pattern left i va)
  unfolding write_pattern
  write_pattern-Balanced zero i va = Balanced-pure tt
  write_pattern-Balanced (suc left) i va =
      Balanced-seq _ _ (Balanced-store _ _) (write_pattern-Balanced left (i + 1) va)

  clear_pattern-Balanced : (left i va : ℕ) → Balanced (clear_pattern left i va)
  unfolding clear_pattern
  clear_pattern-Balanced zero i va = Balanced-pure tt
  clear_pattern-Balanced (suc left) i va =
      Balanced-seq _ _ (Balanced-store _ _) (clear_pattern-Balanced left (i + 1) va)

  read_pattern-Balanced : (left i va : ℕ) (m : Bool) → Balanced (read_pattern left i va m)
  unfolding read_pattern
  read_pattern-Balanced zero i va m = Balanced-pure m
  read_pattern-Balanced (suc left) i va m =
      Balanced-bind _ _ (Balanced-load _) (λ got. read_pattern-Balanced left (i + 1) va _)

  compare-Balanced : (x addr sysva h id : ℕ) → Balanced (compare_over_noc x addr sysva h id)
  unfolding compare_over_noc
  compare-Balanced x addr sysva h id =
      search (balance_rules, read_pattern-Balanced, clear_pattern-Balanced) depth 20

  pub sysmemtest_body-Balanced : (h : ℕ) → Balanced (sysmemtest_body h)
  unfolding sysmemtest_body with_sysmem
  sysmemtest_body-Balanced h =
      search (balance_rules, write_pattern-Balanced, with_window-Balanced, compare-Balanced) depth
        20

  pub sysmem_body-Balanced : (h : ℕ) → Balanced (sysmem_body h)
  unfolding sysmem_body
  sysmem_body-Balanced h = search balance_rules depth 16

  pub arcmsg_body-Balanced : (ws : List ℕ) (h : ℕ) → Balanced (arcmsg_body ws h)
  unfolding arcmsg_body
  arcmsg_body-Balanced ws h = search balance_rules depth 16

  pub arcstatus_body-Balanced : (h : ℕ) → Balanced (arcstatus_body h)
  unfolding arcstatus_body
  arcstatus_body-Balanced h = search balance_rules depth 16

  polled-Balanced :
      (a : Answer (Unit {0})) (waited : ℕ) (again : T ℕ)
      → Balanced again
      → Balanced (polled a waited again)
  unfolding polled
  polled-Balanced (success _ _) waited again p = Balanced-pure 0
  polled-Balanced (failure e) waited again p =
      Balanced-branch _ _ _ (Balanced-pure _) (Balanced-seq _ _ (Balanced-sleep 100) p)

  poll_loop-Balanced : (fuel waited h : ℕ) → Balanced (poll_loop fuel waited h)
  unfolding poll_loop
  poll_loop-Balanced zero waited h = Balanced-pure _
  poll_loop-Balanced (suc fuel) waited h =
      Balanced-bind _ _ (search balance_rules)
        (λ a. polled-Balanced a waited _ (poll_loop-Balanced fuel (waited + 100) h))

  pub reset_body-Balanced : (h : ℕ) → Balanced (reset_body h)
  unfolding reset_body
  reset_body-Balanced h = search (balance_rules, poll_loop-Balanced) depth 16
