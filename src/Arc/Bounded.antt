-- ===== src/Arc/Bounded.antt =====
-- The waits of driver/arc.c end: with a clock that moves on, the fuel of the two polling loops is
-- never used up.
use tt_wind.Base.{
  ℕ, zero, suc, ◌+◌, ◌*◌, ◌≤◌, ◌<◌, true, false, ◌∷◌, ◌≡◌, ◌≢◌, refl, subst, ltb, arith,
}
use tt_wind.Status.{
  Result, ok, fail, out_of_fuel, is_busy, status_of, device_does_not_exist, device_not_ready,
  io_timeout,
}
use tt_wind.Kernel.{Env, Event, arc_lock}
use tt_wind.Context.{World}
use tt_wind.Monad.{M, ◌>>◌, branch, case_result, from_result, pure, delay, return_status}
use tt_wind.Monad.Keeps.{Keeps-attempt}
use tt_wind.Monad.Settles.{
  Good, Any, Ends, IsClock, time, After, timed-bind, pause-Ends, Ends-bind, Settles-Ends,
  result-Ends, with_lock-Ends, Settles-require, attempt-Ends, pure-Ends, branch-Ends, clock-Ends,
  Settles-get_ctx,
}
use tt_wind.Arc.Locate.{
  Boot, Queue, ArcReport, wait_ready, read_queue, locate_queue, empty_report, ready_timeout,
  unprobed,
}
use tt_wind.Arc.Ring.{ArcMsg}
use tt_wind.Arc.Exchange.{await_response, exchange, msg_send_sync, msg_timeout}
use tt_wind.Frame.Firmware.{IsControl, probe_routes-Keeps, try_pop-Keeps}
use tt_wind.Arc.Settled.{
  probe_routes-Settles, apb_read32_via-Settles, csm_read32-Settles, try_push-Settles,
  try_pop-Settles, drain-Settles, ring_doorbell-Settles, check_queue-Good,
}

module _ ⦃env : Env⦄ where
  -- A queue, or a status of the source.
  abbrev pub Located : ArcReport × Result Queue → Type 0
  Located p = Good {A = Queue} Any p.1

  read_case :
      {A : Type 0} (r : Result A) (f : A → M (ArcReport × Result Queue)) (report : ArcReport)
      (w : World)
      → Good {A = A} Any r
      → ((a : A) → Ends Located (f a w))
      → Ends Located (case_result r f (λ s. pure (report, fail s)) w)
  unfolding case_result
  read_case (ok a) f report w h k = k a
  read_case (fail s) f report w h k = pure-Ends Located (report, fail s) w h

  read_queue-Ends : (boot : Boot) (w : World) → Ends Located (read_queue boot w)
  unfolding read_queue
  read_queue-Ends boot w = Ends-bind Any _ _ _ w (Settles-Ends Settles-get_ctx w) (λ c w1 _.
      Ends-bind Any _ _ _ w1 (Settles-Ends (apb_read32_via-Settles _ _) w1) (λ qcb w2 _.
        Ends-bind (Good Any) _ _ _ w2
          (attempt-Ends Any _ w2 (Settles-Ends (csm_read32-Settles _) w2))
          (λ r w3 g. read_case r _ _ w3 g (λ b.
            Ends-bind (Good Any) _ _ _ w3
              (attempt-Ends Any _ w3 (Settles-Ends (csm_read32-Settles _) w3))
              (λ i w4 g'.
                read_case i _ _ w4 g' (λ n. pure-Ends Located _ w4 (check_queue-Good b _)))))))

  module _ (c : IsClock env) where
    After-control : (t : ℕ) → IsControl (After t)
    After-control t = record {
      events = λ e n. record { at = λ w p. passed w e p };
      routes = λ r. record { at = λ w p. p };
      sysmems = λ f. record { at = λ w p. p };
    }
      where
        passed : (w : World) (e : Event) → t ≤ time w → t ≤ env.interrupt_time (e ∷ w.log)
        passed w e p = omega (arith, c.forward e w.log)

    -- What the waiting loop ends with: no failure of its own, and a status of the source.
    abbrev pub Waited : Boot × Result (Unit {0}) → Type 0
    Waited p = Good {A = Unit {0}} Any p.1

    not_late : (deadline t now : ℕ) → deadline < t → t ≤ now → ltb deadline now ≡ false → ⊥
    not_late deadline t now h a e = ground arith

    wait_round :
        (n deadline t : ℕ) (boot : Boot) (w : World)
        → After t w
        → ((b : Boot) (w' : World)
            → After t w'
            → ltb deadline (time w') ≡ false
            → Ends Waited ((delay 200 >> wait_ready n deadline b) w'))
        → Ends Waited (wait_ready (suc n) deadline boot w)
    unfolding wait_ready
    wait_round n deadline t boot w a k =
        timed-bind Any _ t _ _ w (probe_routes-Keeps (After-control t) _ _) a
          (Settles-Ends (probe_routes-Settles _ _) w)
          (λ r w1 _ a1.
            branch-Ends _ _ _ _ w1 (λ _. pure-Ends Waited (r.boot, ok tt) w1 tt)
              (λ _.
                branch-Ends _ _ _ _ w1
                  (λ _. pure-Ends Waited (r.boot, fail device_does_not_exist) w1 refl)
                  (λ _. clock-Ends _ _ w1 (
                    branch-Ends _ _ _ _ w1
                      (λ _. pure-Ends Waited (r.boot, fail device_not_ready) w1 refl)
                      (λ early. k r.boot w1 a1 early)))))

    -- One round less than the fuel is enough to come past the deadline.
    wait_ready-Ends :
        (n deadline t : ℕ) (boot : Boot) (w : World)
        → deadline < t + 2000 * n
        → After t w
        → Ends Waited (wait_ready (suc n) deadline boot w)
    wait_ready-Ends zero deadline t boot w h a =
        wait_round zero deadline t boot w a
          (λ b w1 a1 e. elim (not_late deadline t (time w1) (omega arith) a1 e) [ ])
    wait_ready-Ends (suc n) deadline t boot w h a =
        wait_round (suc n) deadline t boot w a (λ b w1 a1 e.
          pause-Ends Waited c t 200 _ w1 a1
            (λ w2 a2. wait_ready-Ends n deadline (t + 10 * 200) b w2 (omega arith) a2))

    Located-case :
        (r : Result (Unit {0})) (boot : Boot) (w : World)
        → Good {A = Unit {0}} Any r
        → Ends Located
            (case_result r (λ _. read_queue boot) (λ s. pure (empty_report boot, fail s)) w)
    unfolding case_result
    Located-case (ok a) boot w g = read_queue-Ends boot w
    Located-case (fail s) boot w g = pure-Ends Located (empty_report boot, fail s) w g

    locate_queue-Ends : (w : World) → Ends Located (locate_queue w)
    unfolding locate_queue
    locate_queue-Ends w = clock-Ends _ _ w (
        Ends-bind Waited _ _ _ w
          (wait_ready-Ends 2501 (time w + ready_timeout) (time w) unprobed w (omega arith)
            (omega arith))
          (λ p w1 g. Located-case p.1 p.0 w1 g))

    busy_case :
        (r : Result ArcMsg) (m : M ArcMsg) (w : World)
        → Good {A = ArcMsg} Any r
        → Ends Any (m w)
        → Ends Any (branch (is_busy (status_of r)) m (from_result r) w)
    busy_case (ok a) m w g k =
        branch-Ends Any false m _ w (λ _. k) (λ _. result-Ends Any (ok a) w tt)
    busy_case (fail s) m w g k =
        branch-Ends Any (is_busy s) m _ w (λ _. k) (λ _. result-Ends Any (fail s) w g)

    await_round :
        (n deadline t : ℕ) (q : Queue) (w : World)
        → After t w
        → ((w' : World)
            → After t w'
            → ltb deadline (time w') ≡ false
            → Ends Any ((delay 200 >> await_response n deadline q) w'))
        → Ends Any (await_response (suc n) deadline q w)
    unfolding await_response return_status from_result
    await_round n deadline t q w a k =
        timed-bind (Good Any) _ t _ _ w (Keeps-attempt _ (try_pop-Keeps (After-control t) q)) a
          (attempt-Ends Any _ w (Settles-Ends (try_pop-Settles q) w))
          (λ r w1 g a1. busy_case r _ w1 g (
            clock-Ends _ _ w1 (
              branch-Ends _ _ _ _ w1 (λ _. result-Ends Any (fail io_timeout) w1 refl)
                (λ early. k w1 a1 early))))

    await_response-Ends :
        (n deadline t : ℕ) (q : Queue) (w : World)
        → deadline < t + 2000 * n
        → After t w
        → Ends Any (await_response (suc n) deadline q w)
    await_response-Ends zero deadline t q w h a =
        await_round zero deadline t q w a
          (λ w1 a1 e. elim (not_late deadline t (time w1) (omega arith) a1 e) [ ])
    await_response-Ends (suc n) deadline t q w h a =
        await_round (suc n) deadline t q w a (λ w1 a1 e.
          pause-Ends Any c t 200 _ w1 a1
            (λ w2 a2. await_response-Ends n deadline (t + 10 * 200) q w2 (omega arith) a2))

    exchange-Ends : (msg : ArcMsg) (w : World) → Ends Any (exchange msg w)
    unfolding exchange ◌>>◌
    exchange-Ends msg w = Ends-bind Located _ _ _ w (locate_queue-Ends w) (λ located w1 g.
        Ends-bind Any _ _ _ w1 (result-Ends Any located.1 w1 g) (λ q w2 _.
          Ends-bind Any _ _ _ w2 (Settles-Ends (drain-Settles q.num_entries q) w2) (λ _ w3 _.
            Ends-bind Any _ _ _ w3 (Settles-Ends (try_push-Settles msg q) w3) (λ _ w4 _.
              Ends-bind Any _ _ _ w4 (Settles-Ends Settles-get_ctx w4) (λ ctx w5 _.
                Ends-bind Any _ _ _ w5 (Settles-Ends (ring_doorbell-Settles ctx.arc_route) w5)
                  (λ _ w6 _. clock-Ends _ _ w6 (
                    await_response-Ends 5001 (time w6 + msg_timeout) (time w6) q w6 (omega arith)
                      (omega arith))))))))

    send_sync-Ends : (msg : ArcMsg) (w : World) → Ends Any (msg_send_sync msg w)
    unfolding msg_send_sync ◌>>◌
    send_sync-Ends msg w = with_lock-Ends Any arc_lock _ w (
        Ends-bind Any _ _ _ _ (Settles-Ends Settles-get_ctx _) (λ ctx w1 _.
          Ends-bind Any _ _ _ w1 (Settles-Ends (Settles-require _ _ refl) w1) (λ _ w2 _.
            Ends-bind Any _ _ _ w2 (Settles-Ends (Settles-require _ _ refl) w2)
              (λ _ w3 _. exchange-Ends msg w3))))

    not_fuel : {A : Type 0} (V : A → Type 0) (r : Result A) → Good V r → r ≢ fail out_of_fuel
    not_fuel V r g e = absurd (clash (subst (Good V) e g))
      where
        clash : false ≡ true → ⊥
        clash q = cc

    -- With a clock that does not go back and on which a delay takes its time, a message to the
    -- firmware ends by the source's own exits: never because the fuel of the two polling loops (the
    -- wait for a ready route and the wait for the response) is used up.
    pub msg_send_sync-returns :
        (msg : ArcMsg) (w : World) → (msg_send_sync msg w).0 ≢ fail out_of_fuel
    msg_send_sync-returns msg w = not_fuel Any _ (send_sync-Ends msg w).at
