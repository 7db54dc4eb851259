-- ===== src/Tool/Polls.antt =====
-- How `ttwind-info reset` ends (tools/ttwind-info/ttwind-info.c, cmd_reset).
use tt_wind.Base.{
  ℕ, zero, suc, ◌+◌, ◌*◌, ◌≤◌, false, [], ◌∷◌, ◌≡◌, ◌⊎◌, inl, inr, refl, subst, leb, arith,
}
use tt_wind.Tool.Calls.{
  Host, Call, Answer, success, failure, Trace, ◌>>=◌, ◌>>◌, pure, record_call, branch, on_answer,
  ioctl, control, sleep, post_reset, reset_device,
}
use tt_wind.Tool.Messages.{zero_reset, gave_up, polled, poll_loop, reset_body}

-- The POST_RESETs of the trace, and the milliseconds slept.
polls_in : Call → ℕ
polls_in (control h (post_reset i) a) = 1
polls_in _ = 0

unfoldable pub polls : Trace → ℕ
unfolding polls_in
polls [] = 0
polls (c ∷ t) = polls_in c + polls t

slept_in : Call → ℕ
slept_in (sleep ms) = ms
slept_in _ = 0

unfoldable pub slept : Trace → ℕ
unfolding slept_in
slept [] = 0
slept (c ∷ t) = slept_in c + slept t

module _ ⦃host : Host⦄ where
  -- The exit code that goes with the answer of the last poll.
  abbrev pub verdict : Answer (Unit {0}) → ℕ
  verdict (success _ _) = 0
  verdict (failure e) = gave_up e

  -- The polls from `t` to the end `r`, at most `most` of them with `budget` milliseconds between.
  pub record Polled (most budget h : ℕ) (t : Trace) (r : ℕ × Trace) : Type 0 where
    pub answer : Answer (Unit {0})
    pub earlier : Trace
    pub latest : r.1 ≡ control h (post_reset zero_reset) answer ∷ earlier
    pub code : r.0 ≡ verdict answer
    pub count : polls r.1 ≤ polls t + most
    pub time : slept r.1 ≤ slept t + budget
    pub patient : (r.0 ≡ 0) ⊎ (slept r.1 ≡ slept t + budget) × (polls r.1 ≡ polls t + most)

  -- One poll and a sleep before the others.
  earlier_poll :
      (most budget h : ℕ) (t : Trace) (a : Answer (Unit {0})) (r : ℕ × Trace)
      → Polled most budget h (sleep 100 ∷ control h (post_reset zero_reset) a ∷ t) r
      → Polled (most + 1) (budget + 100) h t r
  unfolding polls slept
  earlier_poll most budget h t a r p = record {
    answer = p.answer;
    earlier = p.earlier;
    latest = p.latest;
    code = p.code;
    count = omega (arith, p.count);
    time = omega (arith, p.time);
    patient = elim p.patient [
      | inl z ↦ inl z
      | inr q ↦ inr (omega (arith, q.0), omega (arith, q.1))
    ];
  }

  -- The last poll that is made: it succeeds, or the budget is used up.
  last_poll :
      (waited h : ℕ) (t : Trace) (a : Answer (Unit {0})) (again : Trace → ℕ × Trace)
      → waited ≡ 15000
      → Polled 1 0 h t (polled a waited again (control h (post_reset zero_reset) a ∷ t))
  unfolding polled pure branch polls slept
  last_poll waited h t (success _ _) again e = record {
    answer = _;
    earlier = t;
    latest = refl;
    code = refl;
    count = omega arith;
    time = omega arith;
    patient = inl refl;
  }
  last_poll waited h t (failure x) again e = rw e (record {
    answer = _;
    earlier = t;
    latest = refl;
    code = refl;
    count = omega arith;
    time = omega arith;
    patient = inr (omega arith, omega arith);
  })

  other_poll :
      (left waited h : ℕ) (t : Trace) (a : Answer (Unit {0})) (again : Trace → ℕ × Trace)
      → leb 15000 waited ≡ false
      → ((u : Trace) → Polled (left + 1) (100 * left) h u (again u))
      → Polled
          (left + 1 + 1)
          (100 * left + 100)
          h
          t
          (polled a waited again (control h (post_reset zero_reset) a ∷ t))
  unfolding polled pure branch polls slept record_call ◌>>◌ ◌>>=◌
  other_poll left waited h t (success _ _) again e p = record {
    answer = _;
    earlier = t;
    latest = refl;
    code = refl;
    count = omega arith;
    time = omega arith;
    patient = inl refl;
  }
  other_poll left waited h t (failure x) again e p =
      rw e (earlier_poll (left + 1) (100 * left) h t (failure x) _ (p _))

  poll_loop-Polled :
      (left waited h : ℕ) (t : Trace)
      → waited + 100 * left ≡ 15000
      → Polled (left + 1) (100 * left) h t (poll_loop (suc left) waited h t)
  unfolding poll_loop ◌>>=◌ ioctl
  poll_loop-Polled zero waited h t e = last_poll waited h t _ _ (omega arith)
  poll_loop-Polled (suc left) waited h t e =
      subst (λ n. Polled (suc left + 1) n h t (poll_loop (suc (suc left)) waited h t)) (omega arith)
        (subst (λ n. Polled n (100 * left + 100) h t (poll_loop (suc (suc left)) waited h t))
          (omega arith)
          (other_poll left waited h t _ _ (ground arith)
            (λ u. poll_loop-Polled left (waited + 100) h u (omega arith))))

  -- What a run of `reset` does on the handle `h`.
  abbrev pub Refused : (h : ℕ) (t : Trace) → ℕ × Trace → Type 0
  Refused h t r =
      (error : ℕ) × (r.0 ≡ 2) × (r.1 ≡ control h (reset_device zero_reset) (failure error) ∷ t)

  abbrev pub Armed : (h : ℕ) (t : Trace) → ℕ × Trace → Type 0
  Armed h t r =
      (n : ℕ) × Polled 151 15000 h
        (sleep 1000 ∷ control h (reset_device zero_reset) (success tt n) ∷ t) r

  ended :
      (h : ℕ) (t : Trace) (a : Answer (Unit {0}))
      → Refused h t (
          on_answer a
            (pure 2)
            (λ _ _. record_call (sleep 1000) >> poll_loop 151 0 h)
            (control h (reset_device zero_reset) a ∷ t))
        ⊎ Armed h t (
            on_answer a
              (pure 2)
              (λ _ _. record_call (sleep 1000) >> poll_loop 151 0 h)
              (control h (reset_device zero_reset) a ∷ t))
  unfolding on_answer pure record_call ◌>>◌ ◌>>=◌
  ended h t (success u n) = inr (n, poll_loop-Polled 150 0 h _ (omega arith))
  ended h t (failure e) = inl (e, refl, refl)

  -- The body of `reset` always ends. Either RESET_DEVICE was refused, with exit code 2 and no other
  -- call, or it was accepted and, a second later, POST_RESET is polled at most 151 times with at
  -- most 15 seconds of sleep between the polls: the exit code is 0 if the last poll succeeded, 1 if
  -- it failed with ERROR_BUSY and 2 if it failed otherwise, and a code other than 0 is only given
  -- after all 151 polls and all 15 seconds.
  pub reset_body-ends :
      (h : ℕ) (t : Trace) → Refused h t (reset_body h t) ⊎ Armed h t (reset_body h t)
  unfolding reset_body ◌>>=◌ ioctl
  reset_body-ends h t = ended h t _
