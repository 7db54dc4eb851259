-- ===== src/Arc/Ring/Counters.antt =====
-- The ring pointers of the message queue (driver/arc.c, TtWindArcTryPush and TtWindArcTryPop)
-- against counters that only grow: what was written and what was taken so far.
use tt_wind.Base.{
  ℕ, zero, suc, ◌+◌, ◌-◌, ◌*◌, ◌/◌, ◌%◌, ◌^◌, ◌≤◌, ◌<◌, ◌≡◌, ◌≢◌, ◌⊎◌, inl, inr, ◌∙◌, sym, ap,
  sub32, arith,
}
use native.Mathlib.Nat.{
  mod-lt, mod-eq_of_lt, mod-add-mod, add-mul-mod_self_right, mod-eq-sub-mod, mod-mod_of_dvd,
  div-add-mod', dvd-mul_left,
}
use tt_wind.Arc.Ring.{occupancy, advance}

-- A number is known by its remainder and a multiple.
mod_unique : (m q r x : ℕ) → r < m → x ≡ r + q * m → x % m ≡ r
mod_unique m q r x h e = ap (λ t. t % m) e ∙ add-mul-mod_self_right r q m ∙ mod-eq_of_lt h

-- The difference of two pointers when the writer's has gone round and the reader's has not.
sub_below : (w r : ℕ) → w < r → r < 2 ^ 32 → sub32 w r ≡ 2 ^ 32 + w - r
sub_below w r h l = omega arith

lap : (m k w r : ℕ) → k * m ≡ 2 ^ 32 → w < r → r < m → (2 ^ 32 + w - r) % m ≡ w + m - r
lap m zero w r e h l = absurd (omega arith)
lap m (suc k) w r e h l =
    mod_unique m k (w + m - r) (2 ^ 32 + w - r) (omega arith) (omega (arith, e))

pub occupancy_above : (w r n : ℕ) → r ≤ w → w < 2 * n → 2 * n < 2 ^ 32 → occupancy w r n ≡ w - r
unfolding occupancy
occupancy_above w r n h l b = ap (λ t. t % (2 * n)) plain ∙ mod-eq_of_lt (omega arith)
  where
    plain : sub32 w r ≡ w - r
    plain = omega arith

pub occupancy_below :
    (w r n k : ℕ)
    → k * (2 * n) ≡ 2 ^ 32
    → w < r
    → r < 2 * n
    → 2 * n < 2 ^ 32
    → occupancy w r n ≡ w + 2 * n - r
unfolding occupancy
occupancy_below w r n k e h l b =
    ap (λ t. t % (2 * n)) (sub_below w r h (omega arith)) ∙ lap (2 * n) k w r e h l

-- A pointer that `d` steps ago was `r`.
stepped :
    (m r d : ℕ) → r < m → d < m → ((r + d) % m ≡ r + d) ⊎ (((r + d) % m ≡ r + d - m) × (m ≤ r + d))
stepped m r d h l = ground (
  arith,
  mod-eq_of_lt {n = r + d} {m = m},
  mod-eq-sub-mod {n = r + d} {m = m},
  mod-eq_of_lt {n = r + d - m} {m = m},
)

counted :
    (n k r d : ℕ)
    → k * (2 * n) ≡ 2 ^ 32
    → 2 * n < 2 ^ 32
    → r < 2 * n
    → d < 2 * n
    → occupancy ((r + d) % (2 * n)) r n ≡ d
counted n k r d e b h l = elim (stepped (2 * n) r d h l) [
  | inl s ↦ rw s (
      occupancy_above (r + d) r n (omega arith) (omega (arith, s, mod-lt (r + d) {m = 2 * n})) b
      ∙ omega arith)
  | inr s ↦
      rw s.0 (occupancy_below (r + d - 2 * n) r n k e (omega (arith, s.1)) h b ∙ omega (arith, s.1))
]

-- Where twice the number of entries divides 2 ^ 32: of a ring from which `taken` messages were
-- taken and in which `pending` wait, less than two laps, the pointers mod `2 * n` give back the
-- number that wait; advancing a pointer is counting one more; and its slot is the counter's mod `n`.
pub occupancy_counts :
    (n k taken pending : ℕ)
    → k * (2 * n) ≡ 2 ^ 32
    → 2 * n < 2 ^ 32
    → pending < 2 * n
    → (occupancy ((taken + pending) % (2 * n)) (taken % (2 * n)) n ≡ pending)
      × (advance (taken % (2 * n)) n ≡ (taken + 1) % (2 * n))
      × (taken % (2 * n) % n ≡ taken % n)
unfolding advance
occupancy_counts n k taken pending e b l = (
  ap (λ t. occupancy t (taken % (2 * n)) n) (sym (mod-add-mod taken (2 * n) pending))
      ∙ counted n k (taken % (2 * n)) pending e b below l,
  ap (λ t. t % (2 * n)) (mod-eq_of_lt (omega (arith, below))) ∙ mod-add-mod taken (2 * n) 1,
  mod-mod_of_dvd n taken (dvd-mul_left n 2),
)
  where
    below : taken % (2 * n) < 2 * n
    below = mod-lt taken (omega arith)

lap_divides : (m w r : ℕ) → w < r → r < m → (2 ^ 32 + w - r) % m ≡ w + m - r → 2 ^ 32 % m ≡ 0
lap_divides m w r h l e =
    mod_unique m ((2 ^ 32 + w - r) / m + 1) 0 (2 ^ 32) (omega arith)
      (total ((2 ^ 32 + w - r) / m) (sym (div-add-mod' (2 ^ 32 + w - r) m)))
  where
    total : (q : ℕ) → 2 ^ 32 + w - r ≡ q * m + (2 ^ 32 + w - r) % m → 2 ^ 32 ≡ 0 + (q + 1) * m
    total q t = omega (arith, e, t)

-- Where it does not divide 2 ^ 32, the count is wrong for every pair of pointers of which the
-- writer's has gone round and the reader's has not.
pub occupancy_miscounts :
    (n w r : ℕ)
    → 2 ^ 32 % (2 * n) ≢ 0
    → w < r
    → r < 2 * n
    → 2 * n < 2 ^ 32
    → occupancy w r n ≢ w + 2 * n - r
unfolding occupancy
occupancy_miscounts n w r d h l b e =
    d (
      lap_divides (2 * n) w r h l (ap (λ t. t % (2 * n)) (sym (sub_below w r h (omega arith))) ∙ e))
