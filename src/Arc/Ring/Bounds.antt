-- ===== src/Arc/Ring/Bounds.antt =====
-- Where the rings of a queue that TtWindArcLocateQueue accepts lie (driver/arc.c).
use tt_wind.Base.{ℕ, ◌+◌, ◌-◌, ◌*◌, ◌%◌, ◌≤◌, ◌<◌, true, ◌≡◌, ◌≢◌, u32, arith}
use tt_wind.Base.Bits.{and_low}
use native.Mathlib.Nat.{mod-lt}
use tt_wind.Status.{ok}
use tt_wind.Arc.Access.{is_csm_word, csm_base, csm_size}
use tt_wind.Arc.Locate.{Queue, check_queue}
use tt_wind.Arc.Ring.{request_base, response_base, msg_size}

-- The queue lies in the CSM, with its header and both rings.
pub record InCsm (q : Queue) : Type 0 where
  pub used : q.num_entries ≢ 0
  pub low : csm_base ≤ q.base
  pub high : q.base + 32 + 64 * q.num_entries ≤ csm_base + csm_size

check_queue-InCsm : (b n : ℕ) (q : Queue) → check_queue b n ≡ ok q → InCsm q
unfolding check_queue
check_queue-InCsm b n q e = ground arith

-- A word-aligned address in the CSM passes the test of the accessors.
csm_word : (a : ℕ) → a % 4 ≡ 0 → csm_base ≤ a → a ≤ csm_base + csm_size - 4 → is_csm_word a ≡ true
csm_word a m l h = ground (arith, and_low 2 a)

-- The address of a word of a slot, as the code computes it, and that of the accessor.
abbrev pub request_word : Queue → (ptr i : ℕ) → ℕ
request_word q p i = u32 (request_base q + p % q.num_entries * msg_size + 4 * i)

abbrev pub response_word : Queue → (ptr i : ℕ) → ℕ
response_word q p i = u32 (response_base q + p % q.num_entries * msg_size + 4 * i)

request_word_at :
    (q : Queue) (p i : ℕ)
    → InCsm q
    → i < 8
    → (request_word q p i ≡ q.base + 32 + p % q.num_entries * 32 + 4 * i)
request_word_at q p i c l = omega (arith, c.high, c.used, mod-lt p {m = q.num_entries})

response_word_at :
    (q : Queue) (p i : ℕ)
    → InCsm q
    → i < 8
    → (response_word q p i ≡ q.base + 32 + q.num_entries * 32 + p % q.num_entries * 32 + 4 * i)
response_word_at q p i c l = omega (arith, c.high, c.used, mod-lt p {m = q.num_entries})

-- Of a queue that the check accepts, with a word-aligned base, and for every pointer and each of
-- the eight words of a slot: the accessors admit the word in the request ring and the one in the
-- response ring, every request word lies at least 4 bytes below every response word, and both lie
-- at least 32 bytes above the base.
pub check_queue-slots :
    (b n : ℕ) (q : Queue) (p r i j : ℕ)
    → check_queue b n ≡ ok q
    → q.base % 4 ≡ 0
    → i < 8
    → j < 8
    → (is_csm_word (request_word q p i) ≡ true)
      × ((is_csm_word (response_word q r j) ≡ true)
          × ((request_word q p i + 4 ≤ response_word q r j) × (q.base + 32 ≤ request_word q p i)))
check_queue-slots b n q p r i j e m l k =
    let c = check_queue-InCsm b n q e in
    let req = request_word_at q p i c l in
    let resp = response_word_at q r j c k in
    let below = mod-lt p {m = q.num_entries} in
    let under = mod-lt r {m = q.num_entries} in
    (
      csm_word (request_word q p i) (omega (arith, req, m)) (omega (arith, req, c.low))
          (omega (arith, req, c.high, c.used, below)),
      (
        csm_word (response_word q r j) (omega (arith, resp, m)) (omega (arith, resp, c.low))
            (omega (arith, resp, c.high, c.used, under)),
        (omega (arith, req, resp, c.used, below), omega (arith, req, below)),
      ),
    )
