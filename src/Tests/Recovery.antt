-- ===== src/Tests/Recovery.antt =====
-- The simulated card after a reset, and POST_RESET on it.
use tt_wind.Base.{
  ℕ, ◌+◌, Bool, true, false, Option, some, [], ◌∷◌, ◌==◌, ◌≡◌, refl, ◌∙◌, arith, if◌then◌else◌,
}
use tt_wind.Status.{ok}
use tt_wind.Kernel.{Event, Log, tlb_regs, mmio_write, cfg_write}
use tt_wind.Reset.Recover.{post_reset}
use tt_wind.Reset.Back.{is_config_write, Since, here, later, register, IsBack}
use tt_wind.Reset.Recovered.{post_reset-recovers}
use tt_wind.Tests.Sim.{
  sim, restricted, request, last_written, config_byte, config_bytes, config_default,
}

unwritten :
    (e : Event) (l : Log) (i : ℕ)
    → is_config_write e ≡ false
    → config_byte (e ∷ l) i ≡ config_byte l i
unfolding config_byte
unwritten (cfg_write o v n) l i h = absurd cc
unwritten _ l i h = refl

Since-byte : (l : Log) (i : ℕ) → Since [] l → config_byte l i ≡ config_default i
unfolding config_byte
Since-byte l i here = refl
Since-byte l i (later e k h s) = unwritten e k i h ∙ Since-byte k i s

Since-bytes :
    (l : Log) (o : ℕ)
    → Since [] l
    → config_bytes l o 2 ≡ config_default o ∷ config_default (o + 1) ∷ []
unfolding config_bytes
Since-bytes l o s = rw (Since-byte l o s, Since-byte l (o + 1) s) refl

either :
    (b : Bool) (x v : ℕ) (r : Option ℕ) (n : ℕ)
    → (r ≡ some v → n ≡ v)
    → (if b then some x else r) ≡ some v
    → (if b then x else n) ≡ v
either true x v r n f h = cc
either false x v r n f h = f h

read_back : (l : Log) (o v : ℕ) → register l o ≡ some v → last_written l tlb_regs o ≡ v
unfolding register last_written
read_back [] o v h = absurd cc
read_back (mmio_write tlb_regs p x ∷ l) o v h = either (p == o) x v _ _ (read_back l o v) h
read_back (mmio_write _ p x ∷ l) o v h = read_back l o v h
read_back (_ ∷ l) o v h = read_back l o v h

sim-IsBack : IsBack sim 0x1E52 []
sim-IsBack = record {
  fits = omega arith;
  present = λ l s. Since-bytes l 0 s;
  low = 6;
  high = 0;
  command = λ l s. Since-bytes l 4 s;
  unmarked = refl;
  accepts = λ l o v n. refl;
  reads = read_back;
}

post_reset-recovers_example :
    ((post_reset ⦃env = sim⦄ (request (record { flags = 0; reserved = 0 })) restricted).0 ≡ ok tt)
    × ((post_reset ⦃env = sim⦄
          (request (record { flags = 0; reserved = 0 }))
          restricted).1.ctx.needs_hw_init
        ≡ false)
post_reset-recovers_example =
    post_reset-recovers ⦃env = sim⦄ (request (record { flags = 0; reserved = 0 }))
      (record { flags = 0; reserved = 0 }) restricted sim-IsBack refl refl refl refl refl refl
