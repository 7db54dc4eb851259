-- ===== src/Tests/Machine.antt =====
-- What the theorems ask of the environment holds of the simulated machine.
use tt_wind.Base.{ℕ, zero, suc, ◌+◌, ◌*◌, ◌≤◌, ◌<◌, Bool, false, some, ◌≡◌, arith, ◌∷◌}
use tt_wind.Kernel.{
  Log, Event, mmio_read, mmio_write, cfg_read, cfg_write, ram_write, stall, acquire, release, os,
}
use tt_wind.Context.{tlb_2m_count}
use tt_wind.Monad.Settles.{IsClock}
use tt_wind.Tlb.Preserves.{FindsClear}
use tt_wind.Tests.Sim.{sim, clock, first_clear}

clock_forward : (e : Event) (l : Log) → clock l ≤ clock (e ∷ l)
unfolding clock
clock_forward (mmio_read r o) l = omega arith
clock_forward (mmio_write r o v) l = omega arith
clock_forward (cfg_read o n) l = omega arith
clock_forward (cfg_write o v n) l = omega arith
clock_forward (ram_write o v) l = omega arith
clock_forward (stall us) l = omega arith
clock_forward (acquire k) l = omega arith
clock_forward (release k) l = omega arith
clock_forward (os c) l = omega arith

clock_delays : (us : ℕ) (l : Log) → clock l + 10 * us ≤ clock (stall us ∷ l)
unfolding clock
clock_delays us l = omega arith

pub sim-IsClock : IsClock sim
sim-IsClock = record { forward = clock_forward; delays = clock_delays }

first_clear-picks :
    (n i : ℕ) (b : ℕ → Bool) (k : ℕ) → first_clear n i b ≡ some k → (k < i + n) × (b k ≡ false)
unfolding first_clear
first_clear-picks zero i b k e = absurd cc
first_clear-picks (suc n) i b k e = ground (arith, first_clear-picks n (i + 1) b k)

pub sim-FindsClear : FindsClear sim
sim-FindsClear = record { picks = first_clear-picks tlb_2m_count 0 }
