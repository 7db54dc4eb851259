-- ===== src/Tool/Balance/Rules.antt =====
-- The rules of Balance for each control code of ttwind-info.
use tt_wind.Base.{ℕ, refl}
use tt_wind.Request.{MapBarIn, MapOut, ConfigureTlbIn, MapTlbIn, MapSysmemIn, ResetIn}
use tt_wind.Arc.Ring.{ArcMsg}
use tt_wind.Tool.Calls.{
  Host, Answer, T, ◌>>=◌, on_answer, ioctl, map_bar, unmap_bar, allocate_tlb, map_tlb, free_tlb,
  map_sysmem, get_device_info, configure_tlb, smc_msg, arc_status, reset_device, post_reset,
  query_sysmem, sysmem_status,
}
use tt_wind.Tool.Balance.{
  window, view, after_control, Balanced, Releases, Balanced-taking, Balanced-ioctl, Releases-ioctl,
  Balanced-pure, Balanced-bind, Balanced-seq, Balanced-branch, Balanced-on_answer,
  Balanced-on_option, Balanced-sleep, Balanced-store, Balanced-load, Releases-bind, Releases-seq,
}

module _ ⦃host : Host⦄ where
  pub taking-map_bar :
      {B : Type 0} (h : ℕ) (i : MapBarIn) (m : T B) (f : MapOut → ℕ → T B)
      → Balanced m
      → ((out : MapOut) (n : ℕ) → Releases (view out.user_va) (f out n))
      → Balanced (ioctl h (map_bar i) >>= λ a. on_answer a m f)
  unfolding after_control
  taking-map_bar h i m f p q =
      Balanced-taking h (map_bar i) (λ out. view out.user_va) m f (λ out n hs. refl) (λ e hs. refl)
        p q

  pub taking-map_tlb :
      {B : Type 0} (h : ℕ) (i : MapTlbIn) (m : T B) (f : ℕ → ℕ → T B)
      → Balanced m
      → ((out : ℕ) (n : ℕ) → Releases (view out) (f out n))
      → Balanced (ioctl h (map_tlb i) >>= λ a. on_answer a m f)
  unfolding after_control
  taking-map_tlb h i m f p q =
      Balanced-taking h (map_tlb i) (λ out. view out) m f (λ out n hs. refl) (λ e hs. refl) p q

  pub taking-map_sysmem :
      {B : Type 0} (h : ℕ) (i : MapSysmemIn) (m : T B) (f : MapOut → ℕ → T B)
      → Balanced m
      → ((out : MapOut) (n : ℕ) → Releases (view out.user_va) (f out n))
      → Balanced (ioctl h (map_sysmem i) >>= λ a. on_answer a m f)
  unfolding after_control
  taking-map_sysmem h i m f p q =
      Balanced-taking h (map_sysmem i) (λ out. view out.user_va) m f (λ out n hs. refl)
        (λ e hs. refl) p q

  pub taking-allocate_tlb :
      {B : Type 0} (h : ℕ) (i : ℕ) (m : T B) (f : ℕ → ℕ → T B)
      → Balanced m
      → ((out : ℕ) (n : ℕ) → Releases (window out) (f out n))
      → Balanced (ioctl h (allocate_tlb i) >>= λ a. on_answer a m f)
  unfolding after_control
  taking-allocate_tlb h i m f p q =
      Balanced-taking h (allocate_tlb i) (λ out. window out) m f (λ out n hs. refl) (λ e hs. refl) p
        q

  pub releasing-unmap_bar :
      {B : Type 0} (h va : ℕ) (f : Answer (Unit {0}) → T B)
      → ((a : Answer (Unit {0})) → Balanced (f a))
      → Releases (view va) (ioctl h (unmap_bar va) >>= f)
  unfolding after_control
  releasing-unmap_bar h va f p = Releases-ioctl (view va) h (unmap_bar va) f (λ a hs. refl) p

  pub releasing-free_tlb :
      {B : Type 0} (h id r : ℕ) (f : Answer (Unit {0}) → T B)
      → ((a : Answer (Unit {0})) → Balanced (f a))
      → Releases (window id) (ioctl h (free_tlb (record { tlb_id = id; reserved = r })) >>= f)
  unfolding after_control
  releasing-free_tlb h id r f p =
      Releases-ioctl (window id) h (free_tlb (record { tlb_id = id; reserved = r })) f
        (λ a hs. refl) p

  pub Balanced-get_device_info : (h : ℕ) → Balanced (ioctl h get_device_info)
  unfolding after_control
  Balanced-get_device_info h = Balanced-ioctl h get_device_info (λ a hs. refl)

  pub Balanced-configure_tlb : (h : ℕ) (i : ConfigureTlbIn) → Balanced (ioctl h (configure_tlb i))
  unfolding after_control
  Balanced-configure_tlb h i = Balanced-ioctl h (configure_tlb i) (λ a hs. refl)

  pub Balanced-smc_msg : (h : ℕ) (i : ArcMsg) → Balanced (ioctl h (smc_msg i))
  unfolding after_control
  Balanced-smc_msg h i = Balanced-ioctl h (smc_msg i) (λ a hs. refl)

  pub Balanced-arc_status : (h : ℕ) → Balanced (ioctl h arc_status)
  unfolding after_control
  Balanced-arc_status h = Balanced-ioctl h arc_status (λ a hs. refl)

  pub Balanced-reset_device : (h : ℕ) (i : ResetIn) → Balanced (ioctl h (reset_device i))
  unfolding after_control
  Balanced-reset_device h i = Balanced-ioctl h (reset_device i) (λ a hs. refl)

  pub Balanced-post_reset : (h : ℕ) (i : ResetIn) → Balanced (ioctl h (post_reset i))
  unfolding after_control
  Balanced-post_reset h i = Balanced-ioctl h (post_reset i) (λ a hs. refl)

  pub Balanced-query_sysmem : (h : ℕ) → Balanced (ioctl h query_sysmem)
  unfolding after_control
  Balanced-query_sysmem h = Balanced-ioctl h query_sysmem (λ a hs. refl)

  pub Balanced-sysmem_status : (h : ℕ) → Balanced (ioctl h sysmem_status)
  unfolding after_control
  Balanced-sysmem_status h = Balanced-ioctl h sysmem_status (λ a hs. refl)

pub ruleset balance_rules = (
  taking-map_bar, taking-map_tlb, taking-map_sysmem, taking-allocate_tlb, releasing-unmap_bar,
  releasing-free_tlb, Releases-bind, Releases-seq, Balanced-get_device_info, Balanced-configure_tlb,
  Balanced-smc_msg, Balanced-arc_status, Balanced-reset_device, Balanced-post_reset,
  Balanced-query_sysmem, Balanced-sysmem_status, Balanced-pure, Balanced-sleep, Balanced-store,
  Balanced-load, Balanced-branch, Balanced-on_answer, Balanced-on_option, Balanced-bind,
  Balanced-seq,
)
