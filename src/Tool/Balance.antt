-- ===== src/Tool/Balance.antt =====
-- What a run of ttwind-info still holds, and the rules for runs that give back what they take.
pub mod Rules
pub mod Bodies
use tt_wind.Base.{
  ℕ, Bool, true, false, Option, none, some, List, [], ◌∷◌, ◌≡◌, refl, ap, ◌∙◌, ◌==◌, arith,
  if◌then◌else◌,
}
use tt_wind.Tool.Calls.{
  Text, Host, Call, Control, Output, Answer, success, failure, Trace, T, ◌>>=◌, ◌>>◌, pure,
  record_call, branch, on_answer, on_option, ioctl, load, store, control, create_file, close_handle,
  read_u32, write_u32, sleep, list_size, list_paths, map_bar, unmap_bar, allocate_tlb, map_tlb,
  free_tlb, map_sysmem, get_device_info, configure_tlb, smc_msg, arc_status, reset_device,
  post_reset, query_sysmem, sysmem_status, open_path,
}

-- An open handle, a window that was allocated, and an address that was mapped.
pub data Held : Type 0 where
  handle window view : ℕ → Held

unfoldable pub same : Held → Held → Bool
same (handle a) (handle b) = a == b
same (window a) (window b) = a == b
same (view a) (view b) = a == b
same _ _ = false

unfoldable pub give_back : Held → List Held → List Held
give_back x [] = []
give_back x (y ∷ ys) = if same x y then ys else y ∷ give_back x ys

unfoldable pub after_control : (c : Control) → Answer (Output c) → List Held → List Held
after_control (map_bar i) (success out n) hs = view out.user_va ∷ hs
after_control (map_tlb i) (success va n) hs = view va ∷ hs
after_control (map_sysmem i) (success out n) hs = view out.user_va ∷ hs
after_control (allocate_tlb s) (success id n) hs = window id ∷ hs
after_control (unmap_bar va) a hs = give_back (view va) hs
after_control (free_tlb i) a hs = give_back (window i.tlb_id) hs
after_control _ a hs = hs

after_call : Call → List Held → List Held
after_call (control h c a) hs = after_control c a hs
after_call (create_file p (some h)) hs = handle h ∷ hs
after_call (close_handle h) hs = give_back (handle h) hs
after_call _ hs = hs

-- What was taken and not asked to be given back, the latest first. A failed UNMAP_BAR or FREE_TLB
-- counts as asked.
unfoldable pub pending : Trace → List Held
unfolding after_call after_control give_back same
pending [] = []
pending (c ∷ t) = after_call c (pending t)

give_back_self : (x : Held) (hs : List Held) → give_back x (x ∷ hs) ≡ hs
unfolding give_back same
give_back_self (handle a) hs = ground arith
give_back_self (window a) hs = ground arith
give_back_self (view a) hs = ground arith

-- Holds at the end what it held at the start.
pub record Balanced {A : Type 0} (m : T A) : Type 0 where
  pub at : (t : Trace) → pending (m t).1 ≡ pending t

-- Gives back `x`, which was taken last, and is balanced otherwise.
pub record Releases {A : Type 0} (x : Held) (m : T A) : Type 0 where
  pub at : (t : Trace) (hs : List Held) → pending t ≡ x ∷ hs → pending (m t).1 ≡ hs

pub Balanced-pure : {A : Type 0} (a : A) → Balanced (pure a)
unfolding pure
Balanced-pure a = record { at = λ t. refl }

pub Balanced-bind :
    {A B : Type 0} (m : T A) (f : A → T B)
    → Balanced m
    → ((a : A) → Balanced (f a))
    → Balanced (m >>= f)
unfolding ◌>>=◌
Balanced-bind m f p q = record { at = λ t. (q (m t).0).at (m t).1 ∙ p.at t }

pub Balanced-seq :
    {B : Type 0} (m : T (Unit {0})) (n : T B) → Balanced m → Balanced n → Balanced (m >> n)
unfolding ◌>>◌
Balanced-seq m n p q = Balanced-bind m (λ _. n) p (λ _. q)

pub Balanced-branch :
    {A : Type 0} (b : Bool) (m n : T A) → Balanced m → Balanced n → Balanced (branch b m n)
unfolding branch
Balanced-branch true m n p q = p
Balanced-branch false m n p q = q

pub Balanced-on_answer :
    {A B : Type 0} (a : Answer A) (m : T B) (f : A → ℕ → T B)
    → Balanced m
    → ((out : A) (n : ℕ) → Balanced (f out n))
    → Balanced (on_answer a m f)
unfolding on_answer
Balanced-on_answer (success out n) m f p q = q out n
Balanced-on_answer (failure e) m f p q = p

pub Balanced-on_option :
    {A B : Type 0} (o : Option A) (m : T B) (f : A → T B)
    → Balanced m
    → ((a : A) → Balanced (f a))
    → Balanced (on_option o m f)
unfolding on_option
Balanced-on_option none m f p q = p
Balanced-on_option (some a) m f p q = q a

pub Balanced-sleep : (ms : ℕ) → Balanced (record_call (sleep ms))
unfolding record_call pending
Balanced-sleep ms = record { at = λ t. refl }

pub Balanced-store : (va v : ℕ) → Balanced (store va v)
unfolding store record_call pending
Balanced-store va v = record { at = λ t. refl }

pub Releases-bind :
    {A B : Type 0} (x : Held) (m : T A) (f : A → T B)
    → Balanced m
    → ((a : A) → Releases x (f a))
    → Releases x (m >>= f)
unfolding ◌>>=◌
Releases-bind x m f p q = record { at = λ t hs e. (q (m t).0).at (m t).1 hs (p.at t ∙ e) }

pub Releases-seq :
    {B : Type 0} (x : Held) (m : T (Unit {0})) (n : T B)
    → Balanced m
    → Releases x n
    → Releases x (m >> n)
unfolding ◌>>◌
Releases-seq x m n p q = Releases-bind x m (λ _. n) p (λ _. q)

pub Releases-close :
    {B : Type 0} (h : ℕ) (n : T B)
    → Balanced n
    → Releases (handle h) (record_call (close_handle h) >> n)
unfolding ◌>>◌ ◌>>=◌ record_call pending
Releases-close h n p = record {
  at = λ t hs e.
      p.at (close_handle h ∷ t) ∙ ap (give_back (handle h)) e ∙ give_back_self (handle h) hs;
}

module _ ⦃host : Host⦄ where
  pub Balanced-load : (va : ℕ) → Balanced (load va)
  unfolding load pending
  Balanced-load va = record { at = λ t. refl }

  -- A control code that takes and gives back nothing.
  pub Balanced-ioctl :
      (h : ℕ) (c : Control)
      → ((a : Answer (Output c)) (hs : List Held) → after_control c a hs ≡ hs)
      → Balanced (ioctl h c)
  unfolding ioctl pending
  Balanced-ioctl h c n = record { at = λ t. n _ _ }

  pub Releases-ioctl :
      {B : Type 0} (x : Held) (h : ℕ) (c : Control) (f : Answer (Output c) → T B)
      → ((a : Answer (Output c)) (hs : List Held) → after_control c a hs ≡ give_back x hs)
      → ((a : Answer (Output c)) → Balanced (f a))
      → Releases x (ioctl h c >>= f)
  unfolding ◌>>=◌ ioctl pending
  Releases-ioctl x h c f n p = record {
    at = λ t hs e.
        let a = host.device_io_control t h c in
        (p a).at (control h c a ∷ t) ∙ n a (pending t) ∙ ap (give_back x) e ∙ give_back_self x hs;
  }

  -- A control code whose output `x` names what is taken.
  pub Balanced-taking :
      {B : Type 0} (h : ℕ) (c : Control) (x : Output c → Held) (m : T B) (f : Output c → ℕ → T B)
      → ((out : Output c) (n : ℕ) (hs : List Held)
          → after_control c (success out n) hs ≡ x out ∷ hs)
      → ((e : ℕ) (hs : List Held) → after_control c (failure e) hs ≡ hs)
      → Balanced m
      → ((out : Output c) (n : ℕ) → Releases (x out) (f out n))
      → Balanced (ioctl h c >>= λ a. on_answer a m f)
  unfolding ◌>>=◌ ioctl pending on_answer
  Balanced-taking h c x m f gain stay p q = record { at = λ t. go t (host.device_io_control t h c) }
    where
      go :
          (t : Trace) (a : Answer (Output c))
          → pending (on_answer a m f (control h c a ∷ t)).1 ≡ pending t
      go t (success out n) =
          (q out n).at (control h c (success out n) ∷ t) (pending t) (gain out n (pending t))
      go t (failure e) = p.at (control h c (failure e) ∷ t) ∙ stay e (pending t)

  pub Balanced-opening :
      {B : Type 0} (path : Text) (k : Option ℕ → T B)
      → Balanced (k none)
      → ((h : ℕ) → Releases (handle h) (k (some h)))
      → Balanced (open_path path >>= k)
  unfolding ◌>>=◌ open_path pending
  Balanced-opening path k p q = record { at = λ t. go t (host.create t path) }
    where
      go : (t : Trace) (o : Option ℕ) → pending (k o (create_file path o ∷ t)).1 ≡ pending t
      go t none = p.at (create_file path none ∷ t)
      go t (some h) = (q h).at (create_file path (some h) ∷ t) (pending t) refl
