-- ===== src/Process/Signal/Starving.antt =====
-- Which signal `check_pending_signals` turns to, and a frozen process that no signal reaches.
use nimloth_os.Prelude.{
  ℕ, zero, suc, ◌+◌, ◌%◌, ◌≡◌, ◌≤◌, ◌<◌, refl, inl, inr, Bool-cases, true, false, not, ◌&&◌, Option,
  none, some, List, [], ◌∷◌, ◌==◌, arith, ◌∙◌,
}
use nimloth_os.Process.Signal.{
  Signals, masked, by_kernel, pending_step, pending_loop, check_pending_signals,
  call_user_signal_handler, handle_round, sys_kill, with_signal, max_sig,
}
use nimloth_os.Process.Signal.Delivery.{deliverable}

skip_step : (p : Signals) (sig : ℕ) → deliverable p sig ≡ false → pending_step p sig ≡ (p, false)
unfolding pending_step deliverable
skip_step p sig h = elim (Bool-cases (p.signals sig && not (p.signal_mask sig))) [
  | inr a ↦ rw a refl
  | inl a ↦ let b : masked p sig ≡ true = ground arith in rw (a, b) refl
]

user_step :
    (p : Signals) (sig : ℕ)
    → deliverable p sig ≡ true
    → by_kernel sig ≡ false
    → pending_step p sig ≡ (call_user_signal_handler p sig, true)
unfolding pending_step deliverable
user_step p sig h k =
    let a : (p.signals sig && not (p.signal_mask sig)) ≡ true = ground arith in
    let b : masked p sig ≡ false = ground arith in rw (a, b, k) refl

loop_first :
    (n s sig : ℕ) (p : Signals)
    → s ≤ sig
    → sig < s + n
    → ((i : ℕ) → i < sig → deliverable p i ≡ false)
    → deliverable p sig ≡ true
    → by_kernel sig ≡ false
    → pending_loop n s p ≡ call_user_signal_handler p sig
unfolding pending_loop
loop_first zero s sig p lo hi none_below d k = absurd (omega (arith, lo, hi))
loop_first (suc n) s sig p lo hi none_below d k = elim (Bool-cases (s == sig)) [
  | inl e ↦ let same : s ≡ sig = ground arith in rw (same, user_step p sig d k) refl
  | inr e ↦
      let less : s < sig = ground arith in
      rw (skip_step p s (none_below s less))
        (loop_first n (s + 1) sig p (omega (arith, less)) (omega (arith, hi)) none_below d k)
]

-- The least signal that is pending and not held back decides: if it is one that users may handle, it
-- is all that `check_pending_signals` turns to.
pub check_first :
    (p : Signals) (sig : ℕ)
    → sig ≤ max_sig
    → ((i : ℕ) → i < sig → deliverable p i ≡ false)
    → deliverable p sig ≡ true
    → by_kernel sig ≡ false
    → check_pending_signals p ≡ call_user_signal_handler p sig
unfolding check_pending_signals
check_first p sig h none_below d k =
    loop_first (max_sig + 1) 0 sig p (omega arith) (omega (arith, h)) none_below d k

-- A frozen process whose least deliverable signal is for the user and has no handler.
pub record Stuck (sig : ℕ) (p : Signals) : Type 0 where
  pub frozen : p.frozen ≡ true
  pub alive : p.killed ≡ false
  pub range : sig ≤ max_sig
  pub lowest : (i : ℕ) → i < sig → deliverable p i ≡ false
  pub pending : deliverable p sig ≡ true
  pub user : by_kernel sig ≡ false
  pub no_handler : (p.signal_actions sig).handler ≡ 0

Stuck-round : (p : Signals) (sig : ℕ) → Stuck sig p → handle_round p ≡ (p, true)
unfolding handle_round call_user_signal_handler
Stuck-round p sig s =
    let e : check_pending_signals p ≡ p =
      check_first p sig s.range s.lowest s.pending s.user ∙ (rw s.no_handler refl) in
    rw (e, s.frozen, s.alive) refl

-- What `sys_kill` makes of the process, whatever it answers.
abbrev pub or_same : Signals → Option Signals → Signals
or_same p none = p
or_same p (some q) = q

abbrev pub send_all : Signals → List ℕ → Signals
send_all p [] = p
send_all p (signum ∷ l) = send_all (or_same p (sys_kill (some p) signum).0) l

abbrev pub AllAbove : ℕ → List ℕ → Type 0
AllAbove sig [] = Unit
AllAbove sig (signum ∷ l) = (sig < signum % 32) × AllAbove sig l

with_signal-deliverable :
    (p : Signals) (s i : ℕ)
    → i < s
    → deliverable (record p { signals = with_signal p.signals s }) i ≡ deliverable p i
unfolding deliverable masked
with_signal-deliverable p s i h = let e : (i == s) ≡ false = ground arith in rw e refl

Stuck-kill :
    (p : Signals) (sig signum : ℕ)
    → Stuck sig p
    → sig < signum % 32
    → Stuck sig (or_same p (sys_kill (some p) signum).0)
unfolding sys_kill
Stuck-kill p sig signum s h = elim (Bool-cases (p.signals (signum % 32))) [
  | inl a ↦ rw a s
  | inr a ↦ rw a (record {
    frozen = s.frozen;
    alive = s.alive;
    range = s.range;
    lowest = λ i l. with_signal-deliverable p (signum % 32) i (omega (arith, h, l)) ∙ s.lowest i l;
    pending = with_signal-deliverable p (signum % 32) sig h ∙ s.pending;
    user = s.user;
    no_handler = s.no_handler;
  })
]

-- A frozen process whose least deliverable signal is one for the user without a handler waits in
-- `handle_signals` for ever: a round changes nothing and goes on, and so it does after any number of
-- signals above that one are sent to the process, SIGCONT and SIGKILL among them.
pub frozen_for_ever :
    (l : List ℕ) (p : Signals) (sig : ℕ)
    → Stuck sig p
    → AllAbove sig l
    → handle_round (send_all p l) ≡ (send_all p l, true)
frozen_for_ever [] p sig s h = Stuck-round p sig s
frozen_for_ever (signum ∷ l) p sig s h =
    frozen_for_ever l (or_same p (sys_kill (some p) signum).0) sig (Stuck-kill p sig signum s h.0)
      h.1
