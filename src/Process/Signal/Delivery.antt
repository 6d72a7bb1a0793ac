-- ===== src/Process/Signal/Delivery.antt =====
-- What `check_pending_signals` may do.
use nimloth_os.Prelude.{
  ℕ, zero, suc, ◌+◌, ◌≡◌, ◌≢◌, ◌≤◌, refl, inl, inr, Bool, Bool-cases, true, false, not, ◌&&◌, none,
  some, ◌==◌, if◌then◌else◌, arith, ◌∙◌, sym, ap, ==_refl,
}
use nimloth_os.Process.Signal.{
  SignalAction, TrapContext, Signals, masked, by_kernel, pending_step, pending_loop,
  check_pending_signals, call_kernel_signal_handler, call_user_signal_handler, enter_handler,
  max_sig, sigstop, sigcont,
}

-- A signal that is pending and held back neither by the mask of the process nor by the running
-- handler.
unfoldable pub deliverable : Signals → ℕ → Bool
unfolding masked
deliverable p sig = p.signals sig && not (p.signal_mask sig) && not (masked p sig)

-- The parts that only a handler changes, and the signals that only a handler takes.
pub record Quiet (p p' : Signals) : Type 0 where
  pub signal_mask : p'.signal_mask ≡ p.signal_mask
  pub signal_actions : p'.signal_actions ≡ p.signal_actions
  pub handling_sig : p'.handling_sig ≡ p.handling_sig
  pub trap_ctx : p'.trap_ctx ≡ p.trap_ctx
  pub trap_ctx_backup : p'.trap_ctx_backup ≡ p.trap_ctx_backup
  pub user_signals : (i : ℕ) → by_kernel i ≡ false → p'.signals i ≡ p.signals i

-- A handler for `sig` starts in `p`: the interrupted registers are saved, the handler is entered with
-- the number in `a0` and all other registers as they were, and of the signals for users only `sig` is
-- taken.
pub record Started (p : Signals) (sig : ℕ) (p' : Signals) : Type 0 where
  pub handling : p'.handling_sig ≡ some sig
  pub saved : p'.trap_ctx_backup ≡ some p.trap_ctx
  pub entry : p'.trap_ctx.sepc ≡ (p.signal_actions sig).handler
  pub argument : p'.trap_ctx.x 10 ≡ sig
  pub registers : (i : ℕ) → i ≢ 10 → p'.trap_ctx.x i ≡ p.trap_ctx.x i
  pub taken : p'.signals sig ≡ false
  pub others : (i : ℕ) → by_kernel i ≡ false → i ≢ sig → p'.signals i ≡ p.signals i
  pub signal_mask : p'.signal_mask ≡ p.signal_mask
  pub signal_actions : p'.signal_actions ≡ p.signal_actions

-- Either no handler starts, or exactly one does.
pub data Checked (p : Signals) : Signals → Type 0 where
  quiet : {p' : Signals} → Quiet p p' → Checked p p'
  entered :
      {p' : Signals} (sig : ℕ)
      → Started p sig p'
      → sig ≤ max_sig
      → by_kernel sig ≡ false
      → deliverable p sig ≡ true
      → (p.signal_actions sig).handler ≢ 0
      → Checked p p'

same : (p : Signals) → Quiet p p
same p = record {
  signal_mask = refl;
  signal_actions = refl;
  handling_sig = refl;
  trap_ctx = refl;
  trap_ctx_backup = refl;
  user_signals = λ i h. refl;
}

kernel-Quiet : (p : Signals) (sig : ℕ) → Quiet p (call_kernel_signal_handler p sig)
unfolding call_kernel_signal_handler
kernel-Quiet p sig = elim (Bool-cases (sig == sigstop)) [
  | inl a ↦ rw a (record {
    signal_mask = refl;
    signal_actions = refl;
    handling_sig = refl;
    trap_ctx = refl;
    trap_ctx_backup = refl;
    user_signals = λ i h. ground arith;
  })
  | inr a ↦ elim (Bool-cases (sig == sigcont)) [
    | inl b ↦ elim (Bool-cases (p.signals sigcont)) [
      | inl c ↦
          rw (a, b, c)
            (record {
              signal_mask = refl;
              signal_actions = refl;
              handling_sig = refl;
              trap_ctx = refl;
              trap_ctx_backup = refl;
              user_signals = λ i h. ground arith;
            })
      | inr c ↦ rw (a, b, c) (same p)
    ]
    | inr b ↦
        rw (a, b)
          (record {
            signal_mask = refl;
            signal_actions = refl;
            handling_sig = refl;
            trap_ctx = refl;
            trap_ctx_backup = refl;
            user_signals = λ i h. refl;
          })
  ]
]

Quiet-trans : {p q r : Signals} → Quiet p q → Quiet q r → Quiet p r
Quiet-trans a b = record {
  signal_mask = b.signal_mask ∙ a.signal_mask;
  signal_actions = b.signal_actions ∙ a.signal_actions;
  handling_sig = b.handling_sig ∙ a.handling_sig;
  trap_ctx = b.trap_ctx ∙ a.trap_ctx;
  trap_ctx_backup = b.trap_ctx_backup ∙ a.trap_ctx_backup;
  user_signals = λ i h. b.user_signals i h ∙ a.user_signals i h;
}

Quiet-masked : {p q : Signals} (sig : ℕ) → Quiet p q → masked q sig ≡ masked p sig
unfolding masked
Quiet-masked {p} {q} sig h = λ i. elim (h.handling_sig i) [
  | none ↦ false
  | some handling ↦ (h.signal_actions i handling).mask sig
]

Quiet-deliverable :
    {p q : Signals} (sig : ℕ)
    → Quiet p q
    → by_kernel sig ≡ false
    → deliverable q sig ≡ deliverable p sig
unfolding deliverable
Quiet-deliverable sig h k = rw (h.user_signals sig k, h.signal_mask, Quiet-masked sig h) refl

Started-trans : {p q r : Signals} (sig : ℕ) → Quiet p q → Started q sig r → Started p sig r
Started-trans sig h g = record {
  handling = g.handling;
  saved = g.saved ∙ ap some h.trap_ctx;
  entry = g.entry ∙ ap (λ (f : ℕ → SignalAction). (f sig).handler) h.signal_actions;
  argument = g.argument;
  registers = λ i n. g.registers i n ∙ ap (λ (c : TrapContext). c.x i) h.trap_ctx;
  taken = g.taken;
  others = λ i k n. g.others i k n ∙ h.user_signals i k;
  signal_mask = g.signal_mask ∙ h.signal_mask;
  signal_actions = g.signal_actions ∙ h.signal_actions;
}

enter_handler-Started :
    (p : Signals) (sig : ℕ) → deliverable p sig ≡ true → Started p sig (enter_handler p sig)
unfolding deliverable
enter_handler-Started p sig d =
    let is_pending : p.signals sig ≡ true = ground (arith, d) in
    record {
      handling = refl;
      saved = refl;
      entry = refl;
      argument = refl;
      registers = λ i n. ground arith;
      taken = rw (==_refl sig, is_pending) refl;
      others = λ i k n. ground arith;
      signal_mask = refl;
      signal_actions = refl;
    }

Checked-trans : {p q r : Signals} → Quiet p q → Checked q r → Checked p r
Checked-trans h (quiet g) = quiet (Quiet-trans h g)
Checked-trans h (entered sig g l k d n) =
    entered sig (Started-trans sig h g) l k (sym (Quiet-deliverable sig h k) ∙ d)
      λ e. n (rw h.signal_actions e)

-- What one round of the loop does.
data Stepped (p : Signals) (sig : ℕ) : Signals × Bool → Type 0 where
  on : {q : Signals} → Quiet p q → Stepped p sig (q, false)
  left : Stepped p sig (p, true)
  started :
      by_kernel sig ≡ false
      → deliverable p sig ≡ true
      → (p.signal_actions sig).handler ≢ 0
      → Stepped p sig (enter_handler p sig, true)

pending_step-Stepped : (p : Signals) (sig : ℕ) → Stepped p sig (pending_step p sig)
unfolding pending_step call_user_signal_handler deliverable
pending_step-Stepped p sig = elim (Bool-cases (p.signals sig && not (p.signal_mask sig))) [
  | inr a ↦ rw a (on (same p))
  | inl a ↦ elim (Bool-cases (masked p sig)) [
    | inl b ↦ rw (a, b) (on (same p))
    | inr b ↦ elim (Bool-cases (by_kernel sig)) [
      | inl c ↦ rw (a, b, c) (on (kernel-Quiet p sig))
      | inr c ↦ elim (Bool-cases ((p.signal_actions sig).handler == 0)) [
        | inl d ↦ rw (a, b, c, d) left
        | inr d ↦ rw (a, b, c, d) (started c (ground arith) (ground arith))
      ]
    ]
  ]
]

pending_loop-Checked :
    (n sig : ℕ) (p : Signals) → sig + n ≤ max_sig + 1 → Checked p (pending_loop n sig p)
unfolding pending_loop
pending_loop-Checked zero sig p h = quiet (same p)
pending_loop-Checked (suc n) sig p h =
    go (pending_step p sig) (pending_step-Stepped p sig)
      (pending_loop-Checked n (sig + 1) (pending_step p sig).0 (omega (arith, h)))
  where
    go :
        (r : Signals × Bool)
        → Stepped p sig r
        → Checked r.0 (pending_loop n (sig + 1) r.0)
        → Checked p (let rest = pending_loop n (sig + 1) r.0 in if r.1 then r.0 else rest)
    go r (on g) ih = Checked-trans g ih
    go r left ih = quiet (same p)
    go r (started k d e) ih = entered sig (enter_handler-Started p sig d) (omega (arith, h)) k d e

-- `check_pending_signals` either starts no handler, and then leaves the registers, the saved
-- registers, the masks, the running handler and all signals that users may handle alone, or starts
-- exactly one: for a signal that was pending and held back neither by the mask nor by the running
-- handler, and that has a handler, with its number in `a0`, every other register as it was, the
-- interrupted registers saved, and of the signals for users only that one taken from the set.
pub check_pending_signals-Checked : (p : Signals) → Checked p (check_pending_signals p)
unfolding check_pending_signals
check_pending_signals-Checked p = pending_loop-Checked (max_sig + 1) 0 p (omega arith)
