-- ===== src/Process/Signal/Handlers.antt =====
-- From the start of a handler to `sys_sigreturn`.
use nimloth_os.Prelude.{ℕ, ◌≡◌, refl, none, some, done, panic, ◌∙◌}
use nimloth_os.Process.Signal.{Signals, TrapContext, check_pending_signals, sys_sigreturn}
use nimloth_os.Process.Signal.Delivery.{Checked, quiet, entered, check_pending_signals-Checked}

-- The result of `sys_sigreturn` in `p'`, with the registers at `ctx`, for a process that was `p`.
pub record Returns (p p' : Signals) (ctx : TrapContext) : Type 0 where
  pub one_started :
      (sig : ℕ)
      → p'.handling_sig ≡ some sig
      → sys_sigreturn (record p' { trap_ctx = ctx })
        ≡ done (record p' { handling_sig = none; trap_ctx = p.trap_ctx }, p.trap_ctx.x 10)
  pub never_started :
      p'.handling_sig ≡ none
      → p.trap_ctx_backup ≡ none
      → sys_sigreturn (record p' { trap_ctx = ctx }) ≡ panic
  pub old_started :
      (stale : TrapContext)
      → p'.handling_sig ≡ none
      → p.trap_ctx_backup ≡ some stale
      → sys_sigreturn (record p' { trap_ctx = ctx })
        ≡ done (record p' { handling_sig = none; trap_ctx = stale }, stale.x 10)

Checked-Returns :
    {p p' : Signals} (ctx : TrapContext) → p.handling_sig ≡ none → Checked p p' → Returns p p' ctx
unfolding sys_sigreturn
Checked-Returns ctx h (quiet q) = record {
  one_started = λ sig e. cc (e, q.handling_sig, h);
  never_started = λ e b. rw (q.trap_ctx_backup ∙ b) refl;
  old_started = λ stale e b. rw (q.trap_ctx_backup ∙ b) refl;
}
Checked-Returns ctx h (entered sig s l k d n) = record {
  one_started = λ t e. rw (s.saved) refl;
  never_started = λ e b. cc (e, s.handling);
  old_started = λ stale e b. cc (e, s.handling);
}

-- Whatever a handler does to the registers, and whether or not handlers have run before: after
-- `check_pending_signals` has started a handler in a process that ran none, `sys_sigreturn` brings
-- back the registers that it interrupted and returns their `a0`. Where it has started none,
-- `sys_sigreturn` panics in a process that never had a handler started, and in any other process
-- jumps back to the registers that the last handler interrupted.
pub sys_sigreturn-check :
    (p : Signals) (ctx : TrapContext)
    → p.handling_sig ≡ none
    → Returns p (check_pending_signals p) ctx
sys_sigreturn-check p ctx h = Checked-Returns ctx h (check_pending_signals-Checked p)
