-- ===== src/Process/Signal.antt =====
-- os/src/process/signal.rs, the signal part of os/src/process/mod.rs, and the system calls on signals
-- of os/src/syscall/process.rs. A set of signals, which the `bitflags` crate keeps as the bits of a
-- `u32`, is the test of its 32 bits; every bit names a signal, so `from_bits` accepts every pattern.
pub mod Delivery
pub mod Starving
pub mod Handlers
pub mod Sending
use nimloth_os.Prelude.{
  ℕ, zero, suc, ◌+◌, ◌-◌, ◌%◌, ◌/◌, ◌*◌, leb, ◌^◌, Bool, true, false, not, ◌&&◌, ◌||◌, Option, none,
  some, ◌==◌, ltb, if◌then◌else◌, Outcome, done, panic, unwrap, ◌>>=◌,
}
use nimloth_os.Mm.PageTable.{PageTable}
use nimloth_os.Mm.UserMemory.{translated_refmut}

abbrev pub max_sig : ℕ
max_sig = 31

abbrev pub SignalFlags : Type 0
SignalFlags = ℕ → Bool

abbrev pub sigdef : ℕ
sigdef = 0

abbrev pub sigkill : ℕ
sigkill = 9

abbrev pub sigcont : ℕ
sigcont = 18

abbrev pub sigstop : ℕ
sigstop = 19

-- `|=` and `^=` with the flag of one signal.
abbrev pub with_signal : SignalFlags → ℕ → SignalFlags
with_signal s sig i = if i == sig then true else s i

abbrev pub toggle : SignalFlags → ℕ → SignalFlags
toggle s sig i = if i == sig then not (s i) else s i

-- `check_error`: the exit code as the pattern of an `i32`, without the text for the console.
unfoldable pub check_error : SignalFlags → Option ℕ
check_error s =
    if s 2
    then some (2 ^ 32 - 2)
    else if s 4
    then some (2 ^ 32 - 4)
    else if s 6
    then some (2 ^ 32 - 6)
    else if s 8
    then some (2 ^ 32 - 8)
    else if s 9
    then some (2 ^ 32 - 9)
    else if s 11
    then some (2 ^ 32 - 11)
    else none

pub record SignalAction : Type 0 where
  pub handler : ℕ
  pub mask : SignalFlags

-- The default mask is `from_bits(40)`, the signals 3 and 5.
abbrev pub default_action : SignalAction
default_action = record { handler = 0; mask = λ i. (i == 3) || (i == 5) }

-- The registers of a `TrapContext` that change under a signal.
pub record TrapContext : Type 0 where
  pub x : ℕ → ℕ
  pub sepc : ℕ

-- The signal part of `ProcessControlBlockInner`; `handling_sig` is `none` for -1.
pub record Signals : Type 0 where
  pub signals : SignalFlags
  pub signal_mask : SignalFlags
  pub handling_sig : Option ℕ
  pub signal_actions : ℕ → SignalAction
  pub killed : Bool
  pub frozen : Bool
  pub trap_ctx : TrapContext
  pub trap_ctx_backup : Option TrapContext

unfoldable pub current_add_signal : Signals → ℕ → Signals
current_add_signal p signal = record p { signals = with_signal p.signals signal }

-- `check_signals_error_of_current`: the empty set has no error.
unfoldable pub check_signals_error_of_current : Signals → Option ℕ
unfolding check_error
check_signals_error_of_current p = check_error p.signals

unfoldable pub call_kernel_signal_handler : Signals → ℕ → Signals
call_kernel_signal_handler p signal =
    if signal == sigstop
    then record p { frozen = true; signals = toggle p.signals sigstop }
    else if signal == sigcont
    then if p.signals sigcont
      then record p { signals = toggle p.signals sigcont; frozen = false }
      else p
    else record p { killed = true }

abbrev pub enter_handler : Signals → ℕ → Signals
enter_handler p sig = record p {
  handling_sig = some sig;
  signals = toggle p.signals sig;
  trap_ctx_backup = some p.trap_ctx;
  trap_ctx = record {
    x = λ i. if i == 10 then sig else p.trap_ctx.x i;
    sepc = (p.signal_actions sig).handler;
  };
}

unfoldable pub call_user_signal_handler : Signals → ℕ → Signals
call_user_signal_handler p sig =
    if (p.signal_actions sig).handler == 0 then p else enter_handler p sig

-- The local `masked` of `check_pending_signals`.
unfoldable pub masked : Signals → ℕ → Bool
masked p sig = elim p.handling_sig [
  | none ↦ false
  | some handling ↦ (p.signal_actions handling).mask sig
]

abbrev pub by_kernel : ℕ → Bool
by_kernel sig = (sig == sigkill) || (sig == sigstop) || (sig == sigcont) || (sig == sigdef)

-- One round of the loop, with the answer whether it returns.
unfoldable pub pending_step : Signals → ℕ → Signals × Bool
unfolding masked call_kernel_signal_handler call_user_signal_handler
pending_step p sig =
    if p.signals sig && not (p.signal_mask sig)
    then if masked p sig
      then (p, false)
      else if by_kernel sig
      then (call_kernel_signal_handler p sig, false)
      else (call_user_signal_handler p sig, true)
    else (p, false)

-- The loop over the `n` signals from `sig` on.
unfoldable pub pending_loop : ℕ → ℕ → Signals → Signals
unfolding pending_step
pending_loop zero sig p = p
pending_loop (suc n) sig p =
    let rest = pending_loop n (sig + 1) (pending_step p sig).0 in
    if (pending_step p sig).1 then (pending_step p sig).0 else rest

unfoldable pub check_pending_signals : Signals → Signals
unfolding pending_loop
check_pending_signals p = pending_loop (max_sig + 1) 0 p

-- One round of `handle_signals`, with the answer whether the process waits for another round.
unfoldable pub handle_round : Signals → Signals × Bool
unfolding check_pending_signals
handle_round p = let p' = check_pending_signals p in (p', p'.frozen && not p'.killed)

-- The system calls. A `signum` is the pattern of an `i32`: as a `usize` it is above 31 exactly when the
-- pattern is, and `1 << signum` of the release build shifts by its low five bits.
unfoldable pub sys_sigprocmask : Signals → SignalFlags → Signals × SignalFlags
sys_sigprocmask p mask = (record p { signal_mask = mask }, p.signal_mask)

-- `sys_kill` on the process that `pid2process` finds, with the answer whether it returns 0.
unfoldable pub sys_kill : Option Signals → ℕ → Option Signals × Bool
sys_kill none signum = (none, false)
sys_kill (some p) signum =
    if p.signals (signum % 32)
    then (some p, false)
    else (some (record p { signals = with_signal p.signals (signum % 32) }), true)

unfoldable pub check_sigaction_error : ℕ → ℕ → ℕ → Bool
check_sigaction_error signal action old_action =
    (action == 0) || (old_action == 0) || (signal == sigkill) || (signal == sigstop)

-- The memory layout of a `SignalAction`: the handler in eight bytes and the mask in four, the least
-- first. The four bytes of padding behind them are left alone.
abbrev flag_bit : Bool → ℕ
flag_bit b = if b then 1 else 0

abbrev mask_byte : SignalFlags → ℕ → ℕ
mask_byte m i =
    flag_bit (m i)
    + 2 * flag_bit (m (i + 1))
    + 4 * flag_bit (m (i + 2))
    + 8 * flag_bit (m (i + 3))
    + 16 * flag_bit (m (i + 4))
    + 32 * flag_bit (m (i + 5))
    + 64 * flag_bit (m (i + 6))
    + 128 * flag_bit (m (i + 7))

abbrev action_byte : SignalAction → ℕ → ℕ
action_byte a k = if ltb k 8 then a.handler / 2 ^ (8 * k) % 256 else mask_byte a.mask (8 * (k - 8))

-- The byte at each physical address.
abbrev pub Memory : Type 0
Memory = ℕ → ℕ

unfoldable pub write_action : Memory → ℕ → SignalAction → Memory
write_action memory pa a k =
    if leb pa k && ltb k (pa + 12) then action_byte a (k - pa) else memory k

unfoldable pub read_action : Memory → ℕ → SignalAction
read_action memory pa = record {
  handler =
      memory pa
      + 2 ^ 8 * memory (pa + 1)
      + 2 ^ 16 * memory (pa + 2)
      + 2 ^ 24 * memory (pa + 3)
      + 2 ^ 32 * memory (pa + 4)
      + 2 ^ 40 * memory (pa + 5)
      + 2 ^ 48 * memory (pa + 6)
      + 2 ^ 56 * memory (pa + 7);
  mask = λ i. ltb i 32 && (memory (pa + 8 + i / 8 % 4) / 2 ^ (i % 8) % 2 == 1);
}

-- `sys_sigaction` in the address space of the page table, with the memory after it and the answer
-- whether it returns 0; a pointer that the table does not translate panics. The old action is written
-- before the new one is read.
unfoldable pub sys_sigaction :
    PageTable → Memory → Signals → ℕ → ℕ → ℕ → Outcome (Signals × Memory × Bool)
unfolding check_sigaction_error write_action read_action translated_refmut
sys_sigaction t memory p signum action old_action =
    if ltb max_sig signum
    then done (p, memory, false)
    else if check_sigaction_error (signum % 32) action old_action
    then done (p, memory, false)
    else do
      old_pa ← translated_refmut t old_action
      let memory' = write_action memory old_pa (p.signal_actions signum)
      new_pa ← translated_refmut t action
      let new = read_action memory' new_pa
      done (
        record p { signal_actions = λ i. if i == signum then new else p.signal_actions i },
        memory',
        true,
      )

-- `sys_sigreturn`, with the value that it returns.
unfoldable pub sys_sigreturn : Signals → Outcome (Signals × ℕ)
sys_sigreturn p = do
  trap_ctx ← unwrap p.trap_ctx_backup
  done (record p { handling_sig = none; trap_ctx = trap_ctx }, trap_ctx.x 10)
