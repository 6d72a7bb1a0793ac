-- ===== src/Process/Pid/Stacks.antt =====
-- Kernel stacks of different processes do not overlap.
use nimloth_os.Prelude.{ℕ, ◌+◌, ◌^◌, ◌≤◌, ◌<◌, ◌≡◌, ◌≢◌, ◌⊎◌, arith}
use nimloth_os.Mm.Address.{page_size}
use nimloth_os.Process.Pid.{kernel_stack_position, kernel_stack_size, trampoline}

-- For pids below 2^24: the stack is `kernel_stack_size` bytes below the trampoline, and the stacks of
-- two different pids are separated by at least one page that belongs to neither.
pub kernel_stacks_apart :
    (p q : ℕ)
    → p < 2 ^ 24
    → q < 2 ^ 24
    → p ≢ q
    → let (bottom_p, top_p) = kernel_stack_position p in
      let (bottom_q, top_q) = kernel_stack_position q in
      (bottom_p + kernel_stack_size ≡ top_p)
      × (top_p ≤ trampoline)
      × ((top_p + page_size ≤ bottom_q) ⊎ (top_q + page_size ≤ bottom_p))
unfolding kernel_stack_position
kernel_stacks_apart p q hp hq ne = omega arith
