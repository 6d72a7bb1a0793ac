-- ===== src/Process/Pid.antt =====
-- os/src/process/pid.rs: the pid allocator and the place of each process's kernel stack. The vector
-- `recycled` is a list with its last element first.
pub mod Ownership
pub mod Stacks
use nimloth_os.Prelude.{
  ℕ, ◌+◌, ◌-◌, ◌*◌, ◌%◌, ◌^◌, List, [], ◌∷◌, not, ltb, contains, Outcome, done, assert, ◌>>=◌, ◌>>◌,
}
use nimloth_os.Mm.Address.{page_size}

pub record PidAllocator : Type 0 where
  pub current : ℕ
  pub recycled : List ℕ

abbrev pub new : PidAllocator
new = record { current = 0; recycled = [] }

-- The number of the `PidHandle`. The counter is a `usize`.
unfoldable pub alloc : PidAllocator → ℕ × PidAllocator
alloc a = elim a.recycled [
  | pid ∷ rest ↦ (pid, record a { recycled = rest })
  | [] ↦
      let current' = (a.current + 1) % 2 ^ 64 in
      ((current' + (2 ^ 64 - 1)) % 2 ^ 64, record a { current = current' })
]

unfoldable pub dealloc : PidAllocator → ℕ → Outcome PidAllocator
dealloc a pid = do
  assert (ltb pid a.current)
  assert (not (contains a.recycled pid))
  done (record a { recycled = pid ∷ a.recycled })

abbrev pub kernel_stack_size : ℕ
kernel_stack_size = 4096 * 2

abbrev pub trampoline : ℕ
trampoline = 2 ^ 64 - 1 - page_size + 1

-- Subtraction of a `usize` wraps.
unfoldable pub kernel_stack_position : ℕ → ℕ × ℕ
kernel_stack_position app_id =
    let down = (kernel_stack_size + page_size) * app_id % 2 ^ 64 in
    let top = (trampoline + 2 ^ 64 - down) % 2 ^ 64 in
    let bottom = (top + 2 ^ 64 - kernel_stack_size) % 2 ^ 64 in (bottom, top)
