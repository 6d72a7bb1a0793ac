-- ===== src/Trap.antt =====
-- os/src/trap/mod.rs: the timer interrupt.
pub mod Slices
use nimloth_os.Prelude.{
  ℕ, ◌+◌, ◌-◌, ◌%◌, ◌^◌, Option, none, some, leb, ltb, if◌then◌else◌, Outcome, done, unwrap, ◌>>=◌,
}
use nimloth_os.Process.Manager.{mlfq_queue_count, get_time_slice}
use nimloth_os.Process.Kernel.{
  Kernel, Pcb, update, take_current_process, add_process_with_priority,
  suspend_current_and_run_next,
}

abbrev pub demoted : ℕ → ℕ
demoted current_priority =
    if ltb current_priority (mlfq_queue_count - 1) then current_priority + 1 else current_priority

abbrev pub charge : Pcb → Pcb
charge pcb = record pcb { time_slice_used = (pcb.time_slice_used + 1) % 2 ^ 64 }

abbrev pub demote : ℕ → Pcb → Pcb
demote limit pcb = record pcb {
  priority = demoted pcb.priority;
  time_slice_used = 0;
  time_slice_limit = limit;
}

-- `if let Some(process) = take_current_process() { add_process_with_priority(…) }`
unfoldable pub requeue : Kernel → ℕ → Outcome Kernel
unfolding take_current_process
requeue k priority =
    let (taken, k') = take_current_process k in
    elim taken [ none ↦ done k' | some process ↦ add_process_with_priority k' process priority ]

-- The accounting of the branch, for the current process.
unfoldable pub account : Kernel → ℕ → Outcome Kernel
unfolding requeue
account k process =
    let charged = record k { pcb = update k.pcb process (charge (k.pcb process)) } in
    let pcb = charged.pcb process in
    if leb pcb.time_slice_limit pcb.time_slice_used
    then (do
      limit ← get_time_slice k.manager (demoted pcb.priority)
      requeue (record charged { pcb = update charged.pcb process (demote limit pcb) })
          (demoted pcb.priority))
    else done charged

unfoldable pub account_current : Kernel → Option ℕ → Outcome Kernel
unfolding account
account_current k none = done k
account_current k (some process) = account k process

-- The branch of `trap_handler` for the supervisor timer, after `next_trigger`.
unfoldable pub timer_interrupt : Kernel → Outcome Kernel
unfolding account_current
timer_interrupt k = account_current k k.current >>= suspend_current_and_run_next
