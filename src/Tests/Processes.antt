-- ===== src/Tests/Processes.antt =====
-- The process table: a root and one child.
use nimloth_os.Prelude.{
  ℕ, ◌<◌, ◌≤◌, ◌≡◌, ◌≢◌, refl, none, some, [], ◌∷◌, arith, ◌==◌, if◌then◌else◌, count, done, panic,
}
use nimloth_os.Process.Pid.{PidAllocator}
use nimloth_os.Process.Manager
use nimloth_os.Process.Manager.{ProcessManager, mlfq_base_time_slice}
use nimloth_os.Process.Manager.Order
use nimloth_os.Process.Manager.Order.{
  ready_list, flat, level, pop, fetch-pop, add_lem, get_time_slice_lem,
}
use nimloth_os.Process.Kernel.{
  Kernel, Pcb, ready, running, zombie, ProcessStatus, idle_pid, new_pcb, run_process, sys_waitpid,
}
use nimloth_os.Process.Kernel.Sound.{IsSound, scheduled, parent_of}
use nimloth_os.Process.Kernel.Reap.{WaitSpec, sys_waitpid-WaitSpec}
use nimloth_os.Process.Kernel.Runs.{booted, World, here, next, dispatch, no_process_lost}
use nimloth_os.Tests.Paging.{mapped}
use nimloth_os.Trap.{timer_interrupt}
use nimloth_os.Trap.Slices.{timer_in_slice, timer_slice_end-panic}

-- Process 1, in the given status, is the child of process 0.
abbrev family : ProcessStatus → ProcessStatus → ℕ → Pcb
family s0 s1 x =
    if x == 0
    then record new_pcb { process_status = s0; children = 1 ∷ [] }
    else if x == 1
    then record new_pcb { process_status = s1; parent = some 0; time_slice_used = 124999 }
    else new_pcb

abbrev two_pids : PidAllocator
two_pids = record { current = 2; recycled = [] }

abbrev waiting_root : ProcessManager
waiting_root = record Manager.new { ready_queues = (0 ∷ []) ∷ [] ∷ [] ∷ [] ∷ [] }

abbrev nobody : ProcessManager
nobody = record Manager.new { ready_queues = [] ∷ [] ∷ [] ∷ [] ∷ [] }

-- process 1 runs, and process 0 is ready
abbrev child_runs : Kernel
child_runs = record {
  pids = two_pids;
  manager = waiting_root;
  pid2pcb = 1 ∷ 0 ∷ [];
  current = some 1;
  pcb = family ready running;
}

-- process 0 runs, and process 1 is a zombie
abbrev child_dead : Kernel
child_dead = record {
  pids = two_pids;
  manager = nobody;
  pid2pcb = 0 ∷ [];
  current = some 0;
  pcb = family running zombie;
}

child_runs-IsSound : IsSound (0 ∷ 1 ∷ []) child_runs
unfolding count flat
child_runs-IsSound = record {
  pids = record { once = λ x. ground arith };
  manager = record { queues = refl; slices = refl; counted = unfold Manager.new in refl };
  once = λ x. ground arith;
  registered = λ x. ground arith;
  waiting = λ x h. ground arith;
  on_cpu = λ x h. ground arith;
  accounted = λ x h z. ground arith;
  alive = λ x h. ground arith;
  owned = λ x q h. ground arith;
  child_alive = λ x q h. ground arith;
  held = λ x h z. ground arith;
  rootless = λ q. ground arith;
  childless = λ x q z. ground arith;
  root_alive = omega arith;
  root_runs = cc;
}

child_dead-IsSound : IsSound (0 ∷ 1 ∷ []) child_dead
unfolding count flat
child_dead-IsSound = record {
  pids = record { once = λ x. ground arith };
  manager = record { queues = refl; slices = refl; counted = unfold Manager.new in refl };
  once = λ x. ground arith;
  registered = λ x. ground arith;
  waiting = λ x h. ground arith;
  on_cpu = λ x h. ground arith;
  accounted = λ x h z. ground arith;
  alive = λ x h. ground arith;
  owned = λ x q h. ground arith;
  child_alive = λ x q h. ground arith;
  held = λ x h z. ground arith;
  rootless = λ q. ground arith;
  childless = λ x q z. ground arith;
  root_alive = omega arith;
  root_runs = cc;
}

abbrev first_run : World
first_run = record { live = 0 ∷ []; kernel = run_process booted }

no_process_lost_example :
    ((first_run.kernel.pcb 0).process_status ≢ zombie → scheduled first_run.kernel 0 ≡ 1)
    × (scheduled first_run.kernel 0 ≤ 1)
    × (0 < count 0 (ready_list first_run.kernel.manager)
        → (first_run.kernel.pcb 0).process_status ≡ ready)
    × (first_run.kernel.current ≡ some 0 → (first_run.kernel.pcb 0).process_status ≡ running)
    × (0 ≢ idle_pid
        → count 0 (first_run.kernel.pcb (parent_of (first_run.kernel.pcb 0))).children ≡ 1)
no_process_lost_example =
    no_process_lost {w = first_run} 0 (next here (dispatch refl)) (unfold count in omega arith)

sys_waitpid-WaitSpec_example :
    WaitSpec (0 ∷ 1 ∷ []) child_dead mapped 0 1 20544 (sys_waitpid child_dead mapped 1 20544)
sys_waitpid-WaitSpec_example =
    sys_waitpid-WaitSpec (0 ∷ 1 ∷ []) child_dead mapped 0 1 20544 child_dead-IsSound refl

-- The child has used all but one tick of its slice.
timer_slice_end-panic_example : timer_interrupt child_runs ≡ panic
timer_slice_end-panic_example =
    timer_slice_end-panic (0 ∷ 1 ∷ []) child_runs 1 child_runs-IsSound refl (omega arith)

timer_in_slice_example :
    (k' : Kernel) × (timer_interrupt child_dead ≡ done k')
    × IsSound (0 ∷ 1 ∷ []) k'
    × (k'.current ≡ none)
    × (k'.manager.ready_queues ≡ (0 ∷ []) ∷ [] ∷ [] ∷ [] ∷ [])
    × ((k'.pcb 0).time_slice_used ≡ 1)
    × ((k'.pcb 0).process_status ≡ ready)
    × ((k'.pcb 0).priority ≡ 0)
    × ((k'.pcb 0).time_slice_limit ≡ mlfq_base_time_slice)
    × ((x : ℕ) → x ≢ 0 → k'.pcb x ≡ child_dead.pcb x)
timer_in_slice_example =
    timer_in_slice (0 ∷ 1 ∷ []) child_dead 0 child_dead-IsSound refl (omega arith)

abbrev three_ready : ProcessManager
three_ready = record Manager.new { ready_queues = [] ∷ (7 ∷ 8 ∷ []) ∷ [] ∷ (9 ∷ []) ∷ [] }

three_ready-IsValid : Order.IsValid three_ready
three_ready-IsValid = record { queues = refl; slices = refl; counted = unfold Manager.new in refl }

fetch_test : (Manager.fetch three_ready).0 ≡ some 7
unfolding Manager.fetch Manager.fetch_queues
fetch_test = refl
