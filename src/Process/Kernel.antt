-- ===== src/Process/Kernel.antt =====
-- os/src/process: the table of processes and what the kernel does with the current one
-- (manager.rs, processor.rs, process.rs, mod.rs, and the system calls that create and reap).
-- A process is named by its pid. An operation that ends in `schedule` returns the state in which the
-- idle loop of `run_process` goes on.
pub mod Sound
pub mod Dispatch
pub mod Orphans
pub mod Zombies
pub mod Fork
pub mod Reap
pub mod Runs
use nimloth_os.Prelude.{
  ℕ, zero, suc, ◌+◌, ◌-◌, ◌%◌, ◌^◌, ◌<◌, Bool, true, false, not, ◌&&◌, ◌||◌, Option, none, some,
  List, [], ◌∷◌, ◌++◌, ◌==◌, leb, ltb, if◌then◌else◌, count, contains, erase, Outcome, done, panic,
  assert, unwrap, ◌>>=◌, ◌>>◌,
}
use nimloth_os.Process.Pid
use nimloth_os.Process.Pid.{PidAllocator}
use nimloth_os.Process.Manager
use nimloth_os.Process.Manager.{ProcessManager, fetch, get_time_slice, mlfq_base_time_slice}
use nimloth_os.Process.Manager.Order.{ready_list}
use nimloth_os.Mm.PageTable.{PageTable}
use nimloth_os.Mm.UserMemory.{translated_refmut}

pub data ProcessStatus : Type 0 where
  ready running zombie : ProcessStatus

-- The scheduling part of `ProcessControlBlockInner`. `exit_code` is the pattern of an `i32`.
pub record Pcb : Type 0 where
  pub process_status : ProcessStatus
  pub parent : Option ℕ
  pub children : List ℕ
  pub exit_code : ℕ
  pub priority : ℕ
  pub time_slice_used : ℕ
  pub time_slice_limit : ℕ

-- The globals `PID_ALLOCATOR`, `PROCESS_MANAGER`, the keys of `PID2PCB`, the `current` of
-- `PROCESSOR`, and the process that each pid names.
pub record Kernel : Type 0 where
  pub pids : PidAllocator
  pub manager : ProcessManager
  pub pid2pcb : List ℕ
  pub current : Option ℕ
  pub pcb : ℕ → Pcb

abbrev pub update : (ℕ → Pcb) → ℕ → Pcb → ℕ → Pcb
update f p v q = if p == q then v else f q

-- `BTreeMap::insert` of a key.
unfoldable pub insert_key : ℕ → List ℕ → List ℕ
insert_key p keys = if contains keys p then keys else p ∷ keys

unfoldable pub add_process_with_priority : Kernel → ℕ → ℕ → Outcome Kernel
unfolding insert_key
add_process_with_priority k process priority = do
  manager ← Manager.add k.manager process priority
  done (record k { pid2pcb = insert_key process k.pid2pcb; manager = manager })

unfoldable pub add_process : Kernel → ℕ → Outcome Kernel
unfolding add_process_with_priority
add_process k process = add_process_with_priority k process 0

unfoldable pub remove_from_pid2process : Kernel → ℕ → Outcome Kernel
remove_from_pid2process k pid = do
  assert (contains k.pid2pcb pid)
  done (record k { pid2pcb = erase pid k.pid2pcb })

unfoldable pub take_current_process : Kernel → Option ℕ × Kernel
take_current_process k = (k.current, record k { current = none })

abbrev pub set_status : ProcessStatus → Pcb → Pcb
set_status s pcb = record pcb { process_status = s }

unfoldable pub suspend_current_and_run_next : Kernel → Outcome Kernel
unfolding take_current_process add_process
suspend_current_and_run_next k =
    let (taken, k') = take_current_process k in
    do
      process ← unwrap taken
      add_process (record k' { pcb = update k'.pcb process (set_status ready (k'.pcb process)) })
          process

-- One round of the loop of `run_process`.
unfoldable pub run_process : Kernel → Kernel
run_process k =
    let (found, manager) = fetch k.manager in
    elim found [
      | none ↦ record k { manager = manager }
      | some process ↦ record k {
        manager = manager;
        current = some process;
        pcb = update k.pcb process (set_status running (k.pcb process));
      }
    ]

-- `INITPROC` is the first process that is created, so it has the first pid.
abbrev pub idle_pid : ℕ
idle_pid = 0

-- How `exit_current_and_run_next` ends: the idle loop goes on, or the machine is shut down.
pub data Exit : Type 0 where
  switched : Kernel → Exit
  shut_down : Bool → Exit

-- The loop that hands the children of an exiting process to `INITPROC`.
unfoldable pub adopt : List ℕ → (ℕ → Pcb) → ℕ → Pcb
adopt [] pcb = pcb
adopt (child ∷ children) pcb =
    let moved = update pcb child (record (pcb child) { parent = some idle_pid }) in
    adopt children (
      update moved idle_pid
        (record (moved idle_pid) { children = (moved idle_pid).children ++ (child ∷ []) }))

abbrev pub bury : ℕ → Pcb → Pcb
bury exit_code pcb = record pcb { process_status = zombie; exit_code = exit_code }

abbrev pub without_children : Pcb → Pcb
without_children pcb = record pcb { children = [] }

unfoldable pub exit_current_and_run_next : Kernel → ℕ → Outcome Exit
unfolding take_current_process remove_from_pid2process
exit_current_and_run_next k exit_code =
    let (taken, k1) = take_current_process k in
    do
      process ← unwrap taken
      if process == idle_pid then done (shut_down (not (exit_code == 0))) else do
        k2 ← remove_from_pid2process k1 process
        let dead = update k2.pcb process (bury exit_code (k2.pcb process))
        let adopted = adopt (dead process).children dead
        done (
            switched
              (record k2 { pcb = update adopted process (without_children (adopted process)) }))

-- `ProcessControlBlock::fork` for the fields above, and `sys_fork`, which returns the new pid.
abbrev pub forked : ℕ → Pcb → Pcb
forked parent pcb = record {
  process_status = ready;
  parent = some parent;
  children = [];
  exit_code = 0;
  priority = pcb.priority;
  time_slice_used = 0;
  time_slice_limit = pcb.time_slice_limit;
}

abbrev pub with_child : ℕ → Pcb → Pcb
with_child child pcb = record pcb { children = pcb.children ++ (child ∷ []) }

unfoldable pub fork : Kernel → ℕ → ℕ × Kernel
fork k parent =
    let (pid, pids) = Pid.alloc k.pids in
    let born = update k.pcb pid (forked parent (k.pcb parent)) in
    (pid, record k { pids = pids; pcb = update born parent (with_child pid (born parent)) })

unfoldable pub sys_fork : Kernel → Outcome (ℕ × Kernel)
unfolding fork add_process
sys_fork k = do
  current_process ← unwrap k.current
  let forked_kernel = fork k current_process
  k' ← add_process forked_kernel.1 forked_kernel.0
  done (forked_kernel.0, k')

-- The argument of `sys_waitpid` as a `usize`: -1, or a pid.
abbrev pub matches : ℕ → ℕ → Bool
matches pid child = (pid == 2 ^ 64 - 1) || (pid == child)

abbrev pub is_zombie : Pcb → Bool
is_zombie pcb = elim pcb.process_status [ zombie ↦ true | _ ↦ false ]

unfoldable pub any_match : ℕ → List ℕ → Bool
any_match pid [] = false
any_match pid (child ∷ children) = if matches pid child then true else any_match pid children

-- The first child that is a zombie and matches, and the children without it.
unfoldable pub find_zombie : (ℕ → Pcb) → ℕ → List ℕ → Option (ℕ × List ℕ)
find_zombie pcb pid [] = none
find_zombie pcb pid (child ∷ children) =
    let rest = find_zombie pcb pid children in
    if is_zombie (pcb child) && matches pid child
    then some (child, children)
    else elim rest [ none ↦ none | some (found, others) ↦ some (found, child ∷ others) ]

-- The strong references to a process that the kernel holds: from the ready queues, the processor,
-- the table of pids, and the children of the processes with a pid below `n`.
unfoldable pub children_refs : (ℕ → Pcb) → ℕ → ℕ → ℕ
children_refs pcb zero x = 0
children_refs pcb (suc n) x = children_refs pcb n x + count x (pcb n).children

abbrev pub is_current : Option ℕ → ℕ → ℕ
is_current none x = 0
is_current (some p) x = if p == x then 1 else 0

unfoldable pub kernel_refs : Kernel → ℕ → ℕ
unfolding children_refs
kernel_refs k x =
    count x (ready_list k.manager)
    + is_current k.current x
    + count x k.pid2pcb
    + children_refs k.pcb k.pids.current x

-- -1, -2, or the pid of the child, with its exit code and the physical address that this is written
-- to.
pub data Wait : Type 0 where
  no_child pending : Wait
  reaped : ℕ → ℕ → ℕ → Wait

-- The rest of `sys_waitpid` works in the address space of the page table. From the removal of the
-- child on: the removed child is one strong reference, and is dropped at the end, which gives its pid
-- back.
unfoldable pub reap : Kernel → PageTable → ℕ → ℕ → ℕ × List ℕ → Outcome (Wait × Kernel)
reap k t exit_code_ptr process (child, others) = do
  let removed = record k {
    pcb = update k.pcb process (record (k.pcb process) { children = others });
  }
  assert (1 + kernel_refs removed child == 1)
  pa ← translated_refmut t exit_code_ptr
  pids ← Pid.dealloc k.pids child
  done (reaped child (k.pcb child).exit_code pa, record removed { pids = pids })

unfoldable pub wait_for : Kernel → PageTable → ℕ → ℕ → ℕ → Outcome (Wait × Kernel)
unfolding reap
wait_for k t pid exit_code_ptr process =
    let children = (k.pcb process).children in
    if not (any_match pid children)
    then done (no_child, k)
    else elim (find_zombie k.pcb pid children) [
      | none ↦ done (pending, k)
      | some found ↦ reap k t exit_code_ptr process found
    ]

unfoldable pub sys_waitpid : Kernel → PageTable → ℕ → ℕ → Outcome (Wait × Kernel)
unfolding wait_for
sys_waitpid k t pid exit_code_ptr = unwrap k.current >>= wait_for k t pid exit_code_ptr

-- `ProcessControlBlock::new` for the fields above, and `add_initproc` on the initial globals.
abbrev pub new_pcb : Pcb
new_pcb = record {
  process_status = ready;
  parent = none;
  children = [];
  exit_code = 0;
  priority = 0;
  time_slice_used = 0;
  time_slice_limit = mlfq_base_time_slice;
}

unfoldable pub add_initproc : Outcome Kernel
unfolding add_process
add_initproc =
    let (pid, pids) = Pid.alloc Pid.new in
    add_process
      (record {
        pids = pids;
        manager = Manager.new;
        pid2pcb = [];
        current = none;
        pcb = λ _. new_pcb;
      })
      pid
