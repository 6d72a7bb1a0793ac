-- ===== src/Process/Kernel/Sound.antt =====
-- The invariant of the process table.
use nimloth_os.Prelude.{
  ℕ, ◌+◌, ◌≤◌, ◌<◌, ◌≡◌, ◌≢◌, none, some, List, arith, ◌==◌, if◌then◌else◌, count, contains,
}
use nimloth_os.Process.Pid.Ownership
use nimloth_os.Process.Manager.Order
use nimloth_os.Process.Manager.Order.{ready_list}
use nimloth_os.Process.Kernel.{
  Kernel, Pcb, ready, running, zombie, insert_key, is_current, idle_pid,
}

-- how often a process stands where it can run: in the ready queues or on the processor
abbrev pub scheduled : Kernel → ℕ → ℕ
scheduled k x = count x (ready_list k.manager) + is_current k.current x

-- the pid of the parent; the root's is its own
abbrev pub parent_of : Pcb → ℕ
parent_of pcb = elim pcb.parent [ none ↦ idle_pid | some q ↦ q ]

-- `live` lists the pids whose `PidHandle` exists.
pub record IsSound (live : List ℕ) (k : Kernel) : Type 0 where
  pub pids : Ownership.IsValid live k.pids
  pub manager : Order.IsValid k.manager
  -- a process stands in one place at most, and there exactly while it is registered
  pub once : (x : ℕ) → scheduled k x ≤ 1
  pub registered : (x : ℕ) → count x k.pid2pcb ≡ scheduled k x
  -- the status says where it stands
  pub waiting : (x : ℕ) → 0 < count x (ready_list k.manager) → (k.pcb x).process_status ≡ ready
  pub on_cpu : (x : ℕ) → 0 < is_current k.current x → (k.pcb x).process_status ≡ running
  pub accounted : (x : ℕ) → 0 < count x live → (k.pcb x).process_status ≢ zombie → scheduled k x ≡ 1
  pub alive : (x : ℕ) → 0 < scheduled k x → 0 < count x live
  -- the children lists make a tree below process 0 that holds every live process once
  pub owned : (x q : ℕ) → 0 < count x (k.pcb q).children → parent_of (k.pcb x) ≡ q
  pub child_alive :
      (x q : ℕ) → 0 < count x (k.pcb q).children → (0 < count x live) × (0 < count q live)
  pub held :
      (x : ℕ) → 0 < count x live → x ≢ idle_pid → count x (k.pcb (parent_of (k.pcb x))).children ≡ 1
  pub rootless : (q : ℕ) → count idle_pid (k.pcb q).children ≡ 0
  pub childless : (x q : ℕ) → (k.pcb q).process_status ≡ zombie → count x (k.pcb q).children ≡ 0
  pub root_alive : 0 < count idle_pid live
  pub root_runs : (k.pcb idle_pid).process_status ≢ zombie

pub count-insert_key :
    (x p : ℕ) (keys : List ℕ)
    → count x (insert_key p keys) ≡ (
        if p == x
        then (if contains keys p then count x keys else count x keys + 1)
        else count x keys)
unfolding insert_key count
count-insert_key x p keys = ground arith
