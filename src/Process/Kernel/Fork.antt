-- ===== src/Process/Kernel/Fork.antt =====
-- `sys_fork` keeps the table sound.
use nimloth_os.Prelude.{
  ℕ, ◌+◌, ◌^◌, ◌<◌, ◌≡◌, ◌≢◌, inl, inr, fun_ext, ap, some, List, [], ◌∷◌, arith, ◌==◌,
  if◌then◌else◌, count, count-append, contains-count, Bool-cases, done,
}
use nimloth_os.Process.Pid
use nimloth_os.Process.Pid.Ownership.{alloc-Granted}
use nimloth_os.Process.Manager
use nimloth_os.Process.Manager.{ProcessManager}
use nimloth_os.Process.Manager.Order.{ready_list, add_lem, add-IsValid, count-ready_list-add}
use nimloth_os.Process.Kernel.{
  Kernel, Pcb, ready, idle_pid, forked, with_child, update, insert_key, sys_fork,
}
use nimloth_os.Process.Kernel.Sound.{IsSound, scheduled, parent_of, count-insert_key}

family : Kernel → ℕ → ℕ → ℕ → Pcb
family k p n x =
    if p == x then with_child n (k.pcb p) else if n == x then forked p (k.pcb p) else k.pcb x

child_of : Kernel → ℕ → ProcessManager → Kernel
child_of k p m = record k {
  pids = (Pid.alloc k.pids).1;
  manager = m;
  pid2pcb = insert_key (Pid.alloc k.pids).0 k.pid2pcb;
  pcb = family k p (Pid.alloc k.pids).0;
}

module _ (live : List ℕ) (k : Kernel) (p : ℕ) (m : ProcessManager) (s : IsSound live k)
    (e : k.current ≡ some p) (room : k.pids.current + 1 < 2 ^ 64)
    (a : Manager.add k.manager (Pid.alloc k.pids).0 0 ≡ done m) where
  n : ℕ
  n = (Pid.alloc k.pids).0

  p_alive : 0 < count p live
  p_alive = ground (arith, s.alive p, e)

  unused : count n live ≡ 0
  unfolding n
  unused = (alloc-Granted live k.pids s.pids room).free

  idle_n : scheduled k n ≡ 0
  idle_n = ground (arith, s.alive n, unused)

  orphan : (q : ℕ) → count n (k.pcb q).children ≡ 0
  orphan q = ground (arith, s.child_alive n q, unused)

  not_p : n ≢ p
  not_p h = ground (arith, p_alive, unused)

  family-eq :
      (x : ℕ)
      → update
          (update k.pcb n (forked p (k.pcb p)))
          p
          (with_child n (update k.pcb n (forked p (k.pcb p)) p))
          x
        ≡ family k p n x
  unfolding family
  family-eq x = ground (arith, not_p)

  count-children :
      (x q : ℕ)
      → count x (family k p n q).children ≡ (
          if p == q
          then count x (k.pcb p).children + (if n == x then 1 else 0)
          else if n == q
          then 0
          else count x (k.pcb q).children)
  unfolding family
  count-children x q = unfold count in ground (arith, count-append x (k.pcb p).children (n ∷ []))

  status-family :
      (x : ℕ)
      → (family k p n x).process_status ≡ (
          if p == x
          then (k.pcb x).process_status
          else if n == x
          then ready
          else (k.pcb x).process_status)
  unfolding family
  status-family x = ground arith

  parent-family : (x : ℕ) → parent_of (family k p n x) ≡ (if n == x then p else parent_of (k.pcb x))
  unfolding family
  parent-family x = ground (arith, not_p)

  more : (x : ℕ) → scheduled (child_of k p m) x ≡ scheduled k x + (if n == x then 1 else 0)
  unfolding child_of n
  more x = ground (arith, count-ready_list-add k.manager m n 0 x s.manager a)

  held_by :
      (x : ℕ)
      → 0 < count x (n ∷ live)
      → x ≢ idle_pid
      → count x (family k p n (parent_of (family k p n x))).children ≡ 1
  held_by x h z = elim (Bool-cases (n == x)) [
    | inl same ↦ rw (parent-family x, same) (ground (arith, count-children x p, orphan p))
    | inr other ↦
        rw (parent-family x, other)
          (unfold count in
            ground
              (arith, count-children x (parent_of (k.pcb x)), s.held x, s.child_alive x n, unused))
  ]

  child_of-IsSound : IsSound (n ∷ live) (child_of k p m)
  unfolding child_of n count
  child_of-IsSound = record {
    pids = (alloc-Granted live k.pids s.pids room).valid;
    manager = add-IsValid k.manager m n 0 s.manager a;
    once = λ x. ground (arith, more x, s.once x, idle_n);
    registered = λ x. ground (
      arith,
      more x,
      s.registered x,
      count-insert_key x n k.pid2pcb,
      contains-count k.pid2pcb n,
      s.registered n,
      idle_n,
    );
    waiting = λ x h. ground (
      arith,
      count-ready_list-add k.manager m n 0 x s.manager a,
      status-family x,
      s.waiting x,
      not_p,
    );
    on_cpu = λ x h. ground (arith, status-family x, s.on_cpu x);
    accounted = λ x h z. ground (arith, more x, s.accounted x, status-family x, idle_n);
    alive = λ x h. ground (arith, more x, s.alive x);
    owned = λ x q h. ground (arith, count-children x q, parent-family x, s.owned x q, orphan q);
    child_alive = λ x q h. ground (arith, count-children x q, s.child_alive x q, p_alive);
    held = λ x h z. held_by x h z;
    rootless = λ q. ground (arith, count-children idle_pid q, s.rootless q, s.root_alive, unused);
    childless = λ x q z.
        ground (arith, count-children x q, status-family q, s.childless x q, s.on_cpu p, e);
    root_alive = ground (arith, s.root_alive);
    root_runs = ground (arith, status-family idle_pid, s.root_runs);
  }

  born_with : (ℕ → Pcb) → Kernel
  born_with f = record k {
    pids = (Pid.alloc k.pids).1;
    manager = m;
    pid2pcb = insert_key n k.pid2pcb;
    current = some p;
    pcb = f;
  }

  fork-eq : sys_fork k ≡ done (n, child_of k p m)
  unfolding sys_fork child_of n born_with
  fork-eq = simp (e, a) (ap (λ (f : ℕ → Pcb). done (n, born_with f)) (fun_ext family-eq))

-- A fork by the current process does not panic while there are pids: the new process has a pid that
-- no live process has, waits in the ready queues, is a child of the caller with the caller's priority
-- and an unused time slice, and the table is sound with it; the caller goes on running.
pub sys_fork-IsSound :
    (live : List ℕ) (k : Kernel) (p : ℕ)
    → IsSound live k
    → k.current ≡ some p
    → k.pids.current + 1 < 2 ^ 64
    → (new : ℕ) × (k' : Kernel) × (sys_fork k ≡ done (new, k'))
      × (count new live ≡ 0)
      × IsSound (new ∷ live) k'
      × (k'.current ≡ some p)
      × (count new (ready_list k'.manager) ≡ 1)
      × (k'.pcb new ≡ forked p (k.pcb p))
sys_fork-IsSound live k p s e room =
    let (m, a, _, _) = add_lem k.manager (Pid.alloc k.pids).0 0 s.manager in
    let new = (Pid.alloc k.pids).0 in
    (
      new,
      child_of k p m,
      unfold n in fork-eq live k p m s e room a,
      unfold n in unused live k p m s e room a,
      unfold n in child_of-IsSound live k p m s e room a,
      unfold child_of in e,
      unfold child_of n in
          ground (
            arith,
            count-ready_list-add k.manager m new 0 new s.manager a,
            idle_n live k p m s e room a,
          ),
      unfold child_of family n in ground (arith, not_p live k p m s e room a),
    )
