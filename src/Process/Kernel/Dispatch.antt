-- ===== src/Process/Kernel/Dispatch.antt =====
-- Yielding and dispatching keep the table sound.
use nimloth_os.Prelude.{
  ℕ, ◌≡◌, refl, inl, inr, Option, none, some, List, [], ◌∷◌, set, get_or, arith, take, drop, ◌++◌,
  contains-false-count, Option-cases, done, ap,
}
use nimloth_os.Process.Manager
use nimloth_os.Process.Manager.{ProcessManager, fetch}
use nimloth_os.Process.Manager.Order.{
  ready_list, flat, add_lem, add-queues, count-ready_list-add, count-ready_list-fetch,
  count-ready_list-fetch-none, pop, add-IsValid, fetch-IsValid, fetch-pop,
}
use nimloth_os.Process.Kernel.{
  Kernel, ready, running, update, set_status, insert_key, suspend_current_and_run_next, run_process,
}
use nimloth_os.Process.Kernel.Sound.{IsSound, scheduled, count-insert_key}

-- the state after a yield of process p, for the manager that the queue's `add` returns
yielded : Kernel → ℕ → ProcessManager → Kernel
yielded k p m = record k {
  pid2pcb = insert_key p k.pid2pcb;
  manager = m;
  current = none;
  pcb = update k.pcb p (set_status ready (k.pcb p));
}

suspend-eq :
    (k : Kernel) (p : ℕ) (m : ProcessManager)
    → k.current ≡ some p
    → Manager.add k.manager p 0 ≡ done m
    → suspend_current_and_run_next k ≡ done (yielded k p m)
unfolding suspend_current_and_run_next yielded
suspend-eq k p m e a = rw (e, a) refl

module _ (live : List ℕ) (k : Kernel) (p : ℕ) (m : ProcessManager) (s : IsSound live k)
    (e : k.current ≡ some p) (a : Manager.add k.manager p 0 ≡ done m) where
  moved : (x : ℕ) → scheduled (yielded k p m) x ≡ scheduled k x
  unfolding yielded
  moved x = ground (arith, count-ready_list-add k.manager m p 0 x s.manager a, e)

  yielded-IsSound : IsSound live (yielded k p m)
  unfolding yielded
  yielded-IsSound = record {
    pids = s.pids;
    manager = add-IsValid k.manager m p 0 s.manager a;
    once = λ x. ground (arith, moved x, s.once x);
    registered = λ x. ground (
      arith,
      moved x,
      s.registered x,
      count-insert_key x p k.pid2pcb,
      contains-false-count k.pid2pcb p,
      e,
    );
    waiting =
        λ x h. ground (arith, count-ready_list-add k.manager m p 0 x s.manager a, s.waiting x);
    on_cpu = λ x h. ground arith;
    accounted = λ x h z. ground (arith, moved x, s.accounted x h, s.on_cpu x, e);
    alive = λ x h. ground (arith, moved x, s.alive x);
    owned = λ x q h. ground (arith, s.owned x q);
    child_alive = λ x q h. ground (arith, s.child_alive x q);
    held = λ x h z. ground (arith, s.held x h z);
    rootless = λ q. ground (arith, s.rootless q);
    childless = λ x q z. ground (arith, s.childless x q);
    root_alive = s.root_alive;
    root_runs = ground (arith, s.root_runs);
  }

-- A yield of the current process does not panic and keeps the table sound: the processor is free,
-- every process is scheduled as often as before, and the process waits behind the first queue and
-- before all others, whatever its priority.
pub suspend-IsSound :
    (live : List ℕ) (k : Kernel) (p : ℕ)
    → IsSound live k
    → k.current ≡ some p
    → (k' : Kernel) × (suspend_current_and_run_next k ≡ done k')
      × IsSound live k'
      × (k'.current ≡ none)
      × ((x : ℕ) → scheduled k' x ≡ scheduled k x)
      × (ready_list k'.manager
          ≡ flat (take 1 k.manager.ready_queues) ++ (p ∷ flat (drop 1 k.manager.ready_queues)))
      × (k'.manager.ready_queues
          ≡ set k.manager.ready_queues 0 (get_or k.manager.ready_queues 0 [] ++ (p ∷ [])))
      × (k'.pcb ≡ update k.pcb p (set_status ready (k.pcb p)))
unfolding yielded
suspend-IsSound live k p s e =
    let (m, a, order, _) = add_lem k.manager p 0 s.manager in
    (
      yielded k p m,
      suspend-eq k p m e a,
      yielded-IsSound live k p m s e a,
      refl,
      moved live k p m s e a,
      order,
      add-queues k.manager m p 0 s.manager a,
      refl,
    )

idle : Kernel → Kernel
idle k = record k { manager = (fetch k.manager).1 }

dispatched : Kernel → ℕ → Kernel
dispatched k p = record k {
  manager = (fetch k.manager).1;
  current = some p;
  pcb = update k.pcb p (set_status running (k.pcb p));
}

module _ (live : List ℕ) (k : Kernel) (s : IsSound live k) (free : k.current ≡ none) where
  idle-IsSound : (fetch k.manager).0 ≡ none → IsSound live (idle k)
  unfolding idle
  idle-IsSound e =
      let same = λ (x : ℕ). count-ready_list-fetch-none k.manager x e in
      record {
        pids = s.pids;
        manager = fetch-IsValid k.manager s.manager;
        once = λ x. ground (arith, same x, s.once x);
        registered = λ x. ground (arith, same x, s.registered x);
        waiting = λ x h. ground (arith, same x, s.waiting x);
        on_cpu = λ x h. s.on_cpu x h;
        accounted = λ x h z. ground (arith, same x, s.accounted x h);
        alive = λ x h. ground (arith, same x, s.alive x);
        owned = s.owned;
        child_alive = s.child_alive;
        held = s.held;
        rootless = s.rootless;
        childless = s.childless;
        root_alive = s.root_alive;
        root_runs = s.root_runs;
      }

  dispatched-IsSound : (p : ℕ) → (fetch k.manager).0 ≡ some p → IsSound live (dispatched k p)
  unfolding dispatched
  dispatched-IsSound p e =
      let taken = λ (x : ℕ). count-ready_list-fetch k.manager p x e in
      record {
        pids = s.pids;
        manager = fetch-IsValid k.manager s.manager;
        once = λ x. ground (arith, taken x, s.once x);
        registered = λ x. ground (arith, taken x, s.registered x);
        waiting = λ x h. ground (arith, taken x, s.waiting x, s.once x);
        on_cpu = λ x h. ground arith;
        accounted = λ x h z. ground (arith, taken x, s.accounted x h, s.waiting x);
        alive = λ x h. ground (arith, taken x, s.alive x);
        owned = λ x q h. ground (arith, s.owned x q);
        child_alive = λ x q h. ground (arith, s.child_alive x q);
        held = λ x h z. ground (arith, s.held x h z);
        rootless = λ q. ground (arith, s.rootless q);
        childless = λ x q z. ground (arith, s.childless x q);
        root_alive = s.root_alive;
        root_runs = ground (arith, s.root_runs);
      }

-- A round of the idle loop, which runs while the processor is free, keeps the table sound and makes
-- the first ready process in dispatch order current, if there is one.
pub run_process-IsSound :
    (live : List ℕ) (k : Kernel)
    → IsSound live k
    → k.current ≡ none
    → IsSound live (run_process k) × ((run_process k).current ≡ (pop (ready_list k.manager)).0)
unfolding run_process idle dispatched
run_process-IsSound live k s free =
    let first : (fetch k.manager).0 ≡ (pop (ready_list k.manager)).0 =
      ap (λ (t : Option ℕ × List ℕ). t.0) (fetch-pop k.manager) in
    elim (Option-cases (fetch k.manager).0) [
      | inl e ↦ rw (e, run_process) (idle-IsSound live k s free e, cc (free, e, first))
      | inr (p, e) ↦ rw (e, run_process) (dispatched-IsSound live k s free p e, cc (e, first))
    ]
