-- ===== src/Trap/Slices.antt =====
-- The time slices of the current process at a timer interrupt.
use nimloth_os.Prelude.{
  contains, ℕ, ◌+◌, ◌*◌, ◌%◌, ◌^◌, ◌≤◌, ◌<◌, ◌≡◌, ◌≢◌, ◌∙◌, ◌==◌, ==_refl, false, [], set, get_or,
  refl, ap, Option, none, some, List, ◌∷◌, ◌++◌, arith, done, panic, ◌>>=◌,
}
use nimloth_os.Process.Manager
use nimloth_os.Process.Manager.Order
use nimloth_os.Process.Manager.Order.{ready_list, flat, level, get_time_slice_lem, add_lem}
use nimloth_os.Process.Kernel.{
  Kernel, Pcb, ready, set_status, update, insert_key, add_process_with_priority,
  suspend_current_and_run_next,
}
use nimloth_os.Process.Kernel.Sound.{IsSound}
use nimloth_os.Process.Kernel.Dispatch.{suspend-IsSound}
use nimloth_os.Trap.{charge, demote, demoted, requeue, account, account_current, timer_interrupt}

charged : Kernel → ℕ → Kernel
charged k p = record k { pcb = update k.pcb p (charge (k.pcb p)) }

charged-IsSound : (live : List ℕ) (k : Kernel) (p : ℕ) → IsSound live k → IsSound live (charged k p)
unfolding charged
charged-IsSound live k p s = record {
  pids = s.pids;
  manager = s.manager;
  once = s.once;
  registered = s.registered;
  waiting = λ x h. ground (arith, s.waiting x h);
  on_cpu = λ x h. ground (arith, s.on_cpu x h);
  accounted = λ x h z. ground (arith, s.accounted x h);
  alive = s.alive;
  owned = λ x q h. ground (arith, s.owned x q);
  child_alive = λ x q h. ground (arith, s.child_alive x q);
  held = λ x h z. ground (arith, s.held x h z);
  rootless = λ q. ground (arith, s.rootless q);
  childless = λ x q z. ground (arith, s.childless x q);
  root_alive = s.root_alive;
  root_runs = ground (arith, s.root_runs);
}

used_next : Kernel → ℕ → ℕ
used_next k p = ((k.pcb p).time_slice_used + 1) % 2 ^ 64

timer-account :
    (k : Kernel) (p : ℕ)
    → k.current ≡ some p
    → timer_interrupt k ≡ (account k p >>= suspend_current_and_run_next)
unfolding timer_interrupt
timer-account k p e = ap (λ (o : Option ℕ). account_current k o >>= suspend_current_and_run_next) e

account-below :
    (k : Kernel) (p : ℕ)
    → used_next k p < (k.pcb p).time_slice_limit
    → account k p ≡ done (charged k p)
unfolding account used_next charged
account-below k p h = ground arith

-- The entries after the charge and the yield.
own_entry :
    (k : Kernel) (p : ℕ)
    → update (charged k p).pcb p (set_status ready ((charged k p).pcb p)) p
      ≡ set_status ready (charge (k.pcb p))
unfolding charged
own_entry k p = rw (==_refl p) refl

other_entry :
    (k : Kernel) (p x : ℕ)
    → x ≢ p
    → update (charged k p).pcb p (set_status ready ((charged k p).pcb p)) x ≡ k.pcb x
unfolding charged
other_entry k p x n = let e : (p == x) ≡ false = ground arith in rw e refl

-- A timer interrupt before the slice of the current process is used up adds one to the ticks that
-- the process has used, makes it ready, keeps its priority and limit, and leaves all other processes
-- as they are. The table stays sound and the processor is free. The process goes to the end of the
-- first queue, whatever its own priority is, and the other queues stay as they are.
pub timer_in_slice :
    (live : List ℕ) (k : Kernel) (p : ℕ)
    → IsSound live k
    → k.current ≡ some p
    → ((k.pcb p).time_slice_used + 1) % 2 ^ 64 < (k.pcb p).time_slice_limit
    → (k' : Kernel) × (timer_interrupt k ≡ done k')
      × IsSound live k'
      × (k'.current ≡ none)
      × (k'.manager.ready_queues
          ≡ set k.manager.ready_queues 0 (get_or k.manager.ready_queues 0 [] ++ (p ∷ [])))
      × ((k'.pcb p).time_slice_used ≡ ((k.pcb p).time_slice_used + 1) % 2 ^ 64)
      × ((k'.pcb p).process_status ≡ ready)
      × ((k'.pcb p).priority ≡ (k.pcb p).priority)
      × ((k'.pcb p).time_slice_limit ≡ (k.pcb p).time_slice_limit)
      × ((x : ℕ) → x ≢ p → k'.pcb x ≡ k.pcb x)
timer_in_slice live k p s e h =
    let (k', ok, s', free, _, _, queues, table) =
      suspend-IsSound live (charged k p) p (charged-IsSound live k p s) (unfold charged in e) in
    let at = λ (x : ℕ). ap (λ (f : ℕ → Pcb). f x) table in
    let own = at p ∙ own_entry k p in
    (
      k',
      rw (timer-account k p e, account-below k p (unfold used_next in h)) ok,
      s',
      free,
      unfold charged in queues,
      ap (λ (b : Pcb). b.time_slice_used) own,
      ap (λ (b : Pcb). b.process_status) own,
      ap (λ (b : Pcb). b.priority) own,
      ap (λ (b : Pcb). b.time_slice_limit) own,
      λ x n. at x ∙ other_entry k p x n,
    )

requeue-free :
    (k : Kernel) (p priority : ℕ)
    → Order.IsValid k.manager
    → k.current ≡ some p
    → (k' : Kernel) × (requeue k priority ≡ done k') × (k'.current ≡ none)
unfolding requeue add_process_with_priority insert_key contains
requeue-free k p priority v e =
    let (m, a, _, _) = add_lem k.manager p priority v in
    (
      record k { current = none; pid2pcb = insert_key p k.pid2pcb; manager = m },
      rw (e, a) refl,
      refl,
    )

suspend-panic : (k : Kernel) → k.current ≡ none → suspend_current_and_run_next k ≡ panic
unfolding suspend_current_and_run_next
suspend-panic k e = rw e refl

spent : Kernel → ℕ → ℕ → Kernel
spent k p limit = record k { pcb = update (charged k p).pcb p (demote limit ((charged k p).pcb p)) }

account-spent :
    (k : Kernel) (p limit : ℕ)
    → (k.pcb p).time_slice_limit ≤ used_next k p
    → Manager.get_time_slice k.manager (demoted (k.pcb p).priority) ≡ done limit
    → account k p ≡ requeue (spent k p limit) (demoted (k.pcb p).priority)
unfolding account used_next spent charged
account-spent k p limit h g = ground (arith, g)

-- The timer interrupt that uses up the slice of the current process ends in a panic of the kernel,
-- in every sound table: the process is demoted and taken off the processor, and then the call of
-- `suspend_current_and_run_next` unwraps the current process, of which there is none.
pub timer_slice_end-panic :
    (live : List ℕ) (k : Kernel) (p : ℕ)
    → IsSound live k
    → k.current ≡ some p
    → (k.pcb p).time_slice_limit ≤ ((k.pcb p).time_slice_used + 1) % 2 ^ 64
    → timer_interrupt k ≡ panic
timer_slice_end-panic live k p s e h =
    let g = get_time_slice_lem k.manager (demoted (k.pcb p).priority) s.manager in
    let limit = Manager.mlfq_base_time_slice * 2 ^ level (demoted (k.pcb p).priority) in
    let (k', ok, free) =
      requeue-free (spent k p limit) p (demoted (k.pcb p).priority) (unfold spent in s.manager)
        (unfold spent in e) in
    rw (timer-account k p e, account-spent k p limit (unfold used_next in h) g, ok)
      (suspend-panic k' free)
