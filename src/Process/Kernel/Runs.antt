-- ===== src/Process/Kernel/Runs.antt =====
-- Runs of the kernel: any sequence of the operations on the process table.
use nimloth_os.Prelude.{
  ℕ, ◌+◌, ◌^◌, ◌≤◌, ◌<◌, ◌≡◌, ◌≢◌, refl, sym, subst, contains, if◌then◌else◌, ◌==◌, ◌∙◌, none, some,
  List, [], ◌∷◌, arith, count, erase, Outcome, done,
}
use nimloth_os.Mm.PageTable.{PageTable}
use nimloth_os.Process.Pid
use nimloth_os.Process.Pid.Ownership.{new-IsValid, alloc-Granted}
use nimloth_os.Process.Manager
use nimloth_os.Process.Manager.{mlfq_base_time_slice}
use nimloth_os.Process.Manager.Order
use nimloth_os.Process.Manager.Order.{ready_list}
use nimloth_os.Process.Kernel.{
  Kernel, ready, running, zombie, idle_pid, new_pcb, add_initproc, switched,
  suspend_current_and_run_next, run_process, exit_current_and_run_next, sys_fork, sys_waitpid, Wait,
  reaped,
}
use nimloth_os.Process.Kernel.Sound.{IsSound, scheduled, parent_of}
use nimloth_os.Process.Kernel.Dispatch.{suspend-IsSound, run_process-IsSound}
use nimloth_os.Process.Kernel.Zombies.{exit-IsSound}
use nimloth_os.Process.Kernel.Fork.{sys_fork-IsSound}
use nimloth_os.Process.Kernel.Reap.{
  sys_waitpid-WaitSpec, WaitSpec, none_match, none_dead, took, unmapped,
}

-- The table, with the pids whose handle exists.
pub record World : Type 0 where
  pub live : List ℕ
  pub kernel : Kernel

-- the pids that are still live after an answer of `sys_waitpid`
abbrev pub left : Wait → List ℕ → List ℕ
left (reaped c _ _) live = erase c live
left _ live = live

-- One operation: the idle loop dispatches while the processor is free, and the current process
-- yields, forks, exits (the root does not) or waits.
pub data Step (w : World) : World → Type 0 where
  dispatch : w.kernel.current ≡ none → Step w (record w { kernel = run_process w.kernel })
  yield :
      {k : Kernel} (p : ℕ)
      → w.kernel.current ≡ some p
      → suspend_current_and_run_next w.kernel ≡ done k
      → Step w (record w { kernel = k })
  fork :
      {k : Kernel} {new : ℕ} (p : ℕ)
      → w.kernel.current ≡ some p
      → w.kernel.pids.current + 1 < 2 ^ 64
      → sys_fork w.kernel ≡ done (new, k)
      → Step w (record { live = new ∷ w.live; kernel = k })
  exit :
      {k : Kernel} (p code : ℕ)
      → w.kernel.current ≡ some p
      → p ≢ idle_pid
      → exit_current_and_run_next w.kernel code ≡ done (switched k)
      → Step w (record w { kernel = k })
  wait :
      {k : Kernel} {r : Wait} (t : PageTable) (p pid exit_code_ptr : ℕ)
      → w.kernel.current ≡ some p
      → sys_waitpid w.kernel t pid exit_code_ptr ≡ done (r, k)
      → Step w (record { live = left r w.live; kernel = k })

pub data Reach (w : World) : World → Type 0 where
  here : Reach w w
  next : {v u : World} → Reach w v → Step v u → Reach w u

done-injective {ℓ} : {A : Type ℓ} {a b : A} → done a ≡ done b → a ≡ b
done-injective h = cc

switched-injective : {a b : Kernel} → switched a ≡ switched b → a ≡ b
switched-injective h = cc

at_answer :
    (live : List ℕ) {a r : Wait} {k k' : Kernel}
    → IsSound (left a live) k
    → let answer : Outcome (Wait × Kernel) = done (a, k) in
      answer ≡ done (r, k') → IsSound (left r live) k'
at_answer live s e = subst (λ (x : Wait × Kernel). IsSound (left x.0 live) x.1) (done-injective e) s

WaitSpec-IsSound :
    {live : List ℕ} {k k' : Kernel} {t : PageTable} {p pid ptr : ℕ} {o : Outcome (Wait × Kernel)}
    {r : Wait}
    → IsSound live k
    → WaitSpec live k t p pid ptr o
    → o ≡ done (r, k')
    → IsSound (left r live) k'
WaitSpec-IsSound {live} s (none_match _) e = at_answer live s e
WaitSpec-IsSound {live} s (none_dead _ _ _ _) e = at_answer live s e
WaitSpec-IsSound {live} s (took _ _ _ _ _ _ _ s') e = at_answer live s' e
WaitSpec-IsSound s (unmapped _ _ _ _ _) e = cc e

Step-IsSound : {w v : World} → Step w v → IsSound w.live w.kernel → IsSound v.live v.kernel
Step-IsSound {w} (dispatch free) s = (run_process-IsSound w.live w.kernel s free).0
Step-IsSound {w} (yield p e ok) s =
    let (k', ok', s', _, _, _, _, _) = suspend-IsSound w.live w.kernel p s e in
    rw (done-injective (sym ok' ∙ ok)) at s'
Step-IsSound {w} (fork p e room ok) s =
    let (n, k', ok', _, s', _, _, _) = sys_fork-IsSound w.live w.kernel p s e room in
    subst (λ (t : ℕ × Kernel). IsSound (t.0 ∷ w.live) t.1) (done-injective (sym ok' ∙ ok)) s'
Step-IsSound {w} (exit p code e root ok) s =
    let (k', ok', s', _, _, _, _) = (exit-IsSound w.live w.kernel p code s e).0 root in
    rw (switched-injective (done-injective (sym ok' ∙ ok))) at s'
Step-IsSound {w} (wait t p pid exit_code_ptr e ok) s =
    WaitSpec-IsSound s (sys_waitpid-WaitSpec w.live w.kernel t p pid exit_code_ptr s e) ok

pub Reach-IsSound : {w v : World} → Reach w v → IsSound w.live w.kernel → IsSound v.live v.kernel
Reach-IsSound here s = s
Reach-IsSound (next r st) s = Step-IsSound st (Reach-IsSound r s)

-- The table after `add_initproc`.
abbrev pub booted : Kernel
booted = record {
  pids = (Pid.alloc Pid.new).1;
  manager = record Manager.new { ready_queues = (0 ∷ []) ∷ [] ∷ [] ∷ [] ∷ [] };
  pid2pcb = 0 ∷ [];
  current = none;
  pcb = λ _. new_pcb;
}

pub booted-eq : add_initproc ≡ done booted
unfolding add_initproc Manager.add Manager.new Pid.alloc contains
booted-eq = refl

count-flat-booted : (x : ℕ) → count x (ready_list booted.manager) ≡ (if 0 == x then 1 else 0)
unfolding count Order.flat
count-flat-booted x = ground arith

pub booted-IsSound : IsSound (0 ∷ []) booted
unfolding count Pid.alloc
booted-IsSound = record {
  pids = (alloc-Granted [] Pid.new new-IsValid (omega arith)).valid;
  manager = record { queues = refl; slices = refl; counted = unfold Manager.new in refl };
  once = λ x. ground (arith, count-flat-booted x);
  registered = λ x. ground (arith, count-flat-booted x);
  waiting = λ x h. refl;
  on_cpu = λ x h. absurd (omega arith);
  accounted = λ x h z. ground (arith, count-flat-booted x);
  alive = λ x h. ground (arith, count-flat-booted x);
  owned = λ x q h. absurd (omega arith);
  child_alive = λ x q h. absurd (omega arith);
  held = λ x h z. ground arith;
  rootless = λ q. refl;
  childless = λ x q z. refl;
  root_alive = omega arith;
  root_runs = cc;
}

-- From the boot on, whatever the operations and their order: every live process that is not a zombie
-- stands in exactly one place, the ready queues or the processor, with the status that says which,
-- and a process other than the root that is live is a child of exactly the process that it names as
-- its parent.
pub no_process_lost :
    {w : World} (x : ℕ)
    → Reach (record { live = 0 ∷ []; kernel = booted }) w
    → 0 < count x w.live
    → ((w.kernel.pcb x).process_status ≢ zombie → scheduled w.kernel x ≡ 1)
      × (scheduled w.kernel x ≤ 1)
      × (0 < count x (ready_list w.kernel.manager) → (w.kernel.pcb x).process_status ≡ ready)
      × (w.kernel.current ≡ some x → (w.kernel.pcb x).process_status ≡ running)
      × (x ≢ idle_pid → count x (w.kernel.pcb (parent_of (w.kernel.pcb x))).children ≡ 1)
no_process_lost {w} x r h =
    let s = Reach-IsSound r booted-IsSound in
    (s.accounted x h, s.once x, s.waiting x, λ e. ground (arith, s.on_cpu x, e), s.held x h)
