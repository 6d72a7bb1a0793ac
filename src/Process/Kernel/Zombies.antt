-- ===== src/Process/Kernel/Zombies.antt =====
-- The exit of a process keeps the table sound.
use nimloth_os.Prelude.{
  ℕ, ◌+◌, ◌<◌, ◌≡◌, ◌≢◌, refl, inl, inr, none, some, List, [], arith, ◌==◌, if◌then◌else◌, count,
  contains, count-erase, count-append, count_pos-contains, count_zero-contains,
  contains-false-count, contains-count, Bool-cases, true, not, done,
}
use nimloth_os.Process.Kernel.{
  Kernel, zombie, switched, shut_down, idle_pid, is_current, exit_current_and_run_next,
}
use nimloth_os.Process.Kernel.Sound.{IsSound, scheduled, parent_of}
use nimloth_os.Process.Kernel.Orphans.{buried, exited, exit-eq}

module _ (live : List ℕ) (k : Kernel) (p code : ℕ) (s : IsSound live k) (e : k.current ≡ some p)
    (root : p ≢ idle_pid) where
  on_cpu : is_current k.current p ≡ 1
  on_cpu = ground (arith, e)

  listed : contains k.pid2pcb p ≡ true
  listed = count_pos-contains k.pid2pcb p (omega (arith, s.registered p, on_cpu))

  -- an adopted child names process p as its parent
  mine : (x : ℕ) → contains (k.pcb p).children x ≡ true → parent_of (k.pcb x) ≡ p
  mine x c = s.owned x p (contains-count (k.pcb p).children x c)

  gone : (x : ℕ) → scheduled (exited k p code) x + (if p == x then 1 else 0) ≡ scheduled k x
  unfolding exited
  gone x = ground (arith, e)

  count-children :
      (x q : ℕ)
      → count x (buried k p code q).children ≡ (
          if q == idle_pid
          then count x (k.pcb idle_pid).children + count x (k.pcb p).children
          else if p == q
          then 0
          else count x (k.pcb q).children)
  unfolding buried
  count-children x q =
      unfold count in ground (arith, count-append x (k.pcb idle_pid).children (k.pcb p).children)

  status-buried :
      (x : ℕ)
      → (buried k p code x).process_status ≡ (if p == x then zombie else (k.pcb x).process_status)
  unfolding buried
  status-buried x = ground arith

  -- the parent of a process that is not the root
  parent-buried :
      (x : ℕ)
      → x ≢ idle_pid
      → parent_of (buried k p code x)
        ≡ (if contains (k.pcb p).children x then idle_pid else parent_of (k.pcb x))
  unfolding buried
  parent-buried x h = ground arith

  owned_by :
      (x q : ℕ) → 0 < count x (buried k p code q).children → parent_of (buried k p code x) ≡ q
  owned_by x q h = ground (
    arith,
    count-children x q,
    parent-buried x,
    s.owned x q,
    s.owned x idle_pid,
    s.rootless q,
    s.rootless idle_pid,
    s.rootless p,
    contains-false-count (k.pcb p).children x,
    count_zero-contains (k.pcb p).children x,
    mine x,
  )

  held_by :
      (x : ℕ)
      → 0 < count x live
      → x ≢ idle_pid
      → count x (buried k p code (parent_of (buried k p code x))).children ≡ 1
  held_by x h z = elim (Bool-cases (contains (k.pcb p).children x)) [
    | inl c ↦
        rw (parent-buried x z, c)
          (ground (arith, count-children x idle_pid, s.held x h z, mine x c, s.owned x idle_pid))
    | inr c ↦
        rw (parent-buried x z, c)
          (ground (
            arith,
            count-children x (parent_of (k.pcb x)),
            s.held x h z,
            contains-false-count (k.pcb p).children x c,
          ))
  ]

  exited-IsSound : IsSound live (exited k p code)
  unfolding exited
  exited-IsSound = record {
    pids = s.pids;
    manager = s.manager;
    once = λ x. ground (arith, gone x, s.once x);
    registered = λ x.
        ground (arith, gone x, s.registered x, count-erase x p k.pid2pcb, s.registered p, on_cpu);
    waiting = λ x h. ground (arith, status-buried x, s.waiting x, s.once x, on_cpu);
    on_cpu = λ x h. ground arith;
    accounted = λ x h z. ground (arith, gone x, s.accounted x h, status-buried x);
    alive = λ x h. ground (arith, gone x, s.alive x);
    owned = λ x q h. owned_by x q h;
    child_alive = λ x q h. ground (
      arith,
      count-children x q,
      s.child_alive x q,
      s.child_alive x idle_pid,
      s.child_alive x p,
      s.root_alive,
    );
    held = λ x h z. held_by x h z;
    rootless = λ q.
        ground (arith, count-children idle_pid q, s.rootless q, s.rootless idle_pid, s.rootless p);
    childless =
        λ x q z. ground (arith, count-children x q, status-buried q, s.childless x q, s.root_runs);
    root_alive = s.root_alive;
    root_runs = ground (arith, status-buried idle_pid, s.root_runs);
  }

-- When the current process is not the root, its exit does not panic and keeps the table sound, with
-- the processor free and the process a zombie with its exit code and no children; when it is the
-- root, the machine is shut down, as failed unless the exit code is 0.
pub exit-IsSound :
    (live : List ℕ) (k : Kernel) (p code : ℕ)
    → IsSound live k
    → k.current ≡ some p
    → (p ≢ idle_pid
        → (k' : Kernel) × (exit_current_and_run_next k code ≡ done (switched k'))
          × IsSound live k'
          × (k'.current ≡ none)
          × ((k'.pcb p).process_status ≡ zombie)
          × ((k'.pcb p).exit_code ≡ code)
          × ((k'.pcb p).children ≡ []))
      × (p ≡ idle_pid → exit_current_and_run_next k code ≡ done (shut_down (not (code == 0))))
exit-IsSound live k p code s e = (
  λ root. (
    exited k p code,
    exit-eq k p code root (s.rootless p) e (listed live k p code s e root),
    exited-IsSound live k p code s e root,
    unfold exited in refl,
    unfold exited buried in ground arith,
    unfold exited buried in ground arith,
    unfold exited buried in ground arith,
  ),
  λ root. unfold exit_current_and_run_next in ground (arith, e, root),
)
