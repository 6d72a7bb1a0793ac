-- ===== src/Process/Kernel/Reap.antt =====
-- `sys_waitpid`: the assertion on the strong count holds, and the table stays sound.
use nimloth_os.Prelude.{
  ℕ, zero, suc, ◌+◌, ◌≤◌, ◌<◌, ◌≡◌, ◌≢◌, refl, inl, inr, ap, Option, none, some, List, [], ◌∷◌,
  arith, ◌==◌, ==_eq, if◌then◌else◌, count, erase, count-erase, Bool-cases, Option-cases, true,
  false, ◌&&◌, ◌⊎◌, Outcome, panic, done, unwrap, ◌>>=◌,
}
use nimloth_os.Process.Pid
use nimloth_os.Process.Pid.{PidAllocator}
use nimloth_os.Process.Pid.Ownership
use nimloth_os.Process.Pid.Ownership.{dealloc-erase}
use nimloth_os.Mm.PageTable.{PageTable}
use nimloth_os.Mm.UserMemory.{translated_refmut}
use nimloth_os.Process.Kernel.{
  Kernel, Pcb, zombie, idle_pid, is_zombie, matches, any_match, find_zombie, children_refs,
  kernel_refs, update, reap, wait_for, sys_waitpid, Wait, no_child, pending, reaped,
}
use nimloth_os.Process.Kernel.Sound.{IsSound, scheduled, parent_of}

any_match-none :
    (pid : ℕ) (cs : List ℕ) (c : ℕ)
    → any_match pid cs ≡ false
    → 0 < count c cs
    → matches pid c ≡ false
unfolding any_match count
any_match-none pid [] c h m = absurd (omega arith)
any_match-none pid (x ∷ cs) c h m = ground (arith, any_match-none pid cs c, ==_eq x c)

any_match-some :
    (pid : ℕ) (cs : List ℕ)
    → any_match pid cs ≡ true
    → (c : ℕ) × (0 < count c cs) × (matches pid c ≡ true)
unfolding any_match count
any_match-some pid [] h = cc
any_match-some pid (x ∷ cs) h = elim (Bool-cases (matches pid x)) [
  | inl e ↦ (x, ground arith, e)
  | inr e ↦ let (c, m, t) = any_match-some pid cs (ground arith) in (c, ground arith, t)
]

module _ (f : ℕ → Pcb) (pid : ℕ) where
  find_zombie-none :
      (cs : List ℕ) (c : ℕ)
      → find_zombie f pid cs ≡ none
      → 0 < count c cs
      → matches pid c ≡ true
      → is_zombie (f c) ≡ false
  unfolding find_zombie count
  find_zombie-none [] c h m t = absurd (omega arith)
  find_zombie-none (x ∷ cs) c h m t = ground (arith, find_zombie-none cs c, ==_eq x c)

  find_zombie-some :
      (cs others : List ℕ) (c : ℕ)
      → find_zombie f pid cs ≡ some (c, others)
      → (is_zombie (f c) ≡ true)
        × (matches pid c ≡ true)
        × ((x : ℕ) → count x others + (if c == x then 1 else 0) ≡ count x cs)
  unfolding find_zombie count
  find_zombie-some [] others c h = cc
  find_zombie-some (x ∷ cs) others c h = elim (Bool-cases (is_zombie (f x) && matches pid x)) [
    | inl b ↦
        let here : x ≡ c = ground (arith, b) in
        let rest : cs ≡ others = ground (arith, b) in
        (ground (arith, b, here), ground (arith, b, here), λ y. ground (arith, here, rest))
    | inr b ↦ elim (Option-cases (find_zombie f pid cs)) [
      | inl e ↦ absurd (ground (arith, b, e))
      | inr ((d, ds), e) ↦
          let found : d ≡ c = ground (arith, b, e) in
          let kept : x ∷ ds ≡ others = ground (arith, b, e) in
          let ih = find_zombie-some cs ds d e in
          (
            ground (arith, ih.0, found),
            ground (arith, ih.1, found),
            λ y. rw (← kept, ← found) (unfold count in omega (arith, ih.2 y)),
          )
    ]
  ]

children_refs-zero :
    (f : ℕ → Pcb) (n x : ℕ) → ((q : ℕ) → count x (f q).children ≡ 0) → children_refs f n x ≡ 0
unfolding children_refs
children_refs-zero f zero x h = refl
children_refs-zero f (suc n) x h = omega (arith, children_refs-zero f n x h, h n)

-- the state after the reaping of child c
without : Kernel → ℕ → List ℕ → PidAllocator → Kernel
without k p others pids = record k {
  pids = pids;
  pcb = update k.pcb p (record (k.pcb p) { children = others });
}

module _ (live : List ℕ) (k : Kernel) (p c : ℕ) (others : List ℕ) (pids : PidAllocator)
    (s : IsSound live k) (e : k.current ≡ some p) (dead : (k.pcb c).process_status ≡ zombie)
    (fewer : (x : ℕ)
      → count x others + (if c == x then 1 else 0) ≡ count x (k.pcb p).children) where
  child : 0 < count c (k.pcb p).children
  child = ground (arith, fewer c)

  live_c : 0 < count c live
  live_c = (s.child_alive c p child).0

  not_root : c ≢ idle_pid
  not_root h = ground (arith, s.rootless p, child, h)

  away : scheduled k c ≡ 0
  away = ground (arith, s.waiting c, s.on_cpu c, dead)

  last : count c others ≡ 0
  last = ground (arith, fewer c, s.held c live_c not_root, s.owned c p child)

  count-children :
      (x q : ℕ)
      → count x ((without k p others pids).pcb q).children
          + (if p == q then (if c == x then 1 else 0) else 0)
        ≡ count x (k.pcb q).children
  unfolding without
  count-children x q = ground (arith, fewer x)

  no_refs : kernel_refs (record k { pcb = (without k p others pids).pcb }) c ≡ 0
  unfolding kernel_refs
  no_refs = omega (
    arith,
    away,
    s.registered c,
    children_refs-zero (without k p others pids).pcb k.pids.current c
        λ q. ground (arith, count-children c q, s.owned c q, s.owned c p child, last, fewer c),
  )

  status-without :
      (x : ℕ) → ((without k p others pids).pcb x).process_status ≡ (k.pcb x).process_status
  unfolding without
  status-without x = ground arith

  parent-without : (x : ℕ) → parent_of ((without k p others pids).pcb x) ≡ parent_of (k.pcb x)
  unfolding without
  parent-without x = ground arith

  unique : count c live ≤ 1
  unique = ground (arith, s.pids.once c)

  left : (x : ℕ) → count x (erase c live) + (if c == x then 1 else 0) ≡ count x live
  left x = count-erase x c live live_c

  without-IsSound :
      Ownership.IsValid (erase c live) pids → IsSound (erase c live) (without k p others pids)
  without-IsSound v = record {
    pids = unfold without in v;
    manager = unfold without in s.manager;
    once = λ x. unfold without in s.once x;
    registered = λ x. unfold without in s.registered x;
    waiting = λ x h. rw status-without (s.waiting x (unfold without in h));
    on_cpu = λ x h. rw status-without (s.on_cpu x (unfold without in h));
    accounted =
        λ x h z. unfold without in s.accounted x (omega (arith, left x)) (rw status-without at z);
    alive = λ x h.
        let h' : 0 < scheduled k x = unfold without in h in
        ground (arith, left x, s.alive x h', away);
    owned = λ x q h. rw parent-without (s.owned x q (ground (arith, count-children x q)));
    child_alive = λ x q h. ground (
      arith,
      count-children x q,
      left x,
      left q,
      s.child_alive x q,
      s.childless x q,
      dead,
      unique,
      last,
      s.owned x q,
      s.owned c p child,
      fewer c,
    );
    held = λ x h z.
        rw parent-without (
          ground (arith, count-children x (parent_of (k.pcb x)), left x, left c, unique, s.held x));
    rootless = λ q. ground (arith, count-children idle_pid q, s.rootless q);
    childless =
        λ x q z. ground (arith, count-children x q, s.childless x q (rw status-without at z));
    root_alive = ground (arith, left idle_pid, s.root_alive, not_root);
    root_runs = rw status-without s.root_runs;
  }

-- What a call of `sys_waitpid` by process p comes to, in the address space of the page table.
pub data WaitSpec (live : List ℕ) (k : Kernel) (t : PageTable) (p pid exit_code_ptr : ℕ)
    : Outcome (Wait × Kernel) → Type 0 where
  none_match :
      ((c : ℕ) → 0 < count c (k.pcb p).children → matches pid c ≡ false)
      → WaitSpec live k t p pid exit_code_ptr (done (no_child, k))
  none_dead :
      (c : ℕ)
      → 0 < count c (k.pcb p).children
      → matches pid c ≡ true
      → ((c : ℕ)
          → 0 < count c (k.pcb p).children
          → matches pid c ≡ true
          → is_zombie (k.pcb c) ≡ false)
      → WaitSpec live k t p pid exit_code_ptr (done (pending, k))
  took :
      {k' : Kernel} (c pa : ℕ)
      → 0 < count c (k.pcb p).children
      → matches pid c ≡ true
      → is_zombie (k.pcb c) ≡ true
      → translated_refmut t exit_code_ptr ≡ done pa
      → count c (k'.pcb p).children ≡ 0
      → IsSound (erase c live) k'
      → WaitSpec live k t p pid exit_code_ptr (done (reaped c (k.pcb c).exit_code pa, k'))
  unmapped :
      (c : ℕ)
      → 0 < count c (k.pcb p).children
      → matches pid c ≡ true
      → is_zombie (k.pcb c) ≡ true
      → translated_refmut t exit_code_ptr ≡ panic
      → WaitSpec live k t p pid exit_code_ptr panic

outcome_cases : (o : Outcome ℕ) → (o ≡ panic) ⊎ ((n : ℕ) × (o ≡ done n))
outcome_cases (done n) = inr (n, refl)
outcome_cases panic = inl refl

reap-eq :
    (k : Kernel) (t : PageTable) (exit_code_ptr pa p c : ℕ) (others : List ℕ) (pids : PidAllocator)
    → kernel_refs (record k { pcb = (without k p others pids).pcb }) c ≡ 0
    → translated_refmut t exit_code_ptr ≡ done pa
    → Pid.dealloc k.pids c ≡ done pids
    → reap k t exit_code_ptr p (c, others)
      ≡ done (reaped c (k.pcb c).exit_code pa, without k p others pids)
unfolding reap without
reap-eq k t exit_code_ptr pa p c others pids refs mapped ok = rw (refs, mapped, ok) refl

reap-panic :
    (k : Kernel) (t : PageTable) (exit_code_ptr p c : ℕ) (others : List ℕ) (pids : PidAllocator)
    → kernel_refs (record k { pcb = (without k p others pids).pcb }) c ≡ 0
    → translated_refmut t exit_code_ptr ≡ panic
    → reap k t exit_code_ptr p (c, others) ≡ panic
unfolding reap without
reap-panic k t exit_code_ptr p c others pids refs gone = rw (refs, gone) refl

sys_waitpid-eq :
    (k : Kernel) (t : PageTable) (p pid exit_code_ptr : ℕ)
    → k.current ≡ some p
    → sys_waitpid k t pid exit_code_ptr ≡ wait_for k t pid exit_code_ptr p
unfolding sys_waitpid
sys_waitpid-eq k t p pid exit_code_ptr e =
    ap (λ (o : Option ℕ). unwrap o >>= wait_for k t pid exit_code_ptr) e

module _ (live : List ℕ) (k : Kernel) (t : PageTable) (p pid exit_code_ptr : ℕ) (s : IsSound live k)
    (e : k.current ≡ some p) where
  wait_found :
      (c : ℕ) (others : List ℕ)
      → find_zombie k.pcb pid (k.pcb p).children ≡ some (c, others)
      → WaitSpec live k t p pid exit_code_ptr (reap k t exit_code_ptr p (c, others))
  wait_found c others z =
      let (dead, fits, fewer) = find_zombie-some k.pcb pid (k.pcb p).children others c z in
      let status : (k.pcb c).process_status ≡ zombie = ground (arith, dead) in
      let here = child live k p c others k.pids s e status fewer in
      let (pids, ok, v) =
        (dealloc-erase live k.pids c s.pids).0 (live_c live k p c others k.pids s e status fewer) in
      let refs = no_refs live k p c others pids s e status fewer in
      elim (outcome_cases (translated_refmut t exit_code_ptr)) [
        | inl gone ↦
            rw (reap-panic k t exit_code_ptr p c others pids refs gone)
              (unmapped c here fits dead gone)
        | inr (pa, mapped) ↦ rw (reap-eq k t exit_code_ptr pa p c others pids refs mapped ok) (
            took {k' = without k p others pids} c pa here fits dead mapped
              (unfold without in ground (arith, last live k p c others pids s e status fewer))
              (without-IsSound live k p c others pids s e status fewer v))
      ]

  wait_any : WaitSpec live k t p pid exit_code_ptr (wait_for k t pid exit_code_ptr p)
  wait_any = elim (Bool-cases (any_match pid (k.pcb p).children)) [
    | inl a ↦ elim (Option-cases (find_zombie k.pcb pid (k.pcb p).children)) [
      | inl z ↦
          let (c, m, f) = any_match-some pid (k.pcb p).children a in
          let none_is : (d : ℕ)
              → 0 < count d (k.pcb p).children
              → matches pid d ≡ true
              → is_zombie (k.pcb d) ≡ false =
            λ d. find_zombie-none k.pcb pid (k.pcb p).children d z in
          unfold wait_for in rw (a, z) (none_dead c m f none_is)
      | inr ((c, others), z) ↦ unfold wait_for in rw (a, z) (wait_found c others z)
    ]
    | inr a ↦ unfold wait_for in rw a (none_match (λ c. any_match-none pid (k.pcb p).children c a))
  ]

-- In a sound table `sys_waitpid` answers -1 when no child matches, -2 when a child matches but no
-- matching child is a zombie, and otherwise takes a matching zombie from the children, which has no
-- other strong reference, writes its exit code where the page table translates the pointer, returns
-- its pid, and gives the pid back, with the table sound. It panics only when there is such a zombie
-- and the pointer is not translated.
pub sys_waitpid-WaitSpec :
    (live : List ℕ) (k : Kernel) (t : PageTable) (p pid exit_code_ptr : ℕ)
    → IsSound live k
    → k.current ≡ some p
    → WaitSpec live k t p pid exit_code_ptr (sys_waitpid k t pid exit_code_ptr)
sys_waitpid-WaitSpec live k t p pid exit_code_ptr s e =
    rw (sys_waitpid-eq k t p pid exit_code_ptr e) (wait_any live k t p pid exit_code_ptr s e)
