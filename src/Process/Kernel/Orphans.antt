-- ===== src/Process/Kernel/Orphans.antt =====
-- The end of a process: its children go to the root, and it stays as a zombie.
use nimloth_os.Prelude.{
  ℕ, ◌≡◌, ◌≢◌, refl, none, some, List, [], ◌∷◌, ◌++◌, append_assoc, append-nil, arith, ◌==◌,
  ==_refl, if◌then◌else◌, count, contains, erase, true, false, done, ap, fun_ext,
}
use nimloth_os.Process.Kernel.{
  Kernel, Pcb, switched, update, idle_pid, bury, without_children, adopt, exit_current_and_run_next,
}

update_self : (f : ℕ → Pcb) (p : ℕ) (v : Pcb) → update f p v p ≡ v
update_self f p v = rw ==_refl

-- One round of `adopt`.
step : ℕ → (ℕ → Pcb) → ℕ → Pcb
step c f =
    let moved = update f c (record (f c) { parent = some idle_pid }) in
    update moved idle_pid
      (record (moved idle_pid) { children = (moved idle_pid).children ++ (c ∷ []) })

step-root :
    (c : ℕ) (f : ℕ → Pcb)
    → c ≢ idle_pid
    → step c f idle_pid ≡ record (f idle_pid) { children = (f idle_pid).children ++ (c ∷ []) }
unfolding step
step-root c f h = ground arith

step-other :
    (c x : ℕ) (f : ℕ → Pcb)
    → x ≢ idle_pid
    → step c f x ≡ (if c == x then record (f x) { parent = some idle_pid } else f x)
unfolding step
step-other c x f h = ground arith

adopt-step : (c : ℕ) (cs : List ℕ) (f : ℕ → Pcb) → adopt (c ∷ cs) f ≡ adopt cs (step c f)
unfolding adopt step
adopt-step c cs f = refl

adopt-root :
    (cs : List ℕ) (f : ℕ → Pcb)
    → count idle_pid cs ≡ 0
    → adopt cs f idle_pid ≡ record (f idle_pid) { children = (f idle_pid).children ++ cs }
unfolding count
adopt-root [] f h = unfold adopt in rw append-nil refl
adopt-root (c ∷ cs) f h =
    rw
      (
        adopt-step,
        adopt-root cs (step c f) (ground arith),
        step-root c f (ground arith),
        append_assoc,
      )
      refl

adopt-other :
    (cs : List ℕ) (f : ℕ → Pcb) (x : ℕ)
    → x ≢ idle_pid
    → adopt cs f x ≡ (if contains cs x then record (f x) { parent = some idle_pid } else f x)
adopt-other [] f x h = unfold adopt contains in refl
adopt-other (c ∷ cs) f x h =
    rw (adopt-step, adopt-other cs (step c f) x h, step-other c x f h)
      (unfold contains in ground arith)

-- The processes after the exit of p.
unfoldable pub buried : Kernel → ℕ → ℕ → ℕ → Pcb
buried k p code x =
    if x == idle_pid
    then record (k.pcb idle_pid) { children = (k.pcb idle_pid).children ++ (k.pcb p).children }
    else let moved =
        if contains (k.pcb p).children x
        then record (k.pcb x) { parent = some idle_pid }
        else k.pcb x in
      if p == x then without_children (bury code moved) else moved

unfoldable pub exited : Kernel → ℕ → ℕ → Kernel
exited k p code = record k { pid2pcb = erase p k.pid2pcb; current = none; pcb = buried k p code }

module _ (k : Kernel) (p code : ℕ) (root : p ≢ idle_pid)
    (rootless : count idle_pid (k.pcb p).children ≡ 0) where
  dead : ℕ → Pcb
  dead = update k.pcb p (bury code (k.pcb p))

  children-dead : (dead p).children ≡ (k.pcb p).children
  unfolding dead
  children-dead = ground arith

  adopted : ℕ → Pcb
  adopted = adopt (dead p).children dead

  adopted-eq : adopted ≡ adopt (k.pcb p).children dead
  unfolding adopted
  adopted-eq = ap (λ (cs : List ℕ). adopt cs dead) children-dead

  adopted-root :
      adopted idle_pid
      ≡ record (k.pcb idle_pid) { children = (k.pcb idle_pid).children ++ (k.pcb p).children }
  unfolding dead
  adopted-root = rw (adopted-eq, adopt-root (k.pcb p).children dead rootless) (ground arith)

  adopted-other :
      (x : ℕ)
      → x ≢ idle_pid
      → adopted x ≡ (
          let now = if p == x then bury code (k.pcb x) else k.pcb x in
          if contains (k.pcb p).children x then record now { parent = some idle_pid } else now)
  unfolding dead
  adopted-other x h = rw (adopted-eq, adopt-other (k.pcb p).children dead x h) (ground arith)

  finished : (x : ℕ) → update adopted p (without_children (adopted p)) x ≡ buried k p code x
  unfolding buried
  finished x = ground (arith, adopted-root, adopted-other x, adopted-other p root)

  finished_all : update adopted p (without_children (adopted p)) ≡ buried k p code
  finished_all = fun_ext finished

  with_pcb : (ℕ → Pcb) → Kernel
  with_pcb f = record k { pid2pcb = erase p k.pid2pcb; current = none; pcb = f }

  pub exit-eq :
      k.current ≡ some p
      → contains k.pid2pcb p ≡ true
      → exit_current_and_run_next k code ≡ done (switched (exited k p code))
  unfolding exit_current_and_run_next exited with_pcb adopted dead
  exit-eq e c =
      let other : (p == idle_pid) ≡ false = ground arith in
      simp (e, other, c) (ap (λ (f : ℕ → Pcb). done (switched (with_pcb f))) finished_all)
