-- ===== src/Fs/Descriptors/Lowest.antt =====
-- The system calls on descriptors.
use nimloth_os.Prelude.{
  ℕ, ◌≡◌, ◌≢◌, ◌<◌, refl, inl, inr, ap, sym, Bool-cases, Option-cases, false, Option, none, some,
  List, ◌==◌, leb, if◌then◌else◌, length, set, arith, ◌∙◌, ==_refl, ltb,
}
use nimloth_os.Fs.Descriptors.{install, file_at, sys_close, sys_dup, pipe_fds}
use nimloth_os.Fs.Descriptors.Table.{file_at-set, file_at-beyond, Lowest, install-Opened}

order : (r w : ℕ) → r ≢ w → (w < r → ⊥) → r < w
order r w n h = elim (Bool-cases (ltb w r)) [
  | inl e ↦ absurd (h (ground arith))
  | inr e ↦ ground arith
]

module _ {F : Type 0} where
  swap_tests :
      (r w i : ℕ) (x y z a b : Option F)
      → r ≢ w
      → x ≡ (if w == i then b else y)
      → y ≡ (if r == i then a else z)
      → x ≡ (if r == i then a else if w == i then b else z)
  swap_tests r w i x y z a b n e f = elim (Bool-cases (w == i)) [
    | inl p ↦ let q : (r == i) ≡ false = ground arith in rw (p, q) (rw p at e)
    | inr p ↦ rw p ((rw p at e) ∙ f)
  ]

  -- `pipe_fds` puts the read end at the lowest free descriptor and the write end at the next one, which
  -- is another; every other descriptor keeps its file.
  pub pipe_fds_lem :
      (table : List (Option F)) (pipe_read pipe_write : F)
      → let r = pipe_fds table pipe_read pipe_write in
        Lowest table r.0.0
        × (r.0.0 < r.0.1)
        × ((i : ℕ) → r.0.0 < i → i < r.0.1 → file_at table i ≢ none)
        × ((i : ℕ)
            → file_at r.1 i ≡ (
                if r.0.0 == i
                then some pipe_read
                else if r.0.1 == i
                then some pipe_write
                else file_at table i))
  unfolding pipe_fds
  pipe_fds_lem table pipe_read pipe_write =
      let a = install-Opened table pipe_read in
      let t1 = (install table pipe_read).1 in
      let r = (install table pipe_read).0 in
      let b = install-Opened t1 pipe_write in
      let w = (install t1 pipe_write).0 in
      let differs : r ≢ w = λ e.
        let c : file_at t1 w ≡ some pipe_read = a.changed w ∙ (rw (sym e, ==_refl r) refl) in
        cc (c, b.lowest.free) in
      let apart : (r == w) ≡ false = ground arith in
      let w_free : file_at table w ≡ none = sym (a.changed w ∙ (rw apart refl)) ∙ b.lowest.free in
      (
        a.lowest,
        order r w differs λ l. a.lowest.used w l w_free,
        λ i l h e.
            let n : (r == i) ≡ false = ground arith in b.lowest.used i h (a.changed i ∙ (rw n e)),
        λ i.
            swap_tests r w i _ _ (file_at table i) (some pipe_read) (some pipe_write) differs
              (b.changed i) (a.changed i),
      )

  shadow :
      (fd i : ℕ) (x y z a : Option F)
      → x ≡ (if fd == i then a else y)
      → y ≡ (if fd == i then none else z)
      → x ≡ (if fd == i then a else z)
  shadow fd i x y z a e f = elim (Bool-cases (fd == i)) [
    | inl p ↦ rw p (rw p at e)
    | inr p ↦ rw p ((rw p at e) ∙ (rw p at f))
  ]

  Lowest-unique : {table : List (Option F)} {a b : ℕ} → Lowest table a → Lowest table b → a ≡ b
  Lowest-unique {table} {a} {b} p q = elim (Bool-cases (ltb a b)) [
    | inl e ↦ absurd (q.used a (ground arith) p.free)
    | inr e ↦ elim (Bool-cases (ltb b a)) [
      | inl d ↦ absurd (p.used b (ground arith) q.free)
      | inr d ↦ ground arith
    ]
  ]

  in_range : (table : List (Option F)) (fd : ℕ) → file_at table fd ≢ none → fd < length table
  in_range table fd h = elim (Bool-cases (ltb fd (length table))) [
    | inl e ↦ ground arith
    | inr e ↦ absurd (h (file_at-beyond table fd (ground arith)))
  ]

  close_used :
      (table : List (Option F)) (fd : ℕ)
      → file_at table fd ≢ none
      → sys_close table fd ≡ (some 0, set table fd none)
  unfolding sys_close
  close_used table fd h =
      let l = in_range table fd h in
      let c : leb (length table) fd ≡ false = ground arith in
      elim (Option-cases (file_at table fd)) [
        | inl e ↦ absurd (h e)
        | inr (file, e) ↦
            rw c
              (λ i. elim (e i) [ none ↦ (none, table) | some file ↦ (some 0, set table fd none) ])
      ]

  dup_used :
      (table : List (Option F)) (fd : ℕ) (file : F)
      → file_at table fd ≡ some file
      → sys_dup table fd ≡ (some (install table file).0, (install table file).1)
  unfolding sys_dup
  dup_used table fd file e =
      let l = in_range table fd λ n. cc (e, n) in
      let c : leb (length table) fd ≡ false = ground arith in
      rw c (λ i. elim (e i) [
        | none ↦ (none, table)
        | some file ↦ (some (install table file).0, (install table file).1)
      ])

  -- Closing a descriptor and duplicating another one to it, as a shell redirects: where all descriptors
  -- below `fd` and `fd` itself are in use, `sys_close` of `fd` and then `sys_dup` of another open
  -- descriptor answer 0 and `fd`, and `fd` then has the other's file, with no other descriptor changed.
  pub sys_dup-sys_close :
      (table : List (Option F)) (fd from : ℕ) (file : F)
      → ((i : ℕ) → i < fd → file_at table i ≢ none)
      → file_at table fd ≢ none
      → file_at table from ≡ some file
      → from ≢ fd
      → (table' table'' : List (Option F)) × (sys_close table fd ≡ (some 0, table'))
        × (sys_dup table' from ≡ (some fd, table''))
        × ((i : ℕ) → file_at table'' i ≡ (if fd == i then some file else file_at table i))
  sys_dup-sys_close table fd from file used here source other =
      let t1 = set table fd none in
      let l = in_range table fd here in
      let kept : (i : ℕ) → file_at t1 i ≡ (if fd == i then none else file_at table i) =
        λ i. file_at-set table fd i none l in
      let a = install-Opened t1 file in
      let low : Lowest t1 fd = record {
        free = kept fd ∙ (rw (==_refl fd) refl);
        used = λ i h e.
            let n : (fd == i) ≡ false = ground arith in used i h ((rw n at (sym (kept i))) ∙ e);
      } in
      let same : (install t1 file).0 ≡ fd = Lowest-unique a.lowest low in
      let m : (fd == from) ≡ false = ground arith in
      let moved : file_at t1 from ≡ some file = kept from ∙ (rw m source) in
      (
        t1,
        (install t1 file).1,
        close_used table fd here,
        dup_used t1 from file moved ∙ ap (λ n. (some n, (install t1 file).1)) same,
        λ i. shadow fd i _ _ (file_at table i) (some file) ((rw same at (a.changed i))) (kept i),
      )
