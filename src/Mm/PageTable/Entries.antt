-- ===== src/Mm/PageTable/Entries.antt =====
-- Writing the entry that a walk has found.
use nimloth_os.Prelude.{
  ℕ, ◌<◌, ◌≡◌, ◌≢◌, refl, ap, sym, inl, inr, Bool-cases, none, some, List, [], ◌∷◌, arith, length,
  ◌∙◌,
}
use nimloth_os.Mm.Pte.{ppn_of, is_valid}
use nimloth_os.Mm.PageTable.{PageTable, Frames, walk, put, write_pte}
use nimloth_os.Mm.PageTable.Tree.{Role, depth, depth-linked, full, full-child, IsTree, leaf}

pub put-same : (mem : Frames) (q k v : ℕ) → put mem q k v q k ≡ v
put-same mem q k v = ground arith

put-other : (mem : Frames) (q k v p i : ℕ) → (p ≡ q → i ≡ k → ⊥) → put mem q k v p i ≡ mem p i
put-other mem q k v p i n = ground (arith, n)

-- Where a table is missing there is no entry.
pub walk-leaf :
    (mem : Frames) (path : List ℕ) (p : ℕ) → walk mem p path ≡ none → leaf mem p path ≡ 0
unfolding walk leaf
walk-leaf mem [] p e = refl
walk-leaf mem (i ∷ []) p e = cc e
walk-leaf mem (i ∷ j ∷ path) p e = elim (Bool-cases (is_valid (mem p i))) [
  | inl v ↦ rw v (walk-leaf mem (j ∷ path) (ppn_of (mem p i)) (rw v at e))
  | inr v ↦ rw v refl
]

module _ {l : ℕ} {live : List ℕ} {role : ℕ → Role} {t : PageTable} (s : IsTree l live role t) where
  -- A walk ends at the table and the index of its path.
  pub walk-full :
      (path : List ℕ) (p q k : ℕ)
      → length path ≡ depth (role p)
      → walk t.mem p path ≡ some (q, k)
      → (depth (role q) ≡ 1)
        × (full (role q) (k ∷ []) ≡ full (role p) path)
        × (leaf t.mem p path ≡ t.mem q k)
  unfolding walk leaf
  walk-full [] p q k n e = cc e
  walk-full (i ∷ []) p q k n e =
      let ep : p ≡ q = cc e in
      let ei : i ≡ k = cc e in (rw (sym ep) (sym n), rw (ep, ei) refl, rw (ep, ei) refl)
  walk-full (i ∷ j ∷ path) p q k n e = elim (Bool-cases (is_valid (t.mem p i))) [
    | inl v ↦
        let inner : 1 < depth (role p) = omega (arith, n) in
        let d = depth-linked s p i inner v in
        let (a, b, c) =
          walk-full (j ∷ path) (ppn_of (t.mem p i)) q k (omega (arith, n, d)) (rw v at e) in
        (a, b ∙ (rw (s.linked p i inner v) (full-child (role p) i (j ∷ path) inner)), rw v c)
    | inr w ↦ cc (rw w at e)
  ]

  module _ (q k v : ℕ) (last : depth (role q) ≡ 1) where
    apart : (p i : ℕ) → 1 < depth (role p) → put t.mem q k v p i ≡ t.mem p i
    apart p i h =
        put-other t.mem q k v p i λ e _. omega (arith, h, last, ap (λ (x : ℕ). depth (role x)) e)

    -- Writing the entry that a walk has found changes what that walk finds,
    pub put-walk :
        (path : List ℕ) (p : ℕ)
        → length path ≡ depth (role p)
        → walk t.mem p path ≡ some (q, k)
        → walk (put t.mem q k v) p path ≡ some (q, k)
    unfolding walk
    put-walk [] p n e = e
    put-walk (i ∷ []) p n e = e
    put-walk (i ∷ j ∷ path) p n e = elim (Bool-cases (is_valid (t.mem p i))) [
      | inl w ↦
          let inner : 1 < depth (role p) = omega (arith, n) in
          let d = depth-linked s p i inner w in
          rw (apart p i inner, w)
            (put-walk (j ∷ path) (ppn_of (t.mem p i)) (omega (arith, n, d)) (rw w at e))
      | inr w ↦ cc (rw w at e)
    ]

    -- and no other.
    pub put-leaf :
        (path : List ℕ) (p : ℕ)
        → length path ≡ depth (role p)
        → full (role p) path ≢ full (role q) (k ∷ [])
        → leaf (put t.mem q k v) p path ≡ leaf t.mem p path
    unfolding leaf
    put-leaf [] p n ne = refl
    put-leaf (i ∷ []) p n ne = put-other t.mem q k v p i λ e f. ne (cc (e, f))
    put-leaf (i ∷ j ∷ path) p n ne = elim (Bool-cases (is_valid (t.mem p i))) [
      | inl w ↦
          let inner : 1 < depth (role p) = omega (arith, n) in
          let d = depth-linked s p i inner w in
          let f : full (role (ppn_of (t.mem p i))) (j ∷ path) ≡ full (role p) (i ∷ j ∷ path) =
            rw (s.linked p i inner w) (full-child (role p) i (j ∷ path) inner) in
          rw (apart p i inner, w)
            (put-leaf (j ∷ path) (ppn_of (t.mem p i)) (omega (arith, n, d)) λ g. ne (sym f ∙ g))
      | inr w ↦ rw (apart p i (omega (arith, n)), w) refl
    ]

    pub put-IsTree : IsTree l live role (write_pte t (q, k) v)
    put-IsTree = record {
      frames = s.frames;
      root = s.root;
      linked = λ p i h w. rw (apart p i h) (s.linked p i h (rw (apart p i h) at w));
      used = s.used;
    }
