-- ===== src/Log/Message/Bounds.antt =====
-- `deserialize` reads no byte out of range.
use nimloth_os.Prelude.{
  ℕ, zero, suc, ◌+◌, ◌-◌, ◌≡◌, ◌<◌, ◌≤◌, refl, inl, inr, Bool-cases, false, Option, none, some,
  List, [], ◌∷◌, ltb, length, get_elem?, take, drop, arith, Outcome, done, ◌>>=◌,
}
use nimloth_os.Log.Message.{
  LogLevel, index, slice, level_of, deserialize, deserialize_body, deserialize_numbers,
  deserialize_texts,
}

abbrev pub Total : {A : Type 0} → Outcome A → Type 0
Total {A} o = (r : A) × (o ≡ done r)

Total-bind :
    {A B : Type 0} (o : Outcome A) (f : A → Outcome B)
    → Total o
    → ((x : A) → Total (f x))
    → Total (o >>= f)
Total-bind o f (r, e) h = rw e (h r)

get_elem?-below :
    (bytes : List ℕ) (i : ℕ) → i < length bytes → (x : ℕ) × (get_elem? bytes i ≡ some x)
get_elem?-below [] i h = absurd (omega arith)
get_elem?-below (x ∷ bytes) zero h = (x, refl)
get_elem?-below (x ∷ bytes) (suc i) h = get_elem?-below bytes i (omega arith)

index-Total : (bytes : List ℕ) (i : ℕ) → i < length bytes → Total (index bytes i)
unfolding index
index-Total bytes i h = let (x, e) = get_elem?-below bytes i h in (x, rw e refl)

slice-Total : (bytes : List ℕ) (a b : ℕ) → a ≤ b → b ≤ length bytes → Total (slice bytes a b)
unfolding slice
slice-Total bytes a b h l =
    let c1 : ltb b a ≡ false = ground arith in
    let c2 : ltb (length bytes) b ≡ false = ground arith in
    (take (b - a) (drop a bytes), rw (c1, c2) refl)

module _ (from_utf8_lossy : List ℕ → List ℕ) where
  texts-Total :
      (bytes : List ℕ) (level : LogLevel) (pid cpu_id timestamp a b : ℕ)
      → Total (deserialize_texts from_utf8_lossy bytes level pid cpu_id timestamp a b)
  unfolding deserialize_texts
  texts-Total bytes level pid cpu_id timestamp a b =
      elim (Bool-cases (ltb (length bytes) (13 + a + b))) [
        | inl e ↦ rw e (none, refl)
        | inr e ↦
            let l : 13 + a + b ≤ length bytes = ground arith in
            let (m, em) = slice-Total bytes 13 (13 + a) (omega arith) (omega (arith, l)) in
            let (s, es) = slice-Total bytes (13 + a) (13 + a + b) (omega arith) l in
            rw (em, es, e) (_, refl)
      ]

  numbers-Total :
      (bytes : List ℕ) (level : LogLevel)
      → 12 ≤ length bytes
      → Total (deserialize_numbers from_utf8_lossy bytes level)
  unfolding deserialize_numbers
  numbers-Total bytes level h =
      let (x1, e1) = index-Total bytes 1 (omega (arith, h)) in
      let (x2, e2) = index-Total bytes 2 (omega (arith, h)) in
      let (x3, e3) = index-Total bytes 3 (omega (arith, h)) in
      let (x4, e4) = index-Total bytes 4 (omega (arith, h)) in
      let (x5, e5) = index-Total bytes 5 (omega (arith, h)) in
      let (x6, e6) = index-Total bytes 6 (omega (arith, h)) in
      let (x7, e7) = index-Total bytes 7 (omega (arith, h)) in
      let (x8, e8) = index-Total bytes 8 (omega (arith, h)) in
      let (x9, e9) = index-Total bytes 9 (omega (arith, h)) in
      rw (e1, e2, e3, e4, e5, e6, e7, e8, e9)
        (elim (Bool-cases (ltb (length bytes) 13)) [
          | inl e ↦ rw e (none, refl)
          | inr e ↦
              let l : 13 ≤ length bytes = ground arith in
              let (x10, e10) = index-Total bytes 10 (omega (arith, l)) in
              let (x11, e11) = index-Total bytes 11 (omega (arith, l)) in
              let (x12, e12) = index-Total bytes 12 (omega (arith, l)) in
              rw (e, e10, e11, e12) (texts-Total bytes level _ _ _ _ _)
        ])

  body-Total :
      (bytes : List ℕ) (level : Option LogLevel)
      → 12 ≤ length bytes
      → Total (deserialize_body from_utf8_lossy bytes level)
  unfolding deserialize_body
  body-Total bytes none h = (none, refl)
  body-Total bytes (some level) h = numbers-Total bytes level h

  -- `deserialize` answers for all bytes, whatever `from_utf8_lossy` does: no index and no slice is out
  -- of range, and no panic is reached.
  pub deserialize-Total : (bytes : List ℕ) → Total (deserialize from_utf8_lossy bytes)
  unfolding deserialize
  deserialize-Total bytes = elim (Bool-cases (ltb (length bytes) 12)) [
    | inl e ↦ rw e (none, refl)
    | inr e ↦
        let l : 12 ≤ length bytes = ground arith in
        let (x, ex) = index-Total bytes 0 (omega (arith, l)) in
        rw (e, ex) (body-Total bytes (level_of x) l)
  ]
