-- ===== src/Fs/Descriptors/Table.antt =====
-- The table as a map from descriptors to files.
use nimloth_os.Prelude.{
  ℕ, zero, suc, ◌+◌, ◌-◌, ◌≡◌, ◌≢◌, ◌<◌, ◌≤◌, refl, false, Option, none, some, List, [], ◌∷◌, ◌++◌,
  ◌==◌, if◌then◌else◌, length, set, arith, length-append, ◌∙◌,
}
use nimloth_os.Fs.Descriptors.{find_free, alloc_fd, install, file_at}

module _ {F : Type 0} where
  pub file_at-set :
      (table : List (Option F)) (fd i : ℕ) (v : Option F)
      → fd < length table
      → file_at (set table fd v) i ≡ (if fd == i then v else file_at table i)
  file_at-set [] fd i v h = absurd (omega arith)
  file_at-set (x ∷ table) zero zero v h = refl
  file_at-set (x ∷ table) zero (suc i) v h =
      let e : (0 == suc i) ≡ false = ground arith in rw e refl
  file_at-set (x ∷ table) (suc fd) zero v h =
      let e : (suc fd == 0) ≡ false = ground arith in rw e refl
  file_at-set (x ∷ table) (suc fd) (suc i) v h =
      let e : (suc fd == suc i) ≡ (fd == i) = ground arith in
      rw e (file_at-set table fd i v (omega (arith, h)))

  pub file_at-beyond : (table : List (Option F)) (i : ℕ) → length table ≤ i → file_at table i ≡ none
  file_at-beyond [] i h = refl
  file_at-beyond (x ∷ table) zero h = absurd (omega arith)
  file_at-beyond (x ∷ table) (suc i) h = file_at-beyond table i (omega arith)

  pub file_at-append :
      (table : List (Option F)) (i : ℕ) → file_at (table ++ (none ∷ [])) i ≡ file_at table i
  file_at-append [] zero = refl
  file_at-append [] (suc i) = refl
  file_at-append (x ∷ table) zero = refl
  file_at-append (x ∷ table) (suc i) = file_at-append table i

  -- A descriptor that is free, with all below it in use.
  pub record Lowest (table : List (Option F)) (fd : ℕ) : Type 0 where
    pub free : file_at table fd ≡ none
    pub used : (i : ℕ) → i < fd → file_at table i ≢ none

  -- What `find_free` finds.
  pub data Free (table : List (Option F)) : Option ℕ → Type 0 where
    free_at : {fd : ℕ} → fd < length table → Lowest table fd → Free table (some fd)
    no_free : ((i : ℕ) → i < length table → file_at table i ≢ none) → Free table none

  Free-cons :
      (file : F) (table : List (Option F)) (r : Option ℕ)
      → Free table r
      → Free (some file ∷ table) (elim r [ none ↦ none | some fd ↦ some (suc fd) ])
  Free-cons file table r (free_at l o) =
      free_at (omega (arith, l)) (record { free = o.free; used = λ i h. used_cons i h o.used })
    where
      used_cons :
          {n : ℕ} (i : ℕ)
          → i < suc n
          → ((j : ℕ) → j < n → file_at table j ≢ none)
          → file_at (some file ∷ table) i ≢ none
      used_cons zero h u = λ e. cc e
      used_cons (suc i) h u = u i (omega (arith, h))
  Free-cons file table r (no_free u) = no_free used_all
    where
      used_all : (i : ℕ) → i < suc (length table) → file_at (some file ∷ table) i ≢ none
      used_all zero h = λ e. cc e
      used_all (suc i) h = u i (omega (arith, h))

  find_free-Free : (table : List (Option F)) → Free table (find_free table)
  unfolding find_free
  find_free-Free [] = no_free λ i h. absurd (omega (arith, h))
  find_free-Free (none ∷ table) =
      free_at (omega arith) (record { free = refl; used = λ i h. absurd (omega (arith, h)) })
  find_free-Free (some file ∷ table) = Free-cons file table (find_free table) (find_free-Free table)

  -- The lowest free descriptor gets the file, and all others stay.
  pub record Opened (table : List (Option F)) (file : F) (r : ℕ × List (Option F)) : Type 0 where
    pub lowest : Lowest table r.0
    pub changed : (i : ℕ) → file_at r.1 i ≡ (if r.0 == i then some file else file_at table i)

  pub install-Opened : (table : List (Option F)) (file : F) → Opened table file (install table file)
  unfolding install alloc_fd
  install-Opened table file = go (find_free table) (find_free-Free table)
    where
      go :
          (r : Option ℕ)
          → Free table r
          → let a : ℕ × List (Option F) = elim r [
            | some fd ↦ (fd, table)
            | none ↦ let table' = table ++ (none ∷ []) in (length table' - 1, table')
          ] in
            Opened table file (a.0, set a.1 a.0 (some file))
      go r (free_at {fd} l o) = record {
        lowest = o;
        changed = λ i. file_at-set table fd i (some file) l;
      }
      go r (no_free u) =
          let n : length (table ++ (none ∷ [])) ≡ length table + 1 =
            omega (arith, length-append table (none ∷ [])) in
          let m : length (table ++ (none ∷ [])) - 1 ≡ length table = omega (arith, n) in
          record {
            lowest = record {
              free = rw m (file_at-beyond table (length table) (omega arith));
              used = λ i h. u i (omega (arith, h, m));
            };
            changed = λ i. rw m (
                file_at-set (table ++ (none ∷ [])) (length table) i (some file) (omega (arith, n))
                ∙ (rw (file_at-append table i) refl));
          }
