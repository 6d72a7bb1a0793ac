-- ===== src/Micro/Layout/Dirent.antt =====
-- components/src/micro_fs/layout.rs: the entries of a directory.
use nimloth_os.Prelude.{
  ℕ, suc, ◌+◌, ◌-◌, ◌*◌, ◌/◌, ◌%◌, ◌^◌, ◌≤◌, ◌<◌, ◌≡◌, refl, Bool, true, false, List, [], ◌∷◌, ◌++◌,
  length, length-append, take, take-length_append, get_or, replicate, ◌==◌, leb, if◌then◌else◌,
  arith, subst, Outcome, done, panic, assert, ◌>>=◌, ◌>>◌,
}

abbrev pub name_length_limit : ℕ
name_length_limit = 27

abbrev pub dirent_sz : ℕ
dirent_sz = 32

-- `name` is an array of 28 bytes.
pub record DirEntry : Type 0 where
  pub name : List ℕ
  pub inode_number : ℕ

unfoldable pub empty_entry : DirEntry
empty_entry = record { name = replicate (name_length_limit + 1) 0; inode_number = 0 }

-- `DirEntry::new`: a name that is longer than the array panics.
unfoldable pub new_entry : List ℕ → ℕ → Outcome DirEntry
new_entry name number =
    assert (leb (length name) (name_length_limit + 1))
    >> done (record {
      name = name ++ replicate (name_length_limit + 1 - length name) 0;
      inode_number = number;
    })

-- The index of the first zero; the search runs past an array that has none, and panics.
unfoldable pub find_zero : List ℕ → Outcome ℕ
find_zero [] = panic
find_zero (b ∷ bytes) = if b == 0 then done 0 else (find_zero bytes >>= λ i. done (suc i))

-- `DirEntry::name`, over the test that the bytes are UTF-8.
unfoldable pub name_of : (List ℕ → Bool) → DirEntry → Outcome (List ℕ)
unfolding find_zero
name_of is_utf8 e =
    find_zero e.name >>= λ len. assert (is_utf8 (take len e.name)) >> done (take len e.name)

unfoldable pub as_bytes : DirEntry → List ℕ
as_bytes e =
    let i = e.inode_number in
    e.name ++ (i % 256 ∷ i / 256 % 256 ∷ i / 65536 % 256 ∷ i / 16777216 % 256 ∷ [])

-- The entry in whose bytes `as_bytes_mut` lets a read put 32 bytes.
unfoldable pub from_bytes : List ℕ → DirEntry
from_bytes bytes = record {
  name = take 28 bytes;
  inode_number =
      get_or bytes 28 0
      + 256 * get_or bytes 29 0
      + 65536 * get_or bytes 30 0
      + 16777216 * get_or bytes 31 0;
}

-- A name as the callers pass it has no zero byte.
abbrev pub NonZero : List ℕ → Type 0
NonZero [] = Unit {0}
NonZero (b ∷ bytes) = ((b == 0) ≡ false) × NonZero bytes

find_zero-padded :
    (name : List ℕ) (k : ℕ)
    → NonZero name
    → find_zero (name ++ replicate (suc k) 0) ≡ done (length name)
unfolding find_zero
find_zero-padded [] k h = refl
find_zero-padded (b ∷ name) k (h, hs) = rw (h, find_zero-padded name k hs) refl

find_zero-full : (name : List ℕ) → NonZero name → find_zero (name ++ []) ≡ panic
unfolding find_zero
find_zero-full [] h = refl
find_zero-full (b ∷ name) (h, hs) = rw (h, find_zero-full name hs) refl

-- The name of a new entry is read back when it has at most 27 bytes, none of them zero, and is UTF-8.
-- A name of 28 bytes makes an entry too, but `name` panics on it; a longer one makes no entry.
pub name_of-new_entry :
    (is_utf8 : List ℕ → Bool) (name : List ℕ) (number : ℕ)
    → NonZero name
    → is_utf8 name ≡ true
    → (length name ≤ 27 → (new_entry name number >>= λ e. name_of is_utf8 e) ≡ done name)
      × (length name ≡ 28
          → (e : DirEntry) × (new_entry name number ≡ done e) × (name_of is_utf8 e ≡ panic))
      × (28 < length name → new_entry name number ≡ panic)
unfolding new_entry name_of
name_of-new_entry is_utf8 name number h u = (
  λ l.
      let a : leb (length name) 28 ≡ true = ground (arith, l) in
      let k : 28 - length name ≡ suc (27 - length name) = omega (arith, l) in
      rw
        (
          a,
          k,
          find_zero-padded name (27 - length name) h,
          take-length_append name (replicate (suc (27 - length name)) 0),
          u,
        )
        refl,
  λ e.
      let a : leb (length name) 28 ≡ true = ground (arith, e) in
      let k : 28 - length name ≡ 0 = omega (arith, e) in
      (
        record { name = name ++ replicate (28 - length name) 0; inode_number = number },
        rw a refl,
        rw (k, find_zero-full name h) refl,
      ),
  λ l. let a : leb (length name) 28 ≡ false = ground (arith, l) in rw a refl,
)

get_or-append : (xs ys : List ℕ) (i : ℕ) → get_or (xs ++ ys) (length xs + i) 0 ≡ get_or ys i 0
get_or-append [] ys i = let e : 0 + i ≡ i = omega arith in rw e refl
get_or-append (x ∷ xs) ys i =
    let e : suc (length xs) + i ≡ suc (length xs + i) = omega arith in rw e (get_or-append xs ys i)

DirEntry_eq : {e e' : DirEntry} → e.name ≡ e'.name → e.inode_number ≡ e'.inode_number → e ≡ e'
DirEntry_eq p q = λ i. record { name = p i; inode_number = q i }

-- The 32 bytes of an entry on the disk give the entry back.
pub from_bytes-as_bytes :
    (e : DirEntry)
    → length e.name ≡ 28
    → e.inode_number < 2 ^ 32
    → (length (as_bytes e) ≡ dirent_sz) × (from_bytes (as_bytes e) ≡ e)
unfolding as_bytes from_bytes
from_bytes-as_bytes e h b =
    let i = e.inode_number in
    let tail : List ℕ = i % 256 ∷ i / 256 % 256 ∷ i / 65536 % 256 ∷ i / 16777216 % 256 ∷ [] in
    let at : (k : ℕ) → get_or (e.name ++ tail) (28 + k) 0 ≡ get_or tail k 0 = λ k.
      subst (λ (n : ℕ). get_or (e.name ++ tail) (n + k) 0 ≡ get_or tail k 0) h
        (get_or-append e.name tail k) in
    (
      omega (arith, length-append e.name tail, h),
      DirEntry_eq
          (subst (λ (n : ℕ). take n (e.name ++ tail) ≡ e.name) h (take-length_append e.name tail))
          (rw (at 0, at 1, at 2, at 3) (digits i b)),
    )
  where
    digits :
        (i : ℕ)
        → i < 4294967296
        → i % 256
            + 256 * (i / 256 % 256)
            + 65536 * (i / 65536 % 256)
            + 16777216 * (i / 16777216 % 256)
          ≡ i
    digits i h = omega (arith, h)
