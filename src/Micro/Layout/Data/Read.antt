-- ===== src/Micro/Layout/Data/Read.antt =====
-- `read_at` against a file as a flat sequence of bytes.
use nimloth_os.Prelude.{
  ℕ, zero, suc, ◌+◌, ◌-◌, ◌/◌, ◌%◌, ◌≤◌, ◌<◌, ◌≡◌, refl, ap, ap₂, ◌∙◌, inl, inr, min, Bool-cases,
  ==_eq, true, List, ◌∷◌, ◌++◌, ◌==◌, leb, ltb, arith, Outcome, done, panic,
}
use nimloth_os.Micro.Layout.{Disk, DiskInode, entry, indexed, block_id}
use nimloth_os.Micro.Layout.Data.{bytes_from, block_end, read_loop, read_at}

-- The first position that is out of the three levels.
abbrev pub block_limit : ℕ
block_limit = 2113691

indexed-done : (disk : Disk) (b i : ℕ) → i < 128 → indexed disk b i ≡ done (entry disk b i)
indexed-done disk b i h = let e : ltb i 128 ≡ true = ground (arith, h) in rw e refl

pub block_id-Total :
    (n : DiskInode) (disk : Disk) (i : ℕ) → i < block_limit → (b : ℕ) × (block_id n disk i ≡ done b)
unfolding block_id
block_id-Total n disk i h = elim (Bool-cases (ltb i 27)) [
  | inl a ↦ (n.direct i, rw a refl)
  | inr a ↦ elim (Bool-cases (ltb i 155)) [
    | inl b ↦
        let l : i - 27 < 128 = ground (arith, b) in
        (entry disk n.indirect1 (i - 27), rw (a, b) (indexed-done disk n.indirect1 (i - 27) l))
    | inr b ↦ elim (Bool-cases (ltb i 16539)) [
      | inl c ↦
          let p = i - 155 in
          let l : p / 128 < 128 = ground (arith, c) in
          let k = entry disk n.indirect2 (p / 128) in
          (
            entry disk k (p % 128),
            rw (a, b, c, indexed-done disk n.indirect2 (p / 128) l)
                (indexed-done disk k (p % 128) (omega arith)),
          )
      | inr c ↦
          let p = i - 16539 in
          let l : p / 16384 < 128 = omega (arith, h) in
          let k = entry disk n.indirect3 (p / 16384) in
          let k2 = entry disk k (p % 16384 / 128) in
          (
            entry disk k2 (p % 16384 % 128),
            rw
                (
                  a,
                  b,
                  c,
                  indexed-done disk n.indirect3 (p / 16384) l,
                  indexed-done disk k (p % 16384 / 128) (omega arith),
                )
                (indexed-done disk k2 (p % 16384 % 128) (omega arith)),
          )
    ]
  ]
]

-- A byte of the file by its position: the block that `block_id` names, at the offset in it.
abbrev number_or_zero : Outcome ℕ → ℕ
number_or_zero (done b) = b
number_or_zero panic = 0

abbrev pub data_block : DiskInode → Disk → ℕ → ℕ
data_block n disk i = number_or_zero (block_id n disk i)

abbrev pub file_byte : DiskInode → Disk → ℕ → ℕ
file_byte n disk k = disk (data_block n disk (k / 512)) (k % 512)

pub block_id-data_block :
    (n : DiskInode) (disk : Disk) (i : ℕ)
    → i < block_limit
    → block_id n disk i ≡ done (data_block n disk i)
block_id-data_block n disk i h = let (b, e) = block_id-Total n disk i h in rw e refl

pub bytes_from-ext :
    (f g : ℕ → ℕ) (a b m : ℕ)
    → ((i : ℕ) → i < m → f (a + i) ≡ g (b + i))
    → bytes_from f a m ≡ bytes_from g b m
bytes_from-ext f g a b zero h = refl
bytes_from-ext f g a b (suc m) h =
    let za : a + 0 ≡ a = omega arith in
    let zb : b + 0 ≡ b = omega arith in
    let first : f (a + 0) ≡ g (b + 0) = h 0 (omega arith) in
    ap₂ (λ (x : ℕ) (xs : List ℕ). x ∷ xs) (rw (za, zb) at first)
      (bytes_from-ext f g (suc a) (suc b) m λ i l.
        let sa : a + suc i ≡ suc a + i = omega arith in
        let sb : b + suc i ≡ suc b + i = omega arith in
        let next : f (a + suc i) ≡ g (b + suc i) = h (suc i) (omega (arith, l)) in
        rw (sa, sb) at next)

pub bytes_from-append :
    (f : ℕ → ℕ) (a m k : ℕ) → bytes_from f a m ++ bytes_from f (a + m) k ≡ bytes_from f a (m + k)
bytes_from-append f a zero k =
    let e : a + 0 ≡ a = omega arith in let z : 0 + k ≡ k = omega arith in rw (e, z) refl
bytes_from-append f a (suc m) k =
    let e : a + suc m ≡ suc a + m = omega arith in
    let z : suc m + k ≡ suc (m + k) = omega arith in
    rw (e, z) (ap (λ (xs : List ℕ). f a ∷ xs) (bytes_from-append f (suc a) m k))

read_loop_lem :
    (rounds : ℕ) (n : DiskInode) (disk : Disk) (start stop : ℕ)
    → start < stop
    → stop ≤ 1082209792
    → stop - start ≤ rounds
    → read_loop rounds n disk (start / 512) start stop
      ≡ done (bytes_from (file_byte n disk) start (stop - start))
unfolding read_loop
read_loop_lem zero n disk start stop l m h = absurd (omega (arith, l, h))
read_loop_lem (suc rounds) n disk start stop l m h =
    let next = block_end start stop in
    let b = data_block n disk (start / 512) in
    let lo : start < next = omega (arith, l) in
    let piece : bytes_from (disk b) (start % 512) (next - start)
        ≡ bytes_from (file_byte n disk) start (next - start) =
      bytes_from-ext (disk b) (file_byte n disk) (start % 512) start (next - start) λ i k.
        let q : (start + i) / 512 ≡ start / 512 = omega (arith, k) in
        let r : (start + i) % 512 ≡ start % 512 + i = omega (arith, k) in rw (q, r) refl in
    rw (block_id-data_block n disk (start / 512) (omega (arith, l, m)))
      (elim (Bool-cases (next == stop)) [
        | inl e ↦
            let s : next ≡ stop = ==_eq next stop e in
            rw e
              (ap done (piece ∙ ap (λ (j : ℕ). bytes_from (file_byte n disk) start (j - start)) s))
        | inr e ↦
            let lt : next < stop = ground (arith, e) in
            let rest = read_loop_lem rounds n disk next stop lt m (omega (arith, lo, h)) in
            let sb : next / 512 ≡ suc (start / 512) = omega (arith, lt) in
            let rest' = rw sb at rest in
            let whole : (next - start) + (stop - next) ≡ stop - start = omega (arith, lo, lt) in
            let at_next : start + (next - start) ≡ next = omega (arith, lo) in
            let joined = bytes_from-append (file_byte n disk) start (next - start) (stop - next) in
            rw (e, rest', piece) (ap done (rw (at_next, whole) at joined))
      ])

-- For a file of at most 1082209792 bytes, which is all that three levels of index blocks can reach,
-- `read_at` gives the bytes of the file from the offset on, as many as the buffer takes and the file
-- has, across all levels of index blocks, and does not panic.
pub read_at_lem :
    (n : DiskInode) (disk : Disk) (offset len : ℕ)
    → n.size ≤ 1082209792
    → read_at n disk offset len
      ≡ done (bytes_from (file_byte n disk) offset (min (offset + len) n.size - offset))
unfolding read_at
read_at_lem n disk offset len h = elim (Bool-cases (leb (min (offset + len) n.size) offset)) [
  | inl e ↦ let z : min (offset + len) n.size - offset ≡ 0 = ground (arith, e) in rw (e, z) refl
  | inr e ↦
      let l : offset < min (offset + len) n.size = ground (arith, e) in
      rw e (
        read_loop_lem (min (offset + len) n.size - offset) n disk offset (min (offset + len) n.size)
          l (omega (arith, h)) (omega arith))
]
