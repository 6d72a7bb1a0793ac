-- ===== src/Micro/Layout/Data/Write.antt =====
-- `write_at` against a file as a flat sequence of bytes.
use nimloth_os.Prelude.{
  ℕ, zero, suc, ◌+◌, ◌-◌, ◌*◌, ◌/◌, ◌%◌, ◌≤◌, ◌<◌, ◌≡◌, ◌≢◌, refl, sym, ◌∙◌, inl, inr, Bool-cases,
  ==_eq, ==_refl, true, false, ◌&&◌, List, [], ◌∷◌, drop, get_or, ◌==◌, leb, ltb, if◌then◌else◌,
  arith, subst, done,
}
use nimloth_os.Micro.Layout.{Disk, DiskInode}
use nimloth_os.Micro.Layout.Data.{block_end, copy_to, write_loop}
use nimloth_os.Micro.Layout.Data.Read.{data_block, block_id-data_block}
use nimloth_os.Micro.Layout.Data.Separate.{IsFile, OnlyData, data_block-kept, IsFile-kept}

-- The bytes of the data blocks after a write of positions `start` to `stop`.
pub record Wrote (n : DiskInode) (count : ℕ) (disk : Disk) (start stop : ℕ) (bytes : List ℕ)
    (disk' : Disk) : Type 0 where
  pub only : OnlyData n count disk disk'
  pub bytes_at :
      (i k : ℕ)
      → i < count
      → k < 512
      → disk' (data_block n disk i) k ≡ (
          if leb start (512 * i + k) && ltb (512 * i + k) stop
          then get_or bytes (512 * i + k - start) 0
          else disk (data_block n disk i) k)

pub ==_ne : (a b : ℕ) → a ≢ b → (a == b) ≡ false
==_ne a b h = elim (Bool-cases (a == b)) [ inl e ↦ absurd (h (==_eq a b e)) | inr e ↦ e ]

pub copy_to-Wrote :
    (n : DiskInode) (count : ℕ) (disk : Disk) (start next : ℕ) (bytes : List ℕ)
    → IsFile n disk count
    → start / 512 < count
    → start ≤ next
    → next ≤ (start / 512 + 1) * 512
    → Wrote n count disk start next bytes
        (copy_to disk (data_block n disk (start / 512)) (start % 512) (next - start) bytes)
unfolding copy_to
copy_to-Wrote n count disk start next bytes v l lo hi = record {
  only = λ b k free. let e = ==_ne d0 b (free (start / 512) l) in rw e refl;
  bytes_at = λ i k m small. elim (Bool-cases (start / 512 == i)) [
    | inl e ↦
        let s : start / 512 ≡ i = ==_eq (start / 512) i e in
        rw s (inside i k (disk (data_block n disk i) k) small s)
    | inr e ↦
        let ne : d0 ≢ data_block n disk i =
          λ q. cc (==_refl i, rw (v.distinct (start / 512) i l m q) at e) in
        rw (==_ne d0 (data_block n disk i) ne) (outside i k (disk (data_block n disk i) k) small e)
  ];
}
  where
    d0 : ℕ
    d0 = data_block n disk (start / 512)

    inside :
        (i k old : ℕ)
        → k < 512
        → start / 512 ≡ i
        → (if (data_block n disk i == data_block n disk i)
              && (leb (start % 512) k && ltb k (start % 512 + (next - start)))
            then get_or bytes (k - start % 512) 0
            else old)
          ≡ (if leb start (512 * i + k) && ltb (512 * i + k) next
              then get_or bytes (512 * i + k - start) 0
              else old)
    inside i k old small s =
        let a : leb (start % 512) k ≡ leb start (512 * i + k) = ground (arith, s) in
        let b : ltb k (start % 512 + (next - start)) ≡ ltb (512 * i + k) next =
          ground (arith, s, lo) in
        let c : k - start % 512 ≡ 512 * i + k - start = omega (arith, s) in
        rw (==_refl (data_block n disk i), a, b, c) refl

    outside :
        (i k old : ℕ)
        → k < 512
        → (start / 512 == i) ≡ false
        → old ≡ (
            if leb start (512 * i + k) && ltb (512 * i + k) next
            then get_or bytes (512 * i + k - start) 0
            else old)
    outside i k old small e = ground (arith, small, e, lo, hi)

get_or-drop : (m x : ℕ) (bytes : List ℕ) → get_or (drop m bytes) x 0 ≡ get_or bytes (m + x) 0
get_or-drop zero x bytes = let e : 0 + x ≡ x = omega arith in rw e refl
get_or-drop (suc m) x [] = refl
get_or-drop (suc m) x (v ∷ bytes) =
    let e : suc m + x ≡ suc (m + x) = omega arith in rw e (get_or-drop m x bytes)

Wrote-trans :
    (n : DiskInode) (count : ℕ) (disk disk1 disk2 : Disk) (start next stop : ℕ) (bytes : List ℕ)
    → IsFile n disk count
    → start ≤ next
    → next ≤ stop
    → Wrote n count disk start next bytes disk1
    → Wrote n count disk1 next stop (drop (next - start) bytes) disk2
    → Wrote n count disk start stop bytes disk2
Wrote-trans n count disk disk1 disk2 start next stop bytes v lo hi w x =
    let kept = data_block-kept n disk disk1 count v w.only in
    record {
      only = λ b k free. x.only b k (λ j l e. free j l (sym (kept j l) ∙ e)) ∙ w.only b k free;
      bytes_at = λ i k l small.
          let y = rw (kept i l) at (x.bytes_at i k l small) in
          let z = w.bytes_at i k l small in
          let g = get_or-drop (next - start) (512 * i + k - next) bytes in
          y ∙ (rw (z, g) (join (512 * i + k) (disk (data_block n disk i) k)));
    }
  where
    join :
        (p old : ℕ)
        → (if leb next p && ltb p stop
            then get_or bytes (next - start + (p - next)) 0
            else (if leb start p && ltb p next then get_or bytes (p - start) 0 else old))
          ≡ (if leb start p && ltb p stop then get_or bytes (p - start) 0 else old)
    join p old = elim (Bool-cases (leb next p)) [
      | inl a ↦
          let b : leb start p ≡ true = ground (arith, a, lo) in
          let c : ltb p next ≡ false = ground (arith, a) in
          let d : next - start + (p - next) ≡ p - start = ground (arith, a, lo) in
          rw (a, b, c, d) refl
      | inr a ↦
          let b : ltb p stop ≡ true = ground (arith, a, hi) in
          let c : ltb p next ≡ true = ground (arith, a) in rw (a, b, c) refl
    ]

pub write_loop_lem :
    (rounds : ℕ) (n : DiskInode) (count : ℕ) (disk : Disk) (start stop : ℕ) (bytes : List ℕ)
    → IsFile n disk count
    → start < stop
    → stop ≤ 512 * count
    → stop - start ≤ rounds
    → (disk' : Disk) × (write_loop rounds n disk (start / 512) start stop bytes ≡ done disk')
      × Wrote n count disk start stop bytes disk'
unfolding write_loop
write_loop_lem zero n count disk start stop bytes v l m h = absurd (omega (arith, l, h))
write_loop_lem (suc rounds) n count disk start stop bytes v l m h =
    let next = block_end start stop in
    let lo : start < next = omega (arith, l) in
    let first : start / 512 < count = omega (arith, l, m) in
    let disk1 = copy_to disk (data_block n disk (start / 512)) (start % 512) (next - start) bytes in
    let w = copy_to-Wrote n count disk start next bytes v first (omega (arith, lo)) (omega arith) in
    rw (block_id-data_block n disk (start / 512) (omega (arith, first, v.bounded)))
      (elim (Bool-cases (next == stop)) [
        | inl e ↦
            let s : next ≡ stop = ==_eq next stop e in
            rw e (disk1, refl, subst (λ (q : ℕ). Wrote n count disk start q bytes disk1) s w)
        | inr e ↦
            let lt : next < stop = ground (arith, e) in
            let sb : next / 512 ≡ suc (start / 512) = omega (arith, lt) in
            let bytes1 = drop (next - start) bytes in
            let (disk', r, x) =
              subst
                (λ (j : ℕ).
                  (disk' : Disk) × (write_loop rounds n disk1 j next stop bytes1 ≡ done disk')
                  × Wrote n count disk1 next stop bytes1 disk')
                sb
                (write_loop_lem rounds n count disk1 next stop bytes1
                  (IsFile-kept n disk disk1 count v w.only) lt m (omega (arith, lo, h))) in
            rw e (
              disk',
              r,
              Wrote-trans n count disk disk1 disk' start next stop bytes v (omega (arith, lo))
                  (omega (arith, lt)) w x,
            )
      ])
