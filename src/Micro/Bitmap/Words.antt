-- ===== src/Micro/Bitmap/Words.antt =====
-- The bits of one word.
use nimloth_os.Prelude.{
  ℕ, zero, suc, ◌+◌, ◌-◌, ◌*◌, ◌/◌, ◌%◌, ◌^◌, ◌≡◌, ◌≢◌, ◌≤◌, ◌<◌, refl, inl, inr, Bool-cases, true,
  false, ◌==◌, if◌then◌else◌, arith,
}
use nimloth_os.Micro.Bitmap.{test_bit, trailing_ones}

pow_two : (k : ℕ) → 2 ^ suc k ≡ 2 * 2 ^ k
pow_two k = omega arith

suc-== : (k j : ℕ) → (suc k == suc j) ≡ (k == j)
suc-== k j = ground arith

zero_suc : (j : ℕ) → (0 == suc j) ≡ false
zero_suc j = ground arith

pow_pos : (n : ℕ) → 1 ≤ 2 ^ n
pow_pos zero = omega arith
pow_pos (suc n) = rw (pow_two n) (omega (arith, pow_pos n))

pub test_bit-add :
    (k j word : ℕ)
    → test_bit word k ≡ false
    → test_bit (word + 2 ^ k) j ≡ (if k == j then true else test_bit word j)
unfolding test_bit
test_bit-add zero zero word h = ground arith
test_bit-add zero (suc j) word h =
    let e : (word + 1) / 2 ≡ word / 2 = ground arith in rw (e, zero_suc j) refl
test_bit-add (suc k) zero word h =
    let e : (word + 2 ^ suc k) % 2 ≡ word % 2 = rw (pow_two k) (omega arith) in rw e (ground arith)
test_bit-add (suc k) (suc j) word h =
    let e : (word + 2 ^ suc k) / 2 ≡ word / 2 + 2 ^ k = rw (pow_two k) (omega arith) in
    rw (e, suc-== k j) (test_bit-add k j (word / 2) h)

-- a set bit is part of the word
pub bit_le : (k word : ℕ) → test_bit word k ≡ true → 2 ^ k ≤ word
unfolding test_bit
bit_le zero word h = ground arith
bit_le (suc k) word h = rw (pow_two k) (omega (arith, bit_le k (word / 2) h))

pub test_bit-sub :
    (k j word : ℕ)
    → test_bit word k ≡ true
    → test_bit (word - 2 ^ k) j ≡ (if k == j then false else test_bit word j)
unfolding test_bit
test_bit-sub zero zero word h = ground arith
test_bit-sub zero (suc j) word h =
    let e : (word - 1) / 2 ≡ word / 2 = ground arith in rw (e, zero_suc j) refl
test_bit-sub (suc k) zero word h =
    let l = bit_le k (word / 2) h in
    let e : (word - 2 ^ suc k) % 2 ≡ word % 2 = rw (pow_two k) (omega (arith, l)) in
    rw e (ground arith)
test_bit-sub (suc k) (suc j) word h =
    let l = bit_le k (word / 2) h in
    let e : (word - 2 ^ suc k) / 2 ≡ word / 2 - 2 ^ k = rw (pow_two k) (omega (arith, l)) in
    rw (e, suc-== k j) (test_bit-sub k j (word / 2) h)

pub add_below :
    (n k word : ℕ) → word < 2 ^ n → k < n → test_bit word k ≡ false → word + 2 ^ k < 2 ^ n
unfolding test_bit
add_below zero k word w h t = absurd (omega (arith, h))
add_below (suc n) zero word w h t =
    let w' : word < 2 * 2 ^ n = rw (pow_two n) at w in rw (pow_two n) (ground (arith, pow_pos n))
add_below (suc n) (suc k) word w h t =
    let w' : word < 2 * 2 ^ n = rw (pow_two n) at w in
    let ih = add_below n k (word / 2) (omega (arith, w')) (omega (arith, h)) t in
    rw (pow_two n, pow_two k) (omega (arith, ih))

-- `trailing_ones` finds the lowest clear bit of a word that is not full.
pub trailing_below : (n word : ℕ) → word < 2 ^ n → word ≢ 2 ^ n - 1 → trailing_ones n word < n
unfolding trailing_ones
trailing_below zero word h ne = absurd (ne (omega (arith, h)))
trailing_below (suc n) word h ne =
    let h' : word < 2 * 2 ^ n = rw (pow_two n) at h in
    let ne' : word ≢ 2 * 2 ^ n - 1 = rw (pow_two n) at ne in
    elim (Bool-cases (word % 2 == 1)) [
      | inl e ↦
          let odd : word % 2 ≡ 1 = ground arith in
          let ih =
            trailing_below n (word / 2) (omega (arith, h'))
              λ q. ne' (omega (arith, q, odd, pow_pos n)) in
          rw e (omega (arith, ih))
      | inr e ↦ rw e (omega arith)
    ]

pub trailing_clear :
    (n word : ℕ) → trailing_ones n word < n → test_bit word (trailing_ones n word) ≡ false
unfolding trailing_ones test_bit
trailing_clear zero word h = absurd (omega (arith, h))
trailing_clear (suc n) word h = elim (Bool-cases (word % 2 == 1)) [
  | inl e ↦
      let h' : suc (trailing_ones n (word / 2)) < suc n = rw e at h in
      rw e (trailing_clear n (word / 2) (omega (arith, h')))
  | inr e ↦ rw e e
]

pub trailing_set : (n word j : ℕ) → j < trailing_ones n word → test_bit word j ≡ true
unfolding trailing_ones test_bit
trailing_set zero word j h = absurd (omega (arith, h))
trailing_set (suc n) word zero h = ground (arith, h)
trailing_set (suc n) word (suc j) h = elim (Bool-cases (word % 2 == 1)) [
  | inl e ↦
      let h' : suc j < suc (trailing_ones n (word / 2)) = rw e at h in
      trailing_set n (word / 2) j (omega (arith, h'))
  | inr e ↦ let h' : suc j < 0 = rw e at h in absurd (omega (arith, h'))
]

pub full_set : (n word j : ℕ) → word ≡ 2 ^ n - 1 → j < n → test_bit word j ≡ true
unfolding test_bit
full_set zero word j e h = absurd (omega (arith, h))
full_set (suc n) word zero e h =
    let e' : word ≡ 2 * 2 ^ n - 1 = rw (pow_two n) at e in
    let odd : word % 2 ≡ 1 = omega (arith, e', pow_pos n) in rw odd refl
full_set (suc n) word (suc j) e h =
    let e' : word ≡ 2 * 2 ^ n - 1 = rw (pow_two n) at e in
    full_set n (word / 2) j (omega (arith, e', pow_pos n)) (omega (arith, h))
