-- ===== src/Micro/Layout/Grow/Count.antt =====
-- How many blocks `increase_size` takes from its list.
use nimloth_os.Prelude.{
  ℕ, zero, suc, ◌+◌, ◌-◌, ◌*◌, ◌/◌, ◌≤◌, ◌<◌, ◌≡◌, refl, sym, inl, inr, Bool, Bool-cases, ==_eq,
  true, false, ◌&&◌, ◌||◌, List, [], ◌∷◌, length, ◌==◌, ltb, if◌then◌else◌, arith, subst, Outcome,
  done, ◌>>=◌,
}
use nimloth_os.Micro.Layout.{Disk, set_entry}
use nimloth_os.Micro.Layout.Grow.{
  fill_direct, fill_entries, install, install_if, level2_round, level2_loop, take_if, update,
}

-- A run that takes `k` blocks from the list.
pub record Takes {ℓ} {S : Type ℓ} (k : ℕ) (blocks : List ℕ) (r : Outcome (S × List ℕ))
    : Type ℓ where
  pub state : S
  pub rest : List ℕ
  pub result : r ≡ done (state, rest)
  pub counted : length rest + k ≡ length blocks

pub Takes-bind {ℓ κ} :
    {S : Type ℓ} {T : Type κ} {k j m : ℕ} {blocks : List ℕ} {r : Outcome (S × List ℕ)}
    (f : S × List ℕ → Outcome (T × List ℕ))
    → k + j ≡ m
    → Takes k blocks r
    → ((s : S) (rest : List ℕ) → length rest + k ≡ length blocks → Takes j rest (f (s, rest)))
    → Takes m blocks (r >>= f)
Takes-bind f e t g =
    let u = g t.state t.rest t.counted in
    record {
      state = u.state;
      rest = u.rest;
      result = (rw t.result u.result);
      counted = omega (arith, t.counted, u.counted, e);
    }

pub fill_direct-Takes :
    (n i : ℕ) (direct : ℕ → ℕ) (blocks : List ℕ)
    → n ≤ length blocks
    → Takes n blocks (fill_direct n i direct blocks)
unfolding fill_direct
fill_direct-Takes zero i direct blocks h = record {
  state = direct;
  rest = blocks;
  result = refl;
  counted = omega arith;
}
fill_direct-Takes (suc n) i direct [] h = absurd (omega arith)
fill_direct-Takes (suc n) i direct (v ∷ blocks) h =
    let t = fill_direct-Takes n (suc i) (update direct i v) blocks (omega arith) in
    record { state = t.state; rest = t.rest; result = t.result; counted = omega (arith, t.counted) }

pub fill_entries-Takes :
    (n i b : ℕ) (disk : Disk) (blocks : List ℕ)
    → n ≤ length blocks
    → Takes n blocks (fill_entries n i b disk blocks)
unfolding fill_entries
fill_entries-Takes zero i b disk blocks h = record {
  state = disk;
  rest = blocks;
  result = refl;
  counted = omega arith;
}
fill_entries-Takes (suc n) i b disk [] h = absurd (omega arith)
fill_entries-Takes (suc n) i b disk (v ∷ blocks) h =
    let t = fill_entries-Takes n (suc i) b _ blocks (omega arith) in
    record { state = t.state; rest = t.rest; result = t.result; counted = omega (arith, t.counted) }

install-Takes :
    (disk : Disk) (b i : ℕ) (blocks : List ℕ)
    → i < 128
    → 1 ≤ length blocks
    → Takes 1 blocks (install disk b i blocks)
unfolding install
install-Takes disk b i [] l h = absurd (omega arith)
install-Takes disk b i (v ∷ blocks) l h =
    let e : ltb i 128 ≡ true = ground arith in
    record {
      state = set_entry disk b i v;
      rest = blocks;
      result = (rw e refl);
      counted = omega arith;
    }

abbrev pub one_if : Bool → ℕ
one_if c = if c then 1 else 0

install_if-Takes :
    (c : Bool) (disk : Disk) (b i : ℕ) (blocks : List ℕ)
    → i < 128
    → one_if c ≤ length blocks
    → Takes (one_if c) blocks (install_if c disk b i blocks)
install_if-Takes true disk b i blocks l h = install-Takes disk b i blocks l h
install_if-Takes false disk b i blocks l h = record {
  state = disk;
  rest = blocks;
  result = refl;
  counted = omega arith;
}

pub take_if-Takes :
    (c : Bool) (old : ℕ) (blocks : List ℕ)
    → one_if c ≤ length blocks
    → Takes (one_if c) blocks (take_if c old blocks)
take_if-Takes true old [] h = absurd (omega arith)
take_if-Takes true old (v ∷ blocks) h = record {
  state = v;
  rest = blocks;
  result = refl;
  counted = omega arith;
}
take_if-Takes false old blocks h = record {
  state = old;
  rest = blocks;
  result = refl;
  counted = omega arith;
}

level2_round-Takes :
    (b a0 b0 : ℕ) (disk : Disk) (blocks : List ℕ)
    → a0 < 128
    → b0 < 128
    → one_if (b0 == 0) + 1 ≤ length blocks
    → Takes (one_if (b0 == 0) + 1) blocks (level2_round b a0 b0 disk blocks)
unfolding level2_round
level2_round-Takes b a0 b0 disk blocks la lb h =
    Takes-bind _ refl (install_if-Takes (b0 == 0) disk b a0 blocks la (omega (arith, h)))
      λ s rest e.
        let i : ltb a0 128 ≡ true = ground (arith, la) in
        rw i (install-Takes s _ b0 rest lb (omega (arith, h, e)))

-- The blocks for the positions from `p` to `q` of the second level, index blocks included.
abbrev pub span : ℕ → ℕ → ℕ
span p q = (q - p) + ((q + 127) / 128 - (p + 127) / 128)

pub level2_loop-Takes :
    (n b a0 b0 a1 b1 : ℕ) (disk : Disk) (blocks : List ℕ)
    → b0 < 128
    → b1 < 128
    → 128 * a0 + b0 + n ≡ 128 * a1 + b1
    → 128 * a1 + b1 ≤ 16384
    → span (128 * a0 + b0) (128 * a1 + b1) ≤ length blocks
    → Takes (span (128 * a0 + b0) (128 * a1 + b1)) blocks (level2_loop n b a0 b0 a1 b1 disk blocks)
unfolding level2_loop
level2_loop-Takes zero b a0 b0 a1 b1 disk blocks l0 l1 e m h = record {
  state = disk;
  rest = blocks;
  result = refl;
  counted = omega (arith, e);
}
level2_loop-Takes (suc n) b a0 b0 a1 b1 disk blocks l0 l1 e m h =
    let c : (ltb a0 a1 || ((a0 == a1) && ltb b0 b1)) ≡ true = ground (arith, e) in
    let a : a0 < 128 = omega (arith, e, m, l0) in
    let k : one_if (b0 == 0) + 1 + span (128 * a0 + b0 + 1) (128 * a1 + b1)
        ≡ span (128 * a0 + b0) (128 * a1 + b1) =
      ground (arith, e, l0) in
    rw c (
      Takes-bind _ k (level2_round-Takes b a0 b0 disk blocks a l0 (omega (arith, k, h))) λ s rest u.
        let room : span (128 * a0 + b0 + 1) (128 * a1 + b1) ≤ length rest =
          omega (arith, k, h, u) in
        elim (Bool-cases (b0 + 1 == 128)) [
          | inl d ↦
              let z : b0 + 1 ≡ 128 = ==_eq (b0 + 1) 128 d in
              let w : 128 * a0 + b0 + 1 ≡ 128 * (a0 + 1) + 0 = omega (arith, z) in
              rw d (
                subst
                  (λ (p : ℕ).
                    Takes (span p (128 * a1 + b1)) rest (level2_loop n b (a0 + 1) 0 a1 b1 s rest))
                  (sym w)
                  (level2_loop-Takes n b (a0 + 1) 0 a1 b1 s rest (omega arith) l1
                    (omega (arith, e, z)) m (rw w at room)))
          | inr d ↦
              let w : 128 * a0 + b0 + 1 ≡ 128 * a0 + (b0 + 1) = omega arith in
              rw d (
                subst
                  (λ (p : ℕ).
                    Takes (span p (128 * a1 + b1)) rest (level2_loop n b a0 (b0 + 1) a1 b1 s rest))
                  (sym w)
                  (level2_loop-Takes n b a0 (b0 + 1) a1 b1 s rest (ground (arith, l0, d)) l1
                    (omega (arith, e)) m (rw w at room)))
        ])
