-- ===== src/Mm/Address/Ranges.antt =====
-- Iteration over a range of page numbers.
use nimloth_os.Prelude.{
  ℕ, zero, suc, ◌+◌, ◌-◌, ◌^◌, ◌≤◌, ◌<◌, ◌≡◌, some, List, [], ◌∷◌, arith, done, panic,
}
use nimloth_os.Mm.Address.{SimpleRange, range_new, into_iter, collect, next}

-- `n` numbers from `a` on
abbrev pub from_to : ℕ → ℕ → List ℕ
from_to a zero = []
from_to a (suc n) = a ∷ from_to (a + 1) n

collect-from_to :
    (n l end fuel : ℕ)
    → l + n ≡ end
    → end < 2 ^ 64
    → n < fuel
    → collect fuel (record { current = l; end = end }) ≡ some (from_to l n)
unfolding collect next
collect-from_to n l end zero e h k = absurd (omega arith)
collect-from_to zero l end (suc fuel) e h k = ground arith
collect-from_to (suc n) l end (suc fuel) e h k = ground (arith, collect-from_to n (l + 1) end fuel)

-- A range with `start ≤ end` is accepted, and a loop over it visits start, start + 1, …, end - 1 in
-- this order and ends, after one round more than there are items.
pub range_visits :
    (start end : ℕ)
    → start ≤ end
    → end < 2 ^ 64
    → (s : SimpleRange) × (range_new start end ≡ done s)
      × (collect (end - start + 1) (into_iter s) ≡ some (from_to start (end - start)))
unfolding range_new into_iter
range_visits start end h b = (
  record { l = start; r = end },
  ground arith,
  collect-from_to (end - start) start end (end - start + 1) (omega arith) b (omega arith),
)

-- A range with `end < start` is refused by the assertion.
pub range_reversed : (start end : ℕ) → end < start → range_new start end ≡ panic
unfolding range_new
range_reversed start end h = ground arith
