-- ===== src/Process/Manager.antt =====
-- os/src/process/manager.rs: the multi-level feedback queues. A process is named by its pid.
pub mod Order
use nimloth_os.Prelude.{
  ℕ, zero, suc, ◌+◌, ◌-◌, ◌*◌, ◌/◌, ◌%◌, ◌^◌, min, Option, none, some, List, [], ◌∷◌, ◌++◌,
  get_elem?, set, Outcome, done, panic, unwrap, ◌>>=◌,
}

abbrev pub mlfq_queue_count : ℕ
mlfq_queue_count = 4

abbrev pub clock_freq : ℕ
clock_freq = 12500000

abbrev pub mlfq_base_time_slice : ℕ
mlfq_base_time_slice = clock_freq / 100

pub record ProcessManager : Type 0 where
  pub ready_queues : List (List ℕ)
  pub time_slices : List ℕ
  pub queue_count : ℕ

-- The loop of `new`, `n` rounds from `i`.
new_loop : ℕ → ℕ → List (List ℕ) → List ℕ → List (List ℕ) × List ℕ
new_loop zero i queues slices = (queues, slices)
new_loop (suc n) i queues slices =
    new_loop n (i + 1) (queues ++ ([] ∷ [])) (slices ++ (mlfq_base_time_slice * 2 ^ i ∷ []))

unfoldable pub new : ProcessManager
unfolding new_loop
new =
    let (queues, slices) = new_loop mlfq_queue_count 0 [] [] in
    record { ready_queues = queues; time_slices = slices; queue_count = mlfq_queue_count }

abbrev pub queue_idx : ProcessManager → ℕ → ℕ
queue_idx m priority = min priority ((m.queue_count + (2 ^ 64 - 1)) % 2 ^ 64)

unfoldable pub add : ProcessManager → ℕ → ℕ → Outcome ProcessManager
add m process priority = do
  queue ← unwrap (get_elem? m.ready_queues (queue_idx m priority))
  done (record m {
    ready_queues = set m.ready_queues (queue_idx m priority) (queue ++ (process ∷ []));
  })

unfoldable pub fetch_queues : List (List ℕ) → Option ℕ × List (List ℕ)
fetch_queues [] = (none, [])
fetch_queues ([] ∷ queues) = let (found, queues') = fetch_queues queues in (found, [] ∷ queues')
fetch_queues ((process ∷ queue) ∷ queues) = (some process, queue ∷ queues)

unfoldable pub fetch : ProcessManager → Option ℕ × ProcessManager
fetch m =
    let (found, queues) = fetch_queues m.ready_queues in (found, record m { ready_queues = queues })

unfoldable pub get_time_slice : ProcessManager → ℕ → Outcome ℕ
get_time_slice m priority = unwrap (get_elem? m.time_slices (queue_idx m priority))
