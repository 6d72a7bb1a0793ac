-- ===== src/Process/Manager/Order.antt =====
-- The order in which ready processes are dispatched.
use nimloth_os.Prelude.{
  ℕ, zero, suc, ◌+◌, ◌*◌, ◌^◌, ◌≤◌, ◌<◌, min, ◌≡◌, refl, ap, sym, ◌∙◌, ◌==◌, if◌then◌else◌, Option,
  none, some, List, [], ◌∷◌, ◌++◌, append_assoc, append-nil, arith, length, get_elem?, get_or,
  get_elem?-eq-get_or, set, length-set, take, drop, count, count-append, done,
}
use nimloth_os.Process.Manager.{
  ProcessManager, mlfq_queue_count, mlfq_base_time_slice, queue_idx, new, add, fetch_queues, fetch,
  get_time_slice,
}

-- All ready processes, those of the first queue first.
unfoldable pub flat : List (List ℕ) → List ℕ
flat [] = []
flat (q ∷ qs) = q ++ flat qs

abbrev pub ready_list : ProcessManager → List ℕ
ready_list m = flat m.ready_queues

-- The shape that `new` sets up.
pub record IsValid (m : ProcessManager) : Type 0 where
  pub queues : length m.ready_queues ≡ mlfq_queue_count
  pub slices : m.time_slices ≡ new.time_slices
  pub counted : m.queue_count ≡ mlfq_queue_count

abbrev pub pop : List ℕ → Option ℕ × List ℕ
pop [] = (none, [])
pop (p ∷ l) = (some p, l)

fetch_queues_lem :
    (qs : List (List ℕ)) → let (found, qs') = fetch_queues qs in (found, flat qs') ≡ pop (flat qs)
unfolding fetch_queues flat
fetch_queues_lem [] = refl
fetch_queues_lem ([] ∷ qs) = fetch_queues_lem qs
fetch_queues_lem ((p ∷ q) ∷ qs) = refl

-- `fetch` takes the first process in dispatch order, and leaves the others in their order; it
-- answers `None` exactly when no process is ready.
pub fetch-pop :
    (m : ProcessManager) → let (found, m') = fetch m in (found, ready_list m') ≡ pop (ready_list m)
unfolding fetch
fetch-pop m = fetch_queues_lem m.ready_queues

flat-set :
    (qs : List (List ℕ)) (i p : ℕ)
    → i < length qs
    → flat (set qs i (get_or qs i [] ++ (p ∷ [])))
      ≡ flat (take (suc i) qs) ++ (p ∷ flat (drop (suc i) qs))
unfolding flat
flat-set [] i p h = absurd (omega arith)
flat-set (q ∷ qs) zero p h = simp (append-nil, append_assoc)
flat-set (q ∷ qs) (suc i) p h = rw (flat-set qs i p (omega arith)) (simp append_assoc)

abbrev pub level : ℕ → ℕ
level priority = min priority 3

added : ProcessManager → ℕ → ℕ → ProcessManager
added m p priority = record m {
  ready_queues =
      set m.ready_queues (level priority) (get_or m.ready_queues (level priority) [] ++ (p ∷ []));
}

add-eq :
    (m : ProcessManager) (p priority : ℕ) → IsValid m → add m p priority ≡ done (added m p priority)
unfolding add added
add-eq m p priority v =
    let at : queue_idx m priority ≡ level priority = rw v.counted in
    rw (at, get_elem?-eq-get_or m.ready_queues (level priority) [] (omega (arith, v.queues))) refl

-- With the four queues that `new` sets up, `add` does not panic: it puts the process behind all
-- ready processes of its own level and of the levels above it in urgency, and before those of later
-- levels, keeping everyone else's order; a priority above 3 counts as 3.
pub add_lem :
    (m : ProcessManager) (p priority : ℕ)
    → IsValid m
    → (m' : ProcessManager) × (add m p priority ≡ done m')
      × (ready_list m'
          ≡ flat (take (suc (level priority)) m.ready_queues)
            ++ (p ∷ flat (drop (suc (level priority)) m.ready_queues)))
      × IsValid m'
unfolding added
add_lem m p priority v = (
  added m p priority,
  add-eq m p priority v,
  flat-set m.ready_queues (level priority) p (omega (arith, v.queues)),
  record {
    queues = length-set m.ready_queues (level priority) _ ∙ v.queues;
    slices = v.slices;
    counted = v.counted;
  },
)

pub add-queues :
    (m m' : ProcessManager) (p priority : ℕ)
    → IsValid m
    → add m p priority ≡ done m'
    → m'.ready_queues
      ≡ set m.ready_queues (level priority) (get_or m.ready_queues (level priority) [] ++ (p ∷ []))
unfolding added
add-queues m m' p priority v e =
    let same : added m p priority ≡ m' = cc (e, add-eq m p priority v) in
    sym (ap (λ (x : ProcessManager). x.ready_queues) same)

flat-take-drop : (n : ℕ) (qs : List (List ℕ)) → flat (take n qs) ++ flat (drop n qs) ≡ flat qs
unfolding flat
flat-take-drop zero qs = refl
flat-take-drop (suc n) [] = refl
flat-take-drop (suc n) (q ∷ qs) = rw append_assoc (ap (λ l. q ++ l) (flat-take-drop n qs))

count-insert :
    (x p : ℕ) (a b : List ℕ) → count x (a ++ (p ∷ b)) ≡ count x (a ++ b) + (if p == x then 1 else 0)
count-insert x p a b = unfold count in omega (arith, count-append x a (p ∷ b), count-append x a b)

-- Adding changes who is ready by exactly the added process.
pub count-ready_list-add :
    (m m' : ProcessManager) (p priority x : ℕ)
    → IsValid m
    → add m p priority ≡ done m'
    → count x (ready_list m') ≡ count x (ready_list m) + (if p == x then 1 else 0)
count-ready_list-add m m' p priority x v e =
    let (n, ok, order, _) = add_lem m p priority v in
    let same : n ≡ m' = cc (ok, e) in rw (← same, order, count-insert, flat-take-drop) refl

pub add-IsValid :
    (m m' : ProcessManager) (p priority : ℕ) → IsValid m → add m p priority ≡ done m' → IsValid m'
add-IsValid m m' p priority v e =
    let (n, ok, _, w) = add_lem m p priority v in let same : n ≡ m' = cc (ok, e) in rw same at w

length-fetch_queues : (qs : List (List ℕ)) → length (fetch_queues qs).1 ≡ length qs
unfolding fetch_queues
length-fetch_queues [] = refl
length-fetch_queues ([] ∷ qs) = ap suc (length-fetch_queues qs)
length-fetch_queues ((p ∷ q) ∷ qs) = refl

pub fetch-IsValid : (m : ProcessManager) → IsValid m → IsValid (fetch m).1
unfolding fetch
fetch-IsValid m v = record {
  queues = length-fetch_queues m.ready_queues ∙ v.queues;
  slices = v.slices;
  counted = v.counted;
}

-- Fetching changes who is ready by exactly the fetched process.
pub count-ready_list-fetch :
    (m : ProcessManager) (p x : ℕ)
    → (fetch m).0 ≡ some p
    → count x (ready_list (fetch m).1) + (if p == x then 1 else 0) ≡ count x (ready_list m)
count-ready_list-fetch m p x e = by_list (ready_list m) (fetch-pop m)
  where
    by_list :
        (l : List ℕ)
        → let (found, m') = fetch m in
          (found, ready_list m') ≡ pop l
          → count x (ready_list (fetch m).1) + (if p == x then 1 else 0) ≡ count x l
    by_list [] h = cc (e, ap (λ (t : Option ℕ × List ℕ). t.0) h)
    by_list (q ∷ l) h =
        let first : (fetch m).0 ≡ some q = ap (λ (t : Option ℕ × List ℕ). t.0) h in
        let rest : ready_list (fetch m).1 ≡ l = ap (λ (t : Option ℕ × List ℕ). t.1) h in
        let same : p ≡ q = cc (e, first) in rw (same, rest) (unfold count in omega arith)

-- Fetching from empty queues leaves them empty.
pub count-ready_list-fetch-none :
    (m : ProcessManager) (x : ℕ)
    → (fetch m).0 ≡ none
    → count x (ready_list (fetch m).1) ≡ count x (ready_list m)
count-ready_list-fetch-none m x e = by_list (ready_list m) (fetch-pop m)
  where
    by_list :
        (l : List ℕ)
        → let (found, m') = fetch m in
          (found, ready_list m') ≡ pop l → count x (ready_list (fetch m).1) ≡ count x l
    by_list [] h =
        let rest : ready_list (fetch m).1 ≡ [] = ap (λ (t : Option ℕ × List ℕ). t.1) h in rw rest
    by_list (q ∷ l) h = cc (e, ap (λ (t : Option ℕ × List ℕ). t.0) h)

pub new-IsValid : IsValid new
unfolding new
new-IsValid = record { queues = refl; slices = refl; counted = refl }

slices_at : (i : ℕ) → i ≤ 3 → get_elem? new.time_slices i ≡ some (mlfq_base_time_slice * 2 ^ i)
unfolding new
slices_at zero h = refl
slices_at (suc zero) h = refl
slices_at (suc (suc zero)) h = refl
slices_at (suc (suc (suc zero))) h = refl
slices_at (suc (suc (suc (suc i)))) h = absurd (omega arith)

-- The time slice of a level doubles from each level to the next, and levels above 3 have that of 3.
pub get_time_slice_lem :
    (m : ProcessManager) (priority : ℕ)
    → IsValid m
    → get_time_slice m priority ≡ done (mlfq_base_time_slice * 2 ^ level priority)
unfolding get_time_slice
get_time_slice_lem m priority v =
    let at : queue_idx m priority ≡ level priority = rw v.counted in
    rw (at, v.slices, slices_at (level priority) (omega arith)) refl
