-- ===== src/Threads/Locking.antt =====
-- src/c/mylock.h, and the critical sections of src/c/threads.c under thread_map_lock, with the
-- steps of any number of threads interleaved.
use java_ubench_agent.Prelude.{
  sym, ◌∙◌, ap, ◌≢◌, refl, subst, ℕ_discrete, get_elem?-set_self, get_elem?-set_ne, lt_of_get_elem?,
  ℕ, zero, suc, ◌+◌, ◌≤◌, ℤ, Bool, true, false, some, ◌≡◌, List, [], ◌∷◌, ◌==◌, if◌then◌else◌,
  get_elem?, set, arith,
}
use java_ubench_agent.Threads.Map.{
  ThreadMap, ubench_register_java_thread, ubench_unregister_native_thread,
  ubench_threads_get_native_id,
}
use java_ubench_agent.Threads.Registry.{IsValid, register-IsValid}
use java_ubench_agent.Threads.Removal.{unregister-IsValid}

-- __sync_bool_compare_and_swap: whether it swapped, and the value behind it.
unfoldable pub compare_and_swap : (value expected desired : ℕ) → Bool × ℕ
compare_and_swap value expected desired =
    if value == expected then (true, desired) else (false, value)

-- One attempt of the loop of ubench_spinlock_lock, and ubench_spinlock_unlock.
unfoldable pub try_lock : ℕ → Bool × ℕ
unfolding compare_and_swap
try_lock value = compare_and_swap value 0 1

unfoldable pub ubench_spinlock_unlock : ℕ → ℕ
ubench_spinlock_unlock value = 0

-- Where a thread is: in no critical section, in the loop of ubench_spinlock_lock, or between it and
-- ubench_spinlock_unlock, with the map that it has read if it is at work there.
pub data Phase : Type 0 where
  outside spinning inside : Phase
  working : ThreadMap → Phase

-- thread_map_lock, thread_map, and the threads.
pub record System : Type 0 where
  pub value : ℕ
  pub thread_map : ThreadMap
  pub phases : List Phase

abbrev pub move : System → ℕ → Phase → ℕ → System
move s i phase value = record s { value = value; phases = set s.phases i phase }

abbrev pub write : System → ℕ → ThreadMap → System
write s i m = record s { thread_map = m; phases = set s.phases i inside }

-- A step of one thread. An operation reads the map in one step and writes what it makes of it in
-- another, so that it loses whatever the map has become in between. A registration that finds no
-- memory ends the process, so it is no step.
pub data Step : System → System → Type 0 where
  arrives :
      (s : System) (i : ℕ)
      → get_elem? s.phases i ≡ some outside
      → Step s (move s i spinning s.value)
  spins :
      (s : System) (i : ℕ)
      → get_elem? s.phases i ≡ some spinning
      → (try_lock s.value).0 ≡ false
      → Step s (move s i spinning (try_lock s.value).1)
  enters :
      (s : System) (i : ℕ)
      → get_elem? s.phases i ≡ some spinning
      → (try_lock s.value).0 ≡ true
      → Step s (move s i inside (try_lock s.value).1)
  reads :
      (s : System) (i : ℕ)
      → get_elem? s.phases i ≡ some inside
      → Step s (move s i (working s.thread_map) s.value)
  registers :
      (s : System) (i : ℕ) (allocated : Bool) (java_id native_id : ℤ) {was m : ThreadMap}
      {added : Bool}
      → get_elem? s.phases i ≡ some (working was)
      → ubench_register_java_thread allocated was java_id native_id ≡ some (m, added)
      → Step s (write s i m)
  unregisters :
      (s : System) (i : ℕ) (native_id : ℤ) {was : ThreadMap}
      → get_elem? s.phases i ≡ some (working was)
      → Step s (write s i (ubench_unregister_native_thread was native_id).0)
  looks_up :
      (s : System) (i : ℕ) (java_id : ℤ) {was : ThreadMap} {native_id : ℤ}
      → get_elem? s.phases i ≡ some (working was)
      → ubench_threads_get_native_id was java_id ≡ native_id
      → Step s (move s i inside s.value)
  leaves :
      (s : System) (i : ℕ)
      → get_elem? s.phases i ≡ some inside
      → Step s (move s i outside (ubench_spinlock_unlock s.value))

abbrev pub weight : Phase → ℕ
weight outside = 0
weight spinning = 0
weight inside = 1
weight (working m) = 1

-- The number of the threads in a critical section.
abbrev pub count_inside : List Phase → ℕ
count_inside [] = 0
count_inside (p ∷ ps) = weight p + count_inside ps

-- The systems that steps reach from one with a free lock, no thread in a critical section and a
-- valid map.
pub data Runs : System → Type 0 where
  begins : (s : System) → s.value ≡ 0 → count_inside s.phases ≡ 0 → IsValid s.thread_map → Runs s
  continues : {s s' : System} → Runs s → Step s s' → Runs s'

count_inside-set :
    (ps : List Phase) (i : ℕ) (p : Phase) {old : Phase}
    → get_elem? ps i ≡ some old
    → count_inside (set ps i p) + weight old ≡ count_inside ps + weight p
count_inside-set [] i p h = absurd (ground (arith, h))
count_inside-set (x ∷ ps) zero p {old} h =
    let same : weight x ≡ weight old = ground (arith, h) in omega (arith, same)
count_inside-set (x ∷ ps) (suc i) p {old} h = omega (arith, count_inside-set ps i p {old = old} h)

count_inside-ge :
    (ps : List Phase) (i : ℕ) {p : Phase} → get_elem? ps i ≡ some p → weight p ≤ count_inside ps
count_inside-ge [] i h = absurd (ground (arith, h))
count_inside-ge (x ∷ ps) zero {p} h =
    let same : weight x ≡ weight p = ground (arith, h) in omega (arith, same)
count_inside-ge (x ∷ ps) (suc i) {p} h = omega (arith, count_inside-ge ps i {p = p} h)

-- Two threads in a critical section are one.
only_one :
    (ps : List Phase) (i j : ℕ) {p q : Phase}
    → count_inside ps ≤ 1
    → get_elem? ps i ≡ some p
    → get_elem? ps j ≡ some q
    → weight p ≡ 1
    → weight q ≡ 1
    → i ≡ j
only_one ps i j {p} {q} few at_i at_j p_in q_in = elim (ℕ_discrete i j) [
  | yes same ↦ same
  | no other ↦ absurd (
      omega (
        arith,
        few,
        p_in,
        q_in,
        count_inside-set ps i outside {old = p} at_i,
        count_inside-ge (set ps i outside) j {p = q} (get_elem?-set_ne ps i j outside other ∙ at_j),
      ))
]

-- The maps that threads have read are the map.
abbrev pub IsCurrent : ThreadMap → List Phase → Type 0
IsCurrent map ps = (i : ℕ) (m : ThreadMap) → get_elem? ps i ≡ some (working m) → m ≡ map

set-IsCurrent :
    (map : ThreadMap) (ps : List Phase) (i : ℕ) (p : Phase) {old : Phase}
    → get_elem? ps i ≡ some old
    → ((m : ThreadMap) → p ≡ working m → m ≡ map)
    → ((j : ℕ) (m : ThreadMap) → i ≢ j → get_elem? ps j ≡ some (working m) → m ≡ map)
    → IsCurrent map (set ps i p)
set-IsCurrent map ps i p at new others j m at_j = elim (ℕ_discrete i j) [
  | yes same ↦ new m (
      ground (
        arith,
        at_j,
        ap (get_elem? (set ps i p)) same,
        get_elem?-set_self ps i p (lt_of_get_elem? ps i at),
      ))
  | no other ↦ others j m other (sym (get_elem?-set_ne ps i j p other) ∙ at_j)
]

-- The value of the lock is the number of the threads in a critical section, and what these have read
-- is the map.
pub record IsExclusive (s : System) : Type 0 where
  pub held : s.value ≡ count_inside s.phases
  pub binary : s.value ≤ 1
  pub valid : IsValid s.thread_map
  pub current : IsCurrent s.thread_map s.phases

-- A thread that does not work moves; the map is as before.
move-IsExclusive :
    (s : System) (i : ℕ) (p : Phase) (value : ℕ) {old : Phase}
    → IsExclusive s
    → get_elem? s.phases i ≡ some old
    → value + weight old ≡ s.value + weight p
    → value ≤ 1
    → ((m : ThreadMap) → p ≡ working m → m ≡ s.thread_map)
    → IsExclusive (move s i p value)
move-IsExclusive s i p value {old} h at sum binary new = record {
  held = omega (arith, sum, h.held, count_inside-set s.phases i p {old = old} at);
  binary = binary;
  valid = h.valid;
  current = set-IsCurrent s.thread_map s.phases i p at new (λ j m ne. h.current j m);
}

-- A thread that works writes a valid map: no other one is at work.
write-IsExclusive :
    (s : System) (i : ℕ) (m : ThreadMap) {was : ThreadMap}
    → IsExclusive s
    → get_elem? s.phases i ≡ some (working was)
    → IsValid m
    → IsExclusive (write s i m)
write-IsExclusive s i m {was} h at valid = record {
  held = omega (arith, h.held, count_inside-set s.phases i inside {old = working was} at);
  binary = h.binary;
  valid = valid;
  current =
      set-IsCurrent m s.phases i inside at (λ m' e. absurd (ground (arith, e)))
        (λ j m' ne at_j. absurd (
          ne (
            only_one s.phases i j {p = working was} {q = working m'}
              (omega (arith, h.held, h.binary)) at at_j refl refl)));
}

Step-IsExclusive : {s s' : System} → Step s s' → IsExclusive s → IsExclusive s'
unfolding try_lock ubench_spinlock_unlock
Step-IsExclusive (arrives s i at) h =
    move-IsExclusive s i spinning s.value h at (omega arith) h.binary
      (λ m e. absurd (ground (arith, e)))
Step-IsExclusive (spins s i at busy) h =
    let same : (try_lock s.value).1 ≡ s.value = ground (arith, busy) in
    move-IsExclusive s i spinning (try_lock s.value).1 h at (omega (arith, same))
      (omega (arith, same, h.binary)) (λ m e. absurd (ground (arith, e)))
Step-IsExclusive (enters s i at free) h =
    let was : s.value ≡ 0 = ground (arith, free) in
    let taken : (try_lock s.value).1 ≡ 1 = ground (arith, free) in
    move-IsExclusive s i inside (try_lock s.value).1 h at (omega (arith, was, taken))
      (omega (arith, taken)) (λ m e. absurd (ground (arith, e)))
Step-IsExclusive (reads s i at) h =
    move-IsExclusive s i (working s.thread_map) s.value h at (omega arith) h.binary
      (λ m e. ground (arith, e))
Step-IsExclusive (registers s i allocated java_id native_id {was} {m} at e) h =
    write-IsExclusive s i m h at (
      register-IsValid allocated was java_id native_id
        (subst IsValid (sym (h.current i was at)) h.valid) e)
Step-IsExclusive (unregisters s i native_id {was} at) h =
    write-IsExclusive s i (ubench_unregister_native_thread was native_id).0 h at
      (unregister-IsValid was native_id (subst IsValid (sym (h.current i was at)) h.valid))
Step-IsExclusive (looks_up s i java_id at e) h =
    move-IsExclusive s i inside s.value h at (omega arith) h.binary
      (λ m e. absurd (ground (arith, e)))
Step-IsExclusive (leaves s i at) h =
    let one : 1 ≤ s.value = omega (arith, h.held, count_inside-ge s.phases i {p = inside} at) in
    move-IsExclusive s i outside (ubench_spinlock_unlock s.value) h at
      (omega (arith, one, h.binary)) (omega arith) (λ m e. absurd (ground (arith, e)))

pub Runs-IsExclusive : {s : System} → Runs s → IsExclusive s
Runs-IsExclusive (begins s free none_inside valid) = record {
  held = omega (arith, free, none_inside);
  binary = omega (arith, free);
  valid = valid;
  current =
      λ i m at. absurd (omega (arith, none_inside, count_inside-ge s.phases i {p = working m} at));
}
Runs-IsExclusive (continues r step) = Step-IsExclusive step (Runs-IsExclusive r)

-- What a thread at work has read is still the map.
pub Runs-current :
    {s : System} (i : ℕ) (m : ThreadMap)
    → Runs s
    → get_elem? s.phases i ≡ some (working m)
    → m ≡ s.thread_map
Runs-current i m r at = (Runs-IsExclusive r).current i m at

-- However the threads interleave, at most one of them is between ubench_spinlock_lock and
-- ubench_spinlock_unlock, and the map has one entry for each Java thread and room for its entries.
pub Runs-exclusive : {s : System} → Runs s → (count_inside s.phases ≤ 1) × IsValid s.thread_map
Runs-exclusive r = let h = Runs-IsExclusive r in (omega (arith, h.held, h.binary), h.valid)
