-- ===== src/Threads/Progress.antt =====
-- src/c/mylock.h and src/c/threads.c: a thread that waits for thread_map_lock can get it.
use java_ubench_agent.Prelude.{
  pos, ℕ, suc, some, ◌≡◌, ◌≢◌, refl, ◌∙◌, ap, ◌⊎◌, inl, inr, List, [], ◌∷◌, get_elem?, arith,
  get_elem?-set_self, get_elem?-set_ne, lt_of_get_elem?,
}
use java_ubench_agent.Threads.Map.{ThreadMap}
use java_ubench_agent.Threads.Locking.{
  System, Phase, outside, spinning, inside, working, weight, looks_up, move, Step, enters, leaves,
  try_lock, ubench_spinlock_unlock, Runs, count_inside, IsExclusive, Runs-IsExclusive,
}

-- Any number of steps.
pub data Steps : System → System → Type 0 where
  here : (s : System) → Steps s s
  step : {s s' s'' : System} → Step s s' → Steps s' s'' → Steps s s''

-- A thread in a critical section, at work or not.
holder :
    (ps : List Phase)
    → count_inside ps ≡ 1
    → (k : ℕ) × ((get_elem? ps k ≡ some inside)
        ⊎ ((m : ThreadMap) × (get_elem? ps k ≡ some (working m))))
holder [] e = absurd (ground (arith, e))
holder (inside ∷ ps) e = (0, inl refl)
holder (working m ∷ ps) e = (0, inr (m, refl))
holder (outside ∷ ps) e = let (k, at) = holder ps (omega (arith, e)) in (suc k, at)
holder (spinning ∷ ps) e = let (k, at) = holder ps (omega (arith, e)) in (suc k, at)

abbrev IsInside : ℕ → System → Type 0
IsInside i s = get_elem? s.phases i ≡ some inside

enter_free :
    (s : System) (i : ℕ)
    → s.value ≡ 0
    → get_elem? s.phases i ≡ some spinning
    → (s' : System) × Step s s' × IsInside i s'
unfolding try_lock
enter_free s i free at = (
  move s i inside (try_lock s.value).1,
  enters s i at (ground (arith, free)),
  get_elem?-set_self s.phases i inside (lt_of_get_elem? s.phases i at),
)

free_or_held : (s : System) → IsExclusive s → (s.value ≡ 0) ⊎ (count_inside s.phases ≡ 1)
free_or_held s h = ground (arith, h.held, h.binary)

other :
    (ps : List Phase) {k i : ℕ} {p : Phase}
    → get_elem? ps k ≡ some p
    → weight p ≡ 1
    → get_elem? ps i ≡ some spinning
    → k ≢ i
other ps {k} {i} {p} holds heavy waits same =
    ground (arith, heavy, holds, waits, ap (get_elem? ps) same)

abbrev CanEnter : ℕ → System → Type 0
CanEnter i s = (s' : System) × Steps s s' × IsInside i s'

-- The thread in a critical section leaves it, and the waiting one enters.
leave_enter :
    (s : System) (i k : ℕ)
    → get_elem? s.phases k ≡ some inside
    → get_elem? s.phases i ≡ some spinning
    → CanEnter i s
unfolding ubench_spinlock_unlock
leave_enter s i k holds at =
    let left : System = move s k outside (ubench_spinlock_unlock s.value) in
    let waits : get_elem? left.phases i ≡ some spinning =
      get_elem?-set_ne s.phases k i outside (other s.phases {p = inside} holds refl at) ∙ at in
    let (s', enter, in_section) = enter_free left i refl waits in
    (s', step (leaves s k holds) (step enter (here s')), in_section)

-- However the threads have interleaved, a thread in the loop of ubench_spinlock_lock can be let in
-- by further steps: if another thread is in a critical section, this one can finish and leave it,
-- and the next attempt of the waiting thread succeeds.
pub Runs-progress :
    {s : System} (i : ℕ)
    → Runs s
    → get_elem? s.phases i ≡ some spinning
    → (s' : System) × Steps s s' × (get_elem? s'.phases i ≡ some inside)
Runs-progress {s} i r at =
    let h = Runs-IsExclusive r in
    elim (free_or_held s h) [
      | inl free ↦
          let (s', enter, in_section) = enter_free s i free at in
          (s', step enter (here s'), in_section)
      | inr held ↦ elim (holder s.phases held).1 [
        | inl holds ↦ leave_enter s i (holder s.phases held).0 holds at
        | inr (m, works) ↦
            let k = (holder s.phases held).0 in
            let done : System = move s k inside s.value in
            let (s', leaving, in_section) =
              leave_enter done i k
                (get_elem?-set_self s.phases k inside (lt_of_get_elem? s.phases k works))
                (get_elem?-set_ne s.phases k i inside (other s.phases {p = working m} works refl at)
                  ∙ at) in
            (s', step (looks_up s k (pos 0) works refl) leaving, in_section)
      ]
    ]
