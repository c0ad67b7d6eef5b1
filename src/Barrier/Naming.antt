-- ===== src/Barrier/Naming.antt =====
-- src/c-barrier/main.c creates what Barrier.init of the JVM opens (src/c/barrier.c).
use java_ubench_agent.Prelude.{
  not, ℕ, pos, minus_one, int_eq, Bool, true, false, Option, none, some, ◌≡◌, List, [], ◌∷◌,
}
use java_ubench_agent.Strutil.{Text}
use java_ubench_agent.Barrier.{
  PosixCall, shm_open, ftruncate, mmap, barrierattr_setpshared, barrier_init,
}
use java_ubench_agent.Barrier.Server.{Answers, End, exits, before}

-- The calls from mmap on, each with whether it succeeds; the result of
-- pthread_barrierattr_setpshared does not count.
abbrev pub mapping : Answers → (count : ℕ) → Option ℕ → List (PosixCall × Bool)
mapping a count none = (mmap a.fd, false) ∷ []
mapping a count (some address) =
    (mmap a.fd, true)
    ∷ (barrierattr_setpshared, true)
    ∷ (barrier_init address count, int_eq a.barrier_init (pos 0))
    ∷ []

-- The calls that create a barrier, in the same way.
abbrev pub creating : Answers → Text → (count : ℕ) → List (PosixCall × Bool)
creating a name count =
    (shm_open name true, not (int_eq a.fd minus_one))
    ∷ (ftruncate a.fd, not (int_eq a.ftruncate minus_one))
    ∷ mapping a count a.address

-- One call after another, up to the first that fails.
abbrev pub until_failure : List (PosixCall × Bool) → End
until_failure [] = exits 0 []
until_failure ((call, true) ∷ steps) = before call (until_failure steps)
until_failure ((call, false) ∷ steps) = exits 1 (call ∷ [])

-- A call of POSIX that opens the shared memory of a name without creating it comes first.
abbrev pub Opens : Text → List PosixCall → Type 0
Opens name calls = (rest : List PosixCall) × (calls ≡ shm_open name false ∷ rest)
