-- ===== src/Barrier.antt =====
-- src/c/barrier.c: the barrier of the JVM in shared memory. POSIX is not part of the repository:
-- what it answers to a call is an argument.
pub mod Server
pub mod Naming
pub mod Waiting
use java_ubench_agent.Prelude.{
  ℕ, ℤ, minus_one, int_eq, Bool, false, Option, none, some, List, [], ◌∷◌, ◌++◌, if◌then◌else◌,
}
use java_ubench_agent.Strutil.{Text, bytes}

-- A call of POSIX: shm_open with or without O_CREAT, ftruncate, mmap,
-- pthread_barrierattr_setpshared, pthread_barrier_init and pthread_barrier_wait.
pub data PosixCall : Type 0 where
  shm_open : (name : Text) (creates : Bool) → PosixCall
  ftruncate : (fd : ℤ) → PosixCall
  mmap : (fd : ℤ) → PosixCall
  barrierattr_setpshared : PosixCall
  barrier_init : (address count : ℕ) → PosixCall
  barrier_wait : (address : ℕ) → PosixCall

-- shared_mem_barrier
pub data Pointer : Type 0 where
  null map_failed : Pointer
  at : ℕ → Pointer

-- shared_mem_id and shared_mem_barrier
pub record Shared : Type 0 where
  pub shared_mem_id : ℤ
  pub shared_mem_barrier : Pointer

abbrev pub unshared : Shared
unshared = record { shared_mem_id = minus_one; shared_mem_barrier = null }

-- The descriptor that shm_open gives, and the address that mmap gives; `none` is MAP_FAILED.
pub record Opening : Type 0 where
  pub fd : ℤ
  pub address : Option ℕ

abbrev pub pointer_of : Option ℕ → Pointer
pointer_of none = map_failed
pointer_of (some address) = at address

-- Java_..._Barrier_initNative
unfoldable pub init_native : Opening → Text → Shared → Shared × List PosixCall
init_native answer name s =
    let opened : Shared = record s { shared_mem_id = answer.fd } in
    if int_eq answer.fd minus_one then (opened, shm_open name false ∷ []) else (
      record opened { shared_mem_barrier = pointer_of answer.address },
      shm_open name false ∷ mmap answer.fd ∷ [],
    )

-- Barrier.init of the Java class
unfoldable pub init : Opening → Text → Shared → Shared × List PosixCall
unfolding init_native
init answer name s = init_native answer (bytes "java-ubench-agent" ++ name) s

-- Java_..._Barrier_barrier; `none` is undefined behaviour.
unfoldable pub barrier : Shared → Option PosixCall
barrier s = elim s.shared_mem_barrier [
  | null ↦ none
  | map_failed ↦ none
  | at address ↦ some (barrier_wait address)
]
