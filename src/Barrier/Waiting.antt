-- ===== src/Barrier/Waiting.antt =====
-- When Barrier.barrier of the JVM waits (src/c/barrier.c).
use java_ubench_agent.Prelude.{
  minus_one, int_eq, Option, none, some, ◌≡◌, refl, ◌∙◌, inl, inr, List, [], ◌∷◌, if◌then◌else◌,
  Bool-cases,
}
use java_ubench_agent.Strutil.{Text}
use java_ubench_agent.Barrier.{
  PosixCall, barrier_wait, Pointer, null, map_failed, at, pointer_of, Shared, unshared, Opening,
  init_native, init, barrier,
}

-- Calls of Barrier.init one after another.
abbrev pub inits : List (Opening × Text) → Shared → Shared
inits [] s = s
inits ((answer, name) ∷ calls) s = inits calls (init answer name s).0

-- The last one whose memory could be opened.
abbrev pub or_opened : Opening → Option Opening → Option Opening
or_opened answer none = if int_eq answer.fd minus_one then none else some answer
or_opened answer (some later) = some later

abbrev pub last_opened : List (Opening × Text) → Option Opening
last_opened [] = none
last_opened ((answer, name) ∷ calls) = or_opened answer (last_opened calls)

abbrev pub wait_on : Pointer → Option PosixCall
wait_on null = none
wait_on map_failed = none
wait_on (at address) = some (barrier_wait address)

-- Without a new opening the old pointer stays.
abbrev pub wait_for : Option Opening → Pointer → Option PosixCall
wait_for none old = wait_on old
wait_for (some answer) old = wait_on (pointer_of answer.address)

barrier-wait_on : (s : Shared) (p : Pointer) → s.shared_mem_barrier ≡ p → barrier s ≡ wait_on p
unfolding barrier
barrier-wait_on s null e = rw e refl
barrier-wait_on s map_failed e = rw e refl
barrier-wait_on s (at address) e = rw e refl

init-wait_for :
    (answer : Opening) (name : Text) (s : Shared) (later : Option Opening)
    → wait_for later (init answer name s).0.shared_mem_barrier
      ≡ wait_for (or_opened answer later) s.shared_mem_barrier
unfolding init init_native
init-wait_for answer name s (some x) = refl
init-wait_for answer name s none = elim (Bool-cases (int_eq answer.fd minus_one)) [
  | inl closed ↦ rw closed refl
  | inr opened ↦ rw opened refl
]

inits-wait_for :
    (calls : List (Opening × Text)) (s : Shared)
    → barrier (inits calls s) ≡ wait_for (last_opened calls) s.shared_mem_barrier
inits-wait_for [] s = barrier-wait_on s s.shared_mem_barrier refl
inits-wait_for ((answer, name) ∷ calls) s =
    inits-wait_for calls (init answer name s).0 ∙ init-wait_for answer name s (last_opened calls)

-- After any calls of Barrier.init since the start, barrier waits on the memory that the last call
-- which could open its memory has mapped; its behaviour is undefined if none could, or if that one
-- failed to map it. Later calls that cannot open their memory change nothing.
pub barrier-last_opened :
    (calls : List (Opening × Text))
    → barrier (inits calls unshared) ≡ wait_for (last_opened calls) null
barrier-last_opened calls = inits-wait_for calls unshared
