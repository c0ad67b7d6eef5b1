-- ===== src/Tests/Barriers.antt =====
-- The barrier (src/c/barrier.c and src/c-barrier/main.c) on test data.
use java_ubench_agent.Prelude.{pos, minus_one, true, none, some, ◌≡◌, refl, List, [], ◌∷◌}
use java_ubench_agent.Strutil.{Text, bytes}
use java_ubench_agent.Barrier.{
  Opening, unshared, barrier, barrier_wait, shm_open, ftruncate, mmap, barrierattr_setpshared,
  barrier_init,
}
use java_ubench_agent.Barrier.Server.{Answers, exits, main}
use java_ubench_agent.Barrier.Waiting.{inits, barrier-last_opened}

abbrev willing : Answers
willing = record {
  malloc_ok = true;
  fd = pos 3;
  ftruncate = pos 0;
  address = some 4096;
  attr_usable = true;
  barrier_init = pos 0;
}

abbrev opening : Opening
opening = record { fd = pos 5; address = some 8192 }

abbrev arguments : List Text
arguments = bytes "ubench-barrier" ∷ bytes "test" ∷ bytes " 12" ∷ []

arguments-main :
    main willing arguments
    ≡ exits 0 (
        shm_open (bytes "java-ubench-agenttest") true
        ∷ ftruncate (pos 3)
        ∷ mmap (pos 3)
        ∷ barrierattr_setpshared
        ∷ barrier_init 4096 12
        ∷ [])
unfolding main
arguments-main = refl

-- A barrier that is there, and then one that is not.
abbrev openings : List (Opening × Text)
openings = (opening, bytes "test") ∷ (record { fd = minus_one; address = none }, bytes "other") ∷ []

barrier-last_opened_example : barrier (inits openings unshared) ≡ some (barrier_wait 8192)
barrier-last_opened_example = barrier-last_opened openings
