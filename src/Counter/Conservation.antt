-- ===== src/Counter/Conservation.antt =====
-- The compilations that src/c/counter.c counts and reports, with the callbacks of several threads
-- interleaved.
use java_ubench_agent.Prelude.{ℕ, suc, ◌+◌, ◌%◌, ◌^◌, ◌<◌, ◌≡◌, refl, arith, to_bits, of_bits32}
use java_ubench_agent.Counter.{
  Counters, no_counts, count_compilation, count_compilation_total, on_garbage_collection_finish,
  get_compilation_count_and_reset,
}

-- The states that interleaved steps reach from the agent's start, with the number of callbacks of
-- compiled methods that are between their two increments, and the sum of the results of
-- getCompilationCountAndReset, as patterns of 32 bits.
pub data Reaches : Counters → (running reported : ℕ) → Type 0 where
  begins : Reaches no_counts 0 0
  loads : {s : Counters} {n r : ℕ} → Reaches s n r → Reaches (count_compilation s) (suc n) r
  loaded : {s : Counters} {n r : ℕ} → Reaches s (suc n) r → Reaches (count_compilation_total s) n r
  collects : {s : Counters} {n r : ℕ} → Reaches s n r → Reaches (on_garbage_collection_finish s) n r
  reports :
      {s : Counters} {n r : ℕ}
      → Reaches s n r
      → Reaches
          (get_compilation_count_and_reset s).1
          n
          (r + to_bits 32 (get_compilation_count_and_reset s).0)

-- The bits of a jint that stands for 32 bits.
to_bits-of_bits32 : (n : ℕ) → n < 2 ^ 32 → to_bits 32 (of_bits32 n) ≡ n
to_bits-of_bits32 n lt = ground arith

record Balance (s : Counters) (n r : ℕ) : Type 0 where
  small : s.compilation < 2 ^ 32
  balanced : (r + s.compilation) % 2 ^ 32 ≡ (s.compilation_total + n) % 2 ^ 32

Reaches-Balance : {s : Counters} {n r : ℕ} → Reaches s n r → Balance s n r
unfolding count_compilation count_compilation_total on_garbage_collection_finish
    get_compilation_count_and_reset
Reaches-Balance begins = record { small = omega arith; balanced = refl }
Reaches-Balance (loads {s} {n} {r} h) =
    let b = Reaches-Balance h in
    record { small = omega arith; balanced = omega (arith, b.balanced) }
Reaches-Balance (loaded {s} {n} {r} h) =
    let b = Reaches-Balance h in record { small = b.small; balanced = omega (arith, b.balanced) }
Reaches-Balance (collects {s} {n} {r} h) =
    let b = Reaches-Balance h in record { small = b.small; balanced = b.balanced }
Reaches-Balance (reports {s} {n} {r} h) =
    let b = Reaches-Balance h in
    record {
      small = omega arith;
      balanced = omega (arith, b.balanced, to_bits-of_bits32 s.compilation b.small);
    }

-- However the callbacks and the calls of getCompilationCountAndReset interleave, the compilations
-- that were reported and those still to be reported are, modulo 2 ^ 32, the total and those whose
-- callback has not yet reached the total: each compilation is reported once.
pub reported-balance :
    {s : Counters} {running reported : ℕ}
    → Reaches s running reported
    → (reported + s.compilation) % 2 ^ 32 ≡ (s.compilation_total + running) % 2 ^ 32
reported-balance h = (Reaches-Balance h).balanced
