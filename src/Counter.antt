-- ===== src/Counter.antt =====
-- src/c/counter.c and src/c/myatomic.h: the three atomic counters, the JVMTI callbacks that
-- increment them and CompilationCounter.getCompilationCountAndReset. A counter is a pattern of 32
-- bits.
pub mod Conservation
pub mod Init
use java_ubench_agent.Prelude.{ℕ, ◌+◌, ◌%◌, ◌^◌, ℤ, of_bits32}

-- ubench_atomic_int_inc and ubench_atomic_int_reset: the old value and the new one.
unfoldable pub ubench_atomic_int_inc : ℕ → ℕ × ℕ
ubench_atomic_int_inc value = (value, (value + 1) % 2 ^ 32)

unfoldable pub ubench_atomic_int_reset : ℕ → ℕ × ℕ
ubench_atomic_int_reset value = (value, 0)

-- counter_compilation, counter_compilation_total and counter_gc_total
pub record Counters : Type 0 where
  pub compilation : ℕ
  pub compilation_total : ℕ
  pub gc_total : ℕ

abbrev pub no_counts : Counters
no_counts = record { compilation = 0; compilation_total = 0; gc_total = 0 }

-- The two atomic steps of jvmti_callback_on_compiled_method_load.
unfoldable pub count_compilation : Counters → Counters
unfolding ubench_atomic_int_inc
count_compilation s = record s { compilation = (ubench_atomic_int_inc s.compilation).1 }

unfoldable pub count_compilation_total : Counters → Counters
unfolding ubench_atomic_int_inc
count_compilation_total s = record s {
  compilation_total = (ubench_atomic_int_inc s.compilation_total).1;
}

unfoldable pub on_compiled_method_load : Counters → Counters
unfolding count_compilation count_compilation_total
on_compiled_method_load s = count_compilation_total (count_compilation s)

unfoldable pub on_garbage_collection_finish : Counters → Counters
unfolding ubench_atomic_int_inc
on_garbage_collection_finish s = record s { gc_total = (ubench_atomic_int_inc s.gc_total).1 }

-- The pattern of bits of the result, and the result, a jint.
unfoldable pub take_compilation_count : Counters → ℕ × Counters
unfolding ubench_atomic_int_reset
take_compilation_count s =
    let (count, zero_count) = ubench_atomic_int_reset s.compilation in
    (count, record s { compilation = zero_count })

unfoldable pub get_compilation_count_and_reset : Counters → ℤ × Counters
unfolding take_compilation_count
get_compilation_count_and_reset s =
    let (count, s') = take_compilation_count s in (of_bits32 count, s')
