-- ===== src/Counter/Init.antt =====
-- src/c/counter.c: ubench_counters_init and the context that it enables.
use java_ubench_agent.Prelude.{Bool, true, none, [], ◌∷◌, List}
use java_ubench_agent.Jvmti.{Context, JvmCall, JvmAnswers, ubench_jvmti_context_init_and_enable}

-- JVMTI_EVENT_COMPILED_METHOD_LOAD and JVMTI_EVENT_GARBAGE_COLLECTION_FINISH
abbrev pub counters_context : Context
counters_context = record { jvmti = none; events = 68 ∷ 82 ∷ []; has_capabilities = true }

unfoldable pub ubench_counters_init : JvmAnswers → Context → Bool × Context × List JvmCall
unfolding ubench_jvmti_context_init_and_enable
ubench_counters_init jvm context = ubench_jvmti_context_init_and_enable jvm context
