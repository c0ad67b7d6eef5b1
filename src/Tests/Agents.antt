-- ===== src/Tests/Agents.antt =====
-- The counters (src/c/counter.c), the threads (src/c/threads.c), the contexts of the JVM tool
-- interface (src/c/jvmutil.c) and the start of the agent (src/c/ubench.c) on test data.
use java_ubench_agent.Prelude.{
  ◌+◌, ◌%◌, ◌^◌, pos, true, false, some, none, ◌≡◌, ◌⊎◌, refl, List, [], ◌∷◌, ◌++◌, arith,
}
use java_ubench_agent.Counter.{
  Counters, no_counts, count_compilation, count_compilation_total, get_compilation_count_and_reset,
}
use java_ubench_agent.Counter.Conservation.{
  Reaches, begins, loads, loaded, reports, reported-balance,
}
use java_ubench_agent.Jvmti.{
  Context, JvmAnswers, JvmCall, get_env, add_capabilities, enable_event, set_event_callbacks,
  dispose_environment, ubench_jvmti_context_init_and_enable,
}
use java_ubench_agent.Jvmti.Order.{init_and_enable-ordered, init_and_enable-released}
use java_ubench_agent.Startup.{counters, threads, measurement, events, Platform, Agent, unloaded}
use java_ubench_agent.Startup.Once.{
  Entry, load_agent, load_library, unload_agent, Call, enter, run, SameModules, loads-once,
}
use java_ubench_agent.Measurement.Init.{ubench_measurement_init}
use java_ubench_agent.Threads.Init.{
  unregistered, JniAnswers, CanRegister, ubench_threads_init, threads_started,
  threads_init-CanRegister,
}

-- A compilation that is counted and reported, and another one whose callback is still running.
abbrev busy : Counters
busy =
    count_compilation
      (get_compilation_count_and_reset (count_compilation_total (count_compilation no_counts))).1

busy-Reaches : Reaches busy 1 1
unfolding count_compilation count_compilation_total get_compilation_count_and_reset
busy-Reaches = loads (reports (loaded (loads begins)))

reported-balance_example : (1 + busy.compilation) % 2 ^ 32 ≡ (busy.compilation_total + 1) % 2 ^ 32
reported-balance_example = reported-balance busy-Reaches

abbrev counters_context : Context
counters_context = record { jvmti = none; events = 68 ∷ 82 ∷ []; has_capabilities = true }

-- Answers of the interface: all calls succeed, or the callbacks are refused.
abbrev willing : JvmAnswers
willing = record {
  env = (pos 0, 3);
  capabilities = pos 0;
  event = λ e. pos 0;
  callbacks = pos 0;
  dispose = pos 0;
}

abbrev refusing : JvmAnswers
refusing = record willing { callbacks = pos 99 }

init_and_enable-ordered_example :
    ((ubench_jvmti_context_init_and_enable willing counters_context).1.jvmti ≡ some 3)
    × ((ubench_jvmti_context_init_and_enable willing counters_context).2
        ≡ get_env
          ∷ add_capabilities 3
          ∷ enable_event 3 68
          ∷ enable_event 3 82
          ∷ set_event_callbacks 3
          ∷ [])
unfolding ubench_jvmti_context_init_and_enable
init_and_enable-ordered_example = init_and_enable-ordered willing counters_context refl

init_and_enable-released_example :
    ((ubench_jvmti_context_init_and_enable refusing counters_context).1 ≡ counters_context)
      × ((ubench_jvmti_context_init_and_enable refusing counters_context).2 ≡ get_env ∷ [])
    ⊎ (calls : List JvmCall) × ((ubench_jvmti_context_init_and_enable refusing counters_context).1
        ≡ counters_context)
      × ((ubench_jvmti_context_init_and_enable refusing counters_context).2
          ≡ get_env ∷ (calls ++ dispose_environment 3 ∷ []))
unfolding ubench_jvmti_context_init_and_enable
init_and_enable-released_example = init_and_enable-released refusing counters_context refl

-- A JVM that gives its environment late.
abbrev late : JniAnswers
late = record { env_ok = false; vm_ok = true; class_found = true; get_id = some 4 }

threads_init-CanRegister_example :
    CanRegister (ubench_threads_init willing late unregistered).1
    × CanRegister (threads_started willing willing late late unregistered)
threads_init-CanRegister_example =
    threads_init-CanRegister willing willing late late unregistered refl

-- A platform without Java compilation events, on which PAPI starts.
abbrev platform : Platform
platform = record {
  counters_jvm = refusing;
  threads_jvm = willing;
  jni = late;
  papi = record { version = pos 7; library_init = pos 7; thread_init = pos 0 };
}

abbrev call : Entry → Call
call entry = record { entry = entry; platform = platform }

loads-once_example :
    (s s' : Agent) × (run
        (call load_agent ∷ call load_library ∷ call unload_agent ∷ call load_library ∷ [])
        unloaded
      ≡ some (pos 0 ∷ pos 0x00010008 ∷ pos 0 ∷ pos 0x00010008 ∷ [], s'))
    × (enter (call load_agent) unloaded ≡ some (pos 0, s))
    × (s.initialized ≡ counters ∷ threads ∷ measurement ∷ events ∷ [])
    × SameModules s s'
unfolding ubench_measurement_init
loads-once_example =
    loads-once (call load_agent) (call load_library ∷ call unload_agent ∷ call load_library ∷ []) tt
      refl (omega arith)
