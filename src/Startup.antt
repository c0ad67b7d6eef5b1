-- ===== src/Startup.antt =====
-- src/c/ubench.c: the start and the end of the agent, on load as a JVM agent and as a library.
pub mod Once
use java_ubench_agent.Prelude.{
  ℕ, ℤ, pos, minus_one, Bool, true, false, not, Option, none, some, List, [], ◌∷◌, ◌++◌, ◌==◌,
  if◌then◌else◌,
}
use java_ubench_agent.Counter.{ubench_atomic_int_inc}
use java_ubench_agent.Counter.Init.{counters_context, ubench_counters_init}
use java_ubench_agent.Events.Getters.{ubench_event_init}
use java_ubench_agent.Jvmti.{Context, JvmAnswers}
use java_ubench_agent.Measurement.Init.{PapiStart, ubench_measurement_init}
use java_ubench_agent.Threads.Init.{Registration, JniAnswers, ubench_threads_init, unregistered}

-- The initializations that have been run, as a trace.
pub data Component : Type 0 where
  counters threads measurement events : Component

-- What the JVM and PAPI answer while the agent starts.
pub record Platform : Type 0 where
  pub counters_jvm : JvmAnswers
  pub threads_jvm : JvmAnswers
  pub jni : JniAnswers
  pub papi : PapiStart

-- The two guards, the contexts of the modules, and the trace.
pub record Agent : Type 0 where
  pub startup_guard : ℕ
  pub shutdown_guard : ℕ
  pub counters_context : Context
  pub registration : Registration
  pub initialized : List Component

abbrev pub unloaded : Agent
unloaded = record {
  startup_guard = 0;
  shutdown_guard = 0;
  counters_context = counters_context;
  registration = unregistered;
  initialized = [];
}

-- Counters and threads may fail.
abbrev pub init_counters : Platform → Agent → Agent
init_counters p s =
    let (ok, context, calls) = ubench_counters_init p.counters_jvm s.counters_context in
    record s { counters_context = context; initialized = s.initialized ++ counters ∷ [] }

abbrev pub init_threads : Platform → Agent → Agent
init_threads p s =
    let (ok, registration) = ubench_threads_init p.threads_jvm p.jni s.registration in
    record s { registration = registration; initialized = s.initialized ++ threads ∷ [] }

-- The modules without which the start fails; `none` is the end of the process.
abbrev pub init_events : Bool → Agent → Bool × Agent
init_events ok s =
    let s' : Agent = record s { initialized = s.initialized ++ events ∷ [] } in
    if not ok then (false, s) else if not ubench_event_init then (false, s') else (true, s')

abbrev pub init_measurement : Option Bool → Agent → Option (Bool × Agent)
init_measurement none s = none
init_measurement (some ok) s =
    some (init_events ok (record s { initialized = s.initialized ++ measurement ∷ [] }))

-- ubench_startup behind its guard.
unfoldable pub init_modules : Platform → Agent → Option (Bool × Agent)
unfolding ubench_counters_init ubench_threads_init ubench_measurement_init ubench_event_init
init_modules p s =
    init_measurement (ubench_measurement_init p.papi) (init_threads p (init_counters p s))

unfoldable pub ubench_startup : Platform → Agent → Option (Bool × Agent)
unfolding ubench_atomic_int_inc init_modules
ubench_startup p s =
    let (old, guard) = ubench_atomic_int_inc s.startup_guard in
    let s' : Agent = record s { startup_guard = guard } in
    if not (old == 0) then some (true, s') else init_modules p s'

-- The result of a load, from that of ubench_startup.
abbrev pub answer : (success failure : ℤ) → Option (Bool × Agent) → Option (ℤ × Agent)
answer success failure none = none
answer success failure (some (ok, s)) = some (if ok then success else failure, s)

-- JNI_OK and JNI_ERR
unfoldable pub agent_on_load : Platform → Agent → Option (ℤ × Agent)
unfolding ubench_startup
agent_on_load p s = answer (pos 0) minus_one (ubench_startup p s)

-- JNI_VERSION_1_8 and 0
unfoldable pub jni_on_load : Platform → Agent → Option (ℤ × Agent)
unfolding ubench_startup
jni_on_load p s = answer (pos 0x00010008) (pos 0) (ubench_startup p s)

-- There is nothing to do behind the guard.
unfoldable pub ubench_shutdown : Agent → Agent
unfolding ubench_atomic_int_inc
ubench_shutdown s =
    let (old, guard) = ubench_atomic_int_inc s.shutdown_guard in record s { shutdown_guard = guard }

unfoldable pub agent_on_unload : Agent → Agent
unfolding ubench_shutdown
agent_on_unload s = ubench_shutdown s

unfoldable pub jni_on_unload : Agent → Agent
unfolding ubench_shutdown
jni_on_unload s = ubench_shutdown s

unfoldable pub native_is_loaded : Bool
native_is_loaded = true
