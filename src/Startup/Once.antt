-- ===== src/Startup/Once.antt =====
-- However often the agent is loaded (src/c/ubench.c), its modules are initialized once.
use java_ubench_agent.Prelude.{
  ℕ, suc, ◌+◌, ◌^◌, ◌<◌, ℤ, pos, minus_one, true, Option, none, some, ◌≡◌, refl, ◌∙◌, ap, List, [],
  ◌∷◌, arith, map, ◌%◌,
}
use java_ubench_agent.Counter.{ubench_atomic_int_inc}
use java_ubench_agent.Startup.{
  counters, threads, measurement, events, Platform, Agent, unloaded, init_modules, init_counters,
  init_threads, ubench_startup, answer, agent_on_load, jni_on_load, ubench_shutdown,
  agent_on_unload, jni_on_unload,
}
use java_ubench_agent.Measurement.Init.{ubench_measurement_init}
use java_ubench_agent.Events.Getters.{ubench_event_init}

-- The entry points, called by the JVM in any order.
pub data Entry : Type 0 where
  load_agent load_library unload_agent unload_library : Entry

-- Each call with the answers of its time; its result is the returned number, if it returns one.
pub record Call : Type 0 where
  pub entry : Entry
  pub platform : Platform

abbrev pub unloading : Agent → Option (ℤ × Agent)
unloading s = some (pos 0, s)

abbrev pub enter : Call → Agent → Option (ℤ × Agent)
enter c s = elim c.entry [
  | load_agent ↦ agent_on_load c.platform s
  | load_library ↦ jni_on_load c.platform s
  | unload_agent ↦ unloading (agent_on_unload s)
  | unload_library ↦ unloading (jni_on_unload s)
]

-- The calls one after another, with the results; `none` is the end of the process.
abbrev pub and_enter : ℤ → Option (List ℤ × Agent) → Option (List ℤ × Agent)
and_enter r none = none
and_enter r (some (rs, s)) = some (r ∷ rs, s)

abbrev pub run_from :
    Option (ℤ × Agent) → (Agent → Option (List ℤ × Agent)) → Option (List ℤ × Agent)
run_from none rest = none
run_from (some (r, s)) rest = and_enter r (rest s)

abbrev pub run : List Call → Agent → Option (List ℤ × Agent)
run [] s = some ([], s)
run (c ∷ cs) s = run_from (enter c s) (run cs)

-- What a later call returns.
abbrev pub later_result : Call → ℤ
later_result c = elim c.entry [
  | load_agent ↦ pos 0
  | load_library ↦ pos 0x00010008
  | unload_agent ↦ pos 0
  | unload_library ↦ pos 0
]

abbrev pub count : List Call → ℕ
count [] = 0
count (c ∷ cs) = suc (count cs)

-- The state of the modules, without the guards.
pub record SameModules (s s' : Agent) : Type 0 where
  pub counters_context : s'.counters_context ≡ s.counters_context
  pub registration : s'.registration ≡ s.registration
  pub initialized : s'.initialized ≡ s.initialized

-- Loads that are answered like the first one, and the end of the process.
abbrev pub IsLoad : Entry → Type 0
IsLoad load_agent = Unit
IsLoad load_library = Unit
IsLoad unload_agent = ⊥
IsLoad unload_library = ⊥

SameModules-trans : {s s' s'' : Agent} → SameModules s s' → SameModules s' s'' → SameModules s s''
SameModules-trans first second = record {
  counters_context = second.counters_context ∙ first.counters_context;
  registration = second.registration ∙ first.registration;
  initialized = second.initialized ∙ first.initialized;
}

-- The guard stays set as long as it does not wrap around.
abbrev IsStarted : ℕ → Agent → Type 0
IsStarted left s = (0 < s.startup_guard) × (s.startup_guard + left < 2 ^ 32)

startup-again :
    (p : Platform) (s : Agent)
    → 0 < s.startup_guard
    → ubench_startup p s ≡ some (true, record s { startup_guard = (s.startup_guard + 1) % 2 ^ 32 })
unfolding ubench_startup ubench_atomic_int_inc
startup-again p s set = ground arith

-- One later call.
abbrev LaterCall : Call → Agent → Agent → Type 0
LaterCall c s s' = enter c s ≡ some (later_result c, s')

guarded : (s : Agent) (guard : ℕ) → SameModules s (record s { startup_guard = guard })
guarded s guard = record { counters_context = refl; registration = refl; initialized = refl }

IsStarted-again :
    (left : ℕ) (s : Agent)
    → IsStarted (suc left) s
    → IsStarted left (record s { startup_guard = (s.startup_guard + 1) % 2 ^ 32 })
IsStarted-again left s started = ground arith

later-load :
    (success failure : ℤ) (p : Platform) (left : ℕ) (s : Agent)
    → IsStarted (suc left) s
    → (s' : Agent) × (answer success failure (ubench_startup p s) ≡ some (success, s'))
      × SameModules s s'
      × IsStarted left s'
later-load success failure p left s started = (
  record s { startup_guard = (s.startup_guard + 1) % 2 ^ 32 },
  rw (startup-again p s started.0) refl,
  guarded s ((s.startup_guard + 1) % 2 ^ 32),
  IsStarted-again left s started,
)

later-unload :
    (left : ℕ) (s : Agent)
    → IsStarted (suc left) s
    → (s' : Agent) × (unloading (ubench_shutdown s) ≡ some (pos 0, s'))
      × SameModules s s'
      × IsStarted left s'
unfolding ubench_shutdown
later-unload left s started = (
  ubench_shutdown s,
  refl,
  record { counters_context = refl; registration = refl; initialized = refl },
  ground arith,
)

later-call :
    (entry : Entry) (p : Platform) (left : ℕ) (s : Agent)
    → IsStarted (suc left) s
    → (s' : Agent) × LaterCall (record { entry = entry; platform = p }) s s'
      × SameModules s s'
      × IsStarted left s'
unfolding agent_on_load jni_on_load agent_on_unload jni_on_unload
later-call load_agent p left s started = later-load (pos 0) minus_one p left s started
later-call load_library p left s started = later-load (pos 0x00010008) (pos 0) p left s started
later-call unload_agent p left s started = later-unload left s started
later-call unload_library p left s started = later-unload left s started

run-later :
    (cs : List Call) (s : Agent)
    → IsStarted (count cs) s
    → (s' : Agent) × (run cs s ≡ some (map later_result cs, s')) × SameModules s s'
run-later [] s started =
    (s, refl, record { counters_context = refl; registration = refl; initialized = refl })
run-later (c ∷ cs) s started =
    let (s', called, same, started') = later-call c.entry c.platform (count cs) s started in
    let (s'', ran, same') = run-later cs s' started' in
    (s'', rw (called, ran) refl, SameModules-trans same same')

startup-first :
    (p : Platform)
    → ubench_measurement_init p.papi ≡ some true
    → (s : Agent) × (ubench_startup p unloaded ≡ some (true, s))
      × (s.startup_guard ≡ 1)
      × (s.initialized ≡ counters ∷ threads ∷ measurement ∷ events ∷ [])
unfolding ubench_startup init_modules ubench_atomic_int_inc ubench_event_init
startup-first p papi =
    let s : Agent = init_threads p (init_counters p (record unloaded { startup_guard = 1 })) in
    let s' : Agent = record s { initialized = counters ∷ threads ∷ measurement ∷ events ∷ [] } in
    (s', rw papi refl, refl, refl)

first-load :
    (entry : Entry) (p : Platform)
    → IsLoad entry
    → ubench_measurement_init p.papi ≡ some true
    → (s : Agent) × LaterCall (record { entry = entry; platform = p }) unloaded s
      × (s.startup_guard ≡ 1)
      × (s.initialized ≡ counters ∷ threads ∷ measurement ∷ events ∷ [])
unfolding agent_on_load jni_on_load
first-load load_agent p load papi =
    let (s, called, guard, initialized) = startup-first p papi in
    (s, ap (answer (pos 0) minus_one) called, guard, initialized)
first-load load_library p load papi =
    let (s, called, guard, initialized) = startup-first p papi in
    (s, ap (answer (pos 0x00010008) (pos 0)) called, guard, initialized)
first-load unload_agent p load papi = elim load [ ]
first-load unload_library p load papi = elim load [ ]

-- Where PAPI starts, the first load initializes each module once, in order, and returns the result
-- of success. The loads and unloads behind it, fewer than 2^32 - 1 and in any order, return their
-- results of success too, and leave the contexts and the trace of the initializations unchanged.
pub loads-once :
    (c : Call) (others : List Call)
    → IsLoad c.entry
    → ubench_measurement_init c.platform.papi ≡ some true
    → suc (count others) < 2 ^ 32
    → (s s' : Agent) × (run (c ∷ others) unloaded ≡ some (map later_result (c ∷ others), s'))
      × (enter c unloaded ≡ some (later_result c, s))
      × (s.initialized ≡ counters ∷ threads ∷ measurement ∷ events ∷ [])
      × SameModules s s'
loads-once c others load papi few =
    let (s, called, guard, initialized) = first-load c.entry c.platform load papi in
    let (s', ran, same) = run-later others s (ground arith) in
    (s, s', rw (called, ran) refl, called, initialized, same)
