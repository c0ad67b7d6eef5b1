-- ===== src/Measurement/Create/PapiSetup.antt =====
-- The PAPI calls of createEventSet change no more than the event set's PAPI identifier
-- (src/c/measurement.c).
use java_ubench_agent.Prelude.{ℕ, suc, ℤ, int_eq, inl, inr, List, [], ◌∷◌, Bool-cases}
use java_ubench_agent.Strutil.{Text, bytes}
use java_ubench_agent.Events.Getters.{is_papi_ok}
use java_ubench_agent.Events.Types.{backend_papi}
use java_ubench_agent.Measure.{uses}
use java_ubench_agent.Measurement.State.{Config}
use java_ubench_agent.Measurement.Create.{
  thread_inherit, must, set_options, add_papi_events, setup_papi,
}
use java_ubench_agent.Measurement.Stages.{Env, Stage, ◌>>=◌}
use java_ubench_agent.Measurement.Create.Building.{Safe, Safe-bind, guarded-Safe, Refused}

module _ (env : Env) (n : ℕ) (P : Config → Type 0) where
  abbrev U : Type 0
  U = Refused env n

  must-Safe : (function : Text) (rc : ℤ) (c : Config) → P c → Safe U P (must env function rc c)
  must-Safe function rc c p = elim (Bool-cases (is_papi_ok rc)) [
    | inl ok ↦ rw ok p
    | inr bad ↦ rw bad tt
  ]

  set_options-Safe :
      (k : ℕ) (options : List ℤ) (c : Config) → P c → Safe U P (set_options env k options c)
  unfolding set_options
  set_options-Safe k [] c p = p
  set_options-Safe k (option ∷ options) c p = elim (Bool-cases (int_eq option thread_inherit)) [
    | inl inherit ↦ rw inherit (
        Safe-bind U P P _ (set_options env (suc k) options)
          (must-Safe (bytes "PAPI_set_opt(PAPI_INHERIT)") (env.calls.set_inherit k) c p)
          (set_options-Safe (suc k) options))
    | inr other ↦ rw other (set_options-Safe (suc k) options c p)
  ]

  add_papi_events-Safe : (ids : List ℕ) (c : Config) → P c → Safe U P (add_papi_events env ids c)
  unfolding add_papi_events
  add_papi_events-Safe [] c p = p
  add_papi_events-Safe (id ∷ ids) c p =
      Safe-bind U P P _ (add_papi_events env ids)
        (must-Safe (bytes "PAPI_add_event") (env.calls.add_event c.papi_eventset id) c p)
        (add_papi_events-Safe ids)

  -- The first two calls.
  abbrev created : Config → Stage
  created c =
      must env (bytes "PAPI_create_eventset") env.calls.create_eventset.0
        (record c { papi_eventset = env.calls.create_eventset.1 })

  abbrev assigned : Config → Config → Stage
  assigned c =
      must env (bytes "PAPI_assign_eventset_component")
        (env.calls.assign_component env.calls.create_eventset.1 c.papi_component)

  pub setup_papi-Safe :
      (options : List ℤ) (c : Config)
      → P c
      → P (record c { papi_eventset = env.calls.create_eventset.1 })
      → Safe U P (setup_papi env options c)
  unfolding setup_papi
  setup_papi-Safe options c p p' =
      guarded-Safe U P env.options_ok _ inr (elim (Bool-cases (uses c.used_backends backend_papi)) [
        | inl papi ↦ rw papi (
            Safe-bind U P P (created c >>= assigned c >>= set_options env 0 options)
              (add_papi_events env c.used_papi_events)
              (Safe-bind U P P (created c >>= assigned c) (set_options env 0 options)
                (Safe-bind U P P (created c) (assigned c)
                  (must-Safe (bytes "PAPI_create_eventset") env.calls.create_eventset.0 _ p')
                  (must-Safe (bytes "PAPI_assign_eventset_component")
                    (env.calls.assign_component env.calls.create_eventset.1 c.papi_component)))
                (set_options-Safe 0 options))
              (add_papi_events-Safe c.used_papi_events))
        | inr none_used ↦ rw none_used p
      ])
