-- ===== src/Jvmti/Order.antt =====
-- The order of the calls that src/c/jvmutil.c makes, and what it leaves behind.
use java_ubench_agent.Prelude.{
  ℕ, true, false, none, some, ◌≡◌, refl, ◌⊎◌, inl, inr, List, [], ◌∷◌, ◌++◌, arith, Bool-cases,
  if◌then◌else◌, map,
}
use java_ubench_agent.Jvmti.{
  Context, JvmCall, get_env, add_capabilities, enable_event, set_event_callbacks,
  dispose_environment, JvmAnswers, is_ok, enable_events, ubench_jvmti_context_enable,
  ubench_jvmti_context_init_and_enable,
}

-- All calls of a context that is enabled: the capabilities, if any, then every event, then the
-- callbacks.
abbrev pub all_calls : ℕ → Context → List JvmCall
all_calls jvmti context =
    (if context.has_capabilities then add_capabilities jvmti ∷ [] else [])
    ++ (map (enable_event jvmti) context.events ++ set_event_callbacks jvmti ∷ [])

enable_events-all :
    (jvm : JvmAnswers) (jvmti : ℕ) (events : List ℕ)
    → (enable_events jvm jvmti events).0 ≡ true
    → (enable_events jvm jvmti events).1 ≡ map (enable_event jvmti) events
unfolding enable_events
enable_events-all jvm jvmti [] h = refl
enable_events-all jvm jvmti (event ∷ events) h =
    ground (arith, h, enable_events-all jvm jvmti events)

enable-all_calls :
    (jvm : JvmAnswers) (jvmti : ℕ) (context : Context)
    → (ubench_jvmti_context_enable jvm jvmti context).0 ≡ true
    → (ubench_jvmti_context_enable jvm jvmti context).1 ≡ all_calls jvmti context
unfolding ubench_jvmti_context_enable
enable-all_calls jvm jvmti context h = ground (arith, h, enable_events-all jvm jvmti context.events)

-- A successful ubench_jvmti_context_init_and_enable leaves the environment in the context, and has
-- made exactly these calls, in this order: GetEnv, the capabilities if the context has any, each
-- event enabled, and last the callbacks.
pub init_and_enable-ordered :
    (jvm : JvmAnswers) (context : Context)
    → (ubench_jvmti_context_init_and_enable jvm context).0 ≡ true
    → ((ubench_jvmti_context_init_and_enable jvm context).1.jvmti ≡ some jvm.env.1)
      × ((ubench_jvmti_context_init_and_enable jvm context).2
          ≡ get_env ∷ all_calls jvm.env.1 context)
unfolding ubench_jvmti_context_init_and_enable
init_and_enable-ordered jvm context h = elim (Bool-cases (is_ok jvm.env.0)) [
  | inr failed ↦ absurd (ground (arith, h, failed))
  | inl got ↦
      let context' : Context = record context { jvmti = some jvm.env.1 } in
      elim (Bool-cases (ubench_jvmti_context_enable jvm jvm.env.1 context').0) [
        | inr refused ↦ absurd (ground (arith, h, got, refused))
        | inl enabled ↦ (
          ground (arith, got, enabled),
          ground (arith, got, enabled, enable-all_calls jvm jvm.env.1 context' enabled),
        )
      ]
]

-- A failed ubench_jvmti_context_init_and_enable either could not get an environment, and then has
-- called nothing else and left the context as it was; or its last call disposes of the environment,
-- and the context has none.
pub init_and_enable-released :
    (jvm : JvmAnswers) (context : Context)
    → (ubench_jvmti_context_init_and_enable jvm context).0 ≡ false
    → ((ubench_jvmti_context_init_and_enable jvm context).1 ≡ context)
        × ((ubench_jvmti_context_init_and_enable jvm context).2 ≡ get_env ∷ [])
      ⊎ (calls : List JvmCall) × ((ubench_jvmti_context_init_and_enable jvm context).1
          ≡ record context { jvmti = none })
        × ((ubench_jvmti_context_init_and_enable jvm context).2
            ≡ get_env ∷ (calls ++ dispose_environment jvm.env.1 ∷ []))
unfolding ubench_jvmti_context_init_and_enable
init_and_enable-released jvm context h = elim (Bool-cases (is_ok jvm.env.0)) [
  | inr failed ↦ inl (ground (arith, failed), ground (arith, failed))
  | inl got ↦
      let context' : Context = record context { jvmti = some jvm.env.1 } in
      elim (Bool-cases (ubench_jvmti_context_enable jvm jvm.env.1 context').0) [
        | inl enabled ↦ absurd (ground (arith, h, got, enabled))
        | inr refused ↦ inr (
          (ubench_jvmti_context_enable jvm jvm.env.1 context').1,
          ground (arith, got, refused),
          ground (arith, got, refused),
        )
      ]
]
