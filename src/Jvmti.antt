-- ===== src/Jvmti.antt =====
-- src/c/jvmutil.c: contexts of the JVM tool interface. Each function gives its result, the context
-- behind it and the calls of the interface that it made, in order.
pub mod Order
use java_ubench_agent.Prelude.{
  ℕ, ℤ, pos, int_eq, Bool, true, false, Option, none, some, List, [], ◌∷◌, ◌++◌, if◌then◌else◌,
}

-- jvmti_context_t: `events` is the array before its zero; the callbacks and the capabilities are
-- only handed on.
pub record Context : Type 0 where
  pub jvmti : Option ℕ
  pub events : List ℕ
  pub has_capabilities : Bool

-- The calls, on an environment of the interface.
pub data JvmCall : Type 0 where
  get_env : JvmCall
  add_capabilities : ℕ → JvmCall
  enable_event : ℕ → ℕ → JvmCall
  set_event_callbacks : ℕ → JvmCall
  dispose_environment : ℕ → JvmCall

-- What the calls return: GetEnv an error and an environment, the others an error.
pub record JvmAnswers : Type 0 where
  pub env : ℤ × ℕ
  pub capabilities : ℤ
  pub event : ℕ → ℤ
  pub callbacks : ℤ
  pub dispose : ℤ

-- JNI_OK and JVMTI_ERROR_NONE
abbrev pub is_ok : ℤ → Bool
is_ok error = int_eq error (pos 0)

unfoldable pub ubench_jvmti_context_init : JvmAnswers → Context → Bool × Context × List JvmCall
ubench_jvmti_context_init jvm context =
    let (env_error, jvmti) = jvm.env in
    if is_ok env_error
    then (true, record context { jvmti = some jvmti }, get_env ∷ [])
    else (false, context, get_env ∷ [])

-- The loop over the events.
unfoldable pub enable_events : JvmAnswers → ℕ → List ℕ → Bool × List JvmCall
enable_events jvm jvmti [] = (true, [])
enable_events jvm jvmti (event ∷ events) =
    let (ok, calls) = enable_events jvm jvmti events in
    if is_ok (jvm.event event)
    then (ok, enable_event jvmti event ∷ calls)
    else (false, enable_event jvmti event ∷ [])

-- The part behind the capabilities.
unfoldable pub enable_rest : JvmAnswers → ℕ → Context → Bool × List JvmCall
unfolding enable_events
enable_rest jvm jvmti context =
    let (ok, calls) = enable_events jvm jvmti context.events in
    if ok then (is_ok jvm.callbacks, calls ++ set_event_callbacks jvmti ∷ []) else (false, calls)

-- The context has an environment, as the code asserts.
unfoldable pub ubench_jvmti_context_enable : JvmAnswers → ℕ → Context → Bool × List JvmCall
unfolding enable_rest
ubench_jvmti_context_enable jvm jvmti context =
    let (ok, calls) = enable_rest jvm jvmti context in
    if context.has_capabilities
    then (if is_ok jvm.capabilities
        then (ok, add_capabilities jvmti ∷ calls)
        else (false, add_capabilities jvmti ∷ []))
    else (ok, calls)

unfoldable pub ubench_jvmti_context_destroy : JvmAnswers → Context → Bool × Context × List JvmCall
ubench_jvmti_context_destroy jvm context = elim context.jvmti [
  | none ↦ (false, context, [])
  | some jvmti ↦
      (is_ok jvm.dispose, record context { jvmti = none }, dispose_environment jvmti ∷ [])
]

-- The context behind a successful init, which stored the environment.
abbrev pub enable_or_destroy : JvmAnswers → Context → Option ℕ → Bool × Context × List JvmCall
enable_or_destroy jvm context none = (false, context, [])
enable_or_destroy jvm context (some jvmti) =
    let (ok, calls) = ubench_jvmti_context_enable jvm jvmti context in
    let (disposed, context', more) = ubench_jvmti_context_destroy jvm context in
    if ok then (true, context, calls) else (false, context', calls ++ more)

unfoldable pub ubench_jvmti_context_init_and_enable :
    JvmAnswers → Context → Bool × Context × List JvmCall
unfolding ubench_jvmti_context_init ubench_jvmti_context_enable ubench_jvmti_context_destroy
ubench_jvmti_context_init_and_enable jvm context =
    let (ok, context', calls) = ubench_jvmti_context_init jvm context in
    let (enabled, context'', more) = enable_or_destroy jvm context' context'.jvmti in
    if ok then (enabled, context'', calls ++ more) else (false, context', calls)
