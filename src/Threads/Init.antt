-- ===== src/Threads/Init.antt =====
-- src/c/threads.c: how the registration of threads is enabled, at once or when the JVM is
-- initialized.
use java_ubench_agent.Prelude.{
  ℕ, Bool, false, [], ◌∷◌, Option, none, some, ◌≡◌, refl, ◌⊎◌, inl, inr, if◌then◌else◌, Bool-cases,
}
use java_ubench_agent.Jvmti.{Context, JvmAnswers, ubench_jvmti_context_init_and_enable}

-- thread_get_id_method and the two contexts.
pub record Registration : Type 0 where
  pub thread_get_id_method : Option ℕ
  pub threads_context : Context
  pub init_context : Context

-- JVMTI_EVENT_THREAD_START, JVMTI_EVENT_THREAD_END and JVMTI_EVENT_VM_INIT
abbrev pub unregistered : Registration
unregistered = record {
  thread_get_id_method = none;
  threads_context = record { jvmti = none; events = 52 ∷ 53 ∷ []; has_capabilities = false };
  init_context = record { jvmti = none; events = 50 ∷ []; has_capabilities = false };
}

-- What the JVM answers: whether it gives a JNI environment and, to a callback, itself; the class
-- java.lang.Thread and its method getId.
pub record JniAnswers : Type 0 where
  pub env_ok : Bool
  pub vm_ok : Bool
  pub class_found : Bool
  pub get_id : Option ℕ

abbrev pub enable_threads : JvmAnswers → Option ℕ → Registration → Bool × Registration
enable_threads jvm none s = (false, record s { thread_get_id_method = none })
enable_threads jvm (some method) s =
    let (ok, context, calls) = ubench_jvmti_context_init_and_enable jvm s.threads_context in
    (ok, record s { thread_get_id_method = some method; threads_context = context })

unfoldable pub enable_automatic_threads_registration :
    JvmAnswers → JniAnswers → Registration → Bool × Registration
unfolding ubench_jvmti_context_init_and_enable
enable_automatic_threads_registration jvm jni s =
    if jni.class_found then enable_threads jvm jni.get_id s else (false, s)

-- jvmti_callback_on_vm_init
unfoldable pub on_vm_init : JvmAnswers → JniAnswers → Registration → Registration
unfolding enable_automatic_threads_registration
on_vm_init jvm jni s = if jni.vm_ok then (enable_automatic_threads_registration jvm jni s).1 else s

unfoldable pub ubench_threads_init : JvmAnswers → JniAnswers → Registration → Bool × Registration
unfolding enable_automatic_threads_registration ubench_jvmti_context_init_and_enable
ubench_threads_init jvm jni s =
    let (ok, context, calls) = ubench_jvmti_context_init_and_enable jvm s.init_context in
    if jni.env_ok
    then enable_automatic_threads_registration jvm jni s
    else (ok, record s { init_context = context })

-- The callbacks of threads run only with an environment, and then the method getId is known.
abbrev pub CanRegister : Registration → Type 0
CanRegister s =
    (s.threads_context.jvmti ≡ none) ⊎ (method : ℕ) × (s.thread_get_id_method ≡ some method)

enable_threads-CanRegister :
    (jvm : JvmAnswers) (method : Option ℕ) (s : Registration)
    → s.threads_context.jvmti ≡ none
    → CanRegister (enable_threads jvm method s).1
enable_threads-CanRegister jvm none s off = inl off
enable_threads-CanRegister jvm (some method) s off = inr (method, refl)

enable-CanRegister :
    (jvm : JvmAnswers) (jni : JniAnswers) (s : Registration)
    → s.threads_context.jvmti ≡ none
    → CanRegister (enable_automatic_threads_registration jvm jni s).1
unfolding enable_automatic_threads_registration
enable-CanRegister jvm jni s off = elim (Bool-cases jni.class_found) [
  | inl there ↦ rw there (enable_threads-CanRegister jvm jni.get_id s off)
  | inr missing ↦ rw missing (inl off)
]

-- ubench_threads_init, and behind a delayed one the callback of the initialized JVM.
abbrev pub threads_started :
    (jvm jvm' : JvmAnswers) (jni jni' : JniAnswers) → Registration → Registration
threads_started jvm jvm' jni jni' s =
    if jni.env_ok
    then (ubench_threads_init jvm jni s).1
    else on_vm_init jvm' jni' (ubench_threads_init jvm jni s).1

-- Where no thread events are enabled yet, both ubench_threads_init and, if it was delayed, the
-- callback of the initialized JVM behind it leave a state in which the callbacks of threads are off
-- or the method Thread.getId() that they call is known.
pub threads_init-CanRegister :
    (jvm jvm' : JvmAnswers) (jni jni' : JniAnswers) (s : Registration)
    → s.threads_context.jvmti ≡ none
    → CanRegister (ubench_threads_init jvm jni s).1
      × CanRegister (threads_started jvm jvm' jni jni' s)
unfolding ubench_threads_init on_vm_init
threads_init-CanRegister jvm jvm' jni jni' s off = elim (Bool-cases jni.env_ok) [
  | inl now ↦ (rw now (enable-CanRegister jvm jni s off), rw now (enable-CanRegister jvm jni s off))
  | inr delayed ↦ (
    rw delayed (inl off),
    elim (Bool-cases jni'.vm_ok) [
      | inl there ↦
          rw (delayed, there)
            (enable-CanRegister jvm' jni'
              (record s {
                init_context = (ubench_jvmti_context_init_and_enable jvm s.init_context).1;
              })
              off)
      | inr missing ↦ rw (delayed, missing) (inl off)
    ],
  )
]
