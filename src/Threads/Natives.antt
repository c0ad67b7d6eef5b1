-- ===== src/Threads/Natives.antt =====
-- src/c/threads.c: the native methods of the Java class NativeThreads and the callbacks of the JVM,
-- as the calls that change or read the map of the threads.
use java_ubench_agent.Prelude.{ℤ, Bool, Option, none, some, List, [], ◌∷◌}
use java_ubench_agent.Threads.Map.{
  ThreadMap, ubench_register_java_thread, on_thread_start, on_thread_end, get_native_id,
}

-- ubench_get_current_thread_native_id, from the answer of the system call.
abbrev pub ubench_get_current_thread_native_id : (answer : ℤ) → ℤ
ubench_get_current_thread_native_id answer = answer

-- Java_..._NativeThreads_registerJavaThread
unfoldable pub register_java_thread :
    Bool → ThreadMap → (java_thread_id jnative_thread_id : ℤ) → Option (ThreadMap × Bool)
unfolding ubench_register_java_thread
register_java_thread allocated map java_thread_id jnative_thread_id =
    ubench_register_java_thread allocated map java_thread_id jnative_thread_id

-- Java_..._NativeThreads_registerCurrentJavaThread
unfoldable pub register_current_java_thread :
    Bool → ThreadMap → (java_thread_id answer : ℤ) → Option (ThreadMap × Bool)
unfolding ubench_register_java_thread
register_current_java_thread allocated map java_thread_id answer =
    ubench_register_java_thread allocated map java_thread_id
      (ubench_get_current_thread_native_id answer)

-- A call, with the success of its allocation and the answer of the system for the current thread.
pub data Call : Type 0 where
  thread_start : (allocated : Bool) (java_id answer : ℤ) → Call
  thread_end : (answer : ℤ) → Call
  register_java : (allocated : Bool) (java_id native_id : ℤ) → Call
  register_current : (allocated : Bool) (java_id answer : ℤ) → Call
  get_native : (java_id : ℤ) → Call

-- What a call returns: nothing, the flag of a registration, or an identifier.
pub data Result : Type 0 where
  nothing : Result
  flag : Bool → Result
  identifier : ℤ → Result

-- The result of a call and the map behind it; `none` is the end of the process.
abbrev pub without_flag : Option (ThreadMap × Bool) → Option (Result × ThreadMap)
without_flag none = none
without_flag (some (m, b)) = some (nothing, m)

abbrev pub with_flag : Option (ThreadMap × Bool) → Option (Result × ThreadMap)
with_flag none = none
with_flag (some (m, b)) = some (flag b, m)

unfoldable pub perform : Call → ThreadMap → Option (Result × ThreadMap)
unfolding on_thread_start on_thread_end register_java_thread register_current_java_thread
    get_native_id
perform (thread_start allocated java_id answer) m =
    without_flag (on_thread_start allocated m java_id (ubench_get_current_thread_native_id answer))
perform (thread_end answer) m =
    some (nothing, (on_thread_end m (ubench_get_current_thread_native_id answer)).0)
perform (register_java allocated java_id native_id) m =
    with_flag (register_java_thread allocated m java_id native_id)
perform (register_current allocated java_id answer) m =
    with_flag (register_current_java_thread allocated m java_id answer)
perform (get_native java_id) m = some (identifier (get_native_id m java_id), m)

-- The calls one after another.
abbrev pub and_result : Result → Option (List Result × ThreadMap) → Option (List Result × ThreadMap)
and_result r none = none
and_result r (some (rs, m)) = some (r ∷ rs, m)

abbrev pub perform_from :
    Option (Result × ThreadMap)
    → (ThreadMap → Option (List Result × ThreadMap))
    → Option (List Result × ThreadMap)
perform_from none rest = none
perform_from (some (r, m)) rest = and_result r (rest m)

abbrev pub perform_all : List Call → ThreadMap → Option (List Result × ThreadMap)
perform_all [] m = some ([], m)
perform_all (c ∷ cs) m = perform_from (perform c m) (perform_all cs)
