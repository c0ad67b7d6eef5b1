-- ===== src/Threads/Map.antt =====
-- src/c/threads.c: thread_map_t and its operations, and the functions that the agent calls under
-- the lock. Identifiers are of 64 bits; the array is the list of its first `length` entries.
use java_ubench_agent.Prelude.{
  ℕ, suc, ◌+◌, ◌-◌, ℤ, minus_one, int_eq, Bool, true, false, Option, none, some, List, [], ◌∷◌,
  ◌++◌, ltb, if◌then◌else◌, get_elem?, set, length, take,
}

-- thread_map_entry_t
pub record Entry : Type 0 where
  pub native_id : ℤ
  pub java_id : ℤ

-- thread_map_t, with `length` the length of `entries`.
pub record ThreadMap : Type 0 where
  pub entries : List Entry
  pub capacity : ℕ

-- The results of the operations: 0, EEXIST, ENOMEM, ENOENT.
pub data Code : Type 0 where
  success exists no_memory no_entry : Code

-- UBENCH_THREAD_ID_INVALID
abbrev pub invalid_thread_id : ℤ
invalid_thread_id = minus_one

-- The first entry from `i` on that satisfies the predicate; `none` is -1.
unfoldable pub thread_map_index_of : (Entry → Bool) → ℕ → List Entry → Option ℕ
thread_map_index_of predicate i [] = none
thread_map_index_of predicate i (e ∷ es) =
    if predicate e then some i else thread_map_index_of predicate (suc i) es

abbrev pub predicate_java_id_match : ℤ → Entry → Bool
predicate_java_id_match java_thread_id e = int_eq e.java_id java_thread_id

abbrev pub predicate_native_id_match : ℤ → Entry → Bool
predicate_native_id_match native_thread_id e = int_eq e.native_id native_thread_id

unfoldable pub thread_map_index_of_java_thread : ThreadMap → ℤ → Option ℕ
unfolding thread_map_index_of
thread_map_index_of_java_thread map java_thread_id =
    thread_map_index_of (predicate_java_id_match java_thread_id) 0 map.entries

unfoldable pub thread_map_index_of_native_thread : ThreadMap → ℤ → Option ℕ
unfolding thread_map_index_of
thread_map_index_of_native_thread map native_thread_id =
    thread_map_index_of (predicate_native_id_match native_thread_id) 0 map.entries

-- `allocated` says whether realloc succeeds; `none` is `false`.
unfoldable pub thread_map_ensure_capacity : Bool → ThreadMap → ℕ → Option ThreadMap
thread_map_ensure_capacity allocated map required_capacity =
    if ltb map.capacity required_capacity
    then (if allocated then some (record map { capacity = required_capacity }) else none)
    else some map

unfoldable pub thread_map_put_java_thread : Bool → ThreadMap → ℤ → ℤ → ThreadMap × Code
unfolding thread_map_index_of_java_thread thread_map_ensure_capacity
thread_map_put_java_thread allocated map java_thread_id native_thread_id =
    elim (thread_map_index_of_java_thread map java_thread_id) [
      | some i ↦ (map, exists)
      | none ↦ elim (thread_map_ensure_capacity allocated map (length map.entries + 1)) [
        | none ↦ (map, no_memory)
        | some map' ↦ (
          record map' {
            entries =
                map'.entries
                ++ record { native_id = native_thread_id; java_id = java_thread_id } ∷ [];
          },
          success,
        )
      ]
    ]

-- `entries[index] = entries[length]` behind `length--`
abbrev pub replace_by_last : List Entry → ℕ → Option Entry → List Entry
replace_by_last entries index none = entries
replace_by_last entries index (some last) = take (length entries - 1) (set entries index last)

unfoldable pub thread_map_remove_native_thread : ThreadMap → ℤ → ThreadMap × Code
unfolding thread_map_index_of_native_thread
thread_map_remove_native_thread map native_thread_id =
    elim (thread_map_index_of_native_thread map native_thread_id) [
      | none ↦ (map, no_entry)
      | some index ↦ (
        record map {
          entries =
              replace_by_last map.entries index (get_elem? map.entries (length map.entries - 1));
        },
        success,
      )
    ]

abbrev pub registered : ThreadMap × Code → Option (ThreadMap × Bool)
registered (map, success) = some (map, true)
registered (map, exists) = some (map, false)
registered (map, no_memory) = none
registered (map, no_entry) = some (map, false)

-- The call that fails for want of memory ends the process: `none`.
unfoldable pub ubench_register_java_thread : Bool → ThreadMap → ℤ → ℤ → Option (ThreadMap × Bool)
unfolding thread_map_put_java_thread
ubench_register_java_thread allocated map java_thread_id native_thread_id =
    registered (thread_map_put_java_thread allocated map java_thread_id native_thread_id)

abbrev pub is_success : Code → Bool
is_success success = true
is_success exists = false
is_success no_memory = false
is_success no_entry = false

unfoldable pub ubench_unregister_native_thread : ThreadMap → ℤ → ThreadMap × Bool
unfolding thread_map_remove_native_thread
ubench_unregister_native_thread map native_thread_id =
    let (map', code) = thread_map_remove_native_thread map native_thread_id in
    (map', is_success code)

unfoldable pub ubench_threads_get_native_id : ThreadMap → ℤ → ℤ
unfolding thread_map_index_of_java_thread
ubench_threads_get_native_id map java_thread_id =
    elim (thread_map_index_of_java_thread map java_thread_id) [
      | none ↦ invalid_thread_id
      | some index ↦ elim (get_elem? map.entries index) [
        | none ↦ invalid_thread_id
        | some e ↦ e.native_id
      ]
    ]

-- INVALID_THREAD_ID of the Java class NativeThreads
abbrev pub java_invalid_thread_id : ℤ
java_invalid_thread_id = minus_one

-- Java_..._NativeThreads_getNativeId
unfoldable pub get_native_id : ThreadMap → ℤ → ℤ
unfolding ubench_threads_get_native_id
get_native_id map java_thread_id =
    let native_thread_id = ubench_threads_get_native_id map java_thread_id in
    if int_eq native_thread_id invalid_thread_id then java_invalid_thread_id else native_thread_id

-- jvmti_callback_on_thread_start and jvmti_callback_on_thread_end, with the identifiers that the
-- JVM and the system give for the current thread. The flag goes to the debug output only.
unfoldable pub on_thread_start :
    Bool → ThreadMap → (java_id native_id : ℤ) → Option (ThreadMap × Bool)
unfolding ubench_register_java_thread
on_thread_start allocated map java_id native_id =
    ubench_register_java_thread allocated map java_id native_id

unfoldable pub on_thread_end : ThreadMap → (native_id : ℤ) → ThreadMap × Bool
unfolding ubench_unregister_native_thread
on_thread_end map native_id = ubench_unregister_native_thread map native_id
