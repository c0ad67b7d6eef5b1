-- ===== src/Tests/Threads.antt =====
-- The map of the threads (src/c/threads.c) and its lock (src/c/mylock.h) on test data.
use java_ubench_agent.Prelude.{
  ◌≤◌, ℕ, pos, minus_one, true, false, some, List, get_elem?, ◌≡◌, ◌≢◌, refl, [], ◌∷◌, arith, ℤ,
}
use java_ubench_agent.Threads.Map.{
  Entry, ThreadMap, invalid_thread_id, ubench_register_java_thread, ubench_unregister_native_thread,
  ubench_threads_get_native_id, thread_map_index_of_native_thread,
}
use java_ubench_agent.Threads.Locking.{
  System, outside, spinning, inside, move, enters, reads, working, registers, looks_up, leaves,
  try_lock, ubench_spinlock_unlock, Runs, begins, continues, count_inside, Runs-exclusive,
}
use java_ubench_agent.Threads.Registry.{IsValid, register-IsValid}
use java_ubench_agent.Threads.Removal.{get-unregister}
use java_ubench_agent.Threads.Natives.{
  Call, thread_start, thread_end, register_java, register_current, get_native, Result, nothing,
  flag, identifier, perform, perform_all,
}
use java_ubench_agent.Threads.Progress.{Steps, here, step, Runs-progress}
use java_ubench_agent.Threads.Linear.{Performs, register, look_up, Steps-Performs}
use java_ubench_agent.Threads.Refinement.{Follows, perform_all-Follows}
use java_ubench_agent.Threads.Roundtrip.{unregister-register}
use java_ubench_agent.Threads.Table.{table}
use mathlib.Core.List.{Nodup-nil}

abbrev entry : ℕ → ℕ → Entry
entry java native = record { native_id = pos native; java_id = pos java }

abbrev no_threads : ThreadMap
no_threads = record { entries = []; capacity = 4 }

abbrev one_thread : ThreadMap
one_thread = record { entries = entry 1 100 ∷ []; capacity = 4 }

abbrev two_threads : ThreadMap
two_threads = record { entries = entry 1 100 ∷ entry 2 200 ∷ []; capacity = 4 }

no_threads-IsValid : IsValid no_threads
no_threads-IsValid = record { unique = Nodup-nil; room = omega arith }

one_thread-IsValid : IsValid one_thread
unfolding ubench_register_java_thread
one_thread-IsValid =
    register-IsValid true no_threads (pos 1) (pos 100) {b = true} no_threads-IsValid refl

two_threads-IsValid : IsValid two_threads
unfolding ubench_register_java_thread
two_threads-IsValid =
    register-IsValid true one_thread (pos 2) (pos 200) {b = true} one_thread-IsValid refl

get-unregister_example :
    (j : ℤ) × (ubench_threads_get_native_id two_threads j ≡ pos 100)
    × (ubench_threads_get_native_id (record { entries = entry 2 200 ∷ []; capacity = 4 }) j
        ≡ invalid_thread_id)
    × ((k : ℤ)
        → k ≢ j
        → ubench_threads_get_native_id (record { entries = entry 2 200 ∷ []; capacity = 4 }) k
          ≡ ubench_threads_get_native_id two_threads k)
unfolding ubench_unregister_native_thread
get-unregister_example = get-unregister two_threads (pos 100) two_threads-IsValid refl

-- Two threads that want the lock; the first one takes it and registers itself.
abbrev two_waiting : System
two_waiting = record { value = 0; thread_map = no_threads; phases = spinning ∷ spinning ∷ [] }

registered-Runs :
    Runs (record { value = 1; thread_map = one_thread; phases = inside ∷ spinning ∷ [] })
unfolding try_lock ubench_register_java_thread
registered-Runs =
    continues
      (continues
        (continues (begins two_waiting refl refl no_threads-IsValid)
          (enters two_waiting 0 refl refl))
        (reads (move two_waiting 0 inside 1) 0 refl))
      (registers (move two_waiting 0 (working no_threads) 1) 0 true (pos 1) (pos 100) refl refl)

Runs-exclusive_example : (count_inside (inside ∷ spinning ∷ []) ≤ 1) × IsValid one_thread
Runs-exclusive_example = Runs-exclusive registered-Runs

Runs-progress_example :
    (s : System) × Steps
      (record { value = 1; thread_map = one_thread; phases = inside ∷ spinning ∷ [] })
      s
    × (get_elem? s.phases 1 ≡ some inside)
Runs-progress_example = Runs-progress 1 registered-Runs refl

unregister-register_example :
    ubench_unregister_native_thread two_threads (pos 200) ≡ (one_thread, true)
unfolding ubench_register_java_thread thread_map_index_of_native_thread
unregister-register_example = unregister-register true one_thread (pos 2) (pos 200) refl refl

-- A thread that starts, registers itself again, is looked up and ends.
abbrev history : List Call
history =
    thread_start true (pos 1) (pos 100)
    ∷ register_current true (pos 1) (pos 100)
    ∷ register_java true (pos 2) (pos 200)
    ∷ get_native (pos 1)
    ∷ thread_end (pos 100)
    ∷ get_native (pos 1)
    ∷ []

perform_all-Follows_example :
    (rs : List Result) × (m : ThreadMap) × (perform_all history no_threads ≡ some (rs, m))
    × Follows (table no_threads) history rs (table m)
    × IsValid m
perform_all-Follows_example =
    perform_all-Follows history no_threads (refl, (refl, (refl, (tt, (tt, (tt, tt))))))
      no_threads-IsValid

-- The results of the history.
history-results :
    perform_all history no_threads
    ≡ some (
      nothing ∷ flag false ∷ flag true ∷ identifier (pos 100) ∷ nothing ∷ identifier minus_one ∷ [],
      record { entries = entry 2 200 ∷ []; capacity = 4 },
    )
unfolding perform
history-results = refl

abbrev locked : System
locked = record { value = 1; thread_map = one_thread; phases = inside ∷ spinning ∷ [] }

-- The first thread takes the lock, registers itself, looks itself up and leaves.
unfoldable section :
    Steps two_waiting
      (record { value = 0; thread_map = one_thread; phases = outside ∷ spinning ∷ [] })
unfolding try_lock ubench_register_java_thread ubench_threads_get_native_id ubench_spinlock_unlock
section = step (enters two_waiting 0 refl refl) (
    step (reads (move two_waiting 0 inside 1) 0 refl) (
      step
        (registers (move two_waiting 0 (working no_threads) 1) 0 true (pos 1) (pos 100)
          {added = true} refl refl)
        (step (reads locked 0 refl) (
          step
            (looks_up (move locked 0 (working one_thread) 1) 0 (pos 1) {native_id = pos 100} refl
              refl)
            (step (leaves locked 0 refl) (here _))))))

Steps-Performs_example :
    Performs
      (table no_threads)
      (register (pos 1) (pos 100) true ∷ look_up (pos 1) (pos 100) ∷ [])
      (table one_thread)
unfolding section
Steps-Performs_example = Steps-Performs (begins two_waiting refl refl no_threads-IsValid) section
