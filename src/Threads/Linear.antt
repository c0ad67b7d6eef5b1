-- ===== src/Threads/Linear.antt =====
-- The critical sections of src/c/threads.c under src/c/mylock.h, interleaved, against the partial
-- function from Java threads to native threads.
use java_ubench_agent.Prelude.{ap, ℤ, Bool, sym, ◌∙◌, List, [], ◌∷◌, ◌++◌, subst}
use java_ubench_agent.Threads.Map.{ubench_unregister_native_thread, ubench_threads_get_native_id}
use java_ubench_agent.Threads.Lookup.{or_invalid, get_native_id-find_java}
use java_ubench_agent.Threads.Registry.{IsValid}
use java_ubench_agent.Threads.Locking.{
  System, Step, arrives, spins, enters, reads, registers, unregisters, looks_up, leaves, Runs,
  continues, Runs-IsExclusive, Runs-current,
}
use java_ubench_agent.Threads.Progress.{Steps, here, step}
use java_ubench_agent.Threads.Table.{
  Table, table, Registers, Unregisters, register-Registers, unregister-Unregisters,
}

-- What a critical section has done, with its result.
pub data Operation : Type 0 where
  register : (java_id native_id : ℤ) (added : Bool) → Operation
  unregister : (native_id : ℤ) (removed : Bool) → Operation
  look_up : (java_id result : ℤ) → Operation

-- The operation of a step; the steps of the lock have none.
abbrev pub operation_of : {s s' : System} → Step s s' → List Operation
operation_of (arrives s i at) = []
operation_of (spins s i at busy) = []
operation_of (enters s i at free) = []
operation_of (reads s i at) = []
operation_of (registers s i allocated java_id native_id {was} {m} {added} at e) =
    register java_id native_id added ∷ []
operation_of (unregisters s i native_id {was} at) =
    unregister native_id (ubench_unregister_native_thread was native_id).1 ∷ []
operation_of (looks_up s i java_id {was} {native_id} at e) = look_up java_id native_id ∷ []
operation_of (leaves s i at) = []

abbrev pub operations_of : {s s' : System} → Steps s s' → List Operation
operations_of (here s) = []
operations_of (step one more) = operation_of one ++ operations_of more

-- The operations one after another on a partial function, with their results.
pub data Performs : Table → List Operation → Table → Type 0 where
  idle : (f : Table) → Performs f [] f
  registered :
      {f f' f'' : Table} (j n : ℤ) {b : Bool} {ops : List Operation}
      → Registers f j n b f'
      → Performs f' ops f''
      → Performs f (register j n b ∷ ops) f''
  unregistered :
      {f f' f'' : Table} (n : ℤ) {b : Bool} {ops : List Operation}
      → Unregisters f n b f'
      → Performs f' ops f''
      → Performs f (unregister n b ∷ ops) f''
  looked_up :
      {f f'' : Table} (j : ℤ) {ops : List Operation}
      → Performs f ops f''
      → Performs f (look_up j (or_invalid (f j)) ∷ ops) f''

Step-Performs :
    {s s' : System} (one : Step s s') {ops : List Operation} {f : Table}
    → Runs s
    → Performs (table s'.thread_map) ops f
    → Performs (table s.thread_map) (operation_of one ++ ops) f
Step-Performs (arrives s i at) r more = more
Step-Performs (spins s i at busy) r more = more
Step-Performs (enters s i at free) r more = more
Step-Performs (reads s i at) r more = more
Step-Performs (registers s i allocated java_id native_id {was} {m} {added} at e) {ops} {f} r more =
    subst (λ x. Performs (table x) (register java_id native_id added ∷ ops) f)
      (Runs-current i was r at)
      (registered java_id native_id (register-Registers allocated was java_id native_id e) more)
Step-Performs (unregisters s i native_id {was} at) {ops} {f} r more =
    let now = Runs-current i was r at in
    subst
      (λ x.
        Performs (table x)
          (unregister native_id (ubench_unregister_native_thread was native_id).1 ∷ ops) f)
      now
      (unregistered native_id
        (unregister-Unregisters was native_id (subst IsValid (sym now) (Runs-IsExclusive r).valid))
        more)
Step-Performs (looks_up s i java_id {was} at e) {ops} {f} r more =
    subst (λ n. Performs (table s.thread_map) (look_up java_id n ∷ ops) f)
      (sym (get_native_id-find_java s.thread_map java_id)
        ∙ ap (λ x. ubench_threads_get_native_id x java_id) (sym (Runs-current i was r at))
        ∙ e)
      (looked_up java_id more)
Step-Performs (leaves s i at) r more = more

-- However the steps of any number of threads interleave, from a reachable system on, where each
-- critical section reads the map in one step and writes it in another: the results of the
-- operations, and the lookups in the map that they leave, are those of the same operations performed
-- one after another, in the order of the writes, on the partial function from Java threads to native
-- threads. No update is lost, because no thread writes between a read and a write of another one.
pub Steps-Performs :
    {s s' : System}
    → Runs s
    → (steps : Steps s s')
    → Performs (table s.thread_map) (operations_of steps) (table s'.thread_map)
Steps-Performs r (here s) = idle (table s.thread_map)
Steps-Performs r (step one more) = Step-Performs one r (Steps-Performs (continues r one) more)
