-- ===== src/Threads/Refinement.antt =====
-- src/c/threads.c: calls of the callbacks and of the native methods refine the operations of a
-- partial function from Java threads to native threads.
use java_ubench_agent.Prelude.{
  ℤ, minus_one, Bool, true, false, some, ◌≡◌, refl, List, [], ◌∷◌, All, arith, sym, subst,
  Option-cases, inl, inr, int_eq_iff,
}
use java_ubench_agent.Threads.Map.{
  ThreadMap, thread_map_index_of_java_thread, thread_map_put_java_thread,
  ubench_register_java_thread, ubench_unregister_native_thread, on_thread_start, on_thread_end,
  get_native_id,
}
use java_ubench_agent.Threads.Lookup.{or_invalid, get_native_id-find_java}
use java_ubench_agent.Threads.Natives.{
  Call, thread_start, thread_end, register_java, register_current, get_native, Result, nothing,
  flag, identifier, register_java_thread, register_current_java_thread, perform, perform_all,
}
use java_ubench_agent.Threads.Registry.{IsValid, register-IsValid}
use java_ubench_agent.Threads.Removal.{unregister-IsValid}
use java_ubench_agent.Threads.Table.{
  Table, table, Registers, Unregisters, register-Registers, unregister-Unregisters,
}

-- What a call may return, and the table behind it.
pub data Allows (f : Table) : Call → Result → Table → Type 0 where
  starts :
      (allocated : Bool) (j n : ℤ) {b : Bool} {f' : Table}
      → Registers f j n b f'
      → Allows f (thread_start allocated j n) nothing f'
  ends : (n : ℤ) {b : Bool} {f' : Table} → Unregisters f n b f' → Allows f (thread_end n) nothing f'
  registers_java :
      (allocated : Bool) (j n : ℤ) {b : Bool} {f' : Table}
      → Registers f j n b f'
      → Allows f (register_java allocated j n) (flag b) f'
  registers_current :
      (allocated : Bool) (j n : ℤ) {b : Bool} {f' : Table}
      → Registers f j n b f'
      → Allows f (register_current allocated j n) (flag b) f'
  gets : (j : ℤ) → Allows f (get_native j) (identifier (or_invalid (f j))) f

pub data Follows : Table → List Call → List Result → Table → Type 0 where
  done : (f : Table) → Follows f [] [] f
  next :
      {f f' f'' : Table} {c : Call} {cs : List Call} {r : Result} {rs : List Result}
      → Allows f c r f'
      → Follows f' cs rs f''
      → Follows f (c ∷ cs) (r ∷ rs) f''

-- The memory that a call needs is given.
abbrev pub HasMemory : Call → Type 0
HasMemory (thread_start allocated j n) = allocated ≡ true
HasMemory (thread_end n) = Unit
HasMemory (register_java allocated j n) = allocated ≡ true
HasMemory (register_current allocated j n) = allocated ≡ true
HasMemory (get_native j) = Unit

register_total :
    (m : ThreadMap) (j n : ℤ) {allocated : Bool}
    → allocated ≡ true
    → (m' : ThreadMap) × (b : Bool) × (ubench_register_java_thread allocated m j n ≡ some (m', b))
unfolding ubench_register_java_thread thread_map_put_java_thread
register_total m j n {allocated = false} given = absurd (ground arith)
register_total m j n {allocated = true} given =
    elim (Option-cases (thread_map_index_of_java_thread m j)) [
      | inr (k, at) ↦ (m, false, ground (arith, at))
      | inl absent ↦ ((thread_map_put_java_thread true m j n).0, true, ground (arith, absent))
    ]

get_native_id-table : (m : ThreadMap) (j : ℤ) → get_native_id m j ≡ or_invalid (table m j)
unfolding get_native_id
get_native_id-table m j =
    ground (arith, get_native_id-find_java m j, int_eq_iff (or_invalid (table m j)) minus_one)

-- A registration under any of its three entry points.
registration :
    (m : ThreadMap) (j n : ℤ) {allocated : Bool}
    → allocated ≡ true
    → IsValid m
    → (m' : ThreadMap) × (b : Bool) × (ubench_register_java_thread allocated m j n ≡ some (m', b))
      × Registers (table m) j n b (table m')
      × IsValid m'
registration m j n {allocated} given v =
    let (m', b, called) = register_total m j n given in
    (
      m',
      b,
      called,
      register-Registers allocated m j n called,
      register-IsValid allocated m j n v called,
    )

perform-Allows :
    (c : Call) (m : ThreadMap)
    → HasMemory c
    → IsValid m
    → (r : Result) × (m' : ThreadMap) × (perform c m ≡ some (r, m'))
      × Allows (table m) c r (table m')
      × IsValid m'
unfolding perform on_thread_start on_thread_end register_java_thread register_current_java_thread
perform-Allows (thread_start allocated j n) m memory v =
    let (m', b, called, step, v') = registration m j n memory v in
    (nothing, m', rw called refl, starts allocated j n step, v')
perform-Allows (thread_end n) m memory v = (
  nothing,
  (ubench_unregister_native_thread m n).0,
  refl,
  ends n (unregister-Unregisters m n v),
  unregister-IsValid m n v,
)
perform-Allows (register_java allocated j n) m memory v =
    let (m', b, called, step, v') = registration m j n memory v in
    (flag b, m', rw called refl, registers_java allocated j n step, v')
perform-Allows (register_current allocated j n) m memory v =
    let (m', b, called, step, v') = registration m j n memory v in
    (flag b, m', rw called refl, registers_current allocated j n step, v')
perform-Allows (get_native j) m memory v = (
  identifier (get_native_id m j),
  m,
  refl,
  subst (λ n. Allows (table m) (get_native j) (identifier n) (table m))
      (sym (get_native_id-table m j)) (gets j),
  v,
)

-- On a valid map, callbacks and native methods in any order, each with the memory that it needs,
-- return; their results and the map behind them are those of the partial function from Java threads
-- to native threads: a registration extends it or fails where it is defined, the end of a thread
-- makes it undefined at one Java thread of the native one if there is one, and a lookup reads it.
-- The map stays valid.
pub perform_all-Follows :
    (cs : List Call) (m : ThreadMap)
    → All HasMemory cs
    → IsValid m
    → (rs : List Result) × (m' : ThreadMap) × (perform_all cs m ≡ some (rs, m'))
      × Follows (table m) cs rs (table m')
      × IsValid m'
perform_all-Follows [] m memory v = ([], m, refl, done (table m), v)
perform_all-Follows (c ∷ cs) m memory v =
    let (r, m', called, allowed, v') = perform-Allows c m memory.0 v in
    let (rs, m'', ran, follows, v'') = perform_all-Follows cs m' memory.1 v' in
    (r ∷ rs, m'', rw (called, ran) refl, next allowed follows, v'')
