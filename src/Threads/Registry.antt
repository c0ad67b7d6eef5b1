-- ===== src/Threads/Registry.antt =====
-- Registration, lookup and removal of threads (src/c/threads.c): what each does to the lookups, and
-- the invariant of the map.
use mathlib.Core.List.{Nodup, Nodup-cons, Perm, perm_middle, append-nil}
use mathlib.Core.List.Perm
use java_ubench_agent.Prelude.{
  ℕ, suc, ◌+◌, ◌≤◌, ℤ, int_eq, int_eq_iff, int_eq_refl, Bool, true, false, none, some, ◌≡◌, ◌≢◌,
  refl, sym, ◌∙◌, ap, List, [], ◌∷◌, ◌++◌, arith, if◌then◌else◌, length, length-append, subst,
}
use java_ubench_agent.Threads.Map.{
  Entry, ThreadMap, predicate_java_id_match, thread_map_index_of, ubench_register_java_thread,
  ubench_threads_get_native_id,
}
use java_ubench_agent.Threads.Lookup.{
  find_java, or_invalid, get_native_id-find_java, java_ids, find_java-none,
}

-- One entry for each Java thread, and room for all of them.
pub record IsValid (m : ThreadMap) : Type 0 where
  pub unique : Nodup (java_ids m.entries)
  pub room : length m.entries ≤ m.capacity

find_java_absent :
    (j : ℤ) (i : ℕ) (es : List Entry)
    → thread_map_index_of (predicate_java_id_match j) i es ≡ none
    → find_java j es ≡ none
unfolding thread_map_index_of find_java
find_java_absent j i [] e = refl
find_java_absent j i (x ∷ es) e = ground (arith, find_java_absent j (suc i) es)

-- A registration that adds an entry.
pub record Added (m m' : ThreadMap) (j n : ℤ) : Type 0 where
  pub absent : find_java j m.entries ≡ none
  pub entries : m'.entries ≡ m.entries ++ record { native_id = n; java_id = j } ∷ []
  pub grown : (m.capacity ≤ m'.capacity) × (length m.entries + 1 ≤ m'.capacity)

pub register-Added :
    (allocated : Bool) (m : ThreadMap) (j n : ℤ) {m' : ThreadMap}
    → ubench_register_java_thread allocated m j n ≡ some (m', true)
    → Added m m' j n
unfolding ubench_register_java_thread
register-Added allocated m j n {m'} e = record {
  absent = find_java_absent j 0 m.entries (ground arith);
  entries = ground arith;
  grown = (ground arith, ground arith);
}

pub find_java-append_last :
    (k : ℤ) (es : List Entry) (x : Entry)
    → find_java k (es ++ x ∷ []) ≡ elim (find_java k es) [
      | none ↦ if int_eq x.java_id k then some x.native_id else none
      | some n ↦ some n
    ]
unfolding find_java
find_java-append_last k [] x = ground arith
find_java-append_last k (e ∷ es) x = ground (arith, find_java-append_last k es x)

find_java-append_ne :
    (k : ℤ) (es : List Entry) (x : Entry)
    → x.java_id ≢ k
    → find_java k (es ++ x ∷ []) ≡ find_java k es
unfolding find_java
find_java-append_ne k [] x ne = ground (arith, int_eq_iff x.java_id k)
find_java-append_ne k (e ∷ es) x ne = ground (arith, find_java-append_ne k es x ne)

-- A registration that does not add an entry changes nothing.
pub register_old :
    (allocated : Bool) (m : ThreadMap) (j n : ℤ) {m' : ThreadMap}
    → ubench_register_java_thread allocated m j n ≡ some (m', false)
    → m ≡ m'
unfolding ubench_register_java_thread
register_old allocated m j n e = ground arith

-- A registration that succeeds makes the thread's native identifier the answer for it, and changes
-- the answer for no other thread.
pub get-register :
    (allocated : Bool) (m : ThreadMap) (j n : ℤ) {m' : ThreadMap}
    → ubench_register_java_thread allocated m j n ≡ some (m', true)
    → (ubench_threads_get_native_id m' j ≡ n)
      × ((k : ℤ) → k ≢ j → ubench_threads_get_native_id m' k ≡ ubench_threads_get_native_id m k)
get-register allocated m j n {m'} e = (here, others)
  where
    added : Added m m' j n
    added = register-Added allocated m j n e

    entry : Entry
    entry = record { native_id = n; java_id = j }

    here : ubench_threads_get_native_id m' j ≡ n
    here =
        get_native_id-find_java m' j
        ∙ ap (λ es. or_invalid (find_java j es)) added.entries
        ∙ rw (find_java-append_last j m.entries entry, added.absent, int_eq_refl j) refl

    others : (k : ℤ) → k ≢ j → ubench_threads_get_native_id m' k ≡ ubench_threads_get_native_id m k
    others k ne =
        get_native_id-find_java m' k
        ∙ ap (λ es. or_invalid (find_java k es)) added.entries
        ∙ ap or_invalid (find_java-append_ne k m.entries entry (λ same. ne (sym same)))
        ∙ sym (get_native_id-find_java m k)

-- A registration keeps one entry for each Java thread and the room for the entries, whether the
-- thread is new or not.
pub register-IsValid :
    (allocated : Bool) (m : ThreadMap) (j n : ℤ) {m' : ThreadMap} {b : Bool}
    → IsValid m
    → ubench_register_java_thread allocated m j n ≡ some (m', b)
    → IsValid m'
register-IsValid allocated m j n {m'} {b = false} v e =
    subst IsValid (register_old allocated m j n e) v
register-IsValid allocated m j n {m'} {b = true} v e = record {
  unique =
      Perm.nodup (Perm.symm (Perm.map (λ x. x.java_id) moved))
        (Nodup-cons.1 (find_java-none j m.entries added.absent, v.unique));
  room =
      omega (arith, ap length added.entries, length-append m.entries (entry ∷ []), added.grown.1);
}
  where
    added : Added m m' j n
    added = register-Added allocated m j n e

    entry : Entry
    entry = record { native_id = n; java_id = j }

    moved : Perm m'.entries (entry ∷ m.entries)
    moved =
        subst (λ es. Perm es (entry ∷ m.entries)) (sym added.entries)
          (subst (λ es. Perm (m.entries ++ entry ∷ []) (entry ∷ es)) (append-nil m.entries)
            (perm_middle m.entries []))
