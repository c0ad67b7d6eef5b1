-- ===== src/Threads/Table.antt =====
-- What the map of the threads (src/c/threads.c) promises: a partial function from Java threads to
-- native threads. The order of the entries and the capacity are forgotten.
use mathlib.Core.List.{Nodup, Nodup-cons}
use mathlib.Core.List.Perm
use java_ubench_agent.Prelude.{
  ℕ, suc, ℤ, int_eq, int_eq_iff, int_eq_refl, Bool, true, false, Option, none, some, ◌≡◌, ◌≢◌, sym,
  ◌∙◌, ap, subst, inl, inr, List, [], ◌∷◌, ◌++◌, arith, if◌then◌else◌, Bool-cases, Option-cases,
}
use java_ubench_agent.Threads.Map.{
  Entry, ThreadMap, predicate_java_id_match, predicate_native_id_match, thread_map_index_of,
  ubench_register_java_thread, ubench_unregister_native_thread,
}
use java_ubench_agent.Threads.Lookup.{find_java, java_ids, find_java-perm, find_java_of_not_mem}
use java_ubench_agent.Threads.Registry.{
  IsValid, register-Added, register_old, find_java-append_last,
}
use java_ubench_agent.Threads.Removal.{Removed, unregister-Removed, unregister_absent}

abbrev pub Table : Type 0
Table = ℤ → Option ℤ

abbrev pub insert : ℤ → ℤ → Table → Table
insert j n f k = if int_eq j k then some n else f k

abbrev pub erase : ℤ → Table → Table
erase j f k = if int_eq j k then none else f k

-- The abstract operations, with their flag. A removal is free in which of the Java threads of a
-- native thread it forgets.
pub data Registers (f : Table) (j n : ℤ) : Bool → Table → Type 0 where
  adds : f j ≡ none → Registers f j n true (insert j n f)
  keeps : (old : ℤ) → f j ≡ some old → Registers f j n false f

pub data Unregisters (f : Table) (n : ℤ) : Bool → Table → Type 0 where
  removes : (j : ℤ) → f j ≡ some n → Unregisters f n true (erase j f)
  unknown : ((j : ℤ) → f j ≢ some n) → Unregisters f n false f

-- The table that a map stands for.
abbrev pub table : ThreadMap → Table
table m j = find_java j m.entries

find_java_present :
    (j : ℤ) (i : ℕ) (es : List Entry) {k : ℕ}
    → thread_map_index_of (predicate_java_id_match j) i es ≡ some k
    → (old : ℤ) × (find_java j es ≡ some old)
unfolding thread_map_index_of find_java
find_java_present j i [] e = absurd (ground (arith, e))
find_java_present j i (x ∷ es) {k} e = elim (Bool-cases (int_eq x.java_id j)) [
  | inl hit ↦ (x.native_id, ground arith)
  | inr miss ↦
      let (old, found) = find_java_present j (suc i) es {k = k} (ground (arith, e)) in
      (old, ground arith)
]

register_old-present :
    (allocated : Bool) (m : ThreadMap) (j n : ℤ) {m' : ThreadMap}
    → ubench_register_java_thread allocated m j n ≡ some (m', false)
    → (old : ℤ) × (find_java j m.entries ≡ some old)
unfolding ubench_register_java_thread
register_old-present allocated m j n e =
    elim (Option-cases (thread_map_index_of (predicate_java_id_match j) 0 m.entries)) [
      | inl absent ↦ absurd (ground arith)
      | inr (k, at) ↦ find_java_present j 0 m.entries at
    ]

insert-find_java :
    (j n k : ℤ) (es : List Entry)
    → find_java j es ≡ none
    → insert j n (λ i. find_java i es) k
      ≡ find_java k (es ++ record { native_id = n; java_id = j } ∷ [])
insert-find_java j n k es absent =
    let last = find_java-append_last k es (record { native_id = n; java_id = j }) in
    elim (Bool-cases (int_eq j k)) [
      | inl same ↦
          let gone : find_java k es ≡ none =
            subst (λ i. find_java i es ≡ none) ((int_eq_iff j k).0 same) absent in
          ground arith
      | inr other ↦ ground arith
    ]

pub register-Registers :
    (allocated : Bool) (m : ThreadMap) (j n : ℤ) {m' : ThreadMap} {b : Bool}
    → ubench_register_java_thread allocated m j n ≡ some (m', b)
    → Registers (table m) j n b (table m')
register-Registers allocated m j n {m'} {b = true} e =
    let added = register-Added allocated m j n e in
    let same : insert j n (table m) ≡ table m' = λ i k.
      (insert-find_java j n k m.entries added.absent ∙ ap (find_java k) (sym added.entries)) i in
    subst (Registers (table m) j n true) same (adds added.absent)
register-Registers allocated m j n {m'} {b = false} e =
    let (old, found) = register_old-present allocated m j n e in
    subst (λ x. Registers (table m) j n false (table x)) (register_old allocated m j n e)
      (keeps old found)

find_java_unknown :
    (n : ℤ) (i : ℕ) (es : List Entry)
    → thread_map_index_of (predicate_native_id_match n) i es ≡ none
    → (j : ℤ) → find_java j es ≢ some n
unfolding thread_map_index_of find_java
find_java_unknown n i [] e j found = ground (arith, found)
find_java_unknown n i (x ∷ es) e j found =
    let native : int_eq x.native_id n ≡ false = ground (arith, e) in
    elim (Bool-cases (int_eq x.java_id j)) [
      | inl hit ↦ ground (arith, int_eq_iff x.native_id n)
      | inr miss ↦ find_java_unknown n (suc i) es (ground arith) j (ground arith)
    ]

unregister_absent-unknown :
    (m : ThreadMap) (n : ℤ)
    → (ubench_unregister_native_thread m n).1 ≡ false
    → (j : ℤ) → find_java j m.entries ≢ some n
unfolding ubench_unregister_native_thread
unregister_absent-unknown m n e =
    elim (Option-cases (thread_map_index_of (predicate_native_id_match n) 0 m.entries)) [
      | inl absent ↦ find_java_unknown n 0 m.entries absent
      | inr (k, at) ↦ absurd (ground arith)
    ]

erase-find_java :
    (e : Entry) (k : ℤ) (es : List Entry)
    → find_java e.java_id es ≡ none
    → erase e.java_id (λ i. find_java i (e ∷ es)) k ≡ find_java k es
unfolding find_java
erase-find_java e k es absent = elim (Bool-cases (int_eq e.java_id k)) [
  | inl same ↦
      let gone : find_java k es ≡ none =
        subst (λ i. find_java i es ≡ none) ((int_eq_iff e.java_id k).0 same) absent in
      ground arith
  | inr other ↦ ground arith
]

Removed-Unregisters :
    {m m' : ThreadMap} (n : ℤ)
    → IsValid m
    → Removed m m' n
    → Unregisters (table m) n true (table m')
unfolding find_java
Removed-Unregisters {m} {m'} n v r =
    let ids : Nodup (java_ids (r.entry ∷ m'.entries)) =
      Perm.nodup (Perm.map (λ x. x.java_id) r.others) v.unique in
    let before : (k : ℤ) → find_java k m.entries ≡ find_java k (r.entry ∷ m'.entries) =
      λ k. find_java-perm k r.others v.unique in
    let gone = find_java_of_not_mem r.entry.java_id m'.entries (Nodup-cons.0 ids).0 in
    let was : find_java r.entry.java_id m.entries ≡ some n =
      before r.entry.java_id ∙ ground (arith, int_eq_refl r.entry.java_id, r.native) in
    let same : erase r.entry.java_id (table m) ≡ table m' = λ i k.
      (ap (λ found. if int_eq r.entry.java_id k then none else found) (before k)
          ∙ erase-find_java r.entry k m'.entries gone)
        i in
    subst (Unregisters (table m) n true) same (removes r.entry.java_id was)

pub unregister-Unregisters :
    (m : ThreadMap) (n : ℤ)
    → IsValid m
    → Unregisters
        (table m)
        n
        (ubench_unregister_native_thread m n).1
        (table (ubench_unregister_native_thread m n).0)
unregister-Unregisters m n v = elim (Bool-cases (ubench_unregister_native_thread m n).1) [
  | inl done ↦ rw done (
      Removed-Unregisters n v (
        unregister-Removed m n {m' = (ubench_unregister_native_thread m n).0}
          (λ i. ((ubench_unregister_native_thread m n).0, done i))))
  | inr absent ↦
      rw (absent, unregister_absent m n absent) (unknown (unregister_absent-unknown m n absent))
]
