-- ===== src/Threads/Roundtrip.antt =====
-- src/c/threads.c: the end of a thread undoes its registration.
use java_ubench_agent.Prelude.{
  ℕ, suc, ◌+◌, ℤ, int_eq_refl, Bool, true, none, some, ◌≡◌, refl, ◌∙◌, ap, List, [], ◌∷◌, ◌++◌,
  arith, length,
}
use java_ubench_agent.Threads.Map.{
  Entry, ThreadMap, predicate_native_id_match, thread_map_index_of,
  thread_map_index_of_native_thread, ubench_register_java_thread, ubench_unregister_native_thread,
}
use java_ubench_agent.Threads.Registry.{register-Added}
use java_ubench_agent.Threads.Removal.{removed, removed-last}

-- The new entry stands last, and none before it is of its native thread.
index_of_native-last :
    (n : ℤ) (i : ℕ) (es : List Entry) (last : Entry)
    → last.native_id ≡ n
    → thread_map_index_of (predicate_native_id_match n) i es ≡ none
    → thread_map_index_of (predicate_native_id_match n) i (es ++ last ∷ []) ≡ some (i + length es)
unfolding thread_map_index_of
index_of_native-last n i [] last native e = ground (arith, int_eq_refl n)
index_of_native-last n i (x ∷ es) last native e =
    let rest = index_of_native-last n (suc i) es last native (ground arith) in ground arith

unregister_at :
    (m : ThreadMap) (n : ℤ) (k : ℕ)
    → thread_map_index_of (predicate_native_id_match n) 0 m.entries ≡ some k
    → ubench_unregister_native_thread m n ≡ (record m { entries = removed m.entries k }, true)
unfolding ubench_unregister_native_thread
unregister_at m n k at = ground arith

-- Where a registration adds an entry for a native thread that has none, the end of this native
-- thread succeeds and leaves the entries as they were before the registration, in their order; the
-- capacity that the registration reached stays.
pub unregister-register :
    (allocated : Bool) (m : ThreadMap) (j n : ℤ) {m' : ThreadMap}
    → thread_map_index_of_native_thread m n ≡ none
    → ubench_register_java_thread allocated m j n ≡ some (m', true)
    → ubench_unregister_native_thread m' n ≡ (record m { capacity = m'.capacity }, true)
unfolding thread_map_index_of_native_thread
unregister-register allocated m j n {m'} unused e =
    let added = register-Added allocated m j n e in
    let entry : Entry = record { native_id = n; java_id = j } in
    let at : thread_map_index_of (predicate_native_id_match n) 0 m'.entries
        ≡ some (length m.entries) =
      ap (thread_map_index_of (predicate_native_id_match n) 0) added.entries
      ∙ index_of_native-last n 0 m.entries entry refl unused
      ∙ ap some (omega arith) in
    let back : removed m'.entries (length m.entries) ≡ m.entries =
      ap (λ es. removed es (length m.entries)) added.entries ∙ removed-last m.entries entry in
    unregister_at m' n (length m.entries) at ∙ ap (λ es. (record m' { entries = es }, true)) back
