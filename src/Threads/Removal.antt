-- ===== src/Threads/Removal.antt =====
-- The removal of a native thread (src/c/threads.c): the last entry takes the place of the first
-- entry of the thread.
use mathlib.Core.List.{Nodup, Nodup-cons, Perm, Permᴰ, perm_middle, append_assoc, append-nil}
use mathlib.Core.List.Perm
use mathlib.Core.Logic.{∥∥₁_elim}
use native.Mathlib.Nat.{ℕ_set}
use java_ubench_agent.Prelude.{
  ℕ, suc, ◌-◌, ℤ, int_eq_iff, int_eq_refl, true, false, some, ◌≡◌, ◌≢◌, refl, sym, ◌∙◌, ap, ◌⊎◌,
  inl, inr, List, [], ◌∷◌, ◌++◌, arith, Bool-cases, Option-cases, get_elem?, set, take, length,
  length-append, subst,
}
use java_ubench_agent.Threads.Map.{
  Entry, ThreadMap, invalid_thread_id, predicate_native_id_match, thread_map_index_of,
  replace_by_last, ubench_unregister_native_thread, ubench_threads_get_native_id,
}
use java_ubench_agent.Threads.Lookup.{
  find_java, or_invalid, Split, index_of-Split, get_native_id-find_java, java_ids, find_java-perm,
  find_java_of_not_mem,
}
use java_ubench_agent.Threads.Registry.{IsValid}

set-middle :
    (xs : List Entry) (e : Entry) (ys : List Entry) (v : Entry)
    → set (xs ++ e ∷ ys) (length xs) v ≡ xs ++ v ∷ ys
set-middle [] e ys v = refl
set-middle (x ∷ xs) e ys v = ap (◌∷◌ x) (set-middle xs e ys v)

-- A list that ends in `last`, seen from behind.
take-append_last : (xs : List Entry) (last : Entry) → take (length xs) (xs ++ last ∷ []) ≡ xs
take-append_last [] last = refl
take-append_last (x ∷ xs) last = ap (◌∷◌ x) (take-append_last xs last)

get_elem?-append_last :
    (xs : List Entry) (last : Entry) → get_elem? (xs ++ last ∷ []) (length xs) ≡ some last
get_elem?-append_last [] last = refl
get_elem?-append_last (x ∷ xs) last = get_elem?-append_last xs last

-- A list is empty or ends in an entry.
Ends : List Entry → Type 0
Ends xs = (xs ≡ []) ⊎ ((mid : List Entry) × (last : Entry) × (xs ≡ mid ++ last ∷ []))

ends : (xs : List Entry) → Ends xs
unfolding Ends
ends [] = inl refl
ends (x ∷ xs) = elim (ends xs) [
  | inl e ↦ inr ([], x, ap (◌∷◌ x) e)
  | inr (mid, last, e) ↦ inr (x ∷ mid, last, ap (◌∷◌ x) e)
]

abbrev pub removed : List Entry → ℕ → List Entry
removed es k = replace_by_last es k (get_elem? es (length es - 1))

removed_eq :
    (es : List Entry) (k n : ℕ) (last : Entry)
    → length es - 1 ≡ n
    → get_elem? es n ≡ some last
    → removed es k ≡ take n (set es k last)
removed_eq es k n last size at =
    ap (replace_by_last es k) (ap (get_elem? es) size ∙ at) ∙ ap (λ i. take i (set es k last)) size

pub removed-last : (pre : List Entry) (e : Entry) → removed (pre ++ e ∷ []) (length pre) ≡ pre
removed-last pre e =
    let n : length (pre ++ e ∷ []) - 1 ≡ length pre = omega (arith, length-append pre (e ∷ [])) in
    removed_eq (pre ++ e ∷ []) (length pre) (length pre) e n (get_elem?-append_last pre e)
    ∙ ap (take (length pre)) (set-middle pre e [] e)
    ∙ take-append_last pre e

removed-middle :
    (pre : List Entry) (e : Entry) (mid : List Entry) (last : Entry)
    → removed (pre ++ e ∷ (mid ++ last ∷ [])) (length pre) ≡ pre ++ last ∷ mid
removed-middle pre e mid last =
    let whole : pre ++ e ∷ (mid ++ last ∷ []) ≡ (pre ++ e ∷ mid) ++ last ∷ [] =
      sym (append_assoc pre (e ∷ mid) (last ∷ [])) in
    let n : length (pre ++ e ∷ (mid ++ last ∷ [])) - 1 ≡ length (pre ++ e ∷ mid) =
      omega (arith, ap length whole, length-append (pre ++ e ∷ mid) (last ∷ [])) in
    let m : length (pre ++ e ∷ mid) ≡ length (pre ++ last ∷ mid) =
      omega (arith, length-append pre (e ∷ mid), length-append pre (last ∷ mid)) in
    let at : get_elem? (pre ++ e ∷ (mid ++ last ∷ [])) (length (pre ++ e ∷ mid)) ≡ some last =
      ap (λ es. get_elem? es (length (pre ++ e ∷ mid))) whole
      ∙ get_elem?-append_last (pre ++ e ∷ mid) last in
    let cut : take (length (pre ++ e ∷ mid)) (pre ++ last ∷ (mid ++ last ∷ []))
        ≡ pre ++ last ∷ mid =
      ap (λ k. take k (pre ++ last ∷ (mid ++ last ∷ []))) m
      ∙ ap (take (length (pre ++ last ∷ mid))) (sym (append_assoc pre (last ∷ mid) (last ∷ [])))
      ∙ take-append_last (pre ++ last ∷ mid) last in
    removed_eq (pre ++ e ∷ (mid ++ last ∷ [])) (length pre) (length (pre ++ e ∷ mid)) last n at
    ∙ ap (take (length (pre ++ e ∷ mid))) (set-middle pre e (mid ++ last ∷ []) last)
    ∙ cut

perm_last : (mid : List Entry) (last : Entry) → Perm (mid ++ last ∷ []) (last ∷ mid)
perm_last mid last =
    subst (λ r. Perm (mid ++ last ∷ []) (last ∷ r)) (append-nil mid) (perm_middle mid [])

-- The entries that are left are the others, in some order.
removed-perm :
    (pre : List Entry) (e : Entry) (post : List Entry)
    → Perm (pre ++ e ∷ post) (e ∷ removed (pre ++ e ∷ post) (length pre))
unfolding Ends
removed-perm pre e post = elim (ends post) [
  | inl empty ↦
      subst (λ q. Perm (pre ++ e ∷ q) (e ∷ removed (pre ++ e ∷ q) (length pre))) (sym empty)
        (subst (λ r. Perm (pre ++ e ∷ []) (e ∷ r)) (sym (removed-last pre e)) (perm_last pre e))
  | inr (mid, last, ending) ↦
      subst (λ q. Perm (pre ++ e ∷ q) (e ∷ removed (pre ++ e ∷ q) (length pre))) (sym ending)
        (subst (λ r. Perm (pre ++ e ∷ (mid ++ last ∷ [])) (e ∷ r))
          (sym (removed-middle pre e mid last))
          (Perm.trans (perm_middle pre (mid ++ last ∷ []))
            (Perm.cons e (Perm.append_left pre (perm_last mid last)))))
]

-- A removal that succeeds: the entry that went, and the order of the others left open.
pub record Removed (m m' : ThreadMap) (n : ℤ) : Type 0 where
  pub entry : Entry
  pub native : entry.native_id ≡ n
  pub others : Perm m.entries (entry ∷ m'.entries)
  pub capacity : m'.capacity ≡ m.capacity

removed-Removed :
    (m : ThreadMap) (n : ℤ) (k : ℕ)
    → Split (predicate_native_id_match n) 0 m.entries k
    → Removed m (record m { entries = removed m.entries k }) n
removed-Removed m n k s = record {
  entry = s.entry;
  native = (int_eq_iff s.entry.native_id n).0 s.satisfies;
  others =
      subst (λ es. Perm es (s.entry ∷ removed es k)) (sym s.whole)
        (subst
          (λ i.
            Perm (s.before ++ s.entry ∷ s.behind)
              (s.entry ∷ removed (s.before ++ s.entry ∷ s.behind) i))
          (omega (arith, s.index)) (removed-perm s.before s.entry s.behind));
  capacity = refl;
}

-- Removing a native thread that has an entry takes exactly one entry out, one of that thread, and
-- keeps every other entry, in some order.
pub unregister-Removed :
    (m : ThreadMap) (n : ℤ) {m' : ThreadMap}
    → ubench_unregister_native_thread m n ≡ (m', true)
    → Removed m m' n
unfolding ubench_unregister_native_thread
unregister-Removed m n {m'} e =
    elim (Option-cases (thread_map_index_of (predicate_native_id_match n) 0 m.entries)) [
      | inl absent ↦ absurd (ground arith)
      | inr (k, at) ↦
          let same : record m { entries = removed m.entries k } ≡ m' = ground arith in
          subst (λ x. Removed m x n) same
            (removed-Removed m n k (index_of-Split (predicate_native_id_match n) 0 m.entries k at))
    ]

find_java-head : (e : Entry) (es : List Entry) → find_java e.java_id (e ∷ es) ≡ some e.native_id
unfolding find_java
find_java-head e es = ground (arith, int_eq_refl e.java_id)

find_java-tail :
    (k : ℤ) (e : Entry) (es : List Entry) → e.java_id ≢ k → find_java k (e ∷ es) ≡ find_java k es
unfolding find_java
find_java-tail k e es ne = ground (arith, int_eq_iff e.java_id k)

-- A removal that finds no entry changes nothing.
pub unregister_absent :
    (m : ThreadMap) (n : ℤ)
    → (ubench_unregister_native_thread m n).1 ≡ false
    → (ubench_unregister_native_thread m n).0 ≡ m
unfolding ubench_unregister_native_thread
unregister_absent m n e = ground arith

-- Lists in another order are as long.
length-permᴰ : {xs ys : List Entry} → Permᴰ xs ys → length xs ≡ length ys
length-permᴰ Permᴰ.nil = refl
length-permᴰ (Permᴰ.cons e p) = ap suc (length-permᴰ p)
length-permᴰ (Permᴰ.swap e f) = refl
length-permᴰ (Permᴰ.trans p q) = length-permᴰ p ∙ length-permᴰ q

length-perm : {xs ys : List Entry} → Perm xs ys → length xs ≡ length ys
length-perm {xs} {ys} p = ∥∥₁_elim p (ℕ_set (length xs) (length ys)) length-permᴰ

-- After a removal that succeeds on a valid map there is a Java thread that was mapped to the native
-- thread and is now unknown, and the answers for all other Java threads are as before.
pub get-unregister :
    (m : ThreadMap) (n : ℤ) {m' : ThreadMap}
    → IsValid m
    → ubench_unregister_native_thread m n ≡ (m', true)
    → (j : ℤ) × (ubench_threads_get_native_id m j ≡ n)
      × (ubench_threads_get_native_id m' j ≡ invalid_thread_id)
      × ((k : ℤ) → k ≢ j → ubench_threads_get_native_id m' k ≡ ubench_threads_get_native_id m k)
get-unregister m n {m'} v e = (entry.java_id, was, gone, kept)
  where
    open (unregister-Removed m n e) use {entry, native, others}

    ids : Nodup (java_ids (entry ∷ m'.entries))
    ids = Perm.nodup (Perm.map (λ x. x.java_id) others) v.unique

    before : (k : ℤ) → find_java k m.entries ≡ find_java k (entry ∷ m'.entries)
    before k = find_java-perm k others v.unique

    was : ubench_threads_get_native_id m entry.java_id ≡ n
    was =
        get_native_id-find_java m entry.java_id
        ∙ ap or_invalid (before entry.java_id ∙ find_java-head entry m'.entries)
        ∙ native

    gone : ubench_threads_get_native_id m' entry.java_id ≡ invalid_thread_id
    gone =
        get_native_id-find_java m' entry.java_id
        ∙ ap or_invalid (find_java_of_not_mem entry.java_id m'.entries (Nodup-cons.0 ids).0)

    kept :
        (k : ℤ)
        → k ≢ entry.java_id
        → ubench_threads_get_native_id m' k ≡ ubench_threads_get_native_id m k
    kept k ne =
        get_native_id-find_java m' k
        ∙ ap or_invalid (sym (before k ∙ find_java-tail k entry m'.entries (λ s. ne (sym s))))
        ∙ sym (get_native_id-find_java m k)

-- A removal keeps one entry for each Java thread and the room for the entries.
pub unregister-IsValid :
    (m : ThreadMap) (n : ℤ) → IsValid m → IsValid (ubench_unregister_native_thread m n).0
unregister-IsValid m n v = elim (Bool-cases (ubench_unregister_native_thread m n).1) [
  | inl done ↦
      let r =
        unregister-Removed m n {m' = (ubench_unregister_native_thread m n).0}
          (λ i. ((ubench_unregister_native_thread m n).0, done i)) in
      record {
        unique = (Nodup-cons.0 (Perm.nodup (Perm.map (λ x. x.java_id) r.others) v.unique)).1;
        room = omega (arith, length-perm r.others, v.room, r.capacity);
      }
  | inr absent ↦ subst IsValid (sym (unregister_absent m n absent)) v
]
