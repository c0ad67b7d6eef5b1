-- ===== src/Threads/Lookup.antt =====
-- The lookups of src/c/threads.c against a plain search of the entries.
use mathlib.Core.List.{
  Mem, Nodup, Nodup-cons, Permᴰ, mem-cons_self, mem-cons, mem-cons_of_mem, not-mem-nil, Perm,
}
use mathlib.Core.List.Perm
use mathlib.Core.Logic.Or
use mathlib.Core.Logic.{∥∥₁_elim}
use mathlib.Core.HLevel.{hedberg, ⊥_prop}
use java_ubench_agent.Prelude.{
  ℕ, suc, ◌+◌, ℤ, int_eq, int_eq_iff, Bool, true, Option, none, some, ◌≡◌, ◌≢◌, refl, sym, ◌∙◌, ap,
  inl, inr, List, [], ◌∷◌, ◌++◌, map, arith, Bool-cases, Option-cases, if◌then◌else◌, get_elem?,
  length, subst, ℕ_discrete,
}
use java_ubench_agent.Threads.Map.{
  Entry, ThreadMap, invalid_thread_id, thread_map_index_of, predicate_java_id_match,
  ubench_threads_get_native_id,
}

-- The native identifier of the first entry of a Java thread.
unfoldable pub find_java : ℤ → List Entry → Option ℤ
find_java j [] = none
find_java j (e ∷ es) = if int_eq e.java_id j then some e.native_id else find_java j es

-- The first entry that satisfies a predicate, with what stands before and behind it.
pub record Split (p : Entry → Bool) (i : ℕ) (es : List Entry) (k : ℕ) : Type 0 where
  pub before : List Entry
  pub entry : Entry
  pub behind : List Entry
  pub whole : es ≡ before ++ entry ∷ behind
  pub satisfies : p entry ≡ true
  pub index : k ≡ i + length before

pub index_of-Split :
    (p : Entry → Bool) (i : ℕ) (es : List Entry) (k : ℕ)
    → thread_map_index_of p i es ≡ some k
    → Split p i es k
unfolding thread_map_index_of
index_of-Split p i [] k e = absurd (ground arith)
index_of-Split p i (x ∷ es) k e = elim (Bool-cases (p x)) [
  | inl hit ↦ record {
    before = [];
    entry = x;
    behind = es;
    whole = refl;
    satisfies = hit;
    index = ground arith;
  }
  | inr miss ↦
      let s = index_of-Split p (suc i) es k (ground arith) in
      record {
        before = x ∷ s.before;
        entry = s.entry;
        behind = s.behind;
        whole = ap (◌∷◌ x) s.whole;
        satisfies = s.satisfies;
        index = omega (arith, s.index);
      }
]

-- ubench_threads_get_native_id is the plain search.
abbrev pub or_invalid : Option ℤ → ℤ
or_invalid none = invalid_thread_id
or_invalid (some n) = n

entry_at : List Entry → Option ℕ → ℤ
entry_at all none = invalid_thread_id
entry_at all (some k) = elim (get_elem? all k) [ none ↦ invalid_thread_id | some e ↦ e.native_id ]

-- The entries that are searched stand in `whole` from `i` on.
entry_at-find_java :
    (j : ℤ) (whole : List Entry) (i : ℕ) (es : List Entry)
    → ((k : ℕ) → get_elem? whole (i + k) ≡ get_elem? es k)
    → entry_at whole (thread_map_index_of (predicate_java_id_match j) i es)
      ≡ or_invalid (find_java j es)
unfolding thread_map_index_of find_java entry_at
entry_at-find_java j whole i [] at = refl
entry_at-find_java j whole i (e ∷ es) at = elim (Bool-cases (int_eq e.java_id j)) [
  | inl hit ↦
      let here : get_elem? whole i ≡ some e = ap (get_elem? whole) (omega arith) ∙ at 0 in
      ground arith
  | inr miss ↦
      let step : entry_at whole (thread_map_index_of (predicate_java_id_match j) (suc i) es)
          ≡ or_invalid (find_java j es) =
        entry_at-find_java j whole (suc i) es
          (λ k. ap (get_elem? whole) (omega arith) ∙ at (suc k)) in
      ground arith
]

pub get_native_id-find_java :
    (m : ThreadMap) (j : ℤ) → ubench_threads_get_native_id m j ≡ or_invalid (find_java j m.entries)
unfolding ubench_threads_get_native_id entry_at
get_native_id-find_java m j =
    let found =
      entry_at-find_java j m.entries 0 m.entries (λ k. ap (get_elem? m.entries) (omega arith)) in
    elim (Option-cases (thread_map_index_of (predicate_java_id_match j) 0 m.entries)) [
      | inl e ↦ ground arith
      | inr (k, e) ↦ ground arith
    ]

ℤ-discrete : Discrete ℤ
ℤ-discrete = hlevel ℕ_discrete

Option-set : IsSet (Option ℤ)
Option-set = hlevel (hedberg ℤ-discrete)

-- The Java identifiers of the entries.
abbrev pub java_ids : List Entry → List ℤ
java_ids = map (λ e. e.java_id)

module _ (j : ℤ) where
  find_java-swap :
      (a b : Entry) (l : List Entry)
      → a.java_id ≢ b.java_id
      → find_java j (a ∷ b ∷ l) ≡ find_java j (b ∷ a ∷ l)
  unfolding find_java
  find_java-swap a b l ne = ground (arith, int_eq_iff a.java_id j, int_eq_iff b.java_id j)

  find_java-cons :
      (a : Entry) (xs ys : List Entry)
      → find_java j xs ≡ find_java j ys
      → find_java j (a ∷ xs) ≡ find_java j (a ∷ ys)
  unfolding find_java
  find_java-cons a xs ys e = ground arith

  find_java-permᴰ :
      {xs ys : List Entry} → Permᴰ xs ys → Nodup (java_ids xs) → find_java j xs ≡ find_java j ys
  find_java-permᴰ Permᴰ.nil nodup = refl
  find_java-permᴰ (Permᴰ.cons {a} {l₁} {l₂} e p) nodup =
      find_java-cons a l₁ l₂ (find_java-permᴰ p (Nodup-cons.0 nodup).1)
      ∙ ap (λ x. find_java j (x ∷ l₂)) e
  find_java-permᴰ (Permᴰ.swap {a} {b} {a'} {b'} {l} e f) nodup =
      find_java-swap a b l (λ same.
        (Nodup-cons.0 nodup).0
          (subst (λ x. Mem x (b.java_id ∷ java_ids l)) (sym same) mem-cons_self))
      ∙ ap (λ x. find_java j (x ∷ a ∷ l)) f
      ∙ ap (λ x. find_java j (a' ∷ x ∷ l)) e
  find_java-permᴰ (Permᴰ.trans p q) nodup =
      find_java-permᴰ p nodup
      ∙ find_java-permᴰ q (Perm.nodup (Perm.map (λ e. e.java_id) ∣ p ∣₁) nodup)

  -- With one entry for each Java thread the order of the entries does not matter.
  pub find_java-perm :
      {xs ys : List Entry} → Perm xs ys → Nodup (java_ids xs) → find_java j xs ≡ find_java j ys
  find_java-perm {xs} {ys} p nodup =
      ∥∥₁_elim p (Option-set (find_java j xs) (find_java j ys)) (λ d. find_java-permᴰ d nodup)

  -- A Java thread that is not found has no entry.
  pub find_java-none : (es : List Entry) → find_java j es ≡ none → ¬ Mem j (java_ids es)
  unfolding find_java
  find_java-none [] e m = not-mem-nil m
  find_java-none (x ∷ es) e m =
      Or.elim ⊥_prop (mem-cons.0 m) (λ same. ground (arith, int_eq_iff x.java_id j, same))
        (λ later. find_java-none es (ground arith) later)

  -- A Java thread without an entry is not found.
  pub find_java_of_not_mem : (es : List Entry) → ¬ Mem j (java_ids es) → find_java j es ≡ none
  unfolding find_java
  find_java_of_not_mem [] h = refl
  find_java_of_not_mem (x ∷ es) h = elim (Bool-cases (int_eq x.java_id j)) [
    | inl same ↦ absurd (
        h (
          subst (λ y. Mem j (y ∷ java_ids es)) (sym ((int_eq_iff x.java_id j).0 same))
            mem-cons_self))
    | inr other ↦
        let rest = find_java_of_not_mem es (λ m. h (mem-cons_of_mem x.java_id m)) in ground arith
  ]
