-- ===== src/Measurement/Rows.antt =====
-- The rows that getResults and getRawResults compute are as wide as the list of the events (src/c/measurement.c).
use java_ubench_agent.Prelude.{
  ℕ, zero, suc, Option, none, some, ◌≡◌, refl, sym, ◌∙◌, ap, ◌⊎◌, inl, inr, List, [], ◌∷◌, All,
  length, ltb, get_elem?, arith, subst, Bool-cases, Option-cases,
}
use java_ubench_agent.Events.Types.{Snapshot, EventInfo, type_start, type_end}
use java_ubench_agent.Events.Getters.{event_value, event_raw_value}
use java_ubench_agent.Measurement.Results.{
  Found, found, missing, outside, find_first_matching_snapshot_type, cons_row, row, raw_row, row_at,
  raw_row_at, result_rows, raw_rows, names_of,
}

pub names_of-length : (events : List EventInfo) → length (names_of events) ≡ length events
names_of-length [] = refl
names_of-length (event ∷ events) = ap suc (names_of-length events)

pub row-length :
    (events : List EventInfo) (start end : Snapshot) {r : List ℕ}
    → row events start end ≡ some r
    → length r ≡ length (names_of events)
unfolding row
row-length [] start end e = ground (arith, e)
row-length (event ∷ events) start end {r} e = elim (Option-cases (event_value event start end)) [
  | inl bad ↦ absurd (ground (arith, e, bad))
  | inr (v, read) ↦ elim (Option-cases (row events start end)) [
    | inl bad ↦ absurd (ground (arith, e, read, bad))
    | inr (vs, rest) ↦
        let same : v ∷ vs ≡ r = ground (arith, e, read, rest) in
        ap length (sym same) ∙ ap suc (row-length events start end rest)
  ]
]

pub raw_row-length :
    (events : List EventInfo) (s : Snapshot) {r : List ℕ}
    → raw_row events s ≡ some r
    → length r ≡ suc (length (names_of events))
unfolding raw_row
raw_row-length [] s {r} e = ground (arith, e)
raw_row-length (event ∷ events) s {r} e = elim (Option-cases (event_raw_value event s)) [
  | inl bad ↦ absurd (ground (arith, e, bad))
  | inr (v, read) ↦ elim (Option-cases (raw_row events s)) [
    | inl bad ↦ absurd (ground (arith, e, read, bad))
    | inr (vs, rest) ↦
        let same : v ∷ vs ≡ r = ground (arith, e, read, rest) in
        ap length (sym same) ∙ ap suc (raw_row-length events s rest)
  ]
]

-- Rows of a width, if there are rows.
abbrev pub HasWidth : ℕ → Option (List (List ℕ)) → Type 0
HasWidth width none = Unit
HasWidth width (some rows) = All (λ r. length r ≡ width) rows

pub cons_row-HasWidth :
    (width : ℕ) (r : Option (List ℕ)) (rs : Option (List (List ℕ)))
    → ((vs : List ℕ) → r ≡ some vs → length vs ≡ width)
    → HasWidth width rs
    → HasWidth width (cons_row r rs)
cons_row-HasWidth width none rs h h' = tt
cons_row-HasWidth width (some r) none h h' = tt
cons_row-HasWidth width (some r) (some rs) h h' = (h r refl, h')

pub raw_rows-HasWidth :
    (snapshots : List Snapshot) (events : List EventInfo) (left i : ℕ)
    → HasWidth (suc (length (names_of events))) (raw_rows snapshots events left i)
unfolding raw_rows
raw_rows-HasWidth snapshots events zero i = tt
raw_rows-HasWidth snapshots events (suc left) i =
    cons_row-HasWidth _ (raw_row_at events (get_elem? snapshots i)) _ (at (get_elem? snapshots i))
      (raw_rows-HasWidth snapshots events left (suc i))
  where
    at :
        (o : Option Snapshot) (vs : List ℕ)
        → raw_row_at events o ≡ some vs
        → length vs ≡ suc (length (names_of events))
    at none vs e = absurd (ground (arith, e))
    at (some s) vs e = raw_row-length events s e

pub row_at-length :
    (events : List EventInfo) (s t : Option Snapshot) {vs : List ℕ}
    → row_at events s t ≡ some vs
    → length vs ≡ length (names_of events)
row_at-length events none t e = absurd (ground (arith, e))
row_at-length events (some s) none e = absurd (ground (arith, e))
row_at-length events (some s) (some t) e = row-length events s t e

pub Found-cases : (f : Found) → (f ≡ missing) ⊎ (f ≡ outside) ⊎ ((i : ℕ) × (f ≡ found i))
Found-cases missing = inl refl
Found-cases outside = inr (inl refl)
Found-cases (found i) = inr (inr (i, refl))

-- One round of the loop of getResults ends it, or puts a row before those of the rounds behind it.
abbrev pub Proceeds : List Snapshot → List EventInfo → ℕ → ℕ → Option (List (List ℕ)) → Type 0
Proceeds snapshots events fuel i_max rows =
    (rows ≡ none)
    ⊎ (rows ≡ some [])
    ⊎ ((s t : Option Snapshot) × (j : ℕ) × (rows
          ≡ cons_row (row_at events s t) (result_rows snapshots events fuel j i_max)))

pub result_rows-Proceeds :
    (snapshots : List Snapshot) (events : List EventInfo) (fuel i i_max : ℕ)
    → Proceeds snapshots events fuel i_max (result_rows snapshots events (suc fuel) i i_max)
unfolding result_rows
result_rows-Proceeds snapshots events fuel i i_max =
    let start = find_first_matching_snapshot_type snapshots (found i) i_max type_start in
    let end = find_first_matching_snapshot_type snapshots start i_max type_end in
    elim (Bool-cases (ltb i i_max)) [
      | inr done ↦ inr (inl (ground (arith, done)))
      | inl more ↦ elim (Found-cases start) [
        | inl never ↦ inr (inl (ground (arith, more, never)))
        | inr (inl past) ↦ inl (ground (arith, more, past))
        | inr (inr (j, starts)) ↦ elim (Found-cases end) [
          | inl never ↦ inr (inl (ground (arith, more, starts, never)))
          | inr (inl past) ↦ inl (ground (arith, more, starts, past))
          | inr (inr (k, ends)) ↦ inr (
              inr (
                get_elem? snapshots j,
                get_elem? snapshots k,
                suc k,
                ground (arith, more, starts, ends),
              ))
        ]
      ]
    ]

pub result_rows-HasWidth :
    (snapshots : List Snapshot) (events : List EventInfo) (fuel i i_max : ℕ)
    → HasWidth (length (names_of events)) (result_rows snapshots events fuel i i_max)
unfolding result_rows
result_rows-HasWidth snapshots events zero i i_max = tt
result_rows-HasWidth snapshots events (suc fuel) i i_max =
    elim (result_rows-Proceeds snapshots events fuel i i_max) [
      | inl bad ↦ subst (HasWidth (length (names_of events))) (sym bad) tt
      | inr (inl done) ↦ subst (HasWidth (length (names_of events))) (sym done) tt
      | inr (inr (s, t, j, proceeds)) ↦ subst (HasWidth (length (names_of events))) (sym proceeds) (
          cons_row-HasWidth (length (names_of events)) (row_at events s t) _
            (λ vs e. row_at-length events s t e)
            (result_rows-HasWidth snapshots events fuel j i_max))
    ]
