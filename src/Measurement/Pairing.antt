-- ===== src/Measurement/Pairing.antt =====
-- The rows of Measurement.getResults (src/c/measurement.c) against a single pass over the snapshots.
use java_ubench_agent.Prelude.{
  ℕ, zero, suc, ◌+◌, ◌-◌, ◌<◌, int_eq, int_eq_iff, true, false, Option, none, some, ◌≡◌, refl, sym,
  ◌∙◌, ap, inl, inr, List, [], ◌∷◌, ◌++◌, ltb, get_elem?, length, arith, Bool-cases, Option-cases,
  get_elem?-append_left,
}
use mathlib.Core.Path.{ap₂}
use java_ubench_agent.Events.Types.{Snapshot, EventInfo, type_start, type_end}
use java_ubench_agent.Measurement.Results.{
  found, missing, find_from, find_first_matching_snapshot_type, cons_row, row_at, result_rows,
  raw_row, raw_row_at, raw_rows,
}
use java_ubench_agent.Measurement.Session.Reports.{result_rows-step}
use java_ubench_agent.Measurement.Search.{
  pairs, rows_of, bump, search, by_index, At, At-tail, find_from-search, search-Searched,
  At-Searched, opened, closed, pairs-opened, pairs-closed, Hit, Searched,
}

-- The searches of one round, from their indices.
first_start :
    (whole cells : List Snapshot) (i i_max : ℕ)
    → At whole i cells
    → i_max ≡ i + length cells
    → find_first_matching_snapshot_type whole (found i) i_max type_start
      ≡ by_index i (search type_start cells)
unfolding find_first_matching_snapshot_type
first_start whole cells i i_max at e =
    ap (λ left. find_from whole left i type_start) (omega arith)
    ∙ find_from-search whole cells i type_start at

next_end :
    (whole cells : List Snapshot) (i i_max : ℕ) (s : Snapshot)
    → At whole i (s ∷ cells)
    → int_eq s.type type_start ≡ true
    → i_max ≡ i + suc (length cells)
    → find_first_matching_snapshot_type whole (found i) i_max type_end
      ≡ by_index i (bump (search type_end cells))
unfolding find_first_matching_snapshot_type
next_end whole cells i i_max s at is_start e =
    ap (λ left. find_from whole left i type_end) left_eq
    ∙ find_from-search whole (s ∷ cells) i type_end at
    ∙ ap (by_index i) (rw no_end refl)
  where
    left_eq : i_max - i ≡ length (s ∷ cells)
    left_eq = omega (arith, e)

    no_end : int_eq s.type type_end ≡ false
    no_end = rw ((int_eq_iff s.type type_start).0 is_start) refl

-- One round without a start, and without an end.
result_rows_no_start :
    (whole : List Snapshot) (events : List EventInfo) (fuel i i_max : ℕ)
    → find_first_matching_snapshot_type whole (found i) i_max type_start ≡ missing
    → result_rows whole events (suc fuel) i i_max ≡ some []
unfolding result_rows
result_rows_no_start whole events fuel i i_max e = elim (Bool-cases (ltb i i_max)) [
  | inl more ↦ ground (arith, more, e)
  | inr done ↦ ground (arith, done)
]

result_rows_no_end :
    (whole : List Snapshot) (events : List EventInfo) (fuel i i_max a : ℕ)
    → find_first_matching_snapshot_type whole (found i) i_max type_start ≡ found a
    → find_first_matching_snapshot_type whole (found a) i_max type_end ≡ missing
    → result_rows whole events (suc fuel) i i_max ≡ some []
unfolding result_rows
result_rows_no_end whole events fuel i i_max a e e' = elim (Bool-cases (ltb i i_max)) [
  | inl more ↦ ground (arith, more, e, e')
  | inr done ↦ ground (arith, done)
]

-- A round that finds a start, where the rounds behind it are known.
module _ (whole : List Snapshot) (events : List EventInfo) (fuel i_max : ℕ)
    (again : (cells : List Snapshot) (i : ℕ)
      → At whole i cells
      → i_max ≡ i + length cells
      → length cells < fuel
      → result_rows whole events fuel i i_max ≡ rows_of events (pairs none cells))
    (cells : List Snapshot) (i : ℕ) (at : At whole i cells) (e : i_max ≡ i + length cells)
    (lt : length cells < suc fuel) where
  closed_at :
      (h g : Hit)
      → find_first_matching_snapshot_type whole (found i) i_max type_start ≡ found (i + h.index)
      → find_first_matching_snapshot_type whole (found (i + h.index)) i_max type_end
        ≡ found (i + h.index + suc g.index)
      → Searched type_start cells h
      → Searched type_end h.behind g
      → result_rows whole events (suc fuel) i i_max
        ≡ rows_of events ((h.cell, g.cell) ∷ pairs none g.behind)
  closed_at h g first second s t =
      let at_start = At-Searched whole i s at in
      let at_rest = At-tail whole (i + h.index) h.cell h.behind at_start in
      let at_end = At-Searched whole (suc (i + h.index)) t at_rest in
      let start_cell : get_elem? whole (i + h.index) ≡ some h.cell =
        ap (get_elem? whole) (omega arith) ∙ at_start 0 (omega arith) in
      let end_cell : get_elem? whole (i + h.index + suc g.index) ≡ some g.cell =
        ap (get_elem? whole) (omega arith) ∙ at_end 0 (omega arith) in
      result_rows-step whole events fuel i i_max (i + h.index) (i + h.index + suc g.index)
        (omega (arith, s.size)) first second
      ∙ ap₂ cons_row (ap₂ (row_at events) start_cell end_cell) (
          again g.behind (suc (i + h.index + suc g.index))
            (λ k l.
              ap (get_elem? whole) (omega arith)
              ∙ At-tail whole (suc (i + h.index) + g.index) g.cell g.behind at_end k l)
            (omega (arith, s.size, t.size)) (omega (arith, s.size, t.size)))

  opened_at :
      (h : Hit)
      → find_first_matching_snapshot_type whole (found i) i_max type_start ≡ found (i + h.index)
      → Searched type_start cells h
      → result_rows whole events (suc fuel) i i_max ≡ rows_of events (pairs (some h.cell) h.behind)
  opened_at h first s =
      let second =
        next_end whole h.behind (i + h.index) i_max h.cell (At-Searched whole i s at) s.is_type
          (omega (arith, s.size)) in
      elim (Option-cases (search type_end h.behind)) [
        | inl never ↦
            result_rows_no_end whole events fuel i i_max (i + h.index) first
              (second ∙ ap (λ o. by_index (i + h.index) (bump o)) never)
            ∙ ap (rows_of events) (sym (pairs-closed h.cell h.behind ∙ ap (closed h.cell) never))
        | inr (g, closes) ↦
            closed_at h g first (second ∙ ap (λ o. by_index (i + h.index) (bump o)) closes) s
              (search-Searched type_end h.behind g closes)
            ∙ ap (rows_of events) (sym (pairs-closed h.cell h.behind ∙ ap (closed h.cell) closes))
      ]

result_rows-At :
    (whole : List Snapshot) (events : List EventInfo) (fuel : ℕ) (cells : List Snapshot)
    (i i_max : ℕ)
    → At whole i cells
    → i_max ≡ i + length cells
    → length cells < fuel
    → result_rows whole events fuel i i_max ≡ rows_of events (pairs none cells)
result_rows-At whole events zero cells i i_max at e lt = absurd (omega arith)
result_rows-At whole events (suc fuel) cells i i_max at e lt =
    elim (Option-cases (search type_start cells)) [
      | inl never ↦
          result_rows_no_start whole events fuel i i_max
            (first_start whole cells i i_max at e ∙ ap (by_index i) never)
          ∙ ap (rows_of events) (sym (pairs-opened cells ∙ ap opened never))
      | inr (h, opens) ↦
          opened_at whole events fuel i_max
            (λ rest j. result_rows-At whole events fuel rest j i_max) cells i at e lt h
            (first_start whole cells i i_max at e ∙ ap (by_index i) opens)
            (search-Searched type_start cells h opens)
          ∙ ap (rows_of events) (sym (pairs-opened cells ∙ ap opened opens))
    ]

-- The loop of getResults over the recorded snapshots, whatever their kinds and their order, computes
-- a row for each pair of a single pass: a start outside a measurement opens one, the next end closes
-- it, and samples, further starts and stray ends are passed over. `unused` are the snapshots behind
-- the index.
pub result_rows-pairs :
    (recorded unused : List Snapshot) (events : List EventInfo)
    → result_rows (recorded ++ unused) events (suc (length recorded)) 0 (length recorded)
      ≡ rows_of events (pairs none recorded)
result_rows-pairs recorded unused events =
    result_rows-At (recorded ++ unused) events (suc (length recorded)) recorded 0 (length recorded)
      (λ k lt.
        ap (get_elem? (recorded ++ unused)) (omega arith)
        ∙ get_elem?-append_left recorded unused k lt)
      (omega arith) (omega arith)

-- One raw row for each snapshot.
abbrev pub raw_rows_of : List EventInfo → List Snapshot → Option (List (List ℕ))
raw_rows_of events [] = some []
raw_rows_of events (s ∷ cells) = cons_row (raw_row events s) (raw_rows_of events cells)

raw_rows-At :
    (whole : List Snapshot) (events : List EventInfo) (cells : List Snapshot) (i : ℕ)
    → At whole i cells
    → raw_rows whole events (length cells) i ≡ raw_rows_of events cells
unfolding raw_rows
raw_rows-At whole events [] i at = refl
raw_rows-At whole events (s ∷ cells) i at =
    ap₂ cons_row (ap (raw_row_at events) (ap (get_elem? whole) (omega arith) ∙ at 0 (omega arith)))
      (raw_rows-At whole events cells (suc i) (At-tail whole i s cells at))

-- The loop of getRawResults computes, in order, a row of the raw values and the type of each
-- recorded snapshot. `unused` are the snapshots behind the index.
pub raw_rows-recorded :
    (recorded unused : List Snapshot) (events : List EventInfo)
    → raw_rows (recorded ++ unused) events (length recorded) 0 ≡ raw_rows_of events recorded
raw_rows-recorded recorded unused events =
    raw_rows-At (recorded ++ unused) events recorded 0 (λ k lt.
      ap (get_elem? (recorded ++ unused)) (omega arith)
      ∙ get_elem?-append_left recorded unused k lt)
