-- ===== src/Measurement/Search.antt =====
-- The search of getResults (src/c/measurement.c) for a snapshot of a type, and a single pass over
-- the snapshots that pairs them.
use java_ubench_agent.Prelude.{
  ℕ, suc, ◌+◌, ◌<◌, ℤ, int_eq, true, Option, none, some, ◌≡◌, refl, ◌∙◌, ap, inl, inr, List, [],
  ◌∷◌, if◌then◌else◌, get_elem?, length, arith, subst, Bool-cases, Option-cases,
}
use java_ubench_agent.Events.Types.{Snapshot, EventInfo, type_start, type_end}
use java_ubench_agent.Measurement.Results.{Found, found, missing, find_from, row, cons_row}

-- One pass: outside a measurement, a start opens one; inside, the next end closes it. All other
-- snapshots are passed over.
abbrev pub pairs : Option Snapshot → List Snapshot → List (Snapshot × Snapshot)
pairs open_at [] = []
pairs none (x ∷ xs) = if int_eq x.type type_start then pairs (some x) xs else pairs none xs
pairs (some s) (x ∷ xs) =
    if int_eq x.type type_end then (s, x) ∷ pairs none xs else pairs (some s) xs

abbrev pub rows_of : List EventInfo → List (Snapshot × Snapshot) → Option (List (List ℕ))
rows_of events [] = some []
rows_of events (p ∷ ps) = cons_row (row events p.0 p.1) (rows_of events ps)

-- The first snapshot of a type, its index and what stands behind it.
pub record Hit : Type 0 where
  pub index : ℕ
  pub cell : Snapshot
  pub behind : List Snapshot

abbrev pub bump : Option Hit → Option Hit
bump none = none
bump (some h) = some (record h { index = suc h.index })

abbrev pub search : ℤ → List Snapshot → Option Hit
search type [] = none
search type (x ∷ xs) =
    if int_eq x.type type
    then some (record { index = 0; cell = x; behind = xs })
    else bump (search type xs)

abbrev pub by_index : ℕ → Option Hit → Found
by_index i none = missing
by_index i (some h) = found (i + h.index)

-- The snapshots `cells` stand in `whole` from `i` on.
abbrev pub At : List Snapshot → ℕ → List Snapshot → Type 0
At whole i cells = (k : ℕ) → k < length cells → get_elem? whole (i + k) ≡ get_elem? cells k

pub At-tail :
    (whole : List Snapshot) (i : ℕ) (x : Snapshot) (cells : List Snapshot)
    → At whole i (x ∷ cells)
    → At whole (suc i) cells
At-tail whole i x cells at k lt = ap (get_elem? whole) (omega arith) ∙ at (suc k) (omega arith)

pub find_from-search :
    (whole cells : List Snapshot) (i : ℕ) (type : ℤ)
    → At whole i cells
    → find_from whole (length cells) i type ≡ by_index i (search type cells)
unfolding find_from
find_from-search whole [] i type at = refl
find_from-search whole (x ∷ cells) i type at = elim (Bool-cases (int_eq x.type type)) [
  | inl hit ↦ ground (arith, here, hit)
  | inr miss ↦
      rw (here, miss, find_from)
        (find_from-search whole cells (suc i) type (At-tail whole i x cells at)
          ∙ later (search type cells))
]
  where
    here : get_elem? whole i ≡ some x
    here = ap (get_elem? whole) (omega arith) ∙ at 0 (omega arith)

    later : (o : Option Hit) → by_index (suc i) o ≡ by_index i (bump o)
    later none = refl
    later (some h) = ap found (omega arith)

-- What a search that finds something says of the snapshots.
pub record Searched (type : ℤ) (cells : List Snapshot) (h : Hit) : Type 0 where
  pub size : length cells ≡ suc (h.index + length h.behind)
  pub is_type : int_eq h.cell.type type ≡ true
  pub rest : (k : ℕ) → get_elem? cells (h.index + k) ≡ get_elem? (h.cell ∷ h.behind) k

pub search-Searched :
    (type : ℤ) (cells : List Snapshot) (h : Hit)
    → search type cells ≡ some h
    → Searched type cells h
search-Searched type [] h e = absurd (ground (arith, e))
search-Searched type (x ∷ cells) h e = elim (Bool-cases (int_eq x.type type)) [
  | inl hit ↦
      let is : ◌≡◌ {A = Hit} (record { index = 0; cell = x; behind = cells }) h =
        ground (arith, e, hit) in
      subst (Searched type (x ∷ cells)) is (record {
        size = omega arith;
        is_type = hit;
        rest = λ k. ap (get_elem? (x ∷ cells)) (omega arith);
      })
  | inr miss ↦ elim (Option-cases (search type cells)) [
    | inl never ↦ absurd (ground (arith, e, miss, never))
    | inr (g, later) ↦
        let s = search-Searched type cells g later in
        let is : ◌≡◌ {A = Hit} (record g { index = suc g.index }) h =
          ground (arith, e, miss, later) in
        subst (Searched type (x ∷ cells)) is (record {
          size = omega (arith, s.size);
          is_type = s.is_type;
          rest = λ k. ap (get_elem? (x ∷ cells)) (sum g.index k) ∙ s.rest k;
        })
  ]
]
  where
    sum : (a b : ℕ) → suc a + b ≡ suc (a + b)
    sum a b = omega arith

pub At-Searched :
    (whole : List Snapshot) (i : ℕ) {type : ℤ} {cells : List Snapshot} {h : Hit}
    → Searched type cells h
    → At whole i cells
    → At whole (i + h.index) (h.cell ∷ h.behind)
At-Searched whole i {h = h} s at k lt =
    ap (get_elem? whole) (omega arith) ∙ at (h.index + k) (omega (arith, s.size)) ∙ s.rest k

-- The pass goes on behind the snapshot that the search finds.
abbrev pub opened : Option Hit → List (Snapshot × Snapshot)
opened none = []
opened (some h) = pairs (some h.cell) h.behind

abbrev pub closed : Snapshot → Option Hit → List (Snapshot × Snapshot)
closed s none = []
closed s (some h) = (s, h.cell) ∷ pairs none h.behind

pub pairs-opened : (cells : List Snapshot) → pairs none cells ≡ opened (search type_start cells)
pairs-opened [] = refl
pairs-opened (x ∷ cells) = elim (Bool-cases (int_eq x.type type_start)) [
  | inl hit ↦ rw hit refl
  | inr miss ↦ rw miss (pairs-opened cells ∙ bumped (search type_start cells))
]
  where
    bumped : (o : Option Hit) → opened o ≡ opened (bump o)
    bumped none = refl
    bumped (some h) = refl

pub pairs-closed :
    (s : Snapshot) (cells : List Snapshot) → pairs (some s) cells ≡ closed s (search type_end cells)
pairs-closed s [] = refl
pairs-closed s (x ∷ cells) = elim (Bool-cases (int_eq x.type type_end)) [
  | inl hit ↦ rw hit refl
  | inr miss ↦ rw miss (pairs-closed s cells ∙ bumped (search type_end cells))
]
  where
    bumped : (o : Option Hit) → closed s o ≡ closed s (bump o)
    bumped none = refl
    bumped (some h) = refl
