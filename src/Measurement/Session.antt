-- ===== src/Measurement/Session.antt =====
-- A benchmark's loop over Measurement.start and Measurement.stop on one event set (README.md), and
-- what the snapshots hold after it (src/c/measurement.c).
pub mod Rounds
pub mod Reports
use java_ubench_agent.Prelude.{
  ℕ, zero, suc, ◌+◌, ◌-◌, ◌*◌, ◌%◌, ◌^◌, ◌≤◌, ◌<◌, ℤ, Bool, true, false, Option, none, some, ◌≡◌,
  refl, sym, ◌∙◌, ap, List, [], ◌∷◌, ◌++◌, if◌then◌else◌, get_elem?, set, take, length, length-set,
  get_elem?-lt, All, length-append, get_elem?-set_ne, arith, subst, dec_lt, lt_of_get_elem?,
}
use java_ubench_agent.Events.Types.{Snapshot, EventInfo, max_papi_events}
use java_ubench_agent.Measure.{Readings, store, ubench_measure_start, ubench_measure_stop}
use java_ubench_agent.Measurement.State.{Config}
use java_ubench_agent.Measurement.Recording.{start_one, stop_one}
use java_ubench_agent.Measurement.Bounds.{
  IsReady, Written, Records, write_index, write_index-lt, start_one-Records, stop_one-Records,
}

-- The readings of one round, at its start and at its stop.
abbrev pub Round : Type 0
Round = Readings × Readings

abbrev pub and_then : Option Config → (Config → Option Config) → Option Config
and_then none f = none
and_then (some c) f = f c

abbrev pub measure_round : Round → Config → Option Config
measure_round x c = and_then (start_one x.0 c) (stop_one x.1)

abbrev pub measure_rounds : List Round → Config → Option Config
measure_rounds [] c = some c
measure_rounds (x ∷ xs) c = and_then (measure_round x c) (measure_rounds xs)

-- The rounds that an event set for `m` rounds remembers: a new one is put behind the first `m - 1`.
abbrev pub remember : ℕ → List Round → Round → List Round
remember m acc x = take (m - 1) acc ++ x ∷ []

abbrev pub remembered : ℕ → List Round → List Round → List Round
remembered m acc [] = acc
remembered m acc (x ∷ xs) = remembered m (remember m acc x) xs

abbrev pub twice : ℕ → ℕ
twice zero = 0
twice (suc n) = suc (suc (twice n))

pub twice-eq : (n : ℕ) → twice n ≡ n + n
twice-eq zero = refl
twice-eq (suc n) = omega (arith, twice-eq n)

-- The width of a snapshot's counter array.
abbrev pub IsWide : Snapshot → Type 0
IsWide s = length s.papi_events ≡ max_papi_events

-- Two snapshots that ubench_measure_start and ubench_measure_stop have written.
pub record Pair (used : ℕ) (x : Round) (s t : Snapshot) : Type 0 where
  pub old_start : Snapshot
  pub old_stop : Snapshot
  pub start : s ≡ ubench_measure_start x.0 used old_start
  pub stop : t ≡ ubench_measure_stop x.1 used old_stop
  pub wide_start : IsWide old_start
  pub wide_stop : IsWide old_stop

-- The snapshots begin with a pair for each round, in order.
abbrev pub Stored : ℕ → List Round → List Snapshot → Type 0
Stored used [] cells = Unit {0}
Stored used (x ∷ xs) [] = ⊥
Stored used (x ∷ xs) (s ∷ []) = ⊥
Stored used (x ∷ xs) (s ∷ t ∷ cells) = Pair used x s t × Stored used xs cells

pub Stored-take :
    (used n : ℕ) (xs : List Round) (cells : List Snapshot)
    → Stored used xs cells
    → Stored used (take n xs) cells
Stored-take used zero xs cells h = tt
Stored-take used (suc n) [] cells h = tt
Stored-take used (suc n) (x ∷ xs) [] h = h
Stored-take used (suc n) (x ∷ xs) (s ∷ []) h = h
Stored-take used (suc n) (x ∷ xs) (s ∷ t ∷ cells) h = (h.0, Stored-take used n xs cells h.1)

-- A pair behind the others.
pub Stored-push :
    (used : ℕ) (xs : List Round) (cells : List Snapshot) (x : Round) (old old' : Snapshot)
    → Stored used xs cells
    → get_elem? cells (twice (length xs)) ≡ some old
    → get_elem? cells (suc (twice (length xs))) ≡ some old'
    → IsWide old
    → IsWide old'
    → Stored used (xs ++ x ∷ []) (
        set
          (set cells (twice (length xs)) (ubench_measure_start x.0 used old))
          (suc (twice (length xs)))
          (ubench_measure_stop x.1 used old'))
Stored-push used [] [] x old old' h e e' w w' = absurd (ground (arith, e))
Stored-push used [] (s ∷ []) x old old' h e e' w w' = absurd (ground (arith, e'))
Stored-push used [] (s ∷ t ∷ cells) x old old' h e e' w w' = (
  record {
    old_start = old;
    old_stop = old';
    start = refl;
    stop = refl;
    wide_start = w;
    wide_stop = w';
  },
  tt,
)
Stored-push used (y ∷ xs) [] x old old' h e e' w w' = h
Stored-push used (y ∷ xs) (s ∷ []) x old old' h e e' w w' = h
Stored-push used (y ∷ xs) (s ∷ t ∷ cells) x old old' h e e' w w' =
    (h.0, Stored-push used xs cells x old old' h.1 e e' w w')

pub length-store : (vs old : List ℕ) → length (store vs old) ≡ length old
unfolding store
length-store [] old = refl
length-store (v ∷ vs) [] = refl
length-store (v ∷ vs) (o ∷ old) = ap suc (length-store vs old)

pub start-IsWide :
    (r : Readings) (used : ℕ) (s : Snapshot) → IsWide s → IsWide (ubench_measure_start r used s)
unfolding ubench_measure_start
start-IsWide r used s w = ground (arith, length-store r.papi_read.1 s.papi_events)

pub stop-IsWide :
    (r : Readings) (used : ℕ) (s : Snapshot) → IsWide s → IsWide (ubench_measure_stop r used s)
unfolding ubench_measure_stop
stop-IsWide r used s w = ground (arith, length-store r.papi_stop.1 s.papi_events)

-- An event set for `m` rounds that remembers the rounds `xs`.
pub record Remembers (m : ℕ) (xs : List Round) (c : Config) (cells : List Snapshot) : Type 0 where
  pub ready : IsReady c cells
  pub size : c.data_size ≡ twice m
  pub count : length xs ≤ m
  pub index : c.data_index ≡ twice (length xs)
  pub stored : Stored c.used_backends xs cells
  pub wide : All IsWide cells
