-- ===== src/Measurement/Defined.antt =====
-- The native methods of Measurement on the worlds that they reach (src/c/measurement.c): which of
-- them stay inside the blocks of memory.
use java_ubench_agent.Prelude.{
  zero, ◌≤◌, ◌+◌, ◌++◌, length, length-append, subst, All, All-imp, take, ℕ, suc, ℤ, pos, negsuc,
  Bool, true, false, Option, none, some, ◌≡◌, ◌≢◌, refl, sym, ◌∙◌, inl, inr, List, [], ◌∷◌, ◌++◌,
  take, arith, Option-cases,
}
use mathlib.Core.Path.{ap₂}
use java_ubench_agent.Strutil.{Text, bytes}
use java_ubench_agent.Events.Types.{EventInfo}
use java_ubench_agent.Measure.{Readings}
use java_ubench_agent.Measurement.State.{
  Config, Eventset, World, fault, do_throw, find_valid, put_config, invalid_id,
}
use java_ubench_agent.Measurement.Recording.{
  start_one, sample_one, reset_one, for_ids, start, sample, reset,
}
use java_ubench_agent.Measurement.Create.{destroy_event_set}
use java_ubench_agent.Measurement.Destroy.{destroy-Destroyed}
use java_ubench_agent.Measurement.Results.{
  names_of, results_of, raw_results_of, get_results, get_raw_results, result_rows, raw_rows,
  Objects, make_results,
}
use java_ubench_agent.Measurement.Rows.{HasWidth, raw_rows-HasWidth, result_rows-HasWidth}
use java_ubench_agent.Measurement.Arrays.{make_results-defined}
use java_ubench_agent.Measurement.Bounds.{start_one-Records, sample_one-Records}
use java_ubench_agent.Measurement.Sound.{
  IsSound, IsSound-HasBlocks, Keeps, start_one-Keeps, sample_one-Keeps, reset_one-Keeps,
}
use java_ubench_agent.Measurement.Blocks.{IsWhole, put_config-IsWhole}
use java_ubench_agent.Measurement.Readable.{Has, raw_rows-Has, result_rows-Has}
use java_ubench_agent.Measurement.Lifecycle.{Reachable, Reachable-IsWhole}

pub throw-defined :
    {A : Type 0} (class_found : Bool) (message : Text) (result : A) (w : World)
    → do_throw class_found message result w ≢ fault
unfolding do_throw
throw-defined true message result w h = ground (arith, h)
throw-defined false message result w h = ground (arith, h)

pub valid-IsSound :
    (w : World) (id : ℤ) {e : Eventset} → IsWhole w → find_valid w id ≡ some e → IsSound e.config
valid-IsSound w (pos n) whole there = whole n _ there
valid-IsSound w (negsuc n) whole there = absurd (unfold find_valid in ground (arith, there))

-- The body writes in bounds on every sound event set.
abbrev Writes : (Config → Option Config) → Type 0
Writes body = (c : Config) → IsSound c → Has (body c)

for_ids-defined :
    (class_found : Bool) (body : ℕ → Config → Option Config) (k : ℕ) (ids : List ℤ) (w : World)
    → ((i : ℕ) → Writes (body i))
    → ((i : ℕ) → Keeps (body i))
    → IsWhole w
    → for_ids class_found body k ids w ≢ fault
unfolding for_ids
for_ids-defined class_found body k [] w writes keeps whole h = ground (arith, h)
for_ids-defined class_found body k (id ∷ ids) w writes keeps whole h =
    elim (Option-cases (find_valid w id)) [
      | inl absent ↦ throw-defined class_found invalid_id tt w (rw (absent, for_ids) at h)
      | inr (e, there) ↦
          let sound = valid-IsSound w id whole there in
          let (c, does) = writes k e.config sound in
          for_ids-defined class_found body (suc k) ids (put_config w id e c) writes keeps
            (put_config-IsWhole w id e c there (keeps k e.config c sound does) whole)
            (rw (there, does, for_ids) at h)
    ]

length-take-le : (n : ℕ) (events : List EventInfo) → length (names_of (take n events)) ≤ n
length-take-le zero events = omega arith
length-take-le (suc n) [] = omega arith
length-take-le (suc n) (event ∷ events) = omega (arith, length-take-le n events)

-- The names and the rows are there and fit into arrays of the size.
abbrev pub IsFitting : ℕ → List (Option Text) → Option (List (List ℕ)) → Type 0
IsFitting size names rows =
    (rs : List (List ℕ)) × (rows ≡ some rs) × (length names ≤ size) × All (λ r. length r ≤ size) rs

fitting :
    (size width : ℕ) (names : List (Option Text)) (rows : Option (List (List ℕ)))
    → Has rows
    → HasWidth width rows
    → length names ≤ size
    → width ≤ size
    → IsFitting size names rows
fitting size width names rows (rs, is) wide columns le = (
  rs,
  is,
  columns,
  All-imp rs (λ r same. omega (arith, same, le)) (subst (HasWidth width) is wide),
)

module _ (c : Config) (s : IsSound c) where
  abbrev used : List EventInfo
  used = take c.used_events_count s.infos

  pub result_rows-IsFitting :
      IsFitting c.used_events_count
        (names_of used)
        (result_rows s.cells used (suc c.data_index) 0 c.data_index)
  result_rows-IsFitting =
      fitting _ _ _ _
        (result_rows-Has s.cells used s.wide s.readable (suc c.data_index) 0 c.data_index
          (omega (arith, s.ready.index, s.ready.sized)) (omega arith) (omega arith))
        (result_rows-HasWidth s.cells used (suc c.data_index) 0 c.data_index)
        (length-take-le c.used_events_count s.infos) (length-take-le c.used_events_count s.infos)

  pub raw_rows-IsFitting :
      IsFitting
        (c.used_events_count + 1)
        (names_of used ++ some (bytes "TYPE") ∷ [])
        (raw_rows s.cells used c.data_index 0)
  raw_rows-IsFitting =
      fitting _ _ _ _
        (raw_rows-Has s.cells used s.wide s.readable c.data_index 0
          (omega (arith, s.ready.index, s.ready.sized)))
        (raw_rows-HasWidth s.cells used c.data_index 0)
        (omega (
          arith,
          length-append (names_of used) (some (bytes "TYPE") ∷ []),
          length-take-le c.used_events_count s.infos,
        ))
        (omega (arith, length-take-le c.used_events_count s.infos))

-- The JVM makes the array of the names, and a string for each name that it is handed.
pub record GivesNames (objects : Objects) : Type 0 where
  pub names : objects.names_made ≡ true
  pub strings : (name : Option Text) → objects.string_made name ≡ true

fitting-defined :
    (objects : Objects) (w : World) (size : ℕ) (names : List (Option Text))
    (rows : Option (List (List ℕ)))
    → GivesNames objects
    → IsFitting size names rows
    → make_results objects w size names rows ≢ fault
fitting-defined objects w size names rows g (rs, is, columns_fit, rows_fit) =
    subst (λ o. make_results objects w size names o ≢ fault) (sym is)
      (make_results-defined w size names rs columns_fit rows_fit objects g.names g.strings)

get_results-defined :
    (class_found : Bool) (objects : Objects) (id : ℤ) (w : World)
    → GivesNames objects
    → IsWhole w
    → get_results class_found objects id w ≢ fault
unfolding get_results
get_results-defined class_found objects id w g whole h = elim (Option-cases (find_valid w id)) [
  | inl absent ↦ throw-defined class_found invalid_id none w (rw (absent, get_results) at h)
  | inr (e, there) ↦
      let s = valid-IsSound w id whole there in
      fitting-defined objects w _ _ _ g (result_rows-IsFitting e.config s) (
        sym (ap₂ (results_of objects w e.config) s.events s.ready.allocated)
        ∙ (rw (there, get_results) at h))
]

get_raw_results-defined :
    (class_found : Bool) (objects : Objects) (id : ℤ) (w : World)
    → GivesNames objects
    → IsWhole w
    → get_raw_results class_found objects id w ≢ fault
unfolding get_raw_results
get_raw_results-defined class_found objects id w g whole h = elim (Option-cases (find_valid w id)) [
  | inl absent ↦ throw-defined class_found invalid_id none w (rw (absent, get_raw_results) at h)
  | inr (e, there) ↦
      let s = valid-IsSound w id whole there in
      fitting-defined objects w _ _ _ g (raw_rows-IsFitting e.config s) (
        sym (ap₂ (raw_results_of objects w e.config) s.events s.ready.allocated)
        ∙ (rw (there, get_raw_results) at h))
]

destroy-defined :
    (class_found : Bool) (id : ℤ) (w : World)
    → IsWhole w
    → destroy_event_set class_found id w ≢ fault
unfolding destroy_event_set
destroy-defined class_found id w whole h = elim (Option-cases (find_valid w id)) [
  | inl absent ↦ throw-defined class_found invalid_id tt w (rw (absent, destroy_event_set) at h)
  | inr (e, there) ↦ frees id there h
]
  where
    frees :
        (i : ℤ) {e : Eventset}
        → find_valid w i ≡ some e
        → destroy_event_set class_found i w ≡ fault
        → ⊥
    frees (negsuc n) there bad = absurd (unfold find_valid in ground (arith, there))
    frees (pos n) {e} there bad =
        let (w2, does, d) =
          destroy-Destroyed class_found n w there (IsSound-HasBlocks (whole n e there)) in
        absurd (ground (arith, sym does ∙ bad))

start_one-Writes : (r : Readings) → Writes (start_one r)
start_one-Writes r c s = let (c', e, _) = start_one-Records r c s.cells s.ready in (c', e)

sample_one-Writes : (user_id : ℤ) (r : Readings) → Writes (sample_one user_id r)
sample_one-Writes user_id r c s =
    let (c', e, _) = sample_one-Records user_id r c s.cells s.ready in (c', e)

reset_one-Writes : Writes reset_one
unfolding reset_one
reset_one-Writes c s = (_, refl)

-- In every world that the native methods reach, start, sample and reset are defined on every list of
-- identifiers that the JVM hands over, and destroyEventSet on every identifier, valid or not; and so
-- are getResults and getRawResults where the JVM makes the array of the names and a string for each
-- name (or for the NULL of a failed copy), whatever else it fails to make. None of them reads or
-- writes outside the snapshots, the counters of a snapshot, the events or the Java arrays, calls
-- through a getter that is not there, uses memory after it is freed or frees it twice, and the loop
-- of getResults ends. Of the calls that take the identifiers of event sets these are all but stop,
-- which writes past the snapshots when they are full.
pub Reachable-defined :
    {w : World} (class_found : Bool) (objects : Objects) (r : ℕ → Readings) (user_id id : ℤ)
    (ids : List ℤ)
    → Reachable w
    → GivesNames objects
    → (start class_found r ids w ≢ fault)
      × (sample class_found r user_id ids w ≢ fault)
      × (reset class_found ids w ≢ fault)
      × (get_results class_found objects id w ≢ fault)
      × (get_raw_results class_found objects id w ≢ fault)
      × (destroy_event_set class_found id w ≢ fault)
Reachable-defined {w} class_found objects r user_id id ids reached gives =
    let whole = Reachable-IsWhole reached in
    (
      unfold start in
          for_ids-defined class_found (λ k. start_one (r k)) 0 ids w (λ k. start_one-Writes (r k))
            (λ k. start_one-Keeps (r k)) whole,
      unfold sample in
          for_ids-defined class_found (λ k. sample_one user_id (r k)) 0 ids w
            (λ k. sample_one-Writes user_id (r k)) (λ k. sample_one-Keeps user_id (r k)) whole,
      unfold reset in
          for_ids-defined class_found (λ k. reset_one) 0 ids w (λ k. reset_one-Writes)
            (λ k. reset_one-Keeps) whole,
      get_results-defined class_found objects id w gives whole,
      get_raw_results-defined class_found objects id w gives whole,
      destroy-defined class_found id w whole,
    )
