-- ===== src/Measurement/Create/Outcomes.antt =====
-- What Measurement.createEventSet does to the table of event sets, on every path
-- (src/c/measurement.c).
use java_ubench_agent.Prelude.{
  ℕ, zero, suc, ◌*◌, ◌^◌, lt→ltb, ◌<◌, ℤ, pos, minus_one, true, false, Option, none, some, ◌≡◌, ◌≢◌,
  refl, sym, ◌∙◌, ap, ◌⊎◌, inl, inr, List, [], ◌∷◌, if◌then◌else◌, get_elem?, set, length,
  get_elem?-set_self, get_elem?-set_ne, get_elem?-append_last, length-append, lt_of_get_elem?,
  arith, subst, Bool-cases, Option-cases,
}
use java_ubench_agent.Strutil.{Text, bytes}
use java_ubench_agent.Measurement.State.{
  Config, Eventset, World, Outcome, returned, exited, fault, do_throw, if_valid, find_valid,
}
use java_ubench_agent.Measurement.Create.{
  build, find_free, finish, build_at, with_entry, positive, create_sized, create_doubled,
  create_event_set, double, grow,
}
use java_ubench_agent.Measurement.Stages.{Env, Stage, going, failed, broken, out_of_memory}
use java_ubench_agent.Measurement.Create.Building.{Safe, Refused, Building}
use java_ubench_agent.Measurement.Create.Adding.{build-Safe}
use java_ubench_agent.Measurement.Create.Entries.{
  valid_at, with_validity, find_free-at, valid_at-set_invalid, valid_at-append_invalid,
}

-- Success: the identifier is that of an entry which no valid event set had; it is valid now, and
-- built for the names and the size; no other event set changes, and no exception is thrown.
pub record Success (env : Env) (size : ℕ) (names : List Text) (w : World) (id : ℤ) (w' : World)
    : Type 0 where
  pub index : ℕ
  pub is_id : id ≡ pos index
  pub fresh : find_valid w (pos index) ≡ none
  pub config : Config
  pub valid : find_valid w' (pos index) ≡ some (with_validity config true)
  pub built : Building env.dup_ok names (length names) size config
  pub others : (k : ℕ) → k ≢ index → find_valid w' (pos k) ≡ find_valid w (pos k)
  pub quiet : w'.pending ≡ w.pending

-- Failure: -1 and an exception, and every valid event set is as before.
pub record Failure (w : World) (id : ℤ) (w' : World) : Type 0 where
  pub is_id : id ≡ minus_one
  pub thrown : (message : Text) × (w'.pending ≡ some message)
  pub others : (k : ℕ) → find_valid w' (pos k) ≡ find_valid w (pos k)

-- The outcomes of a creation: the process ends only without the exception's class, and the behaviour
-- is undefined only where the JVM refuses characters or elements.
abbrev pub Creates : Env → ℕ → List Text → World → Outcome ℤ → Type 0
Creates env size names w (returned id w') = Success env size names w id w' ⊎ Failure w id w'
Creates env size names w exited = env.class_found ≡ false
Creates env size names w fault = Refused env (length names)

find_valid-at : (w : World) (k : ℕ) → find_valid w (pos k) ≡ valid_at w.all_eventsets k
unfolding find_valid
find_valid-at w k = refl

-- The outcomes of a call that throws.
abbrev Throws : Env → World → Outcome ℤ → Type 0
Throws env w (returned id w') = Failure w id w'
Throws env w exited = env.class_found ≡ false
Throws env w fault = ⊥

do_throw-Throws :
    (env : Env) (w w' : World) (message : Text)
    → ((k : ℕ) → find_valid w' (pos k) ≡ find_valid w (pos k))
    → Throws env w (do_throw env.class_found message minus_one w')
unfolding do_throw find_valid
do_throw-Throws env w w' message same = elim (Bool-cases env.class_found) [
  | inl class_there ↦
      rw class_there (record { is_id = refl; thrown = (message, refl); others = same })
  | inr no_class ↦ rw no_class refl
]

Throws-Creates :
    (env : Env) (size : ℕ) (names : List Text) (w : World) (o : Outcome ℤ)
    → Throws env w o
    → Creates env size names w o
Throws-Creates env size names w (returned id w') h = inr h
Throws-Creates env size names w exited h = h
Throws-Creates env size names w fault h = absurd h

throw-Creates :
    (env : Env) (size : ℕ) (names : List Text) (w w' : World) (message : Text)
    → ((k : ℕ) → find_valid w' (pos k) ≡ find_valid w (pos k))
    → Creates env size names w (do_throw env.class_found message minus_one w')
throw-Creates env size names w w' message same =
    Throws-Creates env size names w _ (do_throw-Throws env w w' message same)

finish-Creates :
    (env : Env) (size : ℕ) (names : List Text) (w w' : World) (i : ℕ) (s : Stage)
    → i < length w'.all_eventsets
    → valid_at w'.all_eventsets i ≡ none
    → ((k : ℕ) → find_valid w' (pos k) ≡ find_valid w (pos k))
    → w'.pending ≡ w.pending
    → Safe (Refused env (length names)) (Building env.dup_ok names (length names) size) s
    → Creates env size names w (finish env i w' s)
finish-Creates env size names w w' i broken lt free same quiet safe = safe
finish-Creates env size names w w' i (failed message c) lt free same quiet safe =
    throw-Creates env size names w after message (λ k.
      find_valid-at after k
      ∙ valid_at-set_invalid w'.all_eventsets i k c free
      ∙ sym (find_valid-at w' k)
      ∙ same k)
  where
    after : World
    after = record w' { all_eventsets = set w'.all_eventsets i (with_validity c false) }
finish-Creates env size names w w' i (going c) lt free same quiet safe = inl (record {
  index = i;
  is_id = refl;
  fresh = sym (same i) ∙ (find_valid-at w' i ∙ free);
  config = c;
  valid =
      find_valid-at after i
      ∙ ap if_valid (get_elem?-set_self w'.all_eventsets i (with_validity c true) lt);
  built = safe;
  others = λ k ne.
      find_valid-at after k
      ∙ ap if_valid (get_elem?-set_ne w'.all_eventsets i k (with_validity c true) (λ e. ne (sym e)))
      ∙ sym (find_valid-at w' k)
      ∙ same k;
  quiet = quiet;
})
  where
    after : World
    after = record w' { all_eventsets = set w'.all_eventsets i (with_validity c true) }

valid_at_free :
    (es : List Eventset) (i : ℕ) {e : Eventset}
    → get_elem? es i ≡ some e
    → e.valid ≡ false
    → valid_at es i ≡ none
valid_at_free es i {e} at free = ap if_valid at ∙ rw free refl

with_entry-Creates :
    (env : Env) (size : ℕ) (names : List Text) (options : List ℤ) (w : World)
    → Creates env size names w (with_entry env size names options w (find_free 0 w.all_eventsets))
with_entry-Creates env size names options w = elim (Option-cases (find_free 0 w.all_eventsets)) [
  | inr (i, found) ↦
      let (j, at_j, (e, at, free)) = find_free-at 0 w.all_eventsets found in
      let here : get_elem? w.all_eventsets i ≡ some e =
        ap (get_elem? w.all_eventsets) (omega (arith, at_j)) ∙ at in
      subst (λ o. Creates env size names w (with_entry env size names options w o)) (sym found)
        (subst (λ o. Creates env size names w (build_at env size names options i w o)) (sym here)
          (finish-Creates env size names w w i (build env size names options e.config)
            (lt_of_get_elem? w.all_eventsets i here) (valid_at_free w.all_eventsets i here free)
            (λ k. refl) refl (build-Safe env size names options e.config)))
  | inl none_free ↦
      subst (λ o. Creates env size names w (with_entry env size names options w o)) (sym none_free)
        (elim (Bool-cases env.realloc_ok)
          as (λ _. Creates env size names w (with_entry env size names options w none)) [
            | inr no_memory ↦
                subst
                  (λ b. Creates env size names w (
                    if b
                    then finish env (length w.all_eventsets) (grow env w)
                        (build env size names options env.new_config)
                    else do_throw env.class_found (out_of_memory (bytes "allocating an event set"))
                        minus_one w))
                  (sym no_memory) (throw-Creates env size names w w _ (λ k. refl))
            | inl grown ↦
                subst
                  (λ b. Creates env size names w (
                    if b
                    then finish env (length w.all_eventsets) (grow env w)
                        (build env size names options env.new_config)
                    else do_throw env.class_found (out_of_memory (bytes "allocating an event set"))
                        minus_one w))
                  (sym grown)
                  (finish-Creates env size names w (grow env w) (length w.all_eventsets)
                    (build env size names options env.new_config) last_lt last_free
                    (λ k.
                      find_valid-at (grow env w) k
                      ∙ valid_at-append_invalid w.all_eventsets k env.new_config
                      ∙ sym (find_valid-at w k))
                    refl (build-Safe env size names options env.new_config))
          ])
]
  where
    last_lt : length w.all_eventsets < length (grow env w).all_eventsets
    last_lt = omega (arith, length-append w.all_eventsets (with_validity env.new_config false ∷ []))

    last_free : valid_at (grow env w).all_eventsets (length w.all_eventsets) ≡ none
    last_free =
        ap if_valid (get_elem?-append_last w.all_eventsets (with_validity env.new_config false))

-- The size of an event set that asks for a number of measurements: twice the number, if that is a
-- jint and positive.
abbrev pub size_of : Option ℤ → Option ℕ
size_of none = none
size_of (some count) = positive count

abbrev pub asked_size : ℤ → Option ℕ
asked_size j = size_of (double j)

pub positive-pos : (m : ℕ) → 0 < m → positive (pos m) ≡ some m
positive-pos zero lt = absurd (omega (arith, lt))
positive-pos (suc m) lt = refl

-- Twice a number that is positive and below 2 ^ 30.
pub asked_size-double : (n : ℕ) → 0 < n → n < 2 ^ 30 → asked_size (pos n) ≡ some (n * 2)
unfolding double
asked_size-double n pos_n lt =
    let doubled : double (pos n) ≡ some (pos (n * 2)) = ground (arith, lt→ltb n (2 ^ 30) lt) in
    ap size_of doubled ∙ positive-pos (n * 2) (omega (arith, pos_n))

-- The outcomes of Measurement.createEventSet.
abbrev pub CreatesFor : Env → ℤ → List Text → World → Outcome ℤ → Type 0
CreatesFor env j names w (returned id w') =
    ((size : ℕ) × (asked_size j ≡ some size) × (names ≢ []) × Success env size names w id w')
    ⊎ Failure w id w'
CreatesFor env j names w exited = env.class_found ≡ false
CreatesFor env j names w fault = (double j ≡ none) ⊎ Refused env (length names)

Throws-CreatesFor :
    (env : Env) (j : ℤ) (names : List Text) (w : World) (o : Outcome ℤ)
    → Throws env w o
    → CreatesFor env j names w o
Throws-CreatesFor env j names w (returned id w') h = inr h
Throws-CreatesFor env j names w exited h = h
Throws-CreatesFor env j names w fault h = absurd h

Creates-CreatesFor :
    (env : Env) (j : ℤ) (size : ℕ) (names : List Text) (w : World) (o : Outcome ℤ)
    → asked_size j ≡ some size
    → names ≢ []
    → Creates env size names w o
    → CreatesFor env j names w o
Creates-CreatesFor env j size names w (returned id w') asked named (inl success) =
    inl (size, asked, named, success)
Creates-CreatesFor env j size names w (returned id w') asked named (inr failure) = inr failure
Creates-CreatesFor env j size names w exited asked named h = h
Creates-CreatesFor env j size names w fault asked named h = inr h

sized-CreatesFor :
    (env : Env) (j : ℤ) (names : List Text) (options : List ℤ) (w : World) (o : Option ℕ)
    → asked_size j ≡ o
    → CreatesFor env j names w (create_sized env names options w o)
sized-CreatesFor env j names options w none asked =
    Throws-CreatesFor env j names w _ (do_throw-Throws env w w _ (λ k. refl))
sized-CreatesFor env j [] options w (some size) asked =
    Throws-CreatesFor env j [] w _ (do_throw-Throws env w w _ (λ k. refl))
sized-CreatesFor env j (name ∷ names) options w (some size) asked =
    Creates-CreatesFor env j size (name ∷ names) w _ asked (λ e. cc)
      (with_entry-Creates env size (name ∷ names) options w)

doubled-CreatesFor :
    (env : Env) (j : ℤ) (names : List Text) (options : List ℤ) (w : World) (o : Option ℤ)
    → double j ≡ o
    → CreatesFor env j names w (create_doubled env names options w o)
doubled-CreatesFor env j names options w none overflow = inl overflow
doubled-CreatesFor env j names options w (some count) doubled =
    sized-CreatesFor env j names options w (positive count) (ap size_of doubled)

-- Measurement.createEventSet either succeeds, with a new identifier, the event set built for the
-- names and for the snapshots that were asked for, and all other event sets and the pending
-- exception as before; or it fails with -1 and an exception, and every valid event set is as before;
-- or it ends the process, and then the class of the exception is missing. Its behaviour is undefined
-- only where twice the number of measurements is no jint, where a name is null or the JVM gives no
-- characters for it, or where that holds of the options. It succeeds only if there is a name and if
-- twice the number of measurements is positive.
pub create-CreatesFor :
    (env : Env) (jmeasurements : ℤ) (names : List Text) (options : List ℤ) (w : World)
    → CreatesFor env jmeasurements names w (create_event_set env jmeasurements names options w)
unfolding create_event_set
create-CreatesFor env jmeasurements names options w =
    doubled-CreatesFor env jmeasurements names options w (double jmeasurements) refl
