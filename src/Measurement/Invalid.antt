-- ===== src/Measurement/Invalid.antt =====
-- start, stop, sample and reset where a list of identifiers holds one of no valid event set
-- (src/c/measurement.c).
use java_ubench_agent.Prelude.{
  ℕ, suc, ℤ, int_eq, int_eq_iff, Bool, Option, none, some, ◌≡◌, sym, ◌∙◌, ap, inl, inr, List, [],
  ◌∷◌, ◌++◌, All, arith, subst, Bool-cases, Option-cases,
}
use java_ubench_agent.Measure.{Readings}
use java_ubench_agent.Measurement.State.{
  Config, Eventset, World, Outcome, fault, do_throw, find_valid, put_config, invalid_id,
}
use java_ubench_agent.Measurement.Recording.{
  for_ids, start_one, stop_one, sample_one, reset_one, start, stop, sample, reset,
}
use java_ubench_agent.Measurement.Benchmark.{then_call}
use java_ubench_agent.Measurement.Loops.{put_config_self, put_config_ne, for_ids_next}

-- An identifier of a valid event set.
abbrev pub IsValidIn : World → ℤ → Type 0
IsValidIn w id = (e : Eventset) × (find_valid w id ≡ some e)

put_config-IsValidIn :
    (w : World) (id j : ℤ) (c : Config) {e : Eventset}
    → find_valid w id ≡ some e
    → IsValidIn w j
    → IsValidIn (put_config w id e c) j
put_config-IsValidIn w id j c {e} there (e', at) = elim (Bool-cases (int_eq j id)) [
  | inl same ↦
      subst (IsValidIn (put_config w id e c)) (sym ((int_eq_iff j id).0 same))
        (record e { config = c }, put_config_self w id c there)
  | inr other ↦
      (e', put_config_ne w id j c there (λ same. ground (arith, int_eq_iff j id, same)) ∙ at)
]

put_config_absent :
    (w : World) (id j : ℤ) (c : Config) {e : Eventset}
    → find_valid w id ≡ some e
    → find_valid w j ≡ none
    → find_valid (put_config w id e c) j ≡ none
put_config_absent w id j c there absent =
    put_config_ne w id j c there (λ same. ground (arith, there, absent, ap (find_valid w) same))
    ∙ absent

All-put_config :
    (w : World) (id : ℤ) (c : Config) (ids : List ℤ) {e : Eventset}
    → find_valid w id ≡ some e
    → All (IsValidIn w) ids
    → All (IsValidIn (put_config w id e c)) ids
All-put_config w id c [] there h = tt
All-put_config w id c (j ∷ ids) there h =
    (put_config-IsValidIn w id j c there h.0, All-put_config w id c ids there h.1)

for_ids_fault :
    (class_found : Bool) (body : ℕ → Config → Option Config) (k : ℕ) (id : ℤ) (ids : List ℤ)
    (w : World) {e : Eventset}
    → find_valid w id ≡ some e
    → body k e.config ≡ none
    → for_ids class_found body k (id ∷ ids) w ≡ fault
unfolding for_ids
for_ids_fault class_found body k id ids w there bad_write = ground (arith, there, bad_write)

for_ids-invalid :
    (class_found : Bool) (body : ℕ → Config → Option Config) (k : ℕ) (before : List ℤ) (bad : ℤ)
    (behind : List ℤ) (w : World)
    → All (IsValidIn w) before
    → find_valid w bad ≡ none
    → for_ids class_found body k (before ++ bad ∷ behind) w
      ≡ then_call (for_ids class_found body k before w) (do_throw class_found invalid_id tt)
unfolding for_ids
for_ids-invalid class_found body k [] bad behind w valid absent = ground (arith, absent)
for_ids-invalid class_found body k (id ∷ before) bad behind w ((e, there), valid) absent =
    elim (Option-cases (body k e.config)) [
      | inl bad_write ↦
          for_ids_fault class_found body k id (before ++ bad ∷ behind) w there bad_write
          ∙ sym (
              ap (λ o. then_call o throw)
                (for_ids_fault class_found body k id before w there bad_write))
      | inr (c, does) ↦
          for_ids_next class_found body k id (before ++ bad ∷ behind) w there does
          ∙ for_ids-invalid class_found body (suc k) before bad behind (put_config w id e c)
              (All-put_config w id c before there valid) (put_config_absent w id bad c there absent)
          ∙ sym
              (ap (λ o. then_call o throw) (for_ids_next class_found body k id before w there does))
    ]
  where
    throw : World → Outcome (Unit {0})
    throw = do_throw class_found invalid_id tt

-- Where the identifiers before one of no valid event set are all valid, start, stop, sample and
-- reset do what they do for the identifiers before it and then throw; those behind it are not
-- looked at.
pub invalid-throws :
    (class_found : Bool) (r : ℕ → Readings) (user_id : ℤ) (before : List ℤ) (bad : ℤ)
    (behind : List ℤ) (w : World)
    → All (IsValidIn w) before
    → find_valid w bad ≡ none
    → (start class_found r (before ++ bad ∷ behind) w
        ≡ then_call (start class_found r before w) (do_throw class_found invalid_id tt))
      × (stop class_found r (before ++ bad ∷ behind) w
          ≡ then_call (stop class_found r before w) (do_throw class_found invalid_id tt))
      × (sample class_found r user_id (before ++ bad ∷ behind) w
          ≡ then_call (sample class_found r user_id before w) (do_throw class_found invalid_id tt))
      × (reset class_found (before ++ bad ∷ behind) w
          ≡ then_call (reset class_found before w) (do_throw class_found invalid_id tt))
unfolding start stop sample reset
invalid-throws class_found r user_id before bad behind w valid absent = (
  for_ids-invalid class_found (λ k. start_one (r k)) 0 before bad behind w valid absent,
  for_ids-invalid class_found (λ k. stop_one (r k)) 0 before bad behind w valid absent,
  for_ids-invalid class_found (λ k. sample_one user_id (r k)) 0 before bad behind w valid absent,
  for_ids-invalid class_found (λ k. reset_one) 0 before bad behind w valid absent,
)
