-- ===== src/Measurement/Benchmark/Table.antt =====
-- The rounds of a benchmark on the table of event sets (src/c/measurement.c) are those on its
-- configuration.
use java_ubench_agent.Prelude.{
  ℕ, ℤ, Bool, Option, none, some, ◌≡◌, refl, ◌∙◌, ap, List, [], ◌∷◌, arith,
}
use java_ubench_agent.Measurement.State.{
  Config, Eventset, World, Outcome, returned, find_valid, put_config,
}
use java_ubench_agent.Measurement.Recording.{start_one, stop_one, for_ids, start, stop}
use java_ubench_agent.Measurement.Loops.{put_config_self}
use java_ubench_agent.Measurement.Session.{Round, and_then, measure_round, measure_rounds}
use java_ubench_agent.Measurement.Benchmark.{then_call, run_round, run_rounds}

-- A call on one valid event set.
pub for_ids-one :
    (class_found : Bool) (body : ℕ → Config → Option Config) (id : ℤ) (w : World) {e : Eventset}
    {c : Config}
    → find_valid w id ≡ some e
    → body 0 e.config ≡ some c
    → for_ids class_found body 0 (id ∷ []) w ≡ returned tt (put_config w id e c)
unfolding for_ids
for_ids-one class_found body id w {e} {c} there works = ground (arith, there, works)

and_then-inv :
    (o : Option Config) (f : Config → Option Config) {c : Config}
    → and_then o f ≡ some c
    → (d : Config) × (o ≡ some d) × (f d ≡ some c)
and_then-inv none f h = absurd (ground (arith, h))
and_then-inv (some d) f h = (d, refl, h)

-- Rounds that the configuration allows run on the table too, and the configuration is put back.
module _ (class_found : Bool) (id : ℤ) where
  abbrev pub Ends : World → Eventset → Config → Outcome (Unit {0}) → Type 0
  Ends w e c o =
      (w' : World) × (o ≡ returned tt w') × (find_valid w' id ≡ some (record e { config = c }))

  run_round-Ends :
      (x : Round) (w : World) (e : Eventset) (c : Config)
      → find_valid w id ≡ some e
      → measure_round x e.config ≡ some c
      → Ends w e c (run_round class_found id x w)
  unfolding start stop
  run_round-Ends x w e c there works =
      let (d, starts, stops) = and_then-inv (start_one x.0 e.config) (stop_one x.1) works in
      let w1 = put_config w id e d in
      let e1 : Eventset = record e { config = d } in
      let there1 = put_config_self w id d there in
      let first = for_ids-one class_found (λ k. start_one x.0) id w there starts in
      let second = for_ids-one class_found (λ k. stop_one x.1) id w1 there1 stops in
      (
        put_config w1 id e1 c,
        ap (λ o. then_call o (stop class_found (λ k. x.1) (id ∷ []))) first ∙ second,
        put_config_self w1 id c there1,
      )

  pub run_rounds-Ends :
      (xs : List Round) (w : World) (e : Eventset) (c : Config)
      → find_valid w id ≡ some e
      → measure_rounds xs e.config ≡ some c
      → Ends w e c (run_rounds class_found id xs w)
  run_rounds-Ends [] w e c there works =
      (w, refl, there ∙ ap (λ d. some (record e { config = d })) (some_eq works))
    where
      some_eq : {a b : Config} → ◌≡◌ {A = Option Config} (some a) (some b) → a ≡ b
      some_eq h = ground (arith, h)
  run_rounds-Ends (x ∷ xs) w e c there works =
      let (d, one, more) = and_then-inv (measure_round x e.config) (measure_rounds xs) works in
      let (w1, e1, there1) = run_round-Ends x w e d there one in
      let (w2, e2, there2) = run_rounds-Ends xs w1 (record e { config = d }) c there1 more in
      (w2, ap (λ o. then_call o (run_rounds class_found id xs)) e1 ∙ e2, there2)
