-- ===== src/Measurement/Loops.antt =====
-- The loop over the identifiers of several event sets that start, stop, sample and reset share
-- (src/c/measurement.c).
use mathlib.Core.List.{Mem, Nodup, Nodup-cons, mem-cons_self, mem-cons_of_mem}
use java_ubench_agent.Prelude.{
  ℕ, zero, suc, ℤ, pos, negsuc, Bool, Option, some, ◌≡◌, ◌≢◌, refl, sym, ◌∙◌, ap, List, [], ◌∷◌,
  get_elem?, get_elem?-set_self, get_elem?-set_ne, lt_of_get_elem?, arith, subst,
}
use java_ubench_agent.Measurement.State.{
  Config, Eventset, World, returned, if_valid, find_valid, put_config,
}
use java_ubench_agent.Measurement.Recording.{for_ids}
use java_ubench_agent.Measurement.Destroy.{entry_of}

pub put_config_self :
    (w : World) (id : ℤ) (c : Config) {e : Eventset}
    → find_valid w id ≡ some e
    → find_valid (put_config w id e c) id ≡ some (record e { config = c })
unfolding find_valid put_config
put_config_self w (negsuc n) c there = absurd (ground (arith, there))
put_config_self w (pos n) c {e} there =
    let at = entry_of w n there in
    let e' : Eventset = record e { config = c } in
    ap if_valid (get_elem?-set_self w.all_eventsets n e' (lt_of_get_elem? w.all_eventsets n at))
    ∙ ground (arith, there, at)

pub put_config_ne :
    (w : World) (id j : ℤ) (c : Config) {e : Eventset}
    → find_valid w id ≡ some e
    → j ≢ id
    → find_valid (put_config w id e c) j ≡ find_valid w j
unfolding find_valid put_config
put_config_ne w (negsuc n) j c there ne = absurd (ground (arith, there))
put_config_ne w (pos n) (negsuc k) c there ne = refl
put_config_ne w (pos n) (pos k) c {e} there ne = ap if_valid (
    get_elem?-set_ne w.all_eventsets n k (record e { config = c }) (λ same. ne (ap pos (sym same))))

pub for_ids_next :
    (class_found : Bool) (body : ℕ → Config → Option Config) (k : ℕ) (id : ℤ) (ids : List ℤ)
    (w : World) {e : Eventset} {c : Config}
    → find_valid w id ≡ some e
    → body k e.config ≡ some c
    → for_ids class_found body k (id ∷ ids) w
      ≡ for_ids class_found body (suc k) ids (put_config w id e c)
unfolding for_ids
for_ids_next class_found body k id ids w there does = ground (arith, there, does)

-- Every identifier of the list is that of a valid event set on which the body of its round writes in
-- bounds; the configurations are those that the bodies leave.
pub data Ready (w : World) (body : ℕ → Config → Option Config)
    : ℕ → List ℤ → List Config → Type 0 where
  finished : (k : ℕ) → Ready w body k [] []
  next :
      {k : ℕ} {id : ℤ} {ids : List ℤ} {e : Eventset} {c : Config} {cs : List Config}
      → find_valid w id ≡ some e
      → body k e.config ≡ some c
      → Ready w body (suc k) ids cs
      → Ready w body k (id ∷ ids) (c ∷ cs)

-- The event sets of the list have the configurations, valid as before, and no other has changed.
pub record Each (w : World) (ids : List ℤ) (cs : List Config) (w' : World) : Type 0 where
  pub changed :
      (i : ℕ) (id : ℤ) (c : Config)
      → get_elem? ids i ≡ some id
      → get_elem? cs i ≡ some c
      → (e : Eventset) × (find_valid w id ≡ some e)
        × (find_valid w' id ≡ some (record e { config = c }))
  pub others : (j : ℤ) → ¬ Mem j ids → find_valid w' j ≡ find_valid w j
  pub quiet : w'.pending ≡ w.pending

-- What is ready stays so when an event set outside the list changes.
Ready-put_config :
    (w : World) (body : ℕ → Config → Option Config) (id : ℤ) (c : Config) {e : Eventset} {k : ℕ}
    {ids : List ℤ} {cs : List Config}
    → find_valid w id ≡ some e
    → ¬ Mem id ids
    → Ready w body k ids cs
    → Ready (put_config w id e c) body k ids cs
Ready-put_config w body id c there absent (finished k) = finished k
Ready-put_config w body id c there absent (next {id = j} {ids = ids} here does rest) =
    next
      (put_config_ne w id j c there
          (λ same. absent (subst (λ x. Mem x (j ∷ ids)) same mem-cons_self))
        ∙ here)
      does (Ready-put_config w body id c there (λ m. absent (mem-cons_of_mem j m)) rest)

mem_of_get_elem? : (ids : List ℤ) (i : ℕ) {id : ℤ} → get_elem? ids i ≡ some id → Mem id ids
mem_of_get_elem? [] i at = absurd (ground (arith, at))
mem_of_get_elem? (x ∷ ids) zero {id} at =
    let same : x ≡ id = ground (arith, at) in subst (λ y. Mem y (x ∷ ids)) same mem-cons_self
mem_of_get_elem? (x ∷ ids) (suc i) at = mem-cons_of_mem x (mem_of_get_elem? ids i at)

Each-next :
    (w w' : World) (id : ℤ) (ids : List ℤ) (c : Config) (cs : List Config) {e : Eventset}
    → find_valid w id ≡ some e
    → ¬ Mem id ids
    → Each (put_config w id e c) ids cs w'
    → Each w (id ∷ ids) (c ∷ cs) w'
unfolding put_config
Each-next w w' id ids c cs {e} there absent h = record {
  changed = changed;
  others = λ j outside.
      h.others j (λ m. outside (mem-cons_of_mem id m))
      ∙ put_config_ne w id j c there
          (λ same. outside (subst (λ x. Mem x (id ∷ ids)) (sym same) mem-cons_self));
  quiet = h.quiet;
}
  where
    changed :
        (i : ℕ) (j : ℤ) (c' : Config)
        → get_elem? (id ∷ ids) i ≡ some j
        → get_elem? (c ∷ cs) i ≡ some c'
        → (e' : Eventset) × (find_valid w j ≡ some e')
          × (find_valid w' j ≡ some (record e' { config = c' }))
    changed zero j c' at at' =
        let here : id ≡ j = ground (arith, at) in
        let config : c ≡ c' = ground (arith, at') in
        subst
          (λ x.
            (e' : Eventset) × (find_valid w x ≡ some e')
            × (find_valid w' x ≡ some (record e' { config = c' })))
          here
          (
            e,
            there,
            h.others id absent
                ∙ put_config_self w id c there
                ∙ ap (λ x. some (record e { config = x })) config,
          )
    changed (suc i) j c' at at' =
        let (e', before, after) = h.changed i j c' at at' in
        let ne : j ≢ id =
          λ same. absent (subst (λ x. Mem x ids) same (mem_of_get_elem? ids i at)) in
        (e', sym (put_config_ne w id j c there ne) ∙ before, after)

-- On distinct identifiers of valid event sets, on each of which the body of its round writes in
-- bounds, the loop of start, stop, sample and reset returns; each of these event sets has the
-- configuration that its own body left, every other event set is as before, and nothing is thrown.
pub for_ids-Each :
    (class_found : Bool) (body : ℕ → Config → Option Config) (k : ℕ) (ids : List ℤ) (w : World)
    {cs : List Config}
    → Nodup ids
    → Ready w body k ids cs
    → (w' : World) × (for_ids class_found body k ids w ≡ returned tt w') × Each w ids cs w'
unfolding for_ids
for_ids-Each class_found body k [] w distinct (finished k') = (
  w,
  refl,
  record {
    changed = λ i j c at. absurd (ground (arith, at));
    others = λ j outside. refl;
    quiet = refl;
  },
)
for_ids-Each class_found body k (id ∷ ids) w distinct
      (next {e = e} {c = c} {cs = cs} there does rest) =
    let absent = (Nodup-cons.0 distinct).0 in
    let (w', ran, each) =
      for_ids-Each class_found body (suc k) ids (put_config w id e c) (Nodup-cons.0 distinct).1
        (Ready-put_config w body id c there absent rest) in
    (
      w',
      for_ids_next class_found body k id ids w there does ∙ ran,
      Each-next w w' id ids c cs there absent each,
    )
