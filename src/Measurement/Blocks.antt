-- ===== src/Measurement/Blocks.antt =====
-- The native methods of Measurement (src/c/measurement.c) keep the blocks of memory of every valid
-- event set.
use java_ubench_agent.Prelude.{
  ℕ, suc, ℤ, pos, negsuc, Bool, true, false, Option, some, ◌≡◌, ◌≢◌, refl, sym, ◌∙◌, ap, inl, inr,
  List, [], ◌∷◌, get_elem?, get_elem?-set_self, get_elem?-set_ne, lt_of_get_elem?, arith, subst,
  Option-cases, ℕ_discrete,
}
use java_ubench_agent.Strutil.{Text}
use java_ubench_agent.Measurement.State.{
  Config, Eventset, World, Outcome, returned, do_throw, if_valid, find_valid, put_config,
}
use java_ubench_agent.Measurement.Recording.{for_ids}
use java_ubench_agent.Measurement.Create.{destroy_event_set}
use java_ubench_agent.Measurement.Stages.{Env}
use java_ubench_agent.Measurement.Create.Outcomes.{Success, CreatesFor, asked_size}
use java_ubench_agent.Measurement.Destroy.{Destroyed, destroy-Destroyed, entry_of}
use java_ubench_agent.Measurement.Sound.{IsSound, IsSound-HasBlocks, Building-IsSound, Keeps}

-- Every valid event set is sound.
abbrev pub IsWhole : World → Type 0
IsWhole w = (k : ℕ) (e : Eventset) → find_valid w (pos k) ≡ some e → IsSound e.config

-- The same event sets are as sound.
pub same-IsWhole :
    (w w' : World)
    → ((k : ℕ) → find_valid w' (pos k) ≡ find_valid w (pos k))
    → IsWhole w
    → IsWhole w'
same-IsWhole w w' same whole k e h = whole k e (sym (same k) ∙ h)

pub pending-IsWhole :
    (w : World) (exception : Option Text) → IsWhole w → IsWhole (record w { pending = exception })
pending-IsWhole w exception =
    same-IsWhole w (record w { pending = exception }) (λ k. unfold find_valid in refl)

-- One event set changes, and is sound.
pub one-IsWhole :
    (w w' : World) (i : ℕ) {e' : Eventset}
    → find_valid w' (pos i) ≡ some e'
    → IsSound e'.config
    → ((k : ℕ) → k ≢ i → find_valid w' (pos k) ≡ find_valid w (pos k))
    → IsWhole w
    → IsWhole w'
one-IsWhole w w' i {e'} there blocks others whole k e h = elim (ℕ_discrete k i) [
  | yes same ↦
      let is : e' ≡ e = ground (arith, there, h, ap (λ x. find_valid w' (pos x)) same) in
      subst (λ x. IsSound x.config) is blocks
  | no other ↦ whole k e (sym (others k other) ∙ h)
]

pub Success-IsWhole :
    {env : Env} (j : ℤ) {size : ℕ} {names : List Text} {w : World} {id : ℤ} {w' : World}
    → asked_size j ≡ some size
    → Success env size names w id w'
    → IsWhole w
    → IsWhole w'
Success-IsWhole j {w = w} {w' = w'} asked s =
    one-IsWhole w w' s.index s.valid (Building-IsSound j asked s.built) s.others

pub create-IsWhole :
    (env : Env) (j : ℤ) (names : List Text) (w w' : World) (id : ℤ)
    → CreatesFor env j names w (returned id w')
    → IsWhole w
    → IsWhole w'
create-IsWhole env j names w w' id (inl (size, asked, named, s)) = Success-IsWhole j asked s
create-IsWhole env j names w w' id (inr f) = same-IsWhole w w' f.others

pub throw-IsWhole :
    (class_found : Bool) (message : Text) (w : World) {w' : World}
    → ◌≡◌ {A = Outcome (Unit {0})} (do_throw class_found message tt w) (returned tt w')
    → IsWhole w
    → IsWhole w'
unfolding do_throw
throw-IsWhole true message w {w'} e whole =
    let same : ◌≡◌ {A = World} (record w { pending = some message }) w' = ground (arith, e) in
    subst IsWhole same (pending-IsWhole w (some message) whole)
throw-IsWhole false message w e whole = absurd (ground (arith, e))

pub put_config-IsWhole :
    (w : World) (id : ℤ) (e : Eventset) (c : Config)
    → find_valid w id ≡ some e
    → IsSound c
    → IsWhole w
    → IsWhole (put_config w id e c)
unfolding find_valid put_config
put_config-IsWhole w (negsuc n) e c there b = absurd (ground (arith, there))
put_config-IsWhole w (pos n) e c there b =
    one-IsWhole w (put_config w (pos n) e c) n
      (ap if_valid (get_elem?-set_self w.all_eventsets n e' (lt_of_get_elem? w.all_eventsets n at))
        ∙ valid_same)
      b (λ k ne. ap if_valid (get_elem?-set_ne w.all_eventsets n k e' (λ same. ne (sym same))))
  where
    e' : Eventset
    e' = record e { config = c }

    at : get_elem? w.all_eventsets n ≡ some e
    at = entry_of w n there

    valid_same : if_valid (some e') ≡ some e'
    valid_same = ground (arith, there, at)

pub for_ids-IsWhole :
    (class_found : Bool) (body : ℕ → Config → Option Config) (k : ℕ) (ids : List ℤ) (w : World)
    {w' : World}
    → ((i : ℕ) → Keeps (body i))
    → for_ids class_found body k ids w ≡ returned tt w'
    → IsWhole w
    → IsWhole w'
unfolding for_ids
for_ids-IsWhole class_found body k [] w {w'} keeps e whole =
    let same : w ≡ w' = ground (arith, e) in subst IsWhole same whole
for_ids-IsWhole class_found body k (id ∷ ids) w {w'} keeps e whole =
    elim (Option-cases (find_valid w id)) [
      | inl absent ↦ throw-IsWhole class_found _ w {w' = w'} (rw (absent, for_ids) at e) whole
      | inr (s, there) ↦ elim (Option-cases (body k s.config)) [
        | inl bad ↦ absurd (ground (arith, e, there, bad))
        | inr (c, does) ↦
            for_ids-IsWhole class_found body (suc k) ids (put_config w id s c) {w' = w'} keeps
              (rw (there, does, for_ids) at e)
              (put_config-IsWhole w id s c there (keeps k s.config c (blocks id there) does) whole)
      ]
    ]
  where
    blocks : (i : ℤ) {s : Eventset} → find_valid w i ≡ some s → IsSound s.config
    blocks (pos n) h = whole n _ h
    blocks (negsuc n) h = absurd (unfold find_valid in ground (arith, h))

pub destroy-IsWhole :
    (class_found : Bool) (id : ℤ) (w : World) {w' : World}
    → destroy_event_set class_found id w ≡ returned tt w'
    → IsWhole w
    → IsWhole w'
unfolding destroy_event_set
destroy-IsWhole class_found (negsuc n) w {w'} e whole =
    throw-IsWhole class_found _ w {w' = w'} e whole
destroy-IsWhole class_found (pos n) w {w'} e whole = elim (Option-cases (find_valid w (pos n))) [
  | inl absent ↦ throw-IsWhole class_found _ w {w' = w'} (rw (absent, destroy_event_set) at e) whole
  | inr (s, there) ↦
      let (w2, does, d) =
        destroy-Destroyed class_found n w there (IsSound-HasBlocks (whole n s there)) in
      let same : w2 ≡ w' = ground (arith, sym does ∙ e) in subst IsWhole same (gone-IsWhole w2 d)
]
  where
    gone-IsWhole : (w2 : World) → Destroyed w n w2 → IsWhole w2
    gone-IsWhole w2 d k x h = elim (ℕ_discrete k n) [
      | yes same ↦ absurd (ground (arith, h, d.gone, ap (λ i. find_valid w2 (pos i)) same))
      | no other ↦ whole k x (sym (d.others k other) ∙ h)
    ]
