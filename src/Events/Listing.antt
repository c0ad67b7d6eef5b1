-- ===== src/Events/Listing.antt =====
-- Every event that ubench_event_iterate (src/c/events.c) reports is one that ubench_event_resolve
-- accepts.
use java_ubench_agent.Prelude.{
  ℕ, zero, suc, ℤ, Bool, true, false, Option, none, some, ◌≡◌, inl, inr, ◌∙◌, refl, List, [], ◌∷◌,
  All, arith, Bool-cases, sym, subst,
}
use java_ubench_agent.Strutil.{Text}
use java_ubench_agent.Events.Getters.{is_papi_ok}
use java_ubench_agent.Events.Papi.{
  Papi, Callback, EnumModifier, report, enumerate, preset_name, native_name, list_components,
  list_component, list_presets, unless_stopped, list_papi_events,
}
use java_ubench_agent.Events.Table.{
  KnownEvent, visit, visit_as, unless_returned, iterate_in, Resolver, Lister,
}

-- A callback keeps `P` on the names that satisfy `Q`.
module _ {S : Type 0} (P : S → Type 0) (Q : Text → Type 0) (callback : Callback S)
    (keep : (name : Text) (s : S) → Q name → P s → P (callback name s).0) where
  report-keeps :
      (o : Option Text) (s : S)
      → ((name : Text) → o ≡ some name → Q name)
      → P s
      → P (report callback o s).0
  report-keeps none s q p = p
  report-keeps (some name) s q p = keep name s (q name refl) p

  -- What one round of an enumeration does.
  enumerate_ended :
      (name_of : ℕ → Option Text) (next : ℕ → ℤ × ℕ) (fuel : ℕ) (rc : ℤ) (code : ℕ) (s : S)
      → is_papi_ok rc ≡ false
      → enumerate callback name_of next (suc fuel) (rc, code) s ≡ some (s, false)
  unfolding enumerate
  enumerate_ended name_of next fuel rc code s h = ground arith

  enumerate_stopped :
      (name_of : ℕ → Option Text) (next : ℕ → ℤ × ℕ) (fuel : ℕ) (rc : ℤ) (code : ℕ) (s : S)
      → is_papi_ok rc ≡ true
      → (report callback (name_of code) s).1 ≡ true
      → enumerate callback name_of next (suc fuel) (rc, code) s
        ≡ some ((report callback (name_of code) s).0, true)
  unfolding enumerate
  enumerate_stopped name_of next fuel rc code s h stop = ground arith

  enumerate_next :
      (name_of : ℕ → Option Text) (next : ℕ → ℤ × ℕ) (fuel : ℕ) (rc : ℤ) (code : ℕ) (s : S)
      → is_papi_ok rc ≡ true
      → (report callback (name_of code) s).1 ≡ false
      → enumerate callback name_of next (suc fuel) (rc, code) s
        ≡ enumerate callback name_of next fuel (next code) (report callback (name_of code) s).0
  unfolding enumerate
  enumerate_next name_of next fuel rc code s h go = ground arith

  ended :
      {s : S} {b : Bool} {r : S × Bool} {o : Option (S × Bool)}
      → o ≡ some (s, b)
      → o ≡ some r
      → P s
      → P r.0
  ended {s} {r = r} e e' p = let same : s ≡ r.0 = ground arith in subst P same p

  -- An enumeration whose codes are `Good` once a call succeeded.
  enumerate-keeps :
      (Good : ℕ → Type 0) (name_of : ℕ → Option Text) (next : ℕ → ℤ × ℕ)
      → ((c : ℕ) (name : Text) → Good c → name_of c ≡ some name → Q name)
      → ((c : ℕ) → is_papi_ok (next c).0 ≡ true → Good (next c).1)
      → (fuel : ℕ) (x : ℤ × ℕ) (s : S) {r : S × Bool} → (is_papi_ok x.0 ≡ true → Good x.1)
      → P s
      → enumerate callback name_of next fuel x s ≡ some r
      → P r.0
  unfolding enumerate
  enumerate-keeps Good name_of next names codes zero x s good p e = cc
  enumerate-keeps Good name_of next names codes (suc fuel) (rc, code) s {r} good p e =
      elim (Bool-cases (is_papi_ok rc)) [
        | inl ok ↦
            let kept : P (report callback (name_of code) s).0 =
              report-keeps (name_of code) s (λ name. names code name (good ok)) p in
            elim (Bool-cases (report callback (name_of code) s).1) [
              | inl stop ↦ ended (enumerate_stopped name_of next fuel rc code s ok stop) e kept
              | inr go ↦
                  enumerate-keeps Good name_of next names codes fuel (next code)
                    (report callback (name_of code) s).0 (codes code) kept
                    (sym (enumerate_next name_of next fuel rc code s ok go) ∙ e)
            ]
        | inr bad ↦ ended (enumerate_ended name_of next fuel rc code s bad) e p
      ]

  unless_stopped-keeps :
      (o : Option (S × Bool)) (rest : S → Option (S × Bool)) {r : S × Bool}
      → ((x : S × Bool) → o ≡ some x → P x.0)
      → ((s : S) (x : S × Bool) → P s → rest s ≡ some x → P x.0)
      → unless_stopped o rest ≡ some r
      → P r.0
  unless_stopped-keeps none rest first later e = cc
  unless_stopped-keeps (some (s, true)) rest first later e = ended refl e (first (s, true) refl)
  unless_stopped-keeps (some (s, false)) rest {r} first later e =
      later s r (first (s, false) refl) e

  module _ (papi : Papi) (fuel : ℕ)
      (presets : (c : ℕ) (name : Text) → preset_name papi c ≡ some name → Q name)
      (natives : (c : ℕ) (name : Text)
        → papi.is_preset c ≡ false
        → native_name papi c ≡ some name
        → Q name)
      (codes : (m : EnumModifier) (c component : ℕ)
        → is_papi_ok (papi.enum_cmp_event m c component).0 ≡ true
        → papi.is_preset (papi.enum_cmp_event m c component).1 ≡ false) where
    list_components-keeps :
        (left component : ℕ) (s : S) (r : S × Bool)
        → P s
        → list_components papi fuel callback left component s ≡ some r
        → P r.0
    unfolding list_components
    list_components-keeps zero component s r p e = ended refl e p
    list_components-keeps (suc left) component s r p e =
        unless_stopped-keeps (list_component papi fuel callback component s) _
          (λ x.
            enumerate-keeps (λ c. papi.is_preset c ≡ false) (native_name papi) _ natives
              (λ c. codes EnumModifier.enum_events c component) fuel _ s {r = x}
              (codes EnumModifier.enum_first papi.native_mask component) p)
          (list_components-keeps left (suc component)) e

    list_papi_events-keeps :
        (s : S) (r : S × Bool) → P s → list_papi_events papi fuel callback s ≡ some r → P r.0
    unfolding list_papi_events
    list_papi_events-keeps s r p e =
        unless_stopped-keeps (list_presets papi fuel callback s) _
          (λ x.
            enumerate-keeps (λ c. Unit {0}) (preset_name papi) _ (λ c name _. presets c name)
              (λ c _. tt) fuel _ s {r = x} (λ _. tt) p)
          (list_components-keeps papi.num_components 0) e

    visit_as-keeps :
        (name : Text) (obsolete : Bool) (lister : Option Lister) (resolver : Option Resolver)
        (s : S) (r : S × Bool)
        → (lister ≡ none → resolver ≡ none → Q name)
        → P s
        → visit_as papi fuel callback name obsolete lister resolver s ≡ some r
        → P r.0
    unfolding visit_as
    visit_as-keeps name true lister resolver s r q p e = ended refl e p
    visit_as-keeps name false (some Lister.papi_events) resolver s r q p e =
        list_papi_events-keeps s r p e
    visit_as-keeps name false none none s r q p e = ended refl e (keep name s (q refl refl) p)
    visit_as-keeps name false none (some resolver) s r q p e = ended refl e p

    -- The entries that are reported under their own name.
    abbrev Named : KnownEvent → Type 0
    Named it = it.lister ≡ none → it.resolver ≡ none → Q it.name

    unless_returned-keeps :
        (o : Option (S × Bool)) (rest : S → Option S) {t : S}
        → ((x : S × Bool) → o ≡ some x → P x.0)
        → ((s : S) → P s → rest s ≡ some t → P t)
        → unless_returned o rest ≡ some t
        → P t
    unless_returned-keeps none rest first later e = cc
    unless_returned-keeps (some (s, true)) rest {t} first later e =
        let same : s ≡ t = ground arith in subst P same (first (s, true) refl)
    unless_returned-keeps (some (s, false)) rest first later e = later s (first (s, false) refl) e

    pub iterate_in-keeps :
        (entries : List KnownEvent) (s : S) {t : S}
        → All Named entries
        → P s
        → iterate_in papi fuel callback entries s ≡ some t
        → P t
    unfolding iterate_in
    iterate_in-keeps [] s {t} named p e = let same : s ≡ t = ground arith in subst P same p
    iterate_in-keeps (it ∷ rest) s named p e =
        unless_returned-keeps (visit papi fuel callback it s) (iterate_in papi fuel callback rest)
          (λ x. visit_as-keeps it.name it.obsolete it.lister it.resolver s x named.0 p)
          (λ s' p'. iterate_in-keeps rest s' named.1 p') e
