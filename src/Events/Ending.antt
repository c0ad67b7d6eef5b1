-- ===== src/Events/Ending.antt =====
-- The loops over PAPI's enumerations (src/c/events.c) end where the enumerations do.
use java_ubench_agent.Prelude.{
  ℕ, zero, suc, ◌<◌, ℤ, Bool, true, false, Option, none, some, ◌≡◌, inl, inr, refl, List, [], ◌∷◌,
  arith, Bool-cases,
}
use java_ubench_agent.Strutil.{Text}
use java_ubench_agent.Events.Getters.{is_papi_ok}
use java_ubench_agent.Events.Papi.{
  Papi, Callback, EnumModifier, report, enumerate, preset_name, native_name, unless_stopped,
  list_component, list_components, list_presets, list_papi_events,
}
use java_ubench_agent.Events.Table.{
  KnownEvent, known_events, visit, visit_as, unless_returned, iterate_in, ubench_event_iterate,
  Resolver, Lister,
}

-- An enumeration by `next` from `x` ends within `fuel` rounds: a rank falls at each success.
pub record Ends (next : ℕ → ℤ × ℕ) (x : ℤ × ℕ) (fuel : ℕ) : Type 0 where
  pub rank : ℕ → ℕ
  pub falls : (c : ℕ) → is_papi_ok (next c).0 ≡ true → rank (next c).1 < rank c
  pub first : is_papi_ok x.0 ≡ true → suc (rank x.1) < fuel
  pub some_fuel : 0 < fuel

-- The enumeration of the presets and that of each component's events end.
pub record IsFinite (papi : Papi) (fuel : ℕ) : Type 0 where
  pub presets :
      Ends
        (papi.enum_event EnumModifier.preset_enum_avail)
        (papi.enum_event EnumModifier.enum_first papi.preset_mask)
        fuel
  pub natives :
      (component : ℕ)
      → Ends
          (λ code. papi.enum_cmp_event EnumModifier.enum_events code component)
          (papi.enum_cmp_event EnumModifier.enum_first papi.native_mask component)
          fuel

module _ {S : Type 0} (callback : Callback S) where
  abbrev Returns : Option (S × Bool) → Type 0
  Returns o = (r : S × Bool) × (o ≡ some r)

  enumerate-total :
      (name_of : ℕ → Option Text) (next : ℕ → ℤ × ℕ) (rank : ℕ → ℕ)
      → ((c : ℕ) → is_papi_ok (next c).0 ≡ true → rank (next c).1 < rank c)
      → (fuel : ℕ) (x : ℤ × ℕ) (s : S) → (is_papi_ok x.0 ≡ true → suc (rank x.1) < fuel)
      → 0 < fuel
      → Returns (enumerate callback name_of next fuel x s)
  unfolding enumerate
  enumerate-total name_of next rank falls zero x s h pos = absurd (omega arith)
  enumerate-total name_of next rank falls (suc fuel) (rc, code) s h pos =
      elim (Bool-cases (is_papi_ok rc)) [
        | inr bad ↦ ((s, false), ground arith)
        | inl ok ↦
            let (r, e) =
              enumerate-total name_of next rank falls fuel (next code)
                (report callback (name_of code) s).0 (λ good. omega (arith, h ok, falls code good))
                (omega (arith, h ok)) in
            elim (Bool-cases (report callback (name_of code) s).1) [
              | inl stop ↦ (((report callback (name_of code) s).0, true), ground arith)
              | inr go ↦ (r, ground arith)
            ]
      ]

  unless_stopped-total :
      (o : Option (S × Bool)) (rest : S → Option (S × Bool))
      → Returns o
      → ((s : S) → Returns (rest s))
      → Returns (unless_stopped o rest)
  unless_stopped-total none rest (r, e) later = absurd (ground arith)
  unless_stopped-total (some (s, true)) rest h later = ((s, true), refl)
  unless_stopped-total (some (s, false)) rest h later = later s

  module _ (papi : Papi) (fuel : ℕ) (finite : IsFinite papi fuel) where
    list_components-total :
        (left component : ℕ) (s : S) → Returns (list_components papi fuel callback left component s)
    unfolding list_components
    list_components-total zero component s = ((s, false), refl)
    list_components-total (suc left) component s =
        let ends = finite.natives component in
        unless_stopped-total (list_component papi fuel callback component s)
          (list_components papi fuel callback left (suc component))
          (enumerate-total (native_name papi) _ ends.rank ends.falls fuel _ s ends.first
            ends.some_fuel)
          (list_components-total left (suc component))

    list_papi_events-total : (s : S) → Returns (list_papi_events papi fuel callback s)
    unfolding list_papi_events
    list_papi_events-total s =
        let ends = finite.presets in
        unless_stopped-total (list_presets papi fuel callback s)
          (list_components papi fuel callback papi.num_components 0)
          (enumerate-total (preset_name papi) _ ends.rank ends.falls fuel _ s ends.first
            ends.some_fuel)
          (list_components-total papi.num_components 0)

    visit_as-total :
        (name : Text) (obsolete : Bool) (lister : Option Lister) (resolver : Option Resolver)
        (s : S)
        → Returns (visit_as papi fuel callback name obsolete lister resolver s)
    unfolding visit_as
    visit_as-total name true lister resolver s = ((s, false), refl)
    visit_as-total name false (some Lister.papi_events) resolver s = list_papi_events-total s
    visit_as-total name false none none s = (callback name s, refl)
    visit_as-total name false none (some resolver) s = ((s, false), refl)

    unless_returned-total :
        (o : Option (S × Bool)) (rest : S → Option S)
        → Returns o
        → ((s : S) → (t : S) × (rest s ≡ some t))
        → (t : S) × (unless_returned o rest ≡ some t)
    unless_returned-total none rest (r, e) later = absurd (ground arith)
    unless_returned-total (some (s, true)) rest h later = (s, refl)
    unless_returned-total (some (s, false)) rest h later = later s

    iterate_in-total :
        (entries : List KnownEvent) (s : S)
        → (t : S) × (iterate_in papi fuel callback entries s ≡ some t)
    unfolding iterate_in
    iterate_in-total [] s = (s, refl)
    iterate_in-total (it ∷ rest) s =
        unless_returned-total (visit papi fuel callback it s) (iterate_in papi fuel callback rest)
          (visit_as-total it.name it.obsolete it.lister it.resolver s) (iterate_in-total rest)

    -- If PAPI's enumerations end within the fuel, ubench_event_iterate returns, for every callback
    -- and from every state of its caller.
    pub iterate-total :
        (s : S) → (t : S) × (ubench_event_iterate papi fuel (some callback) s ≡ some t)
    unfolding ubench_event_iterate
    iterate-total s = iterate_in-total known_events s
