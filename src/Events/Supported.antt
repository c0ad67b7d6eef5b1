-- ===== src/Events/Supported.antt =====
-- The events that Measurement.getSupportedEvents lists are those that isEventSupported confirms
-- (src/c/measurement.c over src/c/events.c).
use java_ubench_agent.Prelude.{
  ℕ, Bool, true, false, ◌&&◌, Option, none, some, ◌≡◌, refl, List, [], ◌∷◌, ◌++◌, All, arith,
  get_elem?, subst, ◌==◌,
}
use java_ubench_agent.Strutil.{Text, bytes}
use java_ubench_agent.Strutil.Laws.{is_icase_equal_iff}
use java_ubench_agent.Events.Types.{EventInfo}
use java_ubench_agent.Events.Getters.{is_papi_ok}
use java_ubench_agent.Events.Papi.{
  Papi, Callback, EnumModifier, preset_name, native_name, resolve_papi_event,
}
use java_ubench_agent.Events.Table.{
  KnownEvent, known_events, try_event, ubench_event_resolve, ubench_event_iterate,
}
use java_ubench_agent.Events.Resolution.{resolve_in_of_try}
use java_ubench_agent.Events.Listing.{iterate_in-keeps}
use java_ubench_agent.Events.Ending.{IsFinite, iterate-total}

-- Java_..._Measurement_isEventSupported: `stack` is what the local description holds before its name
-- is set to NULL.
unfoldable pub is_event_supported : Papi → Bool → EventInfo → Text → Bool
unfolding ubench_event_resolve
is_event_supported papi dup_ok stack event =
    (ubench_event_resolve papi dup_ok (some event) (record stack { name = none })).0

-- adding_supported_events_callback: the list of names is the Java ArrayList.
unfoldable pub adding_supported_events_callback : Callback (List Text)
adding_supported_events_callback name event_list = (event_list ++ name ∷ [], false)

-- Java_..._Measurement_getSupportedEvents, where the JVM finds the classes and methods it asks for.
unfoldable pub get_supported_events : Papi → ℕ → Option (List Text)
unfolding ubench_event_iterate adding_supported_events_callback
get_supported_events papi fuel =
    ubench_event_iterate papi fuel (some adding_supported_events_callback) []

-- What PAPI documents of names and codes: an event that has a name is found under that name and
-- described, and the native events are no presets.
pub record IsDocumented (papi : Papi) : Type 0 where
  pub found :
      (c : ℕ)
      → is_papi_ok (papi.event_code_to_name c).0 ≡ true
      → (is_papi_ok (papi.event_name_to_code (papi.event_code_to_name c).1).0 ≡ true)
        × ((papi.event_name_to_code (papi.event_code_to_name c).1).1 ≡ c)
  pub described :
      (c : ℕ)
      → is_papi_ok (papi.event_code_to_name c).0 ≡ true
      → is_papi_ok (papi.get_event_info c).0 ≡ true
  pub no_preset :
      (m : EnumModifier) (c component : ℕ)
      → is_papi_ok (papi.enum_cmp_event m c component).0 ≡ true
      → papi.is_preset (papi.enum_cmp_event m c component).1 ≡ false

try_plain :
    (papi : Papi) (info : EventInfo) (it : KnownEvent)
    → it.resolver ≡ none
    → try_event papi it.name info it ≡ some info
unfolding try_event
try_plain papi info it e = rw (e, try_event) (rw ((is_icase_equal_iff it.name it.name).1 refl) refl)

-- A name that PAPI resolves is accepted behind the prefix.
try_prefixed :
    (papi : Papi) (info : EventInfo) (name : Text)
    → (resolve_papi_event papi name info).0 ≡ true
    → (it : KnownEvent) × (info' : EventInfo) × (get_elem? known_events 4 ≡ some it)
      × (try_event papi (bytes "PAPI:" ++ name) info it ≡ some info')
unfolding known_events try_event
try_prefixed papi info name e = (_, (resolve_papi_event papi name info).1, refl, ground arith)

preset_name_inv :
    (papi : Papi) (c : ℕ) (name : Text)
    → preset_name papi c ≡ some name
    → (is_papi_ok (papi.event_code_to_name c).0 ≡ true)
      × ((papi.is_preset c && ((papi.get_event_info c).1.count == 0)) ≡ false)
      × (bytes "PAPI:" ++ (papi.event_code_to_name c).1 ≡ name)
unfolding preset_name
preset_name_inv papi c name e = ground arith

native_name_inv :
    (papi : Papi) (c : ℕ) (name : Text)
    → native_name papi c ≡ some name
    → (is_papi_ok (papi.event_code_to_name c).0 ≡ true)
      × (bytes "PAPI:" ++ (papi.event_code_to_name c).1 ≡ name)
unfolding native_name
native_name_inv papi c name e = ground arith

module _ (papi : Papi) (dup_ok : Bool) (stack : EventInfo) where
  abbrev pub IsSupported : Text → Type 0
  IsSupported name = is_event_supported papi dup_ok stack name ≡ true

  abbrev blank : EventInfo
  blank = record stack { name = none }

  -- The entry at the index answers for its own name.
  plain-IsSupported :
      (i : ℕ) {it : KnownEvent}
      → get_elem? known_events i ≡ some it
      → it.resolver ≡ none
      → IsSupported it.name
  unfolding is_event_supported
  plain-IsSupported i {it} at e =
      resolve_in_of_try papi dup_ok it.name blank known_events i at (try_plain papi blank it e)

  prefixed-IsSupported :
      (name : Text)
      → (resolve_papi_event papi name blank).0 ≡ true
      → IsSupported (bytes "PAPI:" ++ name)
  unfolding is_event_supported
  prefixed-IsSupported name e =
      let t = try_prefixed papi blank name e in
      resolve_in_of_try papi dup_ok (bytes "PAPI:" ++ name) blank known_events 4 t.2 t.3

  module _ (documented : IsDocumented papi) where
    open documented use {found, described, no_preset}

    resolve_code :
        (c : ℕ)
        → is_papi_ok (papi.event_code_to_name c).0 ≡ true
        → (papi.is_preset c && ((papi.get_event_info c).1.count == 0)) ≡ false
        → (resolve_papi_event papi (papi.event_code_to_name c).1 blank).0 ≡ true
    unfolding resolve_papi_event
    resolve_code c ok h = rw ((found c ok).0, (found c ok).1, described c ok, h) refl

    presets-IsSupported : (c : ℕ) (name : Text) → preset_name papi c ≡ some name → IsSupported name
    presets-IsSupported c name e =
        let (ok, shown, same) = preset_name_inv papi c name e in
        subst IsSupported same (prefixed-IsSupported _ (resolve_code c ok shown))

    natives-IsSupported :
        (c : ℕ) (name : Text)
        → papi.is_preset c ≡ false
        → native_name papi c ≡ some name
        → IsSupported name
    natives-IsSupported c name h e =
        let (ok, same) = native_name_inv papi c name e in
        subst IsSupported same (prefixed-IsSupported _ (resolve_code c ok (rw h)))

    collect-keeps :
        (name : Text) (names : List Text)
        → IsSupported name
        → All IsSupported names
        → All IsSupported (adding_supported_events_callback name names).0
    unfolding adding_supported_events_callback
    collect-keeps name [] h hs = (h, tt)
    collect-keeps name (x ∷ xs) h hs = (hs.0, collect-keeps name xs h hs.1)

    listed-IsSupported :
        (fuel : ℕ) {names : List Text}
        → get_supported_events papi fuel ≡ some names
        → All IsSupported names
    unfolding get_supported_events known_events
    listed-IsSupported fuel e =
        iterate_in-keeps (All IsSupported) IsSupported adding_supported_events_callback
          collect-keeps papi fuel presets-IsSupported natives-IsSupported no_preset known_events []
          (
            λ _ r. plain-IsSupported 0 refl r,
            (
              λ _ r. plain-IsSupported 1 refl r,
              (
                λ _ r. plain-IsSupported 2 refl r,
                (
                  λ _ r. plain-IsSupported 3 refl r,
                  (
                    λ _ r. plain-IsSupported 4 refl r,
                    (
                      λ _ r. plain-IsSupported 5 refl r,
                      (
                        λ _ r. plain-IsSupported 6 refl r,
                        (
                          λ _ r. plain-IsSupported 7 refl r,
                          (
                            λ _ r. plain-IsSupported 8 refl r,
                            (λ _ r. plain-IsSupported 9 refl r, tt),
                          ),
                        ),
                      ),
                    ),
                  ),
                ),
              ),
            ),
          )
          tt e

    -- If PAPI finds and describes each event under the name that it gives for the event's code, its
    -- native events are no presets, and each of its enumerations ends before the fuel does, then
    -- Measurement.getSupportedEvents returns a list, and Measurement.isEventSupported confirms
    -- every name in it.
    pub get_supported_events-IsSupported :
        (fuel : ℕ)
        → IsFinite papi fuel
        → (names : List Text) × (get_supported_events papi fuel ≡ some names)
          × All IsSupported names
    unfolding get_supported_events
    get_supported_events-IsSupported fuel finite =
        let (names, e) = iterate-total adding_supported_events_callback papi fuel finite [] in
        (names, e, listed-IsSupported fuel e)
