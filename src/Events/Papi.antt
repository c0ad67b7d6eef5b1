-- ===== src/Events/Papi.antt =====
-- src/c/events.c: how PAPI events are resolved and listed. The PAPI library is not part of the
-- repository: its calls are the fields of `Papi`, each from the arguments of one call to its
-- results.
use java_ubench_agent.Prelude.{
  ℕ, zero, suc, ℤ, Bool, true, false, ◌&&◌, not, Option, none, some, [], ◌∷◌, ◌++◌, ◌==◌,
  if◌then◌else◌,
}
use java_ubench_agent.Strutil.{Text, bytes}
use java_ubench_agent.Events.Types.{EventInfo}
use java_ubench_agent.Events.Getters.{is_papi_ok}

-- The modifiers of an enumeration.
pub data EnumModifier : Type 0 where
  enum_first preset_enum_avail enum_events : EnumModifier

-- PAPI_event_info_t, as far as it is read
pub record PapiEventInfo : Type 0 where
  pub count : ℕ
  pub component_index : ℕ

pub record Papi : Type 0 where
  pub event_name_to_code : Text → ℤ × ℕ
  pub get_event_info : ℕ → ℤ × PapiEventInfo
  pub is_preset : ℕ → Bool
  pub event_code_to_name : ℕ → ℤ × Text
  pub enum_event : EnumModifier → ℕ → ℤ × ℕ
  pub enum_cmp_event : EnumModifier → ℕ → ℕ → ℤ × ℕ
  pub num_components : ℕ
  pub preset_mask : ℕ
  pub native_mask : ℕ

-- Stores the event in `info` and returns true, or leaves `info` alone.
unfoldable pub resolve_papi_event : Papi → Text → EventInfo → Bool × EventInfo
resolve_papi_event papi name info =
    let (ok, papi_event_id) = papi.event_name_to_code name in
    let (ok', event_info) = papi.get_event_info papi_event_id in
    if not (is_papi_ok ok)
    then (false, info)
    else if not (is_papi_ok ok')
    then (false, info)
    else if papi.is_preset papi_event_id && event_info.count == 0
    then (false, info)
    else (true, record info { id = papi_event_id; papi_component = event_info.component_index })

-- `name + 5`: the string behind its first five bytes.
abbrev pub skip_prefix : ℕ → Text → Text
skip_prefix zero s = s
skip_prefix (suc n) [] = []
skip_prefix (suc n) (c ∷ s) = skip_prefix n s

unfoldable pub resolve_papi_event_with_prefix : Papi → Text → EventInfo → Bool × EventInfo
unfolding resolve_papi_event
resolve_papi_event_with_prefix papi name info = resolve_papi_event papi (skip_prefix 5 name) info

-- event_info_iterator_callback_t: the name and the caller's state, to the new state and whether to
-- stop.
abbrev pub Callback : Type 0 → Type 0
Callback S = Text → S → S × Bool

-- One round of the loop over the presets: `none` is `continue`.
unfoldable pub preset_name : Papi → ℕ → Option Text
preset_name papi event_code =
    let (rc, event_name) = papi.event_code_to_name event_code in
    let (rc', event_info) = papi.get_event_info event_code in
    if not (is_papi_ok rc)
    then none
    else if not (is_papi_ok rc')
    then none
    else if papi.is_preset event_code && event_info.count == 0
    then none
    else some (bytes "PAPI:" ++ event_name)

unfoldable pub native_name : Papi → ℕ → Option Text
native_name papi event_code =
    let (rc, event_name) = papi.event_code_to_name event_code in
    if not (is_papi_ok rc) then none else some (bytes "PAPI:" ++ event_name)

module _ {S : Type 0} where
  abbrev pub report : Callback S → Option Text → S → S × Bool
  report callback none s = (s, false)
  report callback (some name) s = callback name s

  -- A `for` over an enumeration: `next` is the call that sets `rc` and the code, `name_of` the part
  -- of the body in front of the callback. The fuel bounds the rounds; `none` is no fuel left.
  unfoldable pub enumerate :
      Callback S → (ℕ → Option Text) → (ℕ → ℤ × ℕ) → ℕ → ℤ × ℕ → S → Option (S × Bool)
  enumerate callback name_of next zero (rc, event_code) s = none
  enumerate callback name_of next (suc fuel) (rc, event_code) s =
      let (s', terminate) = report callback (name_of event_code) s in
      let rest = enumerate callback name_of next fuel (next event_code) s' in
      if not (is_papi_ok rc) then some (s, false) else if terminate then some (s', true) else rest

  -- `if (terminate) return 1;` in front of the rest of a function
  abbrev pub unless_stopped : Option (S × Bool) → (S → Option (S × Bool)) → Option (S × Bool)
  unless_stopped none rest = none
  unless_stopped (some (s, true)) rest = some (s, true)
  unless_stopped (some (s, false)) rest = rest s

  -- One component's events.
  unfoldable pub list_component : Papi → ℕ → Callback S → ℕ → S → Option (S × Bool)
  unfolding native_name enumerate
  list_component papi fuel callback component s =
      enumerate callback (native_name papi)
        (λ code. papi.enum_cmp_event EnumModifier.enum_events code component) fuel
        (papi.enum_cmp_event EnumModifier.enum_first papi.native_mask component) s

  -- The loop over the components: `left` of them are still to come, the next one is `component`.
  unfoldable pub list_components :
      Papi → ℕ → Callback S → (left component : ℕ) → S → Option (S × Bool)
  unfolding list_component
  list_components papi fuel callback zero component s = some (s, false)
  list_components papi fuel callback (suc left) component s =
      unless_stopped (list_component papi fuel callback component s)
        (list_components papi fuel callback left (suc component))

  -- The loop over the presets.
  unfoldable pub list_presets : Papi → ℕ → Callback S → S → Option (S × Bool)
  unfolding preset_name enumerate
  list_presets papi fuel callback s =
      enumerate callback (preset_name papi) (papi.enum_event EnumModifier.preset_enum_avail) fuel
        (papi.enum_event EnumModifier.enum_first papi.preset_mask) s

  unfoldable pub list_papi_events : Papi → ℕ → Callback S → S → Option (S × Bool)
  unfolding list_presets list_components
  list_papi_events papi fuel callback s =
      unless_stopped (list_presets papi fuel callback s)
        (list_components papi fuel callback papi.num_components 0)
