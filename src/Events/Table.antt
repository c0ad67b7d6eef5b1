-- ===== src/Events/Table.antt =====
-- src/c/events.c: the table of the known events, the search in it and the walk over it.
use java_ubench_agent.Prelude.{
  ℕ, Bool, true, false, not, Option, none, some, List, [], ◌∷◌, if◌then◌else◌,
}
use java_ubench_agent.Strutil.{
  Text, bytes, ubench_str_dup, ubench_str_is_icase_equal, ubench_str_starts_with_icase,
}
use java_ubench_agent.Events.Types.{
  EventInfo, RawGetter, Getter, backend_resource_usage, backend_papi, backend_sys_wallclock,
  backend_jvm_compilations, backend_sys_threadtime,
}
use java_ubench_agent.Events.Papi.{
  Papi, Callback, resolve_papi_event, resolve_papi_event_with_prefix, list_papi_events,
}

-- The functions that `resolver` points to.
pub data Resolver : Type 0 where
  papi_with_prefix papi_without_prefix : Resolver

-- The function that `lister` points to.
pub data Lister : Type 0 where
  papi_events : Lister

-- known_event_t; the entry with the NULL name is the end of the list.
pub record KnownEvent : Type 0 where
  pub name : Text
  pub obsolete : Bool
  pub resolver : Option Resolver
  pub lister : Option Lister
  pub backend : ℕ
  pub getter_raw : RawGetter
  pub getter : Getter

-- An entry with neither resolver nor lister.
abbrev pub plain : Text → Bool → ℕ → RawGetter → Getter → KnownEvent
plain name obsolete backend getter_raw getter = record {
  name = name;
  obsolete = obsolete;
  resolver = none;
  lister = none;
  backend = backend;
  getter_raw = getter_raw;
  getter = getter;
}

unfoldable pub known_events : List KnownEvent
known_events =
    plain (bytes "JVM_COMPILATIONS") true backend_jvm_compilations RawGetter.raw_jvm_compilations
      Getter.jvm_compilations
    ∷ plain (bytes "SYS_WALLCLOCK") true backend_sys_wallclock RawGetter.raw_wall_clock_time
        Getter.wall_clock_time
    ∷ plain (bytes "forced-context-switch") true backend_resource_usage
        RawGetter.raw_context_switch_forced Getter.context_switch_forced
    ∷ plain (bytes "JVM:compilations") false backend_jvm_compilations RawGetter.raw_jvm_compilations
        Getter.jvm_compilations
    ∷ record {
      name = bytes "PAPI:";
      obsolete = false;
      resolver = some Resolver.papi_with_prefix;
      lister = some Lister.papi_events;
      backend = backend_papi;
      getter_raw = RawGetter.raw_papi;
      getter = Getter.papi;
    }
    ∷ plain (bytes "SYS:forced-context-switches") false backend_resource_usage
        RawGetter.raw_context_switch_forced Getter.context_switch_forced
    ∷ plain (bytes "SYS:thread-time") false backend_sys_threadtime RawGetter.raw_thread_time
        Getter.thread_time
    ∷ plain (bytes "SYS:thread-time-rusage") false backend_resource_usage
        RawGetter.raw_thread_time_rusage Getter.thread_time_rusage
    ∷ plain (bytes "SYS:wallclock-time") false backend_sys_wallclock RawGetter.raw_wall_clock_time
        Getter.wall_clock_time
    ∷ record {
      name = bytes "";
      obsolete = true;
      resolver = some Resolver.papi_without_prefix;
      lister = none;
      backend = backend_papi;
      getter_raw = RawGetter.raw_papi;
      getter = Getter.papi;
    }
    ∷ []

-- What `info` holds behind the four assignments at the end of the loop's body.
abbrev pub fill_info : Bool → Text → KnownEvent → EventInfo → EventInfo
fill_info dup_ok event it info = record info {
  backend = it.backend;
  op_get_raw = some it.getter_raw;
  op_get = some it.getter;
  name = ubench_str_dup dup_ok event;
}

-- The tests of one round: `none` is `continue`, `some` the description behind the resolver.
unfoldable pub try_event : Papi → Text → EventInfo → KnownEvent → Option EventInfo
unfolding ubench_str_is_icase_equal ubench_str_starts_with_icase resolve_papi_event
    resolve_papi_event_with_prefix
try_event papi event info it = elim it.resolver [
  | none ↦ if ubench_str_is_icase_equal event it.name then some info else none
  | some Resolver.papi_with_prefix ↦
      let (resolved, info') = resolve_papi_event_with_prefix papi event info in
      if not (ubench_str_starts_with_icase event it.name)
      then none
      else if not resolved
      then none
      else some info'
  | some Resolver.papi_without_prefix ↦
      let (resolved, info') = resolve_papi_event papi event info in
      if not (ubench_str_starts_with_icase event it.name)
      then none
      else if not resolved
      then none
      else some info'
]

unfoldable pub resolve_in : Papi → Bool → Text → EventInfo → List KnownEvent → Bool × EventInfo
unfolding try_event ubench_str_dup
resolve_in papi dup_ok event info [] = (false, info)
resolve_in papi dup_ok event info (it ∷ rest) = elim (try_event papi event info it) [
  | none ↦ resolve_in papi dup_ok event info rest
  | some info' ↦ (true, fill_info dup_ok event it info')
]

-- `dup_ok` says whether the copy of the name is given memory; no event is NULL.
unfoldable pub ubench_event_resolve : Papi → Bool → Option Text → EventInfo → Bool × EventInfo
unfolding resolve_in known_events
ubench_event_resolve papi dup_ok none info = (false, info)
ubench_event_resolve papi dup_ok (some event) info = resolve_in papi dup_ok event info known_events

module _ {S : Type 0} where
  -- One round of the walk, from the fields of the entry; the result says whether to return at once.
  unfoldable pub visit_as :
      Papi
      → ℕ
      → Callback S
      → Text
      → (obsolete : Bool) → Option Lister
      → Option Resolver
      → S
      → Option (S × Bool)
  unfolding list_papi_events
  visit_as papi fuel callback name true lister resolver s = some (s, false)
  visit_as papi fuel callback name false (some Lister.papi_events) resolver s =
      list_papi_events papi fuel callback s
  visit_as papi fuel callback name false none none s = some (callback name s)
  visit_as papi fuel callback name false none (some resolver) s = some (s, false)

  unfoldable pub visit : Papi → ℕ → Callback S → KnownEvent → S → Option (S × Bool)
  unfolding visit_as
  visit papi fuel callback it s =
      visit_as papi fuel callback it.name it.obsolete it.lister it.resolver s

  abbrev pub unless_returned : Option (S × Bool) → (S → Option S) → Option S
  unless_returned none rest = none
  unless_returned (some (s, true)) rest = some s
  unless_returned (some (s, false)) rest = rest s

  unfoldable pub iterate_in : Papi → ℕ → Callback S → List KnownEvent → S → Option S
  unfolding visit
  iterate_in papi fuel callback [] s = some s
  iterate_in papi fuel callback (it ∷ rest) s =
      unless_returned (visit papi fuel callback it s) (iterate_in papi fuel callback rest)

  -- The callback is not NULL where the agent calls this; `none` is no fuel left in PAPI's loops.
  unfoldable pub ubench_event_iterate : Papi → ℕ → Option (Callback S) → S → Option S
  unfolding iterate_in known_events
  ubench_event_iterate papi fuel none s = some s
  ubench_event_iterate papi fuel (some callback) s = iterate_in papi fuel callback known_events s
