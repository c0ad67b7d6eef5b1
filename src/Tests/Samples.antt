-- ===== src/Tests/Samples.antt =====
-- Test data for src/c: a PAPI library with one preset and one native event, readings of the clocks,
-- and what the environment answers where nothing fails.
use java_ubench_agent.Prelude.{
  ℕ, zero, suc, ◌*◌, ℤ, pos, minus_one, true, List, [], ◌∷◌, ◌==◌, if◌then◌else◌, none,
}
use java_ubench_agent.Strutil.{Text, bytes, ubench_str_is_icase_equal}
use java_ubench_agent.Events.Types.{Rusage}
use java_ubench_agent.Events.Papi.{Papi, EnumModifier, PapiEventInfo}
use java_ubench_agent.Measure.{Readings}
use java_ubench_agent.Measurement.State.{Config, World, Outcome, returned, exited, fault}
use java_ubench_agent.Measurement.Create.{create_event_set}
use java_ubench_agent.Measurement.Stages.{Env, PapiCalls}
use java_ubench_agent.Measurement.Session.{Round}

abbrev pub code_name : ℕ → ℤ × Text
code_name code =
    if code == 7
    then (pos 0, bytes "PAPI_TOT_INS")
    else if code == 9
    then (pos 0, bytes "cycles")
    else (minus_one, [])

abbrev pub event_info : ℕ → ℤ × PapiEventInfo
event_info code =
    if code == 7
    then (pos 0, record { count = 1; component_index = 0 })
    else if code == 9
    then (pos 0, record { count = 0; component_index = 0 })
    else (minus_one, record { count = 0; component_index = 0 })

unfoldable pub name_code : Text → ℤ × ℕ
unfolding ubench_str_is_icase_equal
name_code name =
    if ubench_str_is_icase_equal name (bytes "PAPI_TOT_INS")
    then (pos 0, 7)
    else if ubench_str_is_icase_equal name (bytes "cycles")
    then (pos 0, 9)
    else (minus_one, 0)

abbrev pub enum_preset : EnumModifier → ℕ → ℤ × ℕ
enum_preset EnumModifier.enum_first code = (pos 0, 7)
enum_preset EnumModifier.preset_enum_avail code = (minus_one, code)
enum_preset EnumModifier.enum_events code = (minus_one, code)

abbrev pub enum_native : EnumModifier → ℕ → ℕ → ℤ × ℕ
enum_native EnumModifier.enum_first code zero = (pos 0, 9)
enum_native EnumModifier.enum_first code (suc component) = (minus_one, code)
enum_native EnumModifier.preset_enum_avail code component = (minus_one, code)
enum_native EnumModifier.enum_events code component = (minus_one, code)

abbrev pub sample_papi : Papi
sample_papi = record {
  event_name_to_code = name_code;
  get_event_info = event_info;
  is_preset = λ code. code == 7;
  event_code_to_name = code_name;
  enum_event = enum_preset;
  enum_cmp_event = enum_native;
  num_components = 1;
  preset_mask = 1;
  native_mask = 2;
}

abbrev pub sample_calls : PapiCalls
sample_calls = record {
  create_eventset = (pos 0, 5);
  assign_component = λ eventset component. pos 0;
  set_inherit = λ k. pos 0;
  add_event = λ eventset code. pos 0;
  attach = λ eventset thread. pos 0;
  strerror = λ rc. bytes "error";
  papi_null = 99;
}

abbrev pub fresh_config : Config
fresh_config = record {
  used_backends = 0;
  used_events = none;
  used_events_count = 0;
  used_papi_events = [];
  papi_eventset = 0;
  papi_component = 0;
  snapshots = none;
  data_size = 0;
  data_index = 0;
}

abbrev pub sample_env : Env
sample_env = record {
  class_found = true;
  realloc_ok = true;
  data_ok = true;
  events_ok = true;
  dup_ok = λ k. true;
  chars_ok = λ k. true;
  options_ok = true;
  new_config = fresh_config;
  papi = sample_papi;
  calls = sample_calls;
}

abbrev pub empty_world : World
empty_world = record { all_eventsets = []; pending = none }

abbrev pub sample_names : List Text
sample_names = bytes "SYS:wallclock-time" ∷ bytes "jvm:compilations" ∷ bytes "PAPI:cycles" ∷ []

-- Readings `t` seconds after the beginning, with `t` compilations and the counter at `3 * t`.
abbrev pub sample_rusage : ℕ → Rusage
sample_rusage t = record {
  ru_utime = record { tv_sec = t; tv_usec = 0 };
  ru_stime = record { tv_sec = 0; tv_usec = t };
  ru_nivcsw = t;
}

abbrev pub reading : ℕ → Readings
reading t = record {
  rusage = sample_rusage t;
  compilations = t;
  gcs = 0;
  thread_clock = record { tv_sec = t; tv_nsec = 7 };
  wall_clock = record { tv_sec = t; tv_nsec = 3 };
  papi_start = pos 0;
  papi_read = (pos 0, 3 * t ∷ []);
  papi_stop = (pos 0, 3 * t ∷ []);
}

abbrev pub sample_rounds : List Round
sample_rounds = (reading 1, reading 2) ∷ (reading 10, reading 14) ∷ (reading 20, reading 29) ∷ []

abbrev pub world_of : Outcome ℤ → World
world_of (returned id w) = w
world_of exited = empty_world
world_of fault = empty_world

unfoldable pub created_world : World
unfolding create_event_set name_code
created_world = world_of (create_event_set sample_env (pos 2) sample_names [] empty_world)
