-- ===== src/Tests/Events.antt =====
-- The event table of src/c/events.c, and the comparisons of src/c/strutil.h, on test data.
use java_ubench_agent.Prelude.{
  ℕ, zero, suc, ◌<◌, ◌^◌, true, false, some, ◌≡◌, ◌↔◌, refl, List, [], All, map, arith, Bool-cases,
  ==_iff, ◌==◌, subst, sym, inl, inr,
}
use java_ubench_agent.Strutil.{
  Text, bytes, tolower, ubench_str_is_icase_equal, ubench_str_starts_with_icase,
}
use java_ubench_agent.Strutil.Laws.{is_icase_equal_iff, starts_with_icase_iff}
use java_ubench_agent.Events.Types.{Snapshot, Timespec, Timeval, zero_info, zero_snapshot}
use java_ubench_agent.Events.Getters.{
  event_value, event_raw_value, is_papi_ok, getter_wall_clock_time, getter_thread_time,
  getter_thread_time_rusage,
}
use java_ubench_agent.Events.Exact.{InOrder, times-exact}
use java_ubench_agent.Events.Papi.{EnumModifier}
use java_ubench_agent.Events.Table.{ubench_event_resolve, ubench_event_iterate}
use java_ubench_agent.Events.Resolution.{IsResolved, resolve-IsResolved}
use java_ubench_agent.Events.Differences.{PapiOk, event_value-difference}
use java_ubench_agent.Events.Ending.{IsFinite, iterate-total}
use java_ubench_agent.Events.Supported.{
  IsDocumented, IsSupported, get_supported_events, adding_supported_events_callback,
  get_supported_events-IsSupported,
}
use java_ubench_agent.Tests.Samples.{sample_papi, name_code, code_name, event_info}

is_icase_equal_iff_example :
    (ubench_str_is_icase_equal (bytes "SYS") (bytes "sYs") ≡ true)
    ↔ (map tolower (bytes "SYS") ≡ map tolower (bytes "sYs"))
is_icase_equal_iff_example = is_icase_equal_iff (bytes "SYS") (bytes "sYs")

starts_with_icase_iff_example :
    (ubench_str_starts_with_icase (bytes "papi:cycles") (bytes "PAPI:") ≡ true)
    ↔ (map tolower (bytes "papi:") ≡ map tolower (bytes "PAPI:"))
starts_with_icase_iff_example = starts_with_icase_iff (bytes "papi:cycles") (bytes "PAPI:")

resolve-IsResolved_example :
    IsResolved true
      (bytes "papi:cycles")
      (ubench_event_resolve sample_papi true (some (bytes "papi:cycles")) zero_info).1
unfolding ubench_event_resolve name_code tolower
resolve-IsResolved_example =
    resolve-IsResolved sample_papi true (bytes "papi:cycles") zero_info refl

-- A snapshot at a time, without PAPI.
abbrev at_time : ℕ → Snapshot
at_time t = record zero_snapshot { threadtime = record { tv_sec = t; tv_nsec = 5 } }

all_ok : (s t : ℕ) → PapiOk (at_time s) (at_time t)
all_ok s t = record { start1 = refl; start2 = refl; end1 = refl; end2 = refl }

event_value-difference_example :
    event_value
      (ubench_event_resolve sample_papi true (some (bytes "SYS:thread-time")) zero_info).1
      (at_time 2)
      (at_time 5)
    ≡ some 3000000000
unfolding ubench_event_resolve name_code tolower event_raw_value
event_value-difference_example =
    event_value-difference sample_papi true (bytes "SYS:thread-time") zero_info refl (at_time 2)
      (at_time 5) (all_ok 2 5) refl refl

-- The enumerations of the test library end after one event.
sample_papi-IsFinite : IsFinite sample_papi 3
sample_papi-IsFinite = record {
  presets = record {
    rank = λ c. 0;
    falls = λ c e. absurd (ground (arith, e));
    first = λ e. omega arith;
    some_fuel = omega arith;
  };
  natives = λ component. record {
    rank = λ c. 0;
    falls = λ c e. absurd (ground (arith, e));
    first = λ e. omega arith;
    some_fuel = omega arith;
  };
}

sample_found :
    (c : ℕ)
    → is_papi_ok (code_name c).0 ≡ true
    → (is_papi_ok (name_code (code_name c).1).0 ≡ true)
      × ((name_code (code_name c).1).1 ≡ c)
      × (is_papi_ok (event_info c).0 ≡ true)
unfolding name_code tolower
sample_found c ok = elim (Bool-cases (c == 7)) [
  | inl at ↦
      subst
        (λ x.
          (is_papi_ok (name_code (code_name x).1).0 ≡ true)
          × ((name_code (code_name x).1).1 ≡ x)
          × (is_papi_ok (event_info x).0 ≡ true))
        (sym ((==_iff c 7).0 at)) (refl, refl, refl)
  | inr other ↦ elim (Bool-cases (c == 9)) [
    | inl at ↦
        subst
          (λ x.
            (is_papi_ok (name_code (code_name x).1).0 ≡ true)
            × ((name_code (code_name x).1).1 ≡ x)
            × (is_papi_ok (event_info x).0 ≡ true))
          (sym ((==_iff c 9).0 at)) (refl, refl, refl)
    | inr none_of ↦ absurd (ground (arith, ok, other, none_of))
  ]
]

sample_papi-IsDocumented : IsDocumented sample_papi
sample_papi-IsDocumented = record {
  found = λ c ok. ((sample_found c ok).0, (sample_found c ok).1);
  described = λ c ok. (sample_found c ok).2;
  no_preset = no_preset;
}
  where
    no_preset :
        (m : EnumModifier) (c component : ℕ)
        → is_papi_ok (sample_papi.enum_cmp_event m c component).0 ≡ true
        → sample_papi.is_preset (sample_papi.enum_cmp_event m c component).1 ≡ false
    no_preset EnumModifier.enum_first c zero ok = refl
    no_preset EnumModifier.enum_first c (suc component) ok = absurd (ground (arith, ok))
    no_preset EnumModifier.preset_enum_avail c component ok = absurd (ground (arith, ok))
    no_preset EnumModifier.enum_events c component ok = absurd (ground (arith, ok))

get_supported_events-IsSupported_example :
    (names : List Text) × (get_supported_events sample_papi 3 ≡ some names)
    × All (IsSupported sample_papi true zero_info) names
get_supported_events-IsSupported_example =
    get_supported_events-IsSupported sample_papi true zero_info sample_papi-IsDocumented 3
      sample_papi-IsFinite

iterate-total_example :
    (names : List Text) × (ubench_event_iterate sample_papi 3
        (some adding_supported_events_callback)
        []
      ≡ some names)
iterate-total_example =
    iterate-total adding_supported_events_callback sample_papi 3 sample_papi-IsFinite []

-- Snapshots one second apart, across a change of the second.
abbrev clocks_at : Timespec → Timeval → Snapshot
clocks_at clock used = record zero_snapshot {
  timestamp = clock;
  threadtime = clock;
  resource_usage = record { ru_utime = used; ru_stime = used; ru_nivcsw = 0 };
}

abbrev early : Snapshot
early =
    clocks_at (record { tv_sec = 4; tv_nsec = 999999999 }) (record { tv_sec = 1; tv_usec = 999999 })

abbrev late : Snapshot
late = clocks_at (record { tv_sec = 6; tv_nsec = 1 }) (record { tv_sec = 2; tv_usec = 1 })

early-InOrder : InOrder early late
early-InOrder = record {
  wall_start = record { seconds = omega arith; nanoseconds = omega arith };
  wall_end = record { seconds = omega arith; nanoseconds = omega arith };
  wall = omega arith;
  thread_start = record { seconds = omega arith; nanoseconds = omega arith };
  thread_end = record { seconds = omega arith; nanoseconds = omega arith };
  thread = omega arith;
  user_start = record { seconds = omega arith; microseconds = omega arith };
  user_end = record { seconds = omega arith; microseconds = omega arith };
  user = omega arith;
  system_start = record { seconds = omega arith; microseconds = omega arith };
  system_end = record { seconds = omega arith; microseconds = omega arith };
  system = omega arith;
}

times-exact_example :
    (getter_wall_clock_time early late ≡ 1000000002)
    × (getter_thread_time early late ≡ 1000000002)
    × (getter_thread_time_rusage early late ≡ 4000)
    × (getter_wall_clock_time early late < 2 ^ 63)
    × (getter_thread_time early late < 2 ^ 63)
    × (getter_thread_time_rusage early late < 2 ^ 63)
times-exact_example = times-exact early late early-InOrder
