-- ===== src/Events/Types.antt =====
-- src/c/ubench.h: snapshots and event descriptions, for the Linux build (HAS_TIMESPEC,
-- HAS_GETRUSAGE and HAS_PAPI). `long` and `long long` fields are bit patterns below 2 ^ 64.
use java_ubench_agent.Prelude.{ℕ, ℤ, pos, negsuc, Option, none, List, replicate}
use java_ubench_agent.Strutil.{Text}

abbrev pub max_papi_events : ℕ
max_papi_events = 20

-- struct timespec
pub record Timespec : Type 0 where
  pub tv_sec : ℕ
  pub tv_nsec : ℕ

-- struct timeval
pub record Timeval : Type 0 where
  pub tv_sec : ℕ
  pub tv_usec : ℕ

-- the fields of struct rusage that the code reads
pub record Rusage : Type 0 where
  pub ru_utime : Timeval
  pub ru_stime : Timeval
  pub ru_nivcsw : ℕ

-- UBENCH_EVENT_BACKEND_...
abbrev pub backend_resource_usage : ℕ
backend_resource_usage = 2

abbrev pub backend_papi : ℕ
backend_papi = 4

abbrev pub backend_sys_wallclock : ℕ
backend_sys_wallclock = 8

abbrev pub backend_jvm_compilations : ℕ
backend_jvm_compilations = 16

abbrev pub backend_sys_threadtime : ℕ
backend_sys_threadtime = 32

-- UBENCH_SNAPSHOT_TYPE_START and UBENCH_SNAPSHOT_TYPE_END
abbrev pub type_start : ℤ
type_start = negsuc 0

abbrev pub type_end : ℤ
type_end = negsuc 1

-- ubench_events_snapshot_t; `garbage_collections` is a pattern of 32 bits.
pub record Snapshot : Type 0 where
  pub timestamp : Timespec
  pub threadtime : Timespec
  pub resource_usage : Rusage
  pub compilations : ℕ
  pub garbage_collections : ℕ
  pub papi_events : List ℕ
  pub papi_rc1 : ℤ
  pub papi_rc2 : ℤ
  pub type : ℤ

-- What calloc leaves in a snapshot.
abbrev pub zero_snapshot : Snapshot
zero_snapshot = record {
  timestamp = record { tv_sec = 0; tv_nsec = 0 };
  threadtime = record { tv_sec = 0; tv_nsec = 0 };
  resource_usage = record {
    ru_utime = record { tv_sec = 0; tv_usec = 0 };
    ru_stime = record { tv_sec = 0; tv_usec = 0 };
    ru_nivcsw = 0;
  };
  compilations = 0;
  garbage_collections = 0;
  papi_events = replicate max_papi_events 0;
  papi_rc1 = pos 0;
  papi_rc2 = pos 0;
  type = pos 0;
}

-- The functions that an event_getter_raw_func_t points to.
pub data RawGetter : Type 0 where
  raw_wall_clock_time raw_thread_time raw_jvm_compilations : RawGetter
  raw_context_switch_forced raw_thread_time_rusage raw_papi : RawGetter

-- The functions that an event_getter_func_t points to.
pub data Getter : Type 0 where
  wall_clock_time thread_time jvm_compilations : Getter
  context_switch_forced thread_time_rusage papi : Getter

-- ubench_event_info_t; `none` is NULL, `id` and `papi_component` are patterns of 32 bits.
pub record EventInfo : Type 0 where
  pub backend : ℕ
  pub id : ℕ
  pub papi_component : ℕ
  pub papi_index : ℕ
  pub op_get_raw : Option RawGetter
  pub op_get : Option Getter
  pub name : Option Text

-- What calloc leaves in an event description.
abbrev pub zero_info : EventInfo
zero_info = record {
  backend = 0;
  id = 0;
  papi_component = 0;
  papi_index = 0;
  op_get_raw = none;
  op_get = none;
  name = none;
}
