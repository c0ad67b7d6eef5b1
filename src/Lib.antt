-- ===== src/Lib.antt =====
-- A verification library for the C part of java-ubench-agent, the JVM agent that measures
-- benchmarks: the native methods of the Java class Measurement, the table of the events and the
-- map of the threads.
--
-- The parts of the program and the files that model them (paths from the root of the repository):
--
-- - src/c/ubench.h: Events.Types has the snapshots and the event descriptions, Measurement.State
--   the configuration, the event sets and the table all_eventsets, with the exception that is
--   pending in the JVM.
-- - src/c/strutil.h: Strutil has the copy and the two comparisons, on C strings as lists of
--   bytes.
-- - src/c/events.c: Events.Getters has every getter, for one snapshot and for two; Events.Papi
--   the resolution and the listing of PAPI events; Events.Table the table known_events,
--   ubench_event_resolve and ubench_event_iterate. Events.Supported has isEventSupported and
--   getSupportedEvents of src/c/measurement.c.
-- - src/c/measure.c: Measure has ubench_measure_start, ubench_measure_sample and
--   ubench_measure_stop, block by block; what the clocks, getrusage, the counters and PAPI give
--   for one snapshot is the record Readings.
-- - src/c/measurement.c: Measurement.Create has createEventSet and destroyEventSet, over the
--   stages of a construction in Measurement.Stages and the loop over the names in
--   Measurement.AddEvents; Measurement.Recording start, stop, sample and reset;
--   Measurement.Results getResults and getRawResults. Measurement.Session and
--   Measurement.Benchmark put these calls together the way README.md uses them,
--   Measurement.Benchmark.WarmUp with a reset between warm-up rounds and the others, and
--   Measurement.Sampling with samples in place of rounds. Measurement.Loops has the loop over
--   several identifiers.
-- - src/c/threads.c: Threads.Map has the map of the threads and the functions over it, with the
--   callbacks of the JVM and the native methods of NativeThreads that call them; Threads.Init how
--   these callbacks are enabled. Threads.Natives performs any sequence of the calls, and
--   Threads.Table has the partial function that stands behind the map. Threads.Locking has
--   src/c/mylock.h and interleaves the critical sections of the map, each with a step that reads
--   the map and one that writes what it makes of it, and Threads.Linear compares them with one
--   after another.
-- - src/c/barrier.c: Barrier has initNative and barrier, with Barrier.init of
--   src/java/cz/cuni/mff/d3s/perf/Barrier.java; src/c-barrier/main.c: Barrier.Server has main,
--   call by call. The answers of POSIX are arguments, and the calls are values.
-- - src/c/measurement.c, further: Measurement.Attach has the two createAttachedEventSet
--   functions, which use the map of the threads, Measurement.Lifecycle the worlds that any
--   sequence of calls reaches, Measurement.Sound and Measurement.Blocks the invariant of their
--   event sets, Measurement.Readable, Measurement.Defined, Measurement.Widths and
--   Measurement.Overflow what it gives the native methods, Measurement.Arrays the laws of the
--   Java arrays of a report, and Measurement.Pairing a single pass over the snapshots that the
--   loops of getResults and getRawResults are compared with.
-- - src/c/counter.c and src/c/myatomic.h: Counter has the three counters, their callbacks and
--   getCompilationCountAndReset; Counter.Conservation interleaves them.
-- - src/c/jvmutil.c: Jvmti has the functions over a context of the JVM tool interface, with the
--   calls that they make.
-- - src/c/ubench.c: Startup has ubench_startup and ubench_shutdown with their guards,
--   Agent_OnLoad, Agent_OnUnload, JNI_OnLoad and JNI_OnUnload; ubench_startup calls the
--   initializations in Counter.Init, Threads.Init, Measurement.Init and Events.Getters.
--
-- How they interact: createEventSet resolves each name in the table of the events, which gives
-- the event its backend and its getters, and collects the backends; start and stop take a
-- snapshot of these backends and advance the index; getResults pairs the snapshots by their type
-- and calls the getters. The other files of each folder state and prove what holds of the part.
-- Prelude has the helpers that all share, Tests the concrete inputs.
--
-- The build that is modelled is the one for Linux with HAS_TIMESPEC, HAS_GETRUSAGE and HAS_PAPI.
-- Fields of type long and long long are patterns of 64 bits whose arithmetic wraps around as that
-- of the machine does, although C leaves an overflow of a signed type undefined; a jint is an
-- integer with its sign, and jmeasurements * 2 is undefined where it is no jint. size_t wraps
-- around at 2 ^ 64. A block of memory is an optional list: an access to a freed block or past the
-- end is a fault, or none in a function that returns an option. A pointer to a function is a
-- constructor of Getter, RawGetter, Resolver or Lister, and NULL is none.
--
-- PAPI, the JVM and malloc are not part of the repository. PAPI is the record Papi, of functions
-- from the arguments of a call to its results; the record Env (Measurement.Stages) has the
-- answers of the JVM, of malloc and of the PAPI calls during one createEventSet, the record
-- Objects (Measurement.Results) what the JVM makes for a report. An answer that the code uses
-- without a test, where it is NULL, leaves the behaviour undefined. Where a theorem needs what
-- PAPI documents, it says so: IsDocumented (a name that PAPI gives is found again, under the same
-- code) and IsFinite (an enumeration ends).
--
-- Fuel: only the loops over PAPI's enumerations and the loop of getResults have fuel. An
-- enumeration ends where PAPI says so, so a theorem about it has a rank that falls at each step
-- and fuel above it (Events.Ending). getResults has one more than the number of the recorded
-- snapshots, and each round moves the index forward by at least one.
--
-- Not modelled: the Windows and macOS branches; a NULL from GetIntArrayElements for the
-- identifiers in start, stop, sample and reset, whose lists are the elements that the JVM gives,
-- and an exception of addDataRow; arrays that are null; the two native methods of
-- src/c/estimations.c, which have no effect that the program sees; the message of perror and the
-- usage message of src/c-barrier/main.c; debug output; and the Java classes, which hand numbers
-- on.
pub mod Barrier
pub mod Counter
pub mod Events
pub mod Jvmti
pub mod Measure
pub mod Measurement
pub mod Prelude
pub mod Startup
pub mod Strutil
pub mod Tests
pub mod Threads
