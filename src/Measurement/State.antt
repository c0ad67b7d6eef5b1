-- ===== src/Measurement/State.antt =====
-- src/c/measurement.c and src/c/ubench.h: the table of event sets, and exceptions. A block of memory
-- is `some` list of its cells while it is allocated, and `none` once freed or where there is none:
-- every access through `none` or past the end is a fault.
use java_ubench_agent.Prelude.{
  ℕ, ℤ, pos, negsuc, Bool, Option, none, some, List, if◌then◌else◌, get_elem?, set,
}
use java_ubench_agent.Strutil.{Text, bytes}
use java_ubench_agent.Events.Types.{Snapshot, EventInfo}

-- benchmark_configuration_t; sizes and indices are of type size_t.
pub record Config : Type 0 where
  pub used_backends : ℕ
  pub used_events : Option (List EventInfo)
  pub used_events_count : ℕ
  pub used_papi_events : List ℕ
  pub papi_eventset : ℕ
  pub papi_component : ℕ
  pub snapshots : Option (List Snapshot)
  pub data_size : ℕ
  pub data_index : ℕ

-- eventset_t
pub record Eventset : Type 0 where
  pub config : Config
  pub valid : Bool

-- all_eventsets with all_eventset_count entries, and the exception that is pending in the JVM.
pub record World : Type 0 where
  pub all_eventsets : List Eventset
  pub pending : Option Text

-- A call that returns, that ends the process, or whose behaviour is undefined.
pub data Outcome {ℓ} (A : Type ℓ) : Type ℓ where
  returned : A → World → Outcome A
  exited : Outcome A
  fault : Outcome A

-- do_throw: without the exception's class the process ends.
unfoldable pub do_throw {ℓ} : {A : Type ℓ} → Bool → Text → A → World → Outcome A
do_throw class_found message result w =
    if class_found then returned result (record w { pending = some message }) else exited

-- `(id < 0) || (id >= all_eventset_count) || !all_eventsets[id].valid`, negated: the event set.
abbrev pub if_valid : Option Eventset → Option Eventset
if_valid none = none
if_valid (some e) = if e.valid then some e else none

unfoldable pub find_valid : World → ℤ → Option Eventset
find_valid w (negsuc n) = none
find_valid w (pos n) = if_valid (get_elem? w.all_eventsets n)

-- The index of an identifier that is not negative.
abbrev pub index_of : ℤ → ℕ
index_of (pos n) = n
index_of (negsuc n) = 0

unfoldable pub put_config : World → ℤ → Eventset → Config → World
put_config w id e c = record w {
  all_eventsets = set w.all_eventsets (index_of id) (record e { config = c });
}

abbrev pub invalid_id : Text
invalid_id = bytes "Invalid event set id."
