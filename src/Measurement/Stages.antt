-- ===== src/Measurement/Stages.antt =====
-- src/c/measurement.c: the stages in which createEventSet builds an event set, and what the JVM,
-- malloc and PAPI answer during one call (`Env`).
use java_ubench_agent.Prelude.{ℕ, ℤ, Bool, none, ◌++◌}
use java_ubench_agent.Strutil.{Text, bytes}
use java_ubench_agent.Events.Papi.{Papi}
use java_ubench_agent.Measurement.State.{Config}

-- The PAPI calls that build an event set, with their return codes. `set_inherit k` is the call for
-- option `k`.
pub record PapiCalls : Type 0 where
  pub create_eventset : ℤ × ℕ
  pub assign_component : ℕ → ℕ → ℤ
  pub set_inherit : ℕ → ℤ
  pub add_event : ℕ → ℕ → ℤ
  pub attach : ℕ → ℤ → ℤ
  pub strerror : ℤ → Text
  pub papi_null : ℕ

-- Whether the exception's class is found, whether each allocation succeeds (`dup_ok k` is the copy
-- of the name of event `k`), and what realloc leaves in a new entry; `chars_ok k`: name `k` is not
-- null, and GetStringUTFChars gives its characters; `options_ok`: the array of the options is not
-- null, and GetIntArrayElements gives its elements.
pub record Env : Type 0 where
  pub class_found : Bool
  pub realloc_ok : Bool
  pub data_ok : Bool
  pub events_ok : Bool
  pub dup_ok : ℕ → Bool
  pub chars_ok : ℕ → Bool
  pub options_ok : Bool
  pub new_config : Config
  pub papi : Papi
  pub calls : PapiCalls

-- A stage of the construction: to be continued, or ended by an exception, or undefined.
pub data Stage : Type 0 where
  going : Config → Stage
  failed : Text → Config → Stage
  broken : Stage

infixl 5 ◌>>=◌
abbrev pub ◌>>=◌ : Stage → (Config → Stage) → Stage
going c >>= f = f c
failed message c >>= f = failed message c
broken >>= f = broken

-- free(used_events) and free(data)
abbrev pub free_blocks : Config → Config
free_blocks c = record c { used_events = none; snapshots = none }

abbrev pub out_of_memory : Text → Text
out_of_memory what = bytes "Out of memory (" ++ (what ++ bytes ").")

-- The message of do_papi_error_throw.
abbrev pub papi_error : PapiCalls → ℤ → Text → Text
papi_error calls rc function = function ++ (bytes " failed: " ++ (calls.strerror rc ++ bytes "."))
