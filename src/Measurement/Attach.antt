-- ===== src/Measurement/Attach.antt =====
-- src/c/measurement.c: createAttachedEventSetWithJavaThread and
-- createAttachedEventSetWithNativeThread.
pub mod Outcomes
use java_ubench_agent.Prelude.{
  ℕ, ℤ, pos, negsuc, minus_one, int_eq, Bool, true, false, Option, none, some, List, [],
  if◌then◌else◌, get_elem?, ◌≡◌, ◌≢◌, refl, sym, ◌∙◌, ap, ◌⊎◌, inl, inr, Bool-cases, subst,
  ℕ_discrete,
}
use java_ubench_agent.Strutil.{Text, bytes}
use java_ubench_agent.Events.Types.{backend_papi}
use java_ubench_agent.Events.Getters.{is_papi_ok}
use java_ubench_agent.Measure.{uses}
use java_ubench_agent.Threads.Map.{ThreadMap, invalid_thread_id, ubench_threads_get_native_id}
use java_ubench_agent.Measurement.State.{
  Config, Eventset, World, Outcome, returned, exited, fault, do_throw, find_valid,
}
use java_ubench_agent.Measurement.Create.{create_event_set, destroy_event_set}
use java_ubench_agent.Measurement.Stages.{Env, papi_error}
use java_ubench_agent.Measurement.Create.Outcomes.{
  Success, Failure, CreatesFor, create-CreatesFor, asked_size,
}
use java_ubench_agent.Measurement.Destroy.{HasBlocks, Destroyed, destroy-Destroyed, entry_of}

-- A call behind another one that has returned.
abbrev pub and_then_call {ℓ} :
    {A : Type ℓ} {B : Type 0} → Outcome A → (A → World → Outcome B) → Outcome B
and_then_call (returned a w) f = f a w
and_then_call exited f = exited
and_then_call fault f = fault

-- destroyEventSet, an exception, and -1.
unfoldable pub give_up : Env → ℤ → Text → World → Outcome ℤ
unfolding destroy_event_set do_throw
give_up env id message w =
    and_then_call (destroy_event_set env.class_found id w)
      (λ _ w'. do_throw env.class_found message minus_one w')

-- PAPI_attach, for the native thread.
unfoldable pub attach_native : Env → ℤ → ℤ → World → Config → Outcome ℤ
unfolding give_up
attach_native env native_id id w c =
    let rc = env.calls.attach c.papi_eventset native_id in
    if is_papi_ok rc
    then returned id w
    else give_up env id (papi_error env.calls rc (bytes "PAPI_attach")) w

-- The native thread of a Java thread first.
unfoldable pub attach_java : Env → ThreadMap → ℤ → ℤ → World → Config → Outcome ℤ
unfolding give_up ubench_threads_get_native_id
attach_java env threads java_thread_id id w c =
    let native_id = ubench_threads_get_native_id threads java_thread_id in
    if int_eq native_id invalid_thread_id
    then give_up env id (bytes "Unknown thread (not registered with PAPI).") w
    else let rc = env.calls.attach c.papi_eventset native_id in
      if is_papi_ok rc
      then returned id w
      else give_up env id (papi_error env.calls rc (bytes "PAPI_attach")) w

abbrev pub attach_entry : (ℤ → World → Config → Outcome ℤ) → ℤ → World → Option Eventset → Outcome ℤ
attach_entry attach id w none = fault
attach_entry attach id w (some e) =
    if uses e.config.used_backends backend_papi then attach id w e.config else returned id w

-- `all_eventsets[eventset_index]` is read without a test of the index.
unfoldable pub attach_at : (ℤ → World → Config → Outcome ℤ) → ℤ → World → Outcome ℤ
unfolding uses
attach_at attach (negsuc n) w = fault
attach_at attach (pos n) w = attach_entry attach (pos n) w (get_elem? w.all_eventsets n)

unfoldable pub create_attached_event_set_with_java_thread :
    Env → ThreadMap → ℤ → ℤ → List Text → List ℤ → World → Outcome ℤ
unfolding create_event_set attach_at attach_java
create_attached_event_set_with_java_thread env threads java_thread_id jmeasurements names options
      w =
    and_then_call (create_event_set env jmeasurements names options w)
      (attach_at (attach_java env threads java_thread_id))

unfoldable pub create_attached_event_set_with_native_thread :
    Env → ℤ → ℤ → List Text → List ℤ → World → Outcome ℤ
unfolding create_event_set attach_at attach_native
create_attached_event_set_with_native_thread env native_id jmeasurements names options w =
    and_then_call (create_event_set env jmeasurements names options w)
      (attach_at (attach_native env native_id))
