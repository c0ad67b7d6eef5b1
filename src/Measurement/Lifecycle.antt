-- ===== src/Measurement/Lifecycle.antt =====
-- The event sets over the lifetime of the agent (src/c/measurement.c): the worlds that the native
-- methods reach, and the event sets in them.
use java_ubench_agent.Prelude.{ℕ, ℤ, Bool, none, ◌≡◌, List, [], arith, subst}
use java_ubench_agent.Strutil.{Text}
use java_ubench_agent.Measure.{Readings}
use java_ubench_agent.Threads.Map.{ThreadMap}
use java_ubench_agent.Measurement.State.{World, returned, find_valid}
use java_ubench_agent.Measurement.Recording.{
  start_one, stop_one, sample_one, reset_one, start, stop, sample, reset,
}
use java_ubench_agent.Measurement.Create.{create_event_set, destroy_event_set}
use java_ubench_agent.Measurement.Stages.{Env}
use java_ubench_agent.Measurement.Create.Outcomes.{CreatesFor, create-CreatesFor}
use java_ubench_agent.Measurement.Attach.{
  create_attached_event_set_with_java_thread, create_attached_event_set_with_native_thread,
}
use java_ubench_agent.Measurement.Attach.Outcomes.{
  AttachesFor, attach_java-AttachesFor, attach_native-AttachesFor,
}
use java_ubench_agent.Measurement.Blocks.{
  IsWhole, pending-IsWhole, create-IsWhole, for_ids-IsWhole, destroy-IsWhole,
}
use java_ubench_agent.Measurement.Sound.{
  start_one-Keeps, sample_one-Keeps, stop_one-Keeps, reset_one-Keeps,
}

-- The worlds that sequences of calls reach, each call with its own environment: from the agent's
-- start on, with the exceptions that the Java code handles.
pub data Reachable : World → Type 0 where
  loaded : Reachable (record { all_eventsets = []; pending = none })
  handles : {w : World} → Reachable w → Reachable (record w { pending = none })
  creates :
      {w w' : World} (env : Env) (j : ℤ) (names : List Text) (options : List ℤ) {id : ℤ}
      → Reachable w
      → create_event_set env j names options w ≡ returned id w'
      → Reachable w'
  attaches_java :
      {w w' : World} (env : Env) (threads : ThreadMap) (thread j : ℤ) (names : List Text)
      (options : List ℤ) {id : ℤ}
      → Reachable w
      → create_attached_event_set_with_java_thread env threads thread j names options w
        ≡ returned id w'
      → Reachable w'
  attaches_native :
      {w w' : World} (env : Env) (thread j : ℤ) (names : List Text) (options : List ℤ) {id : ℤ}
      → Reachable w
      → create_attached_event_set_with_native_thread env thread j names options w ≡ returned id w'
      → Reachable w'
  destroys :
      {w w' : World} (class_found : Bool) (id : ℤ)
      → Reachable w
      → destroy_event_set class_found id w ≡ returned tt w'
      → Reachable w'
  starts :
      {w w' : World} (class_found : Bool) (r : ℕ → Readings) (ids : List ℤ)
      → Reachable w
      → start class_found r ids w ≡ returned tt w'
      → Reachable w'
  stops :
      {w w' : World} (class_found : Bool) (r : ℕ → Readings) (ids : List ℤ)
      → Reachable w
      → stop class_found r ids w ≡ returned tt w'
      → Reachable w'
  samples :
      {w w' : World} (class_found : Bool) (r : ℕ → Readings) (user_id : ℤ) (ids : List ℤ)
      → Reachable w
      → sample class_found r user_id ids w ≡ returned tt w'
      → Reachable w'
  resets :
      {w w' : World} (class_found : Bool) (ids : List ℤ)
      → Reachable w
      → reset class_found ids w ≡ returned tt w'
      → Reachable w'

-- In every world that the native methods reach, each valid event set has both of its blocks of
-- memory, its index is at most the number of its snapshots, each snapshot has room for every
-- counter, and each event in use has its two getters and a counter inside that room.
pub Reachable-IsWhole : {w : World} → Reachable w → IsWhole w
Reachable-IsWhole loaded = λ k e h. absurd (unfold find_valid in ground (arith, h))
Reachable-IsWhole (handles {w} r) = pending-IsWhole w none (Reachable-IsWhole r)
Reachable-IsWhole (creates {w} {w'} env j names options {id} r e) =
    create-IsWhole env j names w w' id
      (subst (CreatesFor env j names w) e (create-CreatesFor env j names options w))
      (Reachable-IsWhole r)
Reachable-IsWhole (attaches_java {w} {w'} env threads thread j names options {id} r e) =
    create-IsWhole env j names w w' id
      (subst (AttachesFor env j names options w) e
        (attach_java-AttachesFor env threads thread j names options w))
      (Reachable-IsWhole r)
Reachable-IsWhole (attaches_native {w} {w'} env thread j names options {id} r e) =
    create-IsWhole env j names w w' id
      (subst (AttachesFor env j names options w) e
        (attach_native-AttachesFor env thread j names options w))
      (Reachable-IsWhole r)
Reachable-IsWhole (destroys {w} {w'} class_found id r e) =
    destroy-IsWhole class_found id w e (Reachable-IsWhole r)
Reachable-IsWhole (starts {w} {w'} class_found readings ids r e) =
    for_ids-IsWhole class_found (λ k. start_one (readings k)) 0 ids w
      (λ k. start_one-Keeps (readings k)) (unfold start in e) (Reachable-IsWhole r)
Reachable-IsWhole (stops {w} {w'} class_found readings ids r e) =
    for_ids-IsWhole class_found (λ k. stop_one (readings k)) 0 ids w
      (λ k. stop_one-Keeps (readings k)) (unfold stop in e) (Reachable-IsWhole r)
Reachable-IsWhole (samples {w} {w'} class_found readings user_id ids r e) =
    for_ids-IsWhole class_found (λ k. sample_one user_id (readings k)) 0 ids w
      (λ k. sample_one-Keeps user_id (readings k)) (unfold sample in e) (Reachable-IsWhole r)
Reachable-IsWhole (resets {w} {w'} class_found ids r e) =
    for_ids-IsWhole class_found (λ k. reset_one) 0 ids w (λ k. reset_one-Keeps) (unfold reset in e)
      (Reachable-IsWhole r)
