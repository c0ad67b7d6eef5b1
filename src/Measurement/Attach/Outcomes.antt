-- ===== src/Measurement/Attach/Outcomes.antt =====
-- What createAttachedEventSetWithJavaThread and createAttachedEventSetWithNativeThread do on every
-- path (src/c/measurement.c).
use java_ubench_agent.Prelude.{
  if◌then◌else◌, ℕ, ℤ, pos, minus_one, int_eq, Bool, true, false, some, List, [], ◌≡◌, ◌≢◌, refl,
  sym, ◌∙◌, ap, ◌⊎◌, inl, inr, Bool-cases, subst, ℕ_discrete,
}
use java_ubench_agent.Strutil.{Text, bytes}
use java_ubench_agent.Events.Types.{backend_papi}
use java_ubench_agent.Events.Getters.{is_papi_ok}
use java_ubench_agent.Measure.{uses}
use java_ubench_agent.Threads.Map.{ThreadMap, invalid_thread_id, ubench_threads_get_native_id}
use java_ubench_agent.Measurement.State.{
  Config, World, Outcome, returned, exited, fault, do_throw, find_valid,
}
use java_ubench_agent.Measurement.Create.{create_event_set}
use java_ubench_agent.Measurement.Stages.{Env, papi_error}
use java_ubench_agent.Measurement.Create.Outcomes.{
  Success, Failure, CreatesFor, create-CreatesFor, asked_size,
}
use java_ubench_agent.Measurement.Destroy.{HasBlocks, Destroyed, destroy-Destroyed, entry_of}
use java_ubench_agent.Measurement.Attach.{
  and_then_call, give_up, attach_native, attach_java, attach_at,
  create_attached_event_set_with_java_thread, create_attached_event_set_with_native_thread,
}

-- The outcomes of the two calls: those of createEventSet, except that the behaviour is also
-- undefined where createEventSet returns -1.
abbrev pub AttachesFor : Env → ℤ → List Text → List ℤ → World → Outcome ℤ → Type 0
AttachesFor env j names options w (returned id w') =
    ((size : ℕ) × (asked_size j ≡ some size) × (names ≢ []) × Success env size names w id w')
    ⊎ Failure w id w'
AttachesFor env j names options w exited = env.class_found ≡ false
AttachesFor env j names options w fault =
    ((w1 : World) × (create_event_set env j names options w ≡ returned minus_one w1))
    ⊎ ((create_event_set env j names options w ≡ fault) × CreatesFor env j names w fault)

-- What an attachment may do with a new event set: keep it, or give it up.
abbrev Attempt : Env → ℤ → World → Outcome ℤ → Type 0
Attempt env id w1 o = (o ≡ returned id w1) ⊎ ((message : Text) × (o ≡ give_up env id message w1))

-- PAPI_attach, and what follows it.
attached-Attempt :
    (env : Env) (native_id id : ℤ) (w : World) (c : Config)
    → Attempt env id w (
        if is_papi_ok (env.calls.attach c.papi_eventset native_id)
        then returned id w
        else give_up env id
            (papi_error env.calls
              (env.calls.attach c.papi_eventset native_id)
              (bytes "PAPI_attach"))
            w)
attached-Attempt env native_id id w c =
    elim (Bool-cases (is_papi_ok (env.calls.attach c.papi_eventset native_id))) [
      | inl ok ↦ inl (rw ok refl)
      | inr bad ↦ inr (
        papi_error env.calls (env.calls.attach c.papi_eventset native_id) (bytes "PAPI_attach"),
        rw bad refl,
      )
    ]

attach_native-Attempt :
    (env : Env) (native_id id : ℤ) (w : World) (c : Config)
    → Attempt env id w (attach_native env native_id id w c)
unfolding attach_native
attach_native-Attempt = attached-Attempt

attach_java-Attempt :
    (env : Env) (threads : ThreadMap) (java_thread_id id : ℤ) (w : World) (c : Config)
    → Attempt env id w (attach_java env threads java_thread_id id w c)
unfolding attach_java
attach_java-Attempt env threads java_thread_id id w c =
    elim (Bool-cases (int_eq native_id invalid_thread_id)) [
      | inl unknown ↦ inr (bytes "Unknown thread (not registered with PAPI).", rw unknown refl)
      | inr known ↦ elim (attached-Attempt env native_id id w c) [
        | inl kept ↦ inl (rw known kept)
        | inr (message, gone) ↦ inr (message, rw known gone)
      ]
    ]
  where
    native_id : ℤ
    native_id = ubench_threads_get_native_id threads java_thread_id

module _ (env : Env) (j : ℤ) (names : List Text) (options : List ℤ) (w : World)
    (attach : ℤ → World → Config → Outcome ℤ)
    (attempt : (id : ℤ) (w1 : World) (c : Config) → Attempt env id w1 (attach id w1 c)) where
  Attaches : Outcome ℤ → Type 0
  Attaches o = AttachesFor env j names options w o

  Success-blocks :
      {size : ℕ} {id : ℤ} {w1 : World} (s : Success env size names w id w1) → HasBlocks s.config
  Success-blocks s = record {
    infos = s.built.infos;
    cells = _;
    events = s.built.events;
    snapshots = s.built.cells;
  }

  throw-Attaches :
      (b : Bool)
      → env.class_found ≡ b
      → (message : Text) (w2 : World) → ((k : ℕ) → find_valid w2 (pos k) ≡ find_valid w (pos k))
      → Attaches (do_throw b message minus_one w2)
  unfolding Attaches do_throw find_valid
  throw-Attaches true there message w2 same =
      inr (record { is_id = refl; thrown = (message, refl); others = same })
  throw-Attaches false missing message w2 same = missing

  -- A new event set that is given up: all is as before the call, but for the exception.
  give_up-Attaches :
      {size : ℕ} {id : ℤ} {w1 : World} (s : Success env size names w id w1) (message : Text)
      → Attaches (give_up env (pos s.index) message w1)
  unfolding Attaches give_up do_throw
  give_up-Attaches {w1 = w1} s message =
      let (w2, destroys, d) =
        destroy-Destroyed env.class_found s.index w1 s.valid (Success-blocks s) in
      subst Attaches
        (sym (
          ap (λ o. and_then_call o (λ _ w'. do_throw env.class_found message minus_one w'))
            destroys))
        (throw-Attaches env.class_found refl message w2 (others w2 d))
    where
      others :
          (w2 : World) (d : Destroyed w1 s.index w2) (k : ℕ)
          → find_valid w2 (pos k) ≡ find_valid w (pos k)
      others w2 d k = elim (ℕ_discrete k s.index) [
        | yes same ↦
            subst (λ i. find_valid w2 (pos i) ≡ find_valid w (pos i)) (sym same)
              (d.gone ∙ sym s.fresh)
        | no other ↦ d.others k other ∙ s.others k other
      ]

  entry-Attaches :
      {size : ℕ} {id : ℤ} {w1 : World}
      → asked_size j ≡ some size
      → names ≢ []
      → (s : Success env size names w id w1) → Attaches (attach_at attach (pos s.index) w1)
  unfolding Attaches attach_at
  entry-Attaches {size} {w1 = w1} asked named s =
      rw (entry_of w1 s.index s.valid)
        (elim (Bool-cases (uses s.config.used_backends backend_papi)) [
          | inr plain ↦ rw plain (kept refl)
          | inl papi ↦ elim (attempt (pos s.index) w1 s.config) [
            | inl keeps ↦ rw papi (kept keeps)
            | inr (message, gone) ↦ rw papi (subst Attaches (sym gone) (give_up-Attaches s message))
          ]
        ])
    where
      kept : {o : Outcome ℤ} → o ≡ returned (pos s.index) w1 → Attaches o
      kept e =
          subst Attaches (sym e)
            (inl (size, asked, named, subst (λ i. Success env size names w i w1) s.is_id s))

  create-Attaches :
      (o : Outcome ℤ)
      → create_event_set env j names options w ≡ o
      → CreatesFor env j names w o
      → Attaches (and_then_call o (attach_at attach))
  unfolding Attaches
  create-Attaches exited e h = h
  create-Attaches fault e h = inr (e, h)
  create-Attaches (returned id w1) e (inl (size, asked, named, s)) =
      subst (λ i. Attaches (attach_at attach i w1)) (sym s.is_id) (entry-Attaches asked named s)
  create-Attaches (returned id w1) e (inr f) =
      subst
        (λ i.
          create_event_set env j names options w ≡ returned i w1 → Attaches (attach_at attach i w1))
        (sym f.is_id) (λ e'. unfold attach_at in inl (w1, e')) e

-- createAttachedEventSetWithJavaThread either succeeds like createEventSet, with no other event set
-- touched; or fails with -1 and an exception, every valid event set as before and the new one
-- destroyed; or ends the process, and then the class of the exception is missing. Its behaviour is
-- undefined only where createEventSet has returned -1, or where that of createEventSet is.
pub attach_java-AttachesFor :
    (env : Env) (threads : ThreadMap) (java_thread_id j : ℤ) (names : List Text) (options : List ℤ)
    (w : World)
    → AttachesFor env j names options w
        (create_attached_event_set_with_java_thread env threads java_thread_id j names options w)
unfolding create_attached_event_set_with_java_thread Attaches
attach_java-AttachesFor env threads java_thread_id j names options w =
    create-Attaches env j names options w (attach_java env threads java_thread_id)
      (attach_java-Attempt env threads java_thread_id) _ refl
      (create-CreatesFor env j names options w)

-- createAttachedEventSetWithNativeThread either succeeds like createEventSet, with no other event
-- set touched; or fails with -1 and an exception, every valid event set as before; or ends the
-- process, and then the class of the exception is missing. Its behaviour is undefined only where
-- createEventSet has returned -1, or where that of createEventSet is.
pub attach_native-AttachesFor :
    (env : Env) (native_id j : ℤ) (names : List Text) (options : List ℤ) (w : World)
    → AttachesFor env j names options w
        (create_attached_event_set_with_native_thread env native_id j names options w)
unfolding create_attached_event_set_with_native_thread Attaches
attach_native-AttachesFor env native_id j names options w =
    create-Attaches env j names options w (attach_native env native_id)
      (attach_native-Attempt env native_id) _ refl (create-CreatesFor env j names options w)
