-- ===== src/Events/Resolution.antt =====
-- What ubench_event_resolve (src/c/events.c) answers.
use java_ubench_agent.Prelude.{
  ℕ, zero, suc, ◌∙◌, ap, Bool, true, false, Option, none, some, ◌≡◌, refl, inl, inr, List, [], ◌∷◌,
  All, arith, Option-cases, get_elem?,
}
use java_ubench_agent.Strutil.{Text, ubench_str_dup}
use java_ubench_agent.Events.Types.{
  EventInfo, RawGetter, Getter, backend_resource_usage, backend_papi, backend_sys_wallclock,
  backend_jvm_compilations, backend_sys_threadtime,
}
use java_ubench_agent.Events.Papi.{Papi, resolve_papi_event, resolve_papi_event_with_prefix}
use java_ubench_agent.Events.Table.{
  KnownEvent, Resolver, known_events, fill_info, try_event, resolve_in, ubench_event_resolve,
}

module _ (papi : Papi) (dup_ok : Bool) (event : Text) (info : EventInfo) where
  -- The entry that answers, with what the search did there.
  pub record Answer (P : KnownEvent → Type 0) (result : EventInfo) : Type 0 where
    pub entry : KnownEvent
    pub holds : P entry
    pub resolved : EventInfo
    pub tried : try_event papi event info entry ≡ some resolved
    pub filled : result ≡ fill_info dup_ok event entry resolved

  resolve_in-Answer :
      (P : KnownEvent → Type 0) (entries : List KnownEvent)
      → All P entries
      → {result : EventInfo} → resolve_in papi dup_ok event info entries ≡ (true, result)
      → Answer P result
  unfolding resolve_in
  resolve_in-Answer P [] h e = ground arith
  resolve_in-Answer P (it ∷ rest) h {result} e =
      elim (Option-cases (try_event papi event info it)) [
        | inl missed ↦ resolve_in-Answer P rest h.1 (rw (missed, resolve_in) at e)
        | inr (info', hit) ↦ record {
          entry = it;
          holds = h.0;
          resolved = info';
          tried = hit;
          filled = ground arith;
        }
      ]

  -- Without an answer the description stays as it was.
  resolve_in-false :
      (entries : List KnownEvent) {result : EventInfo}
      → resolve_in papi dup_ok event info entries ≡ (false, result)
      → result ≡ info
  unfolding resolve_in
  resolve_in-false [] e = ground arith
  resolve_in-false (it ∷ rest) e = elim (Option-cases (try_event papi event info it)) [
    | inl missed ↦ resolve_in-false rest (rw (missed, resolve_in) at e)
    | inr (info', hit) ↦ ground arith
  ]

  -- An entry that is tried with success makes the search succeed, wherever it stands.
  pub resolve_in_of_try :
      (entries : List KnownEvent) (i : ℕ) {it : KnownEvent} {info' : EventInfo}
      → get_elem? entries i ≡ some it
      → try_event papi event info it ≡ some info'
      → (resolve_in papi dup_ok event info entries).0 ≡ true
  unfolding resolve_in
  resolve_in_of_try [] i at hit = cc
  resolve_in_of_try (x ∷ rest) zero at hit = ground arith
  resolve_in_of_try (x ∷ rest) (suc i) at hit = ground (arith, resolve_in_of_try rest i at hit)

-- The raw getter that belongs to a getter.
abbrev pub raw_of : Getter → RawGetter
raw_of Getter.wall_clock_time = RawGetter.raw_wall_clock_time
raw_of Getter.thread_time = RawGetter.raw_thread_time
raw_of Getter.jvm_compilations = RawGetter.raw_jvm_compilations
raw_of Getter.context_switch_forced = RawGetter.raw_context_switch_forced
raw_of Getter.thread_time_rusage = RawGetter.raw_thread_time_rusage
raw_of Getter.papi = RawGetter.raw_papi

-- The backend that takes the value which a getter reads.
abbrev pub backend_of : Getter → ℕ
backend_of Getter.wall_clock_time = backend_sys_wallclock
backend_of Getter.thread_time = backend_sys_threadtime
backend_of Getter.jvm_compilations = backend_jvm_compilations
backend_of Getter.context_switch_forced = backend_resource_usage
backend_of Getter.thread_time_rusage = backend_resource_usage
backend_of Getter.papi = backend_papi

abbrev IsConsistent : KnownEvent → Type 0
IsConsistent it = (it.getter_raw ≡ raw_of it.getter) × (it.backend ≡ backend_of it.getter)

known_events-IsConsistent : All IsConsistent known_events
unfolding known_events
known_events-IsConsistent = (
  (refl, refl),
  (
    (refl, refl),
    (
      (refl, refl),
      (
        (refl, refl),
        (
          (refl, refl),
          ((refl, refl), ((refl, refl), ((refl, refl), ((refl, refl), ((refl, refl), tt))))),
        ),
      ),
    ),
  ),
)

-- What a resolved description holds: one of the getters, the raw getter and the backend that belong
-- to it, and the name that was asked for, or NULL without memory for a copy.
pub record IsResolved (dup_ok : Bool) (event : Text) (info : EventInfo) : Type 0 where
  pub getter : Getter
  pub op_get : info.op_get ≡ some getter
  pub op_get_raw : info.op_get_raw ≡ some (raw_of getter)
  pub backend : info.backend ≡ backend_of getter
  pub name : info.name ≡ ubench_str_dup dup_ok event

-- A successful ubench_event_resolve leaves a description whose two getters and whose backend belong
-- together and whose name is the copy of the name that was asked for.
pub resolve-IsResolved :
    (papi : Papi) (dup_ok : Bool) (event : Text) (info : EventInfo) {result : EventInfo}
    → ubench_event_resolve papi dup_ok (some event) info ≡ (true, result)
    → IsResolved dup_ok event result
unfolding ubench_event_resolve
resolve-IsResolved papi dup_ok event info e =
    let a =
      resolve_in-Answer papi dup_ok event info IsConsistent known_events known_events-IsConsistent
        e in
    record {
      getter = a.entry.getter;
      op_get = ap (λ i. i.op_get) a.filled;
      op_get_raw = ap (λ i. i.op_get_raw) a.filled ∙ ap some a.holds.0;
      backend = ap (λ i. i.backend) a.filled ∙ a.holds.1;
      name = ap (λ i. i.name) a.filled;
    }

-- A failed ubench_event_resolve, for the NULL name or for one that no entry takes, leaves the
-- description as it was.
pub resolve-false :
    (papi : Papi) (dup_ok : Bool) (event : Option Text) (info : EventInfo) {result : EventInfo}
    → ubench_event_resolve papi dup_ok event info ≡ (false, result)
    → result ≡ info
unfolding ubench_event_resolve
resolve-false papi dup_ok none info e = ground arith
resolve-false papi dup_ok (some event) info e =
    resolve_in-false papi dup_ok event info known_events e

-- The index of the counter is not the resolution's.
try_event-papi_index :
    (papi : Papi) (event : Text) (info : EventInfo) (it : KnownEvent) {info' : EventInfo}
    → try_event papi event info it ≡ some info'
    → info'.papi_index ≡ info.papi_index
unfolding try_event resolve_papi_event_with_prefix resolve_papi_event
try_event-papi_index papi event info it e = elim (Option-cases it.resolver) [
  | inl plain ↦ ground (arith, e, plain)
  | inr (Resolver.papi_with_prefix, r) ↦ ground (arith, e, r)
  | inr (Resolver.papi_without_prefix, r) ↦ ground (arith, e, r)
]

pub resolve-papi_index :
    (papi : Papi) (dup_ok : Bool) (event : Text) (info : EventInfo) {result : EventInfo}
    → ubench_event_resolve papi dup_ok (some event) info ≡ (true, result)
    → result.papi_index ≡ info.papi_index
unfolding ubench_event_resolve
resolve-papi_index papi dup_ok event info e =
    let a =
      resolve_in-Answer papi dup_ok event info IsConsistent known_events known_events-IsConsistent
        e in
    ap (λ i. i.papi_index) a.filled ∙ try_event-papi_index papi event info a.entry a.tried
