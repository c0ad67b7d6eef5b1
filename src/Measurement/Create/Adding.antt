-- ===== src/Measurement/Create/Adding.antt =====
-- The loops of createEventSet keep what `Building` says (src/c/measurement.c).
use mathlib.Core.List.{append-nil, append_assoc}
use java_ubench_agent.Prelude.{
  All-set, All-get, All-replicate, ℕ, suc, ◌+◌, ◌≤◌, ◌<◌, ℤ, bit_or, not, ◌&&◌, Bool, true, some,
  ◌≡◌, refl, sym, ◌∙◌, ap, ◌⊎◌, inl, inr, List, [], ◌∷◌, ◌++◌, ◌==◌, ltb, get_elem?, set, length,
  replicate, length-append, length-set, length-replicate, get_elem?-lt, arith, subst, Bool-cases,
}
use java_ubench_agent.Strutil.{Text}
use java_ubench_agent.Events.Types.{EventInfo, zero_info, max_papi_events, backend_papi}
use java_ubench_agent.Events.Table.{ubench_event_resolve}
use java_ubench_agent.Events.Resolution.{
  IsResolved, resolve-IsResolved, resolve-papi_index, backend_of,
}
use java_ubench_agent.Measure.{uses}
use java_ubench_agent.Measurement.State.{Config}
use java_ubench_agent.Measurement.Create.{setup_papi, allocate, build}
use java_ubench_agent.Measurement.AddEvents.{
  assign_papi_index, check_component, store_info, add_resolved, add_at, add_in, add_event,
  add_events,
}
use java_ubench_agent.Measurement.Stages.{Env}
use java_ubench_agent.Measurement.Create.Backends.{or-lt, uses-or_self, uses-or}
use java_ubench_agent.Measurement.Create.Building.{
  guarded-Safe, Refused, Safe, Safe-bind, IsAdded, Described, Extends, Described-extend,
  Described-push, IsIndexed, Building, Assigned, assign-Assigned,
}
use java_ubench_agent.Measurement.Create.PapiSetup.{setup_papi-Safe}

module _ (env : Env) (total size : ℕ) where
  -- What leaves a round undefined.
  abbrev U : Type 0
  U = Refused env total

  abbrev Built : List Text → Config → Type 0
  Built done = Building env.dup_ok done total size

  -- The event set with a description stored, whose index and identifiers are given.
  module _ (done : List Text) (name : Text) (c : Config) (b : Building env.dup_ok done total size c)
      (room : length done < total) (info : EventInfo)
      (resolved : IsResolved (env.dup_ok (length done)) name info) (bound : IsIndexed info) where
    abbrev counted : Config
    counted = record c {
      used_events_count = c.used_events_count + 1;
      used_backends = bit_or c.used_backends info.backend;
    }

    backends_eq :
        bit_or c.used_backends info.backend ≡ bit_or c.used_backends (backend_of resolved.getter)
    backends_eq = ap (bit_or c.used_backends) resolved.backend

    -- Any later event set with the same blocks, the new backends and more identifiers.
    stored-Built :
        (info' : EventInfo) (index : ℕ) (papis : List ℕ) (component : ℕ)
        → info' ≡ record info { papi_index = index }
        → length papis ≤ max_papi_events
        → ((i v : ℕ) → get_elem? c.used_papi_events i ≡ some v → get_elem? papis i ≡ some v)
        → length c.used_papi_events ≤ length papis
        → (info.backend ≡ backend_papi
            → (get_elem? papis index ≡ some info.id) ⊎ (length papis ≡ max_papi_events))
        → index < max_papi_events
        → Built (done ++ name ∷ []) (record counted {
          used_papi_events = papis;
          papi_component = component;
          used_events = some (set b.infos c.used_events_count info');
        })
    stored-Built info' index papis component same le kept longer registered inside = record {
      infos = set b.infos c.used_events_count info';
      events = refl;
      total_eq = length-set b.infos c.used_events_count info' ∙ b.total_eq;
      count = omega (arith, b.count, length-append done (name ∷ []));
      described =
          subst (λ j. Described env.dup_ok 0 (done ++ name ∷ []) after (set b.infos j info'))
            (sym b.count)
            (Described-push env.dup_ok 0 done after b.infos name info'
              (Described-extend env.dup_ok 0 done c after b.infos extends b.described)
              (omega (arith, b.total_eq, room))
              (subst (λ j. IsAdded (env.dup_ok j) name after info') (omega arith)
                (subst (IsAdded (env.dup_ok (length done)) name after) (sym same) added)));
      indexed =
          All-set IsIndexed b.infos c.used_events_count info' b.indexed
            (subst IsIndexed (sym same) inside);
      small = subst (λ u. u < 64) (sym backends_eq) (or-lt resolved.getter c.used_backends b.small);
      papi_room = le;
      cells = b.cells;
      data_size = b.data_size;
      data_index = b.data_index;
    }
      where
        after : Config
        after = record counted {
          used_papi_events = papis;
          papi_component = component;
          used_events = some (set b.infos c.used_events_count info');
        }

        extends : Extends c after
        extends = record {
          backends = λ h used.
              subst (λ u. uses u (backend_of h) ≡ true) (sym backends_eq)
                (uses-or resolved.getter c.used_backends b.small h used);
          kept = kept;
          full = λ e. omega (arith, e, longer, le);
        }

        added : IsAdded (env.dup_ok (length done)) name after (record info { papi_index = index })
        added = record {
          resolved = record {
            getter = resolved.getter;
            op_get = resolved.op_get;
            op_get_raw = resolved.op_get_raw;
            backend = resolved.backend;
            name = resolved.name;
          };
          used =
              subst (λ u. uses (bit_or c.used_backends u) u ≡ true) (sym resolved.backend)
                (uses-or_self resolved.getter c.used_backends b.small);
          registered = registered;
        }

    -- A PAPI event, with its index assigned.
    papi-Safe :
        (info' : EventInfo) (c' : Config)
        → Assigned info info' counted c'
        → Safe U
            (Built (done ++ name ∷ []))
            (check_component info' (store_info b.infos c.used_events_count info' c'))
    unfolding check_component
    papi-Safe info' c' a =
        subst
          (λ x.
            Safe U (Built (done ++ name ∷ []))
              (check_component info' (store_info b.infos c.used_events_count info' x)))
          (sym a.same_config)
          (elim (Bool-cases
            (ltb 1 (length a.papis) && not (c.papi_component == info'.papi_component))) [
              | inl mismatch ↦ rw mismatch tt
              | inr same ↦ rw same (
                  stored-Built info' a.index a.papis info'.papi_component a.same_info a.room a.kept
                    a.longer (λ _. a.registered) a.indexed)
            ])

    -- The rest of a round, for a resolved description.
    added-Safe : Safe U (Built (done ++ name ∷ [])) (add_resolved b.infos info c)
    unfolding add_resolved
    added-Safe = elim (Bool-cases (info.backend == backend_papi)) [
      | inl papi ↦ rw papi (
          papi-Safe (assign_papi_index info counted).0 (assign_papi_index info counted).1
            (assign-Assigned info counted b.papi_room bound))
      | inr other ↦ rw other (
          stored-Built info info.papi_index c.used_papi_events c.papi_component refl b.papi_room
            (λ i v e. e) (omega arith) (λ e. absurd (ground (arith, other, e))) bound)
    ]

  -- One round of the loop over the names.
  add_event-Safe :
      (done : List Text) (name : Text) (c : Config)
      → Built done c
      → length done < total
      → Safe U (Built (done ++ name ∷ [])) (add_event env (length done) name c)
  unfolding add_event
  add_event-Safe done name c b room =
      let (cell, at) =
        get_elem?-lt b.infos c.used_events_count (omega (arith, b.count, b.total_eq)) in
      guarded-Safe U (Built (done ++ name ∷ [])) (env.chars_ok (length done)) _
        (λ refused. inl (length done, room, refused))
        (subst (λ o. Safe U (Built (done ++ name ∷ [])) (add_in env (length done) name c o))
          (sym b.events)
          (subst
            (λ o. Safe U (Built (done ++ name ∷ [])) (add_at env (length done) name c b.infos o))
            (sym at)
            (resolve-Safe cell (All-get IsIndexed b.infos c.used_events_count b.indexed at))))
    where
      answer : EventInfo → Bool × EventInfo
      answer cell = ubench_event_resolve env.papi (env.dup_ok (length done)) (some name) cell

      resolve-Safe :
          (cell : EventInfo)
          → IsIndexed cell
          → Safe U (Built (done ++ name ∷ [])) (add_at env (length done) name c b.infos (some cell))
      resolve-Safe cell inside =
          elim (Bool-cases
            (ubench_event_resolve env.papi (env.dup_ok (length done)) (some name) cell).0) [
              | inl ok ↦ rw ok (
                  added-Safe done name c b room (answer cell).1
                    (resolve-IsResolved env.papi (env.dup_ok (length done)) name cell
                      (λ i. (ok i, (answer cell).1)))
                    (subst (λ i. i < max_papi_events)
                      (sym (
                        resolve-papi_index env.papi (env.dup_ok (length done)) name cell
                          (λ i. (ok i, (answer cell).1))))
                      inside))
              | inr bad ↦ rw bad tt
            ]

  add_events-Safe :
      (done names : List Text) (c : Config)
      → Built done c
      → length done + length names ≤ total
      → Safe U (Built (done ++ names)) (add_events env (length done) names c)
  unfolding add_events
  add_events-Safe done [] c b room = subst (λ ns. Built ns c) (sym (append-nil done)) b
  add_events-Safe done (name ∷ names) c b room =
      Safe-bind U (Built (done ++ name ∷ [])) (Built (done ++ name ∷ names))
        (add_event env (length done) name c) (add_events env (suc (length done)) names)
        (add_event-Safe done name c b (omega arith))
        (λ c' b'.
          subst (λ k. Safe U (Built (done ++ name ∷ names)) (add_events env k names c')) one_more
            (subst (λ ns. Safe U (Built ns) (add_events env (length (done ++ name ∷ [])) names c'))
              (append_assoc done (name ∷ []) names)
              (add_events-Safe (done ++ name ∷ []) names c' b' (omega (arith, one_more)))))
    where
      one_more : length (done ++ name ∷ []) ≡ suc (length done)
      one_more = omega (arith, length-append done (name ∷ []))

  allocate-Safe :
      (count : ℕ) (c : Config) → count ≡ total → Safe U (Built []) (allocate env size count c)
  unfolding allocate
  allocate-Safe count c e = elim (Bool-cases env.data_ok) [
    | inr no_data ↦ rw no_data tt
    | inl data_there ↦ elim (Bool-cases env.events_ok) [
      | inr no_events ↦ rw (data_there, no_events) tt
      | inl events_there ↦
          rw (data_there, events_there)
            (record {
              infos = replicate count zero_info;
              events = refl;
              total_eq = length-replicate count zero_info ∙ e;
              count = refl;
              described = tt;
              indexed = All-replicate IsIndexed count zero_info (omega arith);
              small = omega arith;
              papi_room = omega arith;
              cells = refl;
              data_size = refl;
              data_index = refl;
            })
    ]
  ]

-- createEventSet's work on the entry: it is undefined only where the JVM refuses the characters of a
-- name or the elements of the options, and if it does not end by an exception, every name has its
-- description and the snapshots are allocated, empty and as many as asked for.
pub build-Safe :
    (env : Env) (size : ℕ) (names : List Text) (options : List ℤ) (c : Config)
    → Safe
        (Refused env (length names))
        (Building env.dup_ok names (length names) size)
        (build env size names options c)
unfolding build
build-Safe env size names options c =
    Safe-bind (Refused env (length names)) (Built env (length names) size names)
      (Built env (length names) size names) _ (setup_papi env options)
      (Safe-bind (Refused env (length names)) (Built env (length names) size [])
        (Built env (length names) size names) _ (add_events env 0 names)
        (allocate-Safe env (length names) size (length names) c refl)
        (λ c' b. add_events-Safe env (length names) size [] names c' b (omega arith)))
      (λ c' b.
        setup_papi-Safe env (length names) (Built env (length names) size names) options c' b
          (record {
            infos = b.infos;
            events = b.events;
            total_eq = b.total_eq;
            count = b.count;
            described =
                Described-extend env.dup_ok 0 names c' _ b.infos
                  (record { backends = λ g u. u; kept = λ i v e. e; full = λ e. e }) b.described;
            indexed = b.indexed;
            small = b.small;
            papi_room = b.papi_room;
            cells = b.cells;
            data_size = b.data_size;
            data_index = b.data_index;
          }))
