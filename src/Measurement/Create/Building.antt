-- ===== src/Measurement/Create/Building.antt =====
-- The state of an event set while createEventSet adds its events (src/c/measurement.c).
use java_ubench_agent.Prelude.{
  All, ℕ, suc, ◌+◌, ◌≤◌, ◌<◌, Bool, true, false, some, ◌≡◌, refl, not, if◌then◌else◌, sym, ◌∙◌, ap,
  ◌⊎◌, inl, inr, List, [], ◌∷◌, ◌++◌, ◌==◌, ltb, ltb→lt, get_elem?, set, length, replicate,
  length-append, get_elem?-append_left, get_elem?-append_last, lt_of_get_elem?, arith, subst,
  Bool-cases, Option-cases,
}
use java_ubench_agent.Strutil.{Text}
use java_ubench_agent.Events.Types.{EventInfo, Getter, zero_snapshot, max_papi_events, backend_papi}
use java_ubench_agent.Events.Resolution.{IsResolved, backend_of}
use java_ubench_agent.Measure.{uses}
use java_ubench_agent.Measurement.State.{Config}
use java_ubench_agent.Measurement.AddEvents.{index_of_id, assign_papi_index}
use java_ubench_agent.Measurement.Stages.{Env, Stage, going, failed, broken, ◌>>=◌}

-- A stage whose event set satisfies `P` if the construction goes on, and that is undefined only
-- where `U` holds.
abbrev pub Safe : Type 0 → (Config → Type 0) → Stage → Type 0
Safe U P (going c) = P c
Safe U P (failed message c) = Unit {0}
Safe U P broken = U

-- The JVM refuses the characters of a name, of `n`, or the elements of the options.
abbrev pub Refused : Env → ℕ → Type 0
Refused env n = ((k : ℕ) × (k < n) × (env.chars_ok k ≡ false)) ⊎ (env.options_ok ≡ false)

pub Safe-bind :
    (U : Type 0) (P Q : Config → Type 0) (s : Stage) (f : Config → Stage)
    → Safe U P s
    → ((c : Config) → P c → Safe U Q (f c))
    → Safe U Q (s >>= f)
Safe-bind U P Q (going c) f p h = h c p
Safe-bind U P Q (failed message c) f p h = tt
Safe-bind U P Q broken f p h = p

-- A stage behind an answer of the JVM that the code does not test.
pub guarded-Safe :
    (U : Type 0) (P : Config → Type 0) (b : Bool) (s : Stage)
    → (b ≡ false → U)
    → Safe U P s
    → Safe U P (if not b then broken else s)
guarded-Safe U P true s refused h = h
guarded-Safe U P false s refused h = refused refl

-- The description of an event that has been added: resolved under its name, its backend among those
-- in use, and a PAPI event's index that of its identifier among the registered ones, unless there is
-- no room for more of these.
pub record IsAdded (dup_ok : Bool) (name : Text) (c : Config) (info : EventInfo) : Type 0 where
  pub resolved : IsResolved dup_ok name info
  pub used : uses c.used_backends info.backend ≡ true
  pub registered :
      info.backend ≡ backend_papi
      → (get_elem? c.used_papi_events info.papi_index ≡ some info.id)
        ⊎ (length c.used_papi_events ≡ max_papi_events)

-- The descriptions of the first events, whose names are given, from number `k` on.
abbrev pub Described : (ℕ → Bool) → ℕ → List Text → Config → List EventInfo → Type 0
Described dup_ok k [] c infos = Unit {0}
Described dup_ok k (name ∷ names) c [] = ⊥
Described dup_ok k (name ∷ names) c (info ∷ infos) =
    IsAdded (dup_ok k) name c info × Described dup_ok (suc k) names c infos

-- More backends in use, and more registered identifiers behind the old ones.
pub record Extends (c c' : Config) : Type 0 where
  pub backends :
      (g : Getter)
      → uses c.used_backends (backend_of g) ≡ true
      → uses c'.used_backends (backend_of g) ≡ true
  pub kept :
      (i : ℕ) (v : ℕ)
      → get_elem? c.used_papi_events i ≡ some v
      → get_elem? c'.used_papi_events i ≡ some v
  pub full :
      length c.used_papi_events ≡ max_papi_events → length c'.used_papi_events ≡ max_papi_events

IsAdded-extend :
    {dup_ok : Bool} {name : Text} {c : Config} (c' : Config) {info : EventInfo}
    → Extends c c'
    → IsAdded dup_ok name c info
    → IsAdded dup_ok name c' info
IsAdded-extend {c = c} c' {info} ext a = record {
  resolved = a.resolved;
  used =
      subst (λ b. uses c'.used_backends b ≡ true) (sym a.resolved.backend)
        (ext.backends a.resolved.getter
          (subst (λ b. uses c.used_backends b ≡ true) a.resolved.backend a.used));
  registered = λ e. elim (a.registered e) [
    | inl at ↦ inl (ext.kept info.papi_index info.id at)
    | inr all ↦ inr (ext.full all)
  ];
}

pub Described-extend :
    (dup_ok : ℕ → Bool) (k : ℕ) (names : List Text) (c c' : Config) (infos : List EventInfo)
    → Extends c c'
    → Described dup_ok k names c infos
    → Described dup_ok k names c' infos
Described-extend dup_ok k [] c c' infos ext h = tt
Described-extend dup_ok k (name ∷ names) c c' [] ext h = h
Described-extend dup_ok k (name ∷ names) c c' (info ∷ infos) ext h =
    (IsAdded-extend c' ext h.0, Described-extend dup_ok (suc k) names c c' infos ext h.1)

-- One more description, behind the others.
pub Described-push :
    (dup_ok : ℕ → Bool) (k : ℕ) (names : List Text) (c : Config) (infos : List EventInfo)
    (name : Text) (info : EventInfo)
    → Described dup_ok k names c infos
    → length names < length infos
    → IsAdded (dup_ok (k + length names)) name c info
    → Described dup_ok k (names ++ name ∷ []) c (set infos (length names) info)
Described-push dup_ok k [] c [] name info h lt a = absurd (omega arith)
Described-push dup_ok k [] c (x ∷ infos) name info h lt a =
    (subst (λ j. IsAdded (dup_ok j) name c info) (omega arith) a, tt)
Described-push dup_ok k (y ∷ names) c [] name info h lt a = h
Described-push dup_ok k (y ∷ names) c (x ∷ infos) name info h lt a = (
  h.0,
  Described-push dup_ok (suc k) names c infos name info h.1 (omega arith)
      (subst (λ j. IsAdded (dup_ok j) name c info) (omega arith) a),
)

-- A description whose counter is inside the array of a snapshot.
abbrev pub IsIndexed : EventInfo → Type 0
IsIndexed info = info.papi_index < max_papi_events

-- The event set behind the allocations, with the events of the names `done` added.
pub record Building (dup_ok : ℕ → Bool) (done : List Text) (total size : ℕ) (c : Config)
    : Type 0 where
  pub infos : List EventInfo
  pub events : c.used_events ≡ some infos
  pub total_eq : length infos ≡ total
  pub count : c.used_events_count ≡ length done
  pub described : Described dup_ok 0 done c infos
  pub indexed : All IsIndexed infos
  pub small : c.used_backends < 64
  pub papi_room : length c.used_papi_events ≤ max_papi_events
  pub cells : c.snapshots ≡ some (replicate size zero_snapshot)
  pub data_size : c.data_size ≡ size
  pub data_index : c.data_index ≡ 0

index_of_id-at :
    (id j : ℕ) (xs : List ℕ) {k : ℕ}
    → index_of_id id j xs ≡ some k
    → (i : ℕ) × (k ≡ j + i) × (get_elem? xs i ≡ some id)
unfolding index_of_id
index_of_id-at id j [] e = absurd (ground (arith, e))
index_of_id-at id j (x ∷ xs) {k} e = elim (Bool-cases (x == id)) [
  | inl same ↦ (0, ground arith, ground arith)
  | inr other ↦
      let (i, at, get) = index_of_id-at id (suc j) xs {k = k} (ground arith) in
      (suc i, omega arith, get)
]

-- What assign_papi_index does to the description and to the event set.
pub record Assigned (info info' : EventInfo) (c c' : Config) : Type 0 where
  pub index : ℕ
  pub same_info : info' ≡ record info { papi_index = index }
  pub papis : List ℕ
  pub same_config : c' ≡ record c { used_papi_events = papis }
  pub room : length papis ≤ max_papi_events
  pub kept : (i v : ℕ) → get_elem? c.used_papi_events i ≡ some v → get_elem? papis i ≡ some v
  pub longer : length c.used_papi_events ≤ length papis
  pub registered : (get_elem? papis index ≡ some info.id) ⊎ (length papis ≡ max_papi_events)
  pub indexed : index < max_papi_events

pub assign-Assigned :
    (info : EventInfo) (c : Config)
    → length c.used_papi_events ≤ max_papi_events
    → IsIndexed info
    → Assigned info (assign_papi_index info c).0 c (assign_papi_index info c).1
unfolding assign_papi_index
assign-Assigned info c le bound = elim (Option-cases (index_of_id info.id 0 c.used_papi_events)) [
  | inr (k, old) ↦
      let (i, ki, at) = index_of_id-at info.id 0 c.used_papi_events old in
      record {
        index = k;
        same_info = ground (arith, old);
        papis = c.used_papi_events;
        same_config = ground (arith, old);
        room = le;
        kept = λ i v e. e;
        longer = omega arith;
        registered = inl (ap (get_elem? c.used_papi_events) (omega (arith, ki)) ∙ at);
        indexed = omega (arith, ki, lt_of_get_elem? c.used_papi_events i at, le);
      }
  | inl new ↦ elim (Bool-cases (ltb (length c.used_papi_events) max_papi_events)) [
    | inl space ↦ record {
      index = length c.used_papi_events;
      same_info = ground (arith, new, space);
      papis = c.used_papi_events ++ info.id ∷ [];
      same_config = ground (arith, new, space);
      room = omega (arith, length-append c.used_papi_events (info.id ∷ []), ltb→lt _ _ space);
      kept = λ i v e.
          get_elem?-append_left c.used_papi_events (info.id ∷ []) i
            (lt_of_get_elem? c.used_papi_events i e)
          ∙ e;
      longer = omega (arith, length-append c.used_papi_events (info.id ∷ []));
      registered = inl (get_elem?-append_last c.used_papi_events info.id);
      indexed = ltb→lt _ _ space;
    }
    | inr no_space ↦ record {
      index = info.papi_index;
      same_info = ground (arith, new, no_space);
      papis = c.used_papi_events;
      same_config = ground (arith, new, no_space);
      room = le;
      kept = λ i v e. e;
      longer = omega arith;
      registered = inr (ground (arith, no_space));
      indexed = bound;
    }
  ]
]
