-- ===== src/Measurement/Benchmark/Prepared.antt =====
-- What an event set that createEventSet has returned offers to a benchmark (src/c/measurement.c).
use java_ubench_agent.Prelude.{
  ℕ, suc, ◌^◌, ◌<◌, ℤ, pos, Bool, true, some, ◌≡◌, refl, sym, ◌∙◌, ap, List, [], ◌∷◌, length,
  replicate, All, arith, subst, inl, inr,
}
use mathlib.Core.Path.{ap₂}
use java_ubench_agent.Strutil.{Text}
use java_ubench_agent.Events.Types.{Snapshot, EventInfo, zero_snapshot}
use java_ubench_agent.Events.Resolution.{IsResolved}
use java_ubench_agent.Measure.{uses}
use java_ubench_agent.Measurement.State.{Config, Eventset, World, returned, find_valid}
use java_ubench_agent.Measurement.Stages.{Env}
use java_ubench_agent.Measurement.Create.Building.{Described, Building}
use java_ubench_agent.Measurement.Create.Outcomes.{Success}
use java_ubench_agent.Measurement.Create.Entries.{with_validity}
use java_ubench_agent.Measurement.Results.{names_of}
use java_ubench_agent.Measurement.Session.{Round, twice, Remembers}
use java_ubench_agent.Measurement.Session.Reports.{CanMeasure}
use java_ubench_agent.Measurement.Benchmark.{
  asked_size-pos, Building-Remembers, HasCounters, PapiEvent, copies,
}
use java_ubench_agent.Measurement.Create.{create_event_set}
use java_ubench_agent.Measurement.Create.Outcomes.{CreatesFor, create-CreatesFor}

-- Every event that has been added can be measured.
pub Described-CanMeasure :
    (dup_ok : ℕ → Bool) (k : ℕ) (names : List Text) (c : Config) (infos : List EventInfo)
    (x : Round)
    → length infos ≡ length names
    → Described dup_ok k names c infos
    → All (λ event. PapiEvent event → HasCounters x event) infos
    → All (CanMeasure c.used_backends x) infos
Described-CanMeasure dup_ok k [] c [] x same h counters = tt
Described-CanMeasure dup_ok k [] c (info ∷ infos) x same h counters = absurd (omega arith)
Described-CanMeasure dup_ok k (name ∷ names) c [] x same h counters = absurd h
Described-CanMeasure dup_ok k (name ∷ names) c (info ∷ infos) x same h counters = (
  record {
    getter = r.getter;
    op_get = r.op_get;
    backend = subst (λ b. uses c.used_backends b ≡ true) r.backend h.0.used;
    counters = λ e.
        let n = counters.0 (r.op_get ∙ ap some e) in
        (n.start_room, n.stop_room, n.start_index, n.stop_index);
  },
  Described-CanMeasure dup_ok (suc k) names c infos x (omega arith) h.1 counters.1,
)
  where
    r : IsResolved (dup_ok k) name info
    r = h.0.resolved

pub names_of-copies :
    (dup_ok : ℕ → Bool) (k : ℕ) (names : List Text) (c : Config) (infos : List EventInfo)
    → length infos ≡ length names
    → Described dup_ok k names c infos
    → names_of infos ≡ copies dup_ok k names
names_of-copies dup_ok k [] c [] same h = refl
names_of-copies dup_ok k [] c (info ∷ infos) same h = absurd (omega arith)
names_of-copies dup_ok k (name ∷ names) c [] same h = absurd h
names_of-copies dup_ok k (name ∷ names) c (info ∷ infos) same h =
    ap₂ ◌∷◌ h.0.resolved.name (names_of-copies dup_ok (suc k) names c infos (omega arith) h.1)

pub create-Success :
    (env : Env) (n : ℕ) (names : List Text) (options : List ℤ) (w w1 : World) (k : ℕ)
    → 0 < n
    → n < 2 ^ 30
    → create_event_set env (pos n) names options w ≡ returned (pos k) w1
    → Success env (twice n) names w (pos k) w1
create-Success env n names options w w1 k pos_n lt e =
    elim (subst (CreatesFor env (pos n) names w) e
      (create-CreatesFor env (pos n) names options w)) [
        | inl (size, asked, named, s) ↦
            let same : twice n ≡ size = ground (arith, asked, asked_size-pos n pos_n lt) in
            subst (λ m. Success env m names w (pos k) w1) (sym same) s
        | inr f ↦ absurd (ground (arith, f.is_id))
      ]

-- An event set that createEventSet has returned can be measured from its first round on.
pub record IsPrepared (env : Env) (n : ℕ) (names : List Text) (c : Config) (events : List EventInfo)
    : Type 0 where
  pub cells : List Snapshot
  pub remembers : Remembers n [] c cells
  pub count : c.used_events_count ≡ length events
  pub fresh : c.snapshots ≡ some (replicate (twice n) zero_snapshot)
  pub size : c.data_size ≡ twice n
  pub index : c.data_index ≡ 0
  pub total : length events ≡ length names
  pub described : Described env.dup_ok 0 names c events
  pub columns : names_of events ≡ copies env.dup_ok 0 names
  pub can_measure :
      (x : Round)
      → All (λ event. PapiEvent event → HasCounters x event) events
      → All (CanMeasure c.used_backends x) events

pub Building-IsPrepared :
    (env : Env) (n : ℕ) (names : List Text) (c : Config)
    → 0 < n
    → n < 2 ^ 30
    → (b : Building env.dup_ok names (length names) (twice n) c) → IsPrepared env n names c b.infos
Building-IsPrepared env n names c pos_n lt b = record {
  cells = _;
  remembers = Building-Remembers n pos_n lt b;
  count = b.count ∙ sym b.total_eq;
  fresh = b.cells;
  size = b.data_size;
  index = b.data_index;
  total = b.total_eq;
  described = b.described;
  columns = names_of-copies env.dup_ok 0 names c b.infos b.total_eq b.described;
  can_measure = λ x counted.
      Described-CanMeasure env.dup_ok 0 names c b.infos x b.total_eq b.described counted;
}

pub created-IsPrepared :
    (env : Env) (n : ℕ) (names : List Text) (options : List ℤ) (w w1 : World) (k : ℕ) {e : Eventset}
    {events : List EventInfo}
    → 0 < n
    → n < 2 ^ 30
    → create_event_set env (pos n) names options w ≡ returned (pos k) w1
    → find_valid w1 (pos k) ≡ some e
    → e.config.used_events ≡ some events
    → IsPrepared env n names e.config events
created-IsPrepared env n names options w w1 k {e} {events} pos_n lt created valid used =
    subst (λ infos. IsPrepared env n names e.config infos) infos_same
      (subst (λ c. IsPrepared env n names c s.built.infos) config_same
        (Building-IsPrepared env n names s.config pos_n lt s.built))
  where
    s : Success env (twice n) names w (pos k) w1
    s = create-Success env n names options w w1 k pos_n lt created

    index_same : k ≡ s.index
    index_same = ground (arith, s.is_id)

    sets : some e ≡ some (with_validity s.config true)
    sets = sym valid ∙ ap (λ i. find_valid w1 (pos i)) index_same ∙ s.valid

    config_same : s.config ≡ e.config
    config_same = ground (arith, sets)

    infos_same : s.built.infos ≡ events
    infos_same = ground (arith, s.built.events, used, ap (λ c. c.used_events) config_same)
