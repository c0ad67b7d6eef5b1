-- ===== src/Measurement/Sound.antt =====
-- What holds of every valid event set between the calls of the native methods (src/c/measurement.c).
use java_ubench_agent.Prelude.{
  pos, negsuc, ltb→lt, ℕ, zero, suc, ◌*◌, ◌^◌, ◌≤◌, ◌<◌, ℤ, Bool, Option, some, ◌≡◌, refl, sym, ◌∙◌,
  ap, List, [], ◌∷◌, All, All-set, All-get, All-replicate, arith, subst, set, take, length,
  replicate, length-replicate, dec_lt, ltb, Bool-cases, inl, inr,
}
use java_ubench_agent.Strutil.{Text}
use java_ubench_agent.Events.Types.{Snapshot, EventInfo, Getter, zero_snapshot}
use java_ubench_agent.Events.Resolution.{raw_of}
use java_ubench_agent.Measure.{Readings, ubench_measure_sample}
use java_ubench_agent.Measurement.State.{Config}
use java_ubench_agent.Measurement.Recording.{start_one, stop_one, sample_one, reset_one}
use java_ubench_agent.Measurement.Create.{double}
use java_ubench_agent.Measurement.Create.Building.{IsIndexed, Described, Building}
use java_ubench_agent.Measurement.Create.Outcomes.{asked_size, asked_size-double}
use java_ubench_agent.Measurement.Destroy.{HasBlocks}
use java_ubench_agent.Measurement.Bounds.{
  IsReady, Records, start_one-Records, sample_one-Records, stop_one-Records, stop_one-overflow,
}
use java_ubench_agent.Measurement.Session.{IsWide, length-store, start-IsWide, stop-IsWide}

-- Both getters of an event are there, and its counter is inside the array of a snapshot.
pub record IsReadable (info : EventInfo) : Type 0 where
  pub getter : Getter
  pub op_get : info.op_get ≡ some getter
  pub op_get_raw : info.op_get_raw ≡ some (raw_of getter)
  pub indexed : IsIndexed info

-- The two blocks are allocated, the index is inside the snapshots or at their end, each snapshot
-- has its counters, and the events in use can be read.
pub record IsSound (c : Config) : Type 0 where
  pub infos : List EventInfo
  pub cells : List Snapshot
  pub events : c.used_events ≡ some infos
  pub ready : IsReady c cells
  pub wide : All IsWide cells
  pub readable : All IsReadable (take c.used_events_count infos)

pub IsSound-HasBlocks : {c : Config} → IsSound c → HasBlocks c
IsSound-HasBlocks s = record {
  infos = s.infos;
  cells = s.cells;
  events = s.events;
  snapshots = s.ready.allocated;
}

Described-IsReadable :
    (dup_ok : ℕ → Bool) (k : ℕ) (names : List Text) (c : Config) (infos : List EventInfo)
    → Described dup_ok k names c infos
    → All IsIndexed infos
    → All IsReadable (take (length names) infos)
Described-IsReadable dup_ok k [] c infos h indexed = tt
Described-IsReadable dup_ok k (name ∷ names) c [] h indexed = absurd h
Described-IsReadable dup_ok k (name ∷ names) c (info ∷ infos) h indexed = (
  record {
    getter = h.0.resolved.getter;
    op_get = h.0.resolved.op_get;
    op_get_raw = h.0.resolved.op_get_raw;
    indexed = indexed.0;
  },
  Described-IsReadable dup_ok (suc k) names c infos h.1 indexed.1,
)

-- Twice a jint is an even number.
asked_size-bounds : (j : ℤ) {size : ℕ} → asked_size j ≡ some size → (2 ≤ size) × (size < 2 ^ 32)
unfolding double
asked_size-bounds (pos zero) asked = absurd (ground (arith, asked))
asked_size-bounds (pos (suc n)) {size} asked = elim (Bool-cases (ltb (suc n) (2 ^ 30))) [
  | inl small ↦
      let same : (suc n) * 2 ≡ size =
        ground
          (arith, asked, asked_size-double (suc n) (omega arith) (ltb→lt (suc n) (2 ^ 30) small)) in
      (omega (arith, same), omega (arith, same, ltb→lt (suc n) (2 ^ 30) small))
  | inr large ↦ absurd (ground (arith, asked, large))
]
asked_size-bounds (negsuc n) asked = elim (Bool-cases (ltb n (2 ^ 30))) [
  | inl small ↦ absurd (ground (arith, asked, small))
  | inr large ↦ absurd (ground (arith, asked, large))
]

pub Building-IsSound :
    {dup_ok : ℕ → Bool} {names : List Text} {total : ℕ} (j : ℤ) {size : ℕ} {c : Config}
    → asked_size j ≡ some size
    → Building dup_ok names total size c
    → IsSound c
Building-IsSound {dup_ok} {names} j {size} {c} asked b =
    let (two, small) = asked_size-bounds j asked in
    record {
      infos = b.infos;
      cells = replicate size zero_snapshot;
      events = b.events;
      ready = record {
        allocated = b.cells;
        sized = length-replicate size zero_snapshot ∙ sym b.data_size;
        room = omega (arith, b.data_size, two);
        small = omega (arith, b.data_size, small);
        index = omega (arith, b.data_index);
      };
      wide = All-replicate IsWide size zero_snapshot refl;
      readable =
          subst (λ n. All IsReadable (take n b.infos)) (sym b.count)
            (Described-IsReadable dup_ok 0 names c b.infos b.described b.indexed);
    }

-- A recording call that returns.
Records-IsSound :
    (f : Snapshot → Snapshot) (c : Config) (s : IsSound c) (i : ℕ) (o : Option Config) {c' : Config}
    → ((x : Snapshot) → IsWide x → IsWide (f x))
    → Records f c s.cells i o
    → o ≡ some c'
    → IsSound c'
Records-IsSound f c s i o {c'} keeps (c1, e1, (w, ready)) e =
    let same : c1 ≡ c' = ground (arith, e, e1) in
    subst IsSound same (record {
      infos = s.infos;
      cells = set s.cells i (f w.old);
      events = ap (λ x. x.used_events) w.result ∙ s.events;
      ready = ready;
      wide =
          All-set IsWide s.cells i (f w.old) s.wide
            (keeps w.old (All-get IsWide s.cells i s.wide w.was));
      readable =
          subst (λ n. All IsReadable (take n s.infos))
            (sym (ap (λ x. x.used_events_count) w.result)) s.readable;
    })

sample-IsWide :
    (r : Readings) (user_id : ℤ) (used : ℕ) (s : Snapshot)
    → IsWide s
    → IsWide (ubench_measure_sample r user_id used s)
unfolding ubench_measure_sample
sample-IsWide r user_id used s w = ground (arith, length-store r.papi_read.1 s.papi_events)

-- A body that keeps an event set sound.
abbrev pub Keeps : (Config → Option Config) → Type 0
Keeps body = (c c' : Config) → IsSound c → body c ≡ some c' → IsSound c'

pub start_one-Keeps : (r : Readings) → Keeps (start_one r)
start_one-Keeps r c c' s e =
    Records-IsSound _ c s _ _ (start-IsWide r c.used_backends)
      (start_one-Records r c s.cells s.ready) e

pub sample_one-Keeps : (user_id : ℤ) (r : Readings) → Keeps (sample_one user_id r)
sample_one-Keeps user_id r c c' s e =
    Records-IsSound _ c s _ _ (sample-IsWide r user_id c.used_backends)
      (sample_one-Records user_id r c s.cells s.ready) e

pub stop_one-Keeps : (r : Readings) → Keeps (stop_one r)
stop_one-Keeps r c c' s e = elim (dec_lt c.data_index c.data_size) [
  | yes lt ↦
      Records-IsSound _ c s _ _ (stop-IsWide r c.used_backends)
        (stop_one-Records r c s.cells s.ready lt) e
  | no le ↦
      let over = (stop_one-overflow r c s.cells s.ready).1 (omega (arith, s.ready.index)) in
      absurd (ground (arith, e, over))
]

pub reset_one-Keeps : Keeps reset_one
unfolding reset_one
reset_one-Keeps c c' s e =
    let same : ◌≡◌ {A = Config} (record c { data_index = 0 }) c' = ground (arith, e) in
    subst IsSound same (record {
      infos = s.infos;
      cells = s.cells;
      events = s.events;
      ready = record {
        allocated = s.ready.allocated;
        sized = s.ready.sized;
        room = s.ready.room;
        small = s.ready.small;
        index = omega arith;
      };
      wide = s.wide;
      readable = s.readable;
    })
