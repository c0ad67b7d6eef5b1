-- ===== src/Measurement/Bounds.antt =====
-- The recording calls of src/c/measurement.c stay inside the snapshots, and where they do not.
use java_ubench_agent.Prelude.{
  ℕ, ◌+◌, ◌-◌, ◌%◌, ◌^◌, ◌≤◌, ◌<◌, ℤ, false, Option, none, some, ◌≡◌, sym, ◌∙◌, ap, List, leb, ◌==◌,
  if◌then◌else◌, get_elem?, set, length, length-set, get_elem?-lt, get_elem?-ge, arith, ◌↔◌, dec_lt,
}
use java_ubench_agent.Events.Types.{Snapshot}
use java_ubench_agent.Measure.{
  Readings, ubench_measure_start, ubench_measure_sample, ubench_measure_stop,
}
use java_ubench_agent.Measurement.State.{Config}
use java_ubench_agent.Measurement.Recording.{
  write_at, write_in, write_next, make_room, start_one, stop_one, sample_one,
}

-- An event set as createEventSet leaves it and the recording calls keep it: the snapshots are
-- allocated, as many as `data_size` says, at least two, and the index is at most their number.
pub record IsReady (c : Config) (cells : List Snapshot) : Type 0 where
  pub allocated : c.snapshots ≡ some cells
  pub sized : length cells ≡ c.data_size
  pub room : 2 ≤ c.data_size
  pub small : c.data_size < 2 ^ 32
  pub index : c.data_index ≤ c.data_size

-- A write inside the snapshots.
pub write_next-eq :
    (f : Snapshot → Snapshot) (c : Config) (cells : List Snapshot)
    → c.snapshots ≡ some cells
    → {s : Snapshot} → get_elem? cells c.data_index ≡ some s
    → write_next f c
      ≡ some (record c {
        snapshots = some (set cells c.data_index (f s));
        data_index = (c.data_index + 1) % 2 ^ 64;
      })
unfolding write_next
write_next-eq f c cells e at = ap (write_in f c) e ∙ ap (write_at f c cells) at

write_next-none :
    (f : Snapshot → Snapshot) (c : Config) (cells : List Snapshot)
    → c.snapshots ≡ some cells
    → get_elem? cells c.data_index ≡ none
    → write_next f c ≡ none
unfolding write_next
write_next-none f c cells e at = ap (write_in f c) e ∙ ap (write_at f c cells) at

-- What a write does.
pub record Written (f : Snapshot → Snapshot) (c : Config) (cells : List Snapshot) (i : ℕ)
    (c' : Config) : Type 0 where
  pub old : Snapshot
  pub was : get_elem? cells i ≡ some old
  pub result : c' ≡ record c { snapshots = some (set cells i (f old)); data_index = i + 1 }

write_next-Written :
    (f : Snapshot → Snapshot) (c : Config) (cells : List Snapshot)
    → c.snapshots ≡ some cells
    → length cells < 2 ^ 32
    → c.data_index < length cells
    → (c' : Config) × (write_next f c ≡ some c') × Written f c cells c.data_index c'
write_next-Written f c cells e small lt =
    let (s, at) = get_elem?-lt cells c.data_index lt in
    (
      _,
      write_next-eq f c cells e at,
      record {
        old = s;
        was = at;
        result =
            ap (λ i. record c { snapshots = some (set cells c.data_index (f s)); data_index = i })
              (omega arith);
      },
    )

-- The index that start and sample write to.
abbrev pub write_index : Config → ℕ
write_index c = if leb c.data_size c.data_index then c.data_size - 2 else c.data_index

make_room-eq :
    (c : Config) (cells : List Snapshot)
    → IsReady c cells
    → make_room c ≡ record c { data_index = write_index c }
unfolding make_room
make_room-eq c cells ready = ground arith

-- A write inside the snapshots keeps the event set ready, if the index is below the size.
Written-IsReady :
    (f : Snapshot → Snapshot) (c : Config) (cells : List Snapshot) (i : ℕ) {c' : Config}
    → IsReady c cells
    → i < c.data_size
    → (w : Written f c cells i c') → IsReady c' (set cells i (f w.old))
Written-IsReady f c cells i {c'} ready lt w = record {
  allocated = ap (λ x. x.snapshots) w.result;
  sized = length-set cells i (f w.old) ∙ ready.sized ∙ sym size;
  room = omega (arith, size, ready.room);
  small = omega (arith, size, ready.small);
  index = omega (arith, size, ap (λ x. x.data_index) w.result, lt);
}
  where
    size : c'.data_size ≡ c.data_size
    size = ap (λ x. x.data_size) w.result

roomy : Config → Config
roomy c = record c { data_index = write_index c }

-- The writes of start and of sample: on a full event set they go to the last but one snapshot.
roomy-Written :
    (f : Snapshot → Snapshot) (c : Config) (cells : List Snapshot)
    → IsReady c cells
    → (c' : Config) × (write_next f (make_room c) ≡ some c') × Written f c cells (write_index c) c'
unfolding roomy
roomy-Written f c cells ready =
    let room =
      write_next-Written f (roomy c) cells ready.allocated (omega (arith, ready.sized, ready.small))
        (ground (arith, ready.sized)) in
    let (c', e, w) = room in
    (
      c',
      ap (write_next f) (make_room-eq c cells ready) ∙ e,
      record { old = w.old; was = w.was; result = w.result },
    )

pub write_index-lt :
    (c : Config) (cells : List Snapshot) → IsReady c cells → write_index c < c.data_size
write_index-lt c cells ready = ground arith

-- A recording call that keeps the event set ready: it returns, and writes one snapshot at `i`.
abbrev pub Records : (Snapshot → Snapshot) → Config → List Snapshot → ℕ → Option Config → Type 0
Records f c cells i o =
    (c' : Config) × (o ≡ some c')
    × ((w : Written f c cells i c') × IsReady c' (set cells i (f w.old)))

-- On a ready event set Measurement.start writes one snapshot inside the snapshots, at the index or,
-- if that is the end, at the last but one, and leaves the event set ready.
pub start_one-Records :
    (r : Readings) (c : Config) (cells : List Snapshot)
    → IsReady c cells
    → Records (ubench_measure_start r c.used_backends) c cells (write_index c) (start_one r c)
unfolding start_one
start_one-Records r c cells ready =
    let f = ubench_measure_start r c.used_backends in
    let (c', e, w) = roomy-Written f c cells ready in
    let open_set : (c.data_size == 0) ≡ false = ground arith in
    (
      c',
      rw open_set e,
      (w, Written-IsReady f c cells (write_index c) ready (write_index-lt c cells ready) w),
    )

-- On a ready event set Measurement.sample writes one snapshot inside the snapshots, at the index or,
-- if that is the end, at the last but one, and leaves the event set ready.
pub sample_one-Records :
    (user_id : ℤ) (r : Readings) (c : Config) (cells : List Snapshot)
    → IsReady c cells
    → Records
        (ubench_measure_sample r user_id c.used_backends)
        c
        cells
        (write_index c)
        (sample_one user_id r c)
unfolding sample_one
sample_one-Records user_id r c cells ready =
    let f = ubench_measure_sample r user_id c.used_backends in
    let (c', e, w) = roomy-Written f c cells ready in
    let open_set : (c.data_size == 0) ≡ false = ground arith in
    (
      c',
      rw open_set e,
      (w, Written-IsReady f c cells (write_index c) ready (write_index-lt c cells ready) w),
    )

-- Measurement.stop on a ready event set whose index is below its size writes one snapshot, at the
-- index, and leaves the event set ready.
pub stop_one-Records :
    (r : Readings) (c : Config) (cells : List Snapshot)
    → IsReady c cells
    → c.data_index < c.data_size
    → Records (ubench_measure_stop r c.used_backends) c cells c.data_index (stop_one r c)
unfolding stop_one
stop_one-Records r c cells ready lt =
    let f = ubench_measure_stop r c.used_backends in
    let (c', e, w) =
      write_next-Written f c cells ready.allocated (omega (arith, ready.sized, ready.small))
        (omega (arith, ready.sized, lt)) in
    (c', e, (w, Written-IsReady f c cells c.data_index ready lt w))

-- Measurement.stop does not test the index: on a ready event set it writes past the end of the
-- snapshots exactly when the index has reached their number.
pub stop_one-overflow :
    (r : Readings) (c : Config) (cells : List Snapshot)
    → IsReady c cells
    → (stop_one r c ≡ none) ↔ (c.data_size ≡ c.data_index)
stop_one-overflow r c cells ready = (full, over)
  where
    full : stop_one r c ≡ none → c.data_size ≡ c.data_index
    full e = elim (dec_lt c.data_index c.data_size) [
      | yes lt ↦
          let (c', returns, _) = stop_one-Records r c cells ready lt in
          absurd (ground (arith, e, returns))
      | no le ↦ omega (arith, ready.index)
    ]

    over : c.data_size ≡ c.data_index → stop_one r c ≡ none
    over e =
        unfold stop_one in
        write_next-none (ubench_measure_stop r c.used_backends) c cells ready.allocated
          (get_elem?-ge cells c.data_index (omega (arith, ready.sized, e)))
