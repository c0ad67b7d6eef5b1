-- ===== src/Measurement/Recording.antt =====
-- src/c/measurement.c: Measurement.start, stop, sample and reset.
use java_ubench_agent.Prelude.{
  ℕ, suc, ◌+◌, ◌-◌, ◌%◌, ◌^◌, ℤ, Bool, Option, none, some, List, [], ◌∷◌, leb, ◌==◌, if◌then◌else◌,
  get_elem?, set,
}
use java_ubench_agent.Events.Types.{Snapshot}
use java_ubench_agent.Measure.{
  Readings, ubench_measure_start, ubench_measure_sample, ubench_measure_stop,
}
use java_ubench_agent.Measurement.State.{
  Config, World, Outcome, returned, fault, do_throw, find_valid, put_config, invalid_id,
}

-- `snapshot = &data[data_index]`, a write to it and `data_index++`; `none` is a write out of bounds.
abbrev pub write_at :
    (Snapshot → Snapshot) → Config → List Snapshot → Option Snapshot → Option Config
write_at f c cells none = none
write_at f c cells (some s) = some (record c {
  snapshots = some (set cells c.data_index (f s));
  data_index = (c.data_index + 1) % 2 ^ 64;
})

abbrev pub write_in : (Snapshot → Snapshot) → Config → Option (List Snapshot) → Option Config
write_in f c none = none
write_in f c (some cells) = write_at f c cells (get_elem? cells c.data_index)

unfoldable pub write_next : (Snapshot → Snapshot) → Config → Option Config
write_next f c = write_in f c c.snapshots

-- `if (data_index >= data_size) data_index -= 2`
unfoldable pub make_room : Config → Config
make_room c =
    if leb c.data_size c.data_index
    then record c { data_index = (c.data_index + 2 ^ 64 - 2) % 2 ^ 64 }
    else c

-- The bodies of the four loops, for one event set.
unfoldable pub start_one : Readings → Config → Option Config
unfolding make_room write_next
start_one r c =
    if c.data_size == 0
    then some c
    else write_next (ubench_measure_start r c.used_backends) (make_room c)

unfoldable pub stop_one : Readings → Config → Option Config
unfolding write_next
stop_one r c = write_next (ubench_measure_stop r c.used_backends) c

unfoldable pub sample_one : ℤ → Readings → Config → Option Config
unfolding make_room write_next
sample_one user_id r c =
    if c.data_size == 0
    then some c
    else write_next (ubench_measure_sample r user_id c.used_backends) (make_room c)

unfoldable pub reset_one : Config → Option Config
reset_one c = some (record c { data_index = 0 })

-- `for (i = 0; i < jids_count; i++)` with the test of `ids[i]`: an invalid identifier throws and
-- ends the loop. `body k` is the rest of round `k`.
unfoldable pub for_ids :
    Bool → (ℕ → Config → Option Config) → ℕ → List ℤ → World → Outcome (Unit {0})
unfolding find_valid put_config do_throw
for_ids class_found body k [] w = returned tt w
for_ids class_found body k (id ∷ ids) w = elim (find_valid w id) [
  | none ↦ do_throw class_found invalid_id tt w
  | some e ↦ elim (body k e.config) [
    | none ↦ fault
    | some c ↦ for_ids class_found body (suc k) ids (put_config w id e c)
  ]
]

-- The native methods; `r k` are the readings of round `k`.
unfoldable pub start : Bool → (ℕ → Readings) → List ℤ → World → Outcome (Unit {0})
unfolding for_ids start_one
start class_found r ids w = for_ids class_found (λ k. start_one (r k)) 0 ids w

unfoldable pub stop : Bool → (ℕ → Readings) → List ℤ → World → Outcome (Unit {0})
unfolding for_ids stop_one
stop class_found r ids w = for_ids class_found (λ k. stop_one (r k)) 0 ids w

unfoldable pub sample : Bool → (ℕ → Readings) → ℤ → List ℤ → World → Outcome (Unit {0})
unfolding for_ids sample_one
sample class_found r user_id ids w = for_ids class_found (λ k. sample_one user_id (r k)) 0 ids w

unfoldable pub reset : Bool → List ℤ → World → Outcome (Unit {0})
unfolding for_ids reset_one
reset class_found ids w = for_ids class_found (λ k. reset_one) 0 ids w
