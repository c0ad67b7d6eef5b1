-- ===== src/Measurement/Overflow.antt =====
-- Measurement.stop on a full event set (src/c/measurement.c).
use mathlib.Core.List.{Mem, Nodup, Nodup-cons, mem-cons_self, mem-cons_of_mem}
use java_ubench_agent.Prelude.{
  ℕ, suc, ℤ, Bool, none, some, ◌≡◌, ◌≢◌, sym, ◌∙◌, ◌↔◌, inl, inr, List, [], ◌∷◌, arith, subst,
  Option-cases,
}
use java_ubench_agent.Measure.{Readings}
use java_ubench_agent.Measurement.State.{
  Config, Eventset, World, fault, find_valid, put_config, invalid_id,
}
use java_ubench_agent.Measurement.Recording.{stop_one, for_ids, stop}
use java_ubench_agent.Measurement.Bounds.{stop_one-overflow}
use java_ubench_agent.Measurement.Loops.{put_config_ne}
use java_ubench_agent.Measurement.Sound.{stop_one-Keeps}
use java_ubench_agent.Measurement.Blocks.{IsWhole, put_config-IsWhole}
use java_ubench_agent.Measurement.Defined.{throw-defined, valid-IsSound}
use java_ubench_agent.Measurement.Lifecycle.{Reachable, Reachable-IsWhole}

-- The identifier is that of a valid event set whose snapshots are all recorded.
abbrev pub IsFull : World → ℤ → Type 0
IsFull w id =
    (e : Eventset) × (find_valid w id ≡ some e) × (e.config.data_size ≡ e.config.data_index)

-- In every world that the native methods reach, stop on one event set writes past the end of its
-- snapshots exactly when the identifier is valid and the index has reached their number: stop is the
-- recording call that does not test the index.
pub Reachable-overflow :
    {w : World} (class_found : Bool) (r : ℕ → Readings) (id : ℤ)
    → Reachable w
    → (stop class_found r (id ∷ []) w ≡ fault) ↔ IsFull w id
unfolding stop for_ids
Reachable-overflow {w} class_found r id reached = (full, over)
  where
    overflows :
        {e : Eventset}
        → find_valid w id ≡ some e
        → (stop_one (r 0) e.config ≡ none) ↔ (e.config.data_size ≡ e.config.data_index)
    overflows {e} there =
        let sound = valid-IsSound w id (Reachable-IsWhole reached) there in
        stop_one-overflow (r 0) e.config sound.cells sound.ready

    full : stop class_found r (id ∷ []) w ≡ fault → IsFull w id
    full bad = elim (Option-cases (find_valid w id)) [
      | inl absent ↦
          absurd (throw-defined class_found invalid_id tt w (rw (absent, stop, for_ids) at bad))
      | inr (e, there) ↦ elim (Option-cases (stop_one (r 0) e.config)) [
        | inl past ↦ (e, there, (overflows there).0 past)
        | inr (c, writes) ↦ absurd (ground (arith, bad, there, writes))
      ]
    ]

    over : IsFull w id → stop class_found r (id ∷ []) w ≡ fault
    over (e, there, at_end) = ground (arith, there, (overflows there).1 at_end)

IsFull-put_config :
    (w : World) (id j : ℤ) (c : Config) {e : Eventset}
    → find_valid w id ≡ some e
    → j ≢ id
    → IsFull (put_config w id e c) j
    → IsFull w j
IsFull-put_config w id j c there ne (e', there', at_end) =
    (e', sym (put_config_ne w id j c there ne) ∙ there', at_end)

stop_ids-defined :
    (class_found : Bool) (r : ℕ → Readings) (k : ℕ) (ids : List ℤ) (w : World)
    → IsWhole w
    → Nodup ids
    → ((id : ℤ) → Mem id ids → ¬ IsFull w id)
    → for_ids class_found (λ i. stop_one (r i)) k ids w ≢ fault
unfolding for_ids
stop_ids-defined class_found r k [] w whole distinct room h = ground (arith, h)
stop_ids-defined class_found r k (id ∷ ids) w whole distinct room h =
    elim (Option-cases (find_valid w id)) [
      | inl absent ↦ throw-defined class_found invalid_id tt w (rw (absent, for_ids) at h)
      | inr (e, there) ↦
          let sound = valid-IsSound w id whole there in
          elim (Option-cases (stop_one (r k) e.config)) [
            | inl past ↦
                room id mem-cons_self
                  (e, there, (stop_one-overflow (r k) e.config sound.cells sound.ready).0 past)
            | inr (c, does) ↦
                let others = Nodup-cons.0 distinct in
                stop_ids-defined class_found r (suc k) ids (put_config w id e c)
                  (put_config-IsWhole w id e c there (stop_one-Keeps (r k) e.config c sound does)
                    whole)
                  others.1
                  (λ j m full. room j (mem-cons_of_mem id m) (
                    IsFull-put_config w id j c there
                      (λ same. others.0 (subst (λ x. Mem x ids) same m)) full))
                  (rw (there, does, for_ids) at h)
          ]
    ]

-- In every world that the native methods reach, stop on distinct identifiers is defined if none of
-- them is that of a valid event set whose snapshots are all recorded.
pub Reachable-stops :
    {w : World} (class_found : Bool) (r : ℕ → Readings) (ids : List ℤ)
    → Reachable w
    → Nodup ids
    → ((id : ℤ) → Mem id ids → ¬ IsFull w id)
    → stop class_found r ids w ≢ fault
unfolding stop
Reachable-stops {w} class_found r ids reached distinct room =
    stop_ids-defined class_found r 0 ids w (Reachable-IsWhole reached) distinct room
