-- ===== src/Measurement/Destroy.antt =====
-- What Measurement.destroyEventSet does to the table of event sets (src/c/measurement.c).
use java_ubench_agent.Prelude.{
  ℕ, pos, Bool, false, Option, none, some, ◌≡◌, ◌≢◌, refl, sym, ap, List, get_elem?, set,
  get_elem?-set_self, get_elem?-set_ne, lt_of_get_elem?, arith,
}
use mathlib.Core.Path.{ap₂}
use java_ubench_agent.Events.Types.{Snapshot, EventInfo}
use java_ubench_agent.Measurement.State.{Config, Eventset, World, returned, if_valid, find_valid}
use java_ubench_agent.Measurement.Create.{free_both, destroy_event_set}
use java_ubench_agent.Measurement.Stages.{free_blocks}
use java_ubench_agent.Measurement.Create.Entries.{with_validity}

-- The two blocks of an event set are allocated.
pub record HasBlocks (c : Config) : Type 0 where
  pub infos : List EventInfo
  pub cells : List Snapshot
  pub events : c.used_events ≡ some infos
  pub snapshots : c.snapshots ≡ some cells

-- The destruction of the event set `k`: it is valid no more, all others are as before, and nothing
-- is thrown.
pub record Destroyed (w : World) (k : ℕ) (w' : World) : Type 0 where
  pub gone : find_valid w' (pos k) ≡ none
  pub others : (j : ℕ) → j ≢ k → find_valid w' (pos j) ≡ find_valid w (pos j)
  pub quiet : w'.pending ≡ w.pending

pub entry_of :
    (w : World) (k : ℕ) {e : Eventset}
    → find_valid w (pos k) ≡ some e
    → get_elem? w.all_eventsets k ≡ some e
unfolding find_valid
entry_of w k {e} h = go (get_elem? w.all_eventsets k) h
  where
    go : (o : Option Eventset) → if_valid o ≡ some e → o ≡ some e
    go none h' = absurd (ground (arith, h'))
    go (some x) h' = ground (arith, h')

-- Destroying a valid event set whose blocks are allocated returns; the event set is valid no more,
-- every other one is as before, and no exception is thrown.
pub destroy-Destroyed :
    (class_found : Bool) (k : ℕ) (w : World) {e : Eventset}
    → find_valid w (pos k) ≡ some e
    → HasBlocks e.config
    → (w' : World) × (destroy_event_set class_found (pos k) w ≡ returned tt w') × Destroyed w k w'
unfolding destroy_event_set
destroy-Destroyed class_found k w {e} there blocks = (
  w',
  rw (there, destroy_event_set) (ap₂ (free_both (pos k) w e) blocks.events blocks.snapshots),
  record { gone = gone; others = others; quiet = refl },
)
  where
    dead : Eventset
    dead = with_validity (free_blocks e.config) false

    w' : World
    w' = record w { all_eventsets = set w.all_eventsets k dead }

    gone : find_valid w' (pos k) ≡ none
    gone =
        unfold find_valid in
        ap if_valid (
          get_elem?-set_self w.all_eventsets k dead
            (lt_of_get_elem? w.all_eventsets k (entry_of w k there)))

    others : (j : ℕ) → j ≢ k → find_valid w' (pos j) ≡ find_valid w (pos j)
    others j ne =
        unfold find_valid in
        ap if_valid (get_elem?-set_ne w.all_eventsets k j dead (λ e. ne (sym e)))
