-- ===== src/Measurement/Create/Entries.antt =====
-- The entries of the table of event sets in which createEventSet may build (src/c/measurement.c).
use java_ubench_agent.Prelude.{
  ℕ, zero, suc, ◌+◌, Bool, false, Option, none, some, ◌≡◌, refl, sym, inl, inr, List, [], ◌∷◌, ◌++◌,
  get_elem?, set, arith, Bool-cases,
}
use java_ubench_agent.Measurement.State.{Config, Eventset, if_valid}
use java_ubench_agent.Measurement.Create.{find_free}

-- The valid event set at an index.
abbrev pub valid_at : List Eventset → ℕ → Option Eventset
valid_at es k = if_valid (get_elem? es k)

abbrev pub with_validity : Config → Bool → Eventset
with_validity c b = record { config = c; valid = b }

pub find_free-at :
    (i : ℕ) (es : List Eventset) {k : ℕ}
    → find_free i es ≡ some k
    → (j : ℕ) × (k ≡ i + j) × ((e : Eventset) × (get_elem? es j ≡ some e) × (e.valid ≡ false))
unfolding find_free
find_free-at i [] e = absurd (ground (arith, e))
find_free-at i (x ∷ es) {k} e = elim (Bool-cases x.valid) [
  | inl used ↦
      let (j, at, there) = find_free-at (suc i) es {k = k} (ground (arith, e, used)) in
      (suc j, omega (arith, at), there)
  | inr free ↦ (0, ground (arith, e, free), (x, refl, free))
]

-- An entry that is not valid before and after: no valid event set is touched.
pub valid_at-set_invalid :
    (es : List Eventset) (i k : ℕ) (c : Config)
    → valid_at es i ≡ none
    → valid_at (set es i (with_validity c false)) k ≡ valid_at es k
valid_at-set_invalid [] i k c h = refl
valid_at-set_invalid (x ∷ es) zero zero c h = sym h
valid_at-set_invalid (x ∷ es) zero (suc k) c h = refl
valid_at-set_invalid (x ∷ es) (suc i) zero c h = refl
valid_at-set_invalid (x ∷ es) (suc i) (suc k) c h = valid_at-set_invalid es i k c h

pub valid_at-append_invalid :
    (es : List Eventset) (k : ℕ) (c : Config)
    → valid_at (es ++ with_validity c false ∷ []) k ≡ valid_at es k
valid_at-append_invalid [] zero c = refl
valid_at-append_invalid [] (suc k) c = refl
valid_at-append_invalid (x ∷ es) zero c = refl
valid_at-append_invalid (x ∷ es) (suc k) c = valid_at-append_invalid es k c
