-- ===== src/Measurement/Create/Backends.antt =====
-- The backends that `used_backends |= event_info->backend` collects (src/c/measurement.c).
use java_ubench_agent.Prelude.{
  ℕ, zero, suc, ◌<◌, bit_or, bit_and, Bool, true, false, not, ◌&&◌, ◌||◌, if◌then◌else◌, ◌≡◌, refl,
  ltb, ltb→lt, arith,
}
use java_ubench_agent.Events.Types.{Getter}
use java_ubench_agent.Events.Resolution.{backend_of}
use java_ubench_agent.Measure.{uses}

-- A test of every number of six bits.
holds_up_to : (ℕ → Bool) → ℕ → Bool
holds_up_to test zero = true
holds_up_to test (suc last) = if test last then holds_up_to test last else false

holds_up_to-lt :
    (test : ℕ → Bool) {x : ℕ} (bound : ℕ)
    → x < bound
    → holds_up_to test bound ≡ true
    → test x ≡ true
unfolding holds_up_to
holds_up_to-lt test zero lt passed = absurd (omega arith)
holds_up_to-lt test {x} (suc last) lt passed = ground (arith, holds_up_to-lt test {x = x} last)

abbrev implies : Bool → Bool → Bool
implies a b = not a || b

-- With the bit `b` added: the bit is there, the bit `m` stays, and the number keeps its size.
abbrev check : ℕ → ℕ → ℕ → Bool
check b m u =
    ltb (bit_or u b) 64
    && (ltb 0 (bit_and (bit_or u b) b)
        && implies (ltb 0 (bit_and u m)) (ltb 0 (bit_and (bit_or u b) m)))

-- All pairs of backends, and all numbers of six bits.
table : (g h : Getter) → holds_up_to (check (backend_of g) (backend_of h)) 64 ≡ true
unfolding holds_up_to
table Getter.wall_clock_time Getter.wall_clock_time = refl
table Getter.wall_clock_time _ = refl
table Getter.thread_time Getter.wall_clock_time = refl
table Getter.thread_time _ = refl
table Getter.jvm_compilations Getter.wall_clock_time = refl
table Getter.jvm_compilations _ = refl
table Getter.papi Getter.wall_clock_time = refl
table Getter.papi _ = refl
table _ Getter.wall_clock_time = refl
table _ _ = refl

checked : (g h : Getter) (u : ℕ) → u < 64 → check (backend_of g) (backend_of h) u ≡ true
checked g h u lt = holds_up_to-lt (check (backend_of g) (backend_of h)) 64 lt (table g h)

module _ (g : Getter) (u : ℕ) (lt : u < 64) where
  pub or-lt : bit_or u (backend_of g) < 64
  or-lt = ltb→lt _ _ (and_left _ _ (checked g g u lt))
    where
      and_left : (a b : Bool) → (a && b) ≡ true → a ≡ true
      and_left true b h = refl
      and_left false b h = h

  pub uses-or_self : uses (bit_or u (backend_of g)) (backend_of g) ≡ true
  unfolding uses
  uses-or_self = middle _ _ _ (checked g g u lt)
    where
      middle : (a b c : Bool) → (a && (b && c)) ≡ true → b ≡ true
      middle true true c h = refl
      middle true false c h = h
      middle false b c h = absurd (ground (arith, h))

  pub uses-or :
      (h : Getter)
      → uses u (backend_of h) ≡ true
      → uses (bit_or u (backend_of g)) (backend_of h) ≡ true
  unfolding uses
  uses-or h used = last _ _ _ _ (checked g h u lt) used
    where
      last : (a b c d : Bool) → (a && (b && implies c d)) ≡ true → c ≡ true → d ≡ true
      last true true true d e used' = e
      last true true false d e used' = absurd (ground (arith, used'))
      last true false c d e used' = absurd (ground (arith, e))
      last false b c d e used' = absurd (ground (arith, e))
