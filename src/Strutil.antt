-- ===== src/Strutil.antt =====
-- src/c/strutil.h: copies and comparisons of C strings. A string is the list of its bytes before
-- the terminating NUL. strcasecmp and strncasecmp are those of the C library, in its "C" locale.
pub mod Laws
use Prim.Native.Char.{code}
use Prim.Native.String.{String}
use Prim.Native.String
use java_ubench_agent.Prelude.{
  ℕ, zero, suc, ◌+◌, compare, Ordering, Bool, true, false, ◌&&◌, Option, none, some, List, [], ◌∷◌,
  leb, if◌then◌else◌, length,
}

abbrev pub Text : Type 0
Text = List ℕ

-- The bytes of an ASCII literal.
abbrev pub bytes : String → Text
bytes String.[] = []
bytes (String.◌∷◌ c s) = code c ∷ bytes s

unfoldable pub tolower : ℕ → ℕ
tolower c = if leb 65 c && leb c 90 then c + 32 else c

-- The sign of strcasecmp's result; a string that ends first is the smaller one.
unfoldable pub strcasecmp : Text → Text → Ordering
strcasecmp [] [] = Ordering.eq
strcasecmp [] (b ∷ ys) = Ordering.lt
strcasecmp (a ∷ xs) [] = Ordering.gt
strcasecmp (a ∷ xs) (b ∷ ys) = elim (compare (tolower a) (tolower b)) [
  | Ordering.lt ↦ Ordering.lt
  | Ordering.eq ↦ strcasecmp xs ys
  | Ordering.gt ↦ Ordering.gt
]

-- The same on at most `n` bytes.
unfoldable pub strncasecmp : Text → Text → ℕ → Ordering
strncasecmp xs ys zero = Ordering.eq
strncasecmp [] [] (suc n) = Ordering.eq
strncasecmp [] (b ∷ ys) (suc n) = Ordering.lt
strncasecmp (a ∷ xs) [] (suc n) = Ordering.gt
strncasecmp (a ∷ xs) (b ∷ ys) (suc n) = elim (compare (tolower a) (tolower b)) [
  | Ordering.lt ↦ Ordering.lt
  | Ordering.eq ↦ strncasecmp xs ys n
  | Ordering.gt ↦ Ordering.gt
]

abbrev pub is_eq : Ordering → Bool
is_eq Ordering.eq = true
is_eq Ordering.lt = false
is_eq Ordering.gt = false

-- `allocated` says whether malloc returned memory for the copy.
unfoldable pub ubench_str_dup : Bool → Text → Option Text
ubench_str_dup allocated str = if allocated then some str else none

unfoldable pub ubench_str_is_icase_equal : Text → Text → Bool
unfolding strcasecmp
ubench_str_is_icase_equal a b = is_eq (strcasecmp a b)

unfoldable pub ubench_str_starts_with_icase : Text → Text → Bool
unfolding strncasecmp
ubench_str_starts_with_icase str prefix = is_eq (strncasecmp str prefix (length prefix))
