-- ===== src/Strutil/Laws.antt =====
-- What the case-insensitive comparisons of src/c/strutil.h decide.
use java_ubench_agent.Prelude.{true, ◌≡◌, refl, ◌↔◌, [], ◌∷◌, map, arith, length, take}
use java_ubench_agent.Strutil.{
  Text, tolower, strcasecmp, strncasecmp, is_eq, ubench_str_is_icase_equal,
  ubench_str_starts_with_icase,
}

-- `strcasecmp(a, b) == 0`, and equality of the texts in lower case.
strcasecmp_eq : (a b : Text) → is_eq (strcasecmp a b) ≡ true → map tolower a ≡ map tolower b
unfolding strcasecmp
strcasecmp_eq [] [] h = refl
strcasecmp_eq [] (b ∷ ys) h = cc
strcasecmp_eq (a ∷ xs) [] h = cc
strcasecmp_eq (a ∷ xs) (b ∷ ys) h = ground (arith, strcasecmp_eq xs ys)

strcasecmp_of_eq : (a b : Text) → map tolower a ≡ map tolower b → is_eq (strcasecmp a b) ≡ true
unfolding strcasecmp
strcasecmp_of_eq [] [] h = refl
strcasecmp_of_eq [] (b ∷ ys) h = cc
strcasecmp_of_eq (a ∷ xs) [] h = cc
strcasecmp_of_eq (a ∷ xs) (b ∷ ys) h = ground (arith, strcasecmp_of_eq xs ys)

-- Two strings are equal for ubench_str_is_icase_equal exactly when they are the same text after
-- every ASCII capital is put in lower case.
pub is_icase_equal_iff :
    (a b : Text) → (ubench_str_is_icase_equal a b ≡ true) ↔ (map tolower a ≡ map tolower b)
unfolding ubench_str_is_icase_equal
is_icase_equal_iff a b = (strcasecmp_eq a b, strcasecmp_of_eq a b)

strncasecmp_eq :
    (s p : Text)
    → is_eq (strncasecmp s p (length p)) ≡ true
    → map tolower (take (length p) s) ≡ map tolower p
unfolding strncasecmp
strncasecmp_eq s [] h = refl
strncasecmp_eq [] (b ∷ ys) h = cc
strncasecmp_eq (a ∷ xs) (b ∷ ys) h = ground (arith, strncasecmp_eq xs ys)

strncasecmp_of_eq :
    (s p : Text)
    → map tolower (take (length p) s) ≡ map tolower p
    → is_eq (strncasecmp s p (length p)) ≡ true
unfolding strncasecmp
strncasecmp_of_eq s [] h = refl
strncasecmp_of_eq [] (b ∷ ys) h = cc
strncasecmp_of_eq (a ∷ xs) (b ∷ ys) h = ground (arith, strncasecmp_of_eq xs ys)

-- A string starts with a prefix for ubench_str_starts_with_icase exactly when its first bytes, as
-- many as the prefix has, are the prefix after both are put in lower case.
pub starts_with_icase_iff :
    (s p : Text)
    → (ubench_str_starts_with_icase s p ≡ true) ↔ (map tolower (take (length p) s) ≡ map tolower p)
unfolding ubench_str_starts_with_icase
starts_with_icase_iff s p = (strncasecmp_eq s p, strncasecmp_of_eq s p)
