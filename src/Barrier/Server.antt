-- ===== src/Barrier/Server.antt =====
-- src/c-barrier/main.c: the program that creates a barrier in shared memory.
use java_ubench_agent.Prelude.{
  ℕ, zero, suc, ◌+◌, ◌-◌, ◌*◌, ◌^◌, ℤ, pos, negsuc, minus_one, int_eq, to_bits, Bool, true, not,
  ◌&&◌, ◌||◌, Option, none, some, List, [], ◌∷◌, ◌++◌, ltb, leb, ◌==◌, if◌then◌else◌,
}
use java_ubench_agent.Strutil.{Text, bytes}
use java_ubench_agent.Barrier.{
  PosixCall, shm_open, ftruncate, mmap, barrierattr_setpshared, barrier_init,
}

-- atoi of the C library: white space, a sign and digits; `none` is a value outside int, for which
-- its behaviour is undefined.
abbrev pub is_space : ℕ → Bool
is_space c = c == 32 || (leb 9 c && leb c 13)

abbrev pub is_digit : ℕ → Bool
is_digit c = leb 48 c && leb c 57

abbrev pub digits : ℕ → Text → ℕ
digits n [] = n
digits n (c ∷ cs) = if is_digit c then digits (n * 10 + (c - 48)) cs else n

abbrev pub positive_int : ℕ → Option ℤ
positive_int n = if ltb n (2 ^ 31) then some (pos n) else none

abbrev pub negative_int : ℕ → Option ℤ
negative_int zero = some (pos 0)
negative_int (suc n) = if ltb n (2 ^ 31) then some (negsuc n) else none

abbrev pub signed : Text → Option ℤ
signed [] = some (pos 0)
signed (c ∷ cs) =
    if c == 45
    then negative_int (digits 0 cs)
    else if c == 43
    then positive_int (digits 0 cs)
    else positive_int (digits 0 (c ∷ cs))

unfoldable pub atoi : Text → Option ℤ
atoi [] = some (pos 0)
atoi (c ∷ cs) = let rest = atoi cs in if is_space c then rest else signed (c ∷ cs)

-- What malloc and POSIX answer; `none` is MAP_FAILED. `attr_usable`: the attributes of the barrier,
-- which nothing initializes, can be set and used all the same; POSIX leaves that undefined.
pub record Answers : Type 0 where
  pub malloc_ok : Bool
  pub fd : ℤ
  pub ftruncate : ℤ
  pub address : Option ℕ
  pub attr_usable : Bool
  pub barrier_init : ℤ

-- How the program ends: with a status, or with undefined behaviour; and its calls so far.
pub data End : Type 0 where
  exits : ℕ → List PosixCall → End
  undefined : End

abbrev pub before : PosixCall → End → End
before call (exits status calls) = exits status (call ∷ calls)
before call undefined = undefined

-- die
abbrev pub die : End
die = exits 1 []

-- The end of main from each of its calls on.
unfoldable pub initialize_barrier : Answers → (address size : ℕ) → End
initialize_barrier a address size =
    if a.attr_usable
    then before barrierattr_setpshared (
        before (barrier_init address size)
          (if not (int_eq a.barrier_init (pos 0)) then die else exits 0 []))
    else undefined

abbrev pub at_address : Answers → ℕ → Option ℕ → End
at_address a size none = die
at_address a size (some address) = initialize_barrier a address size

unfoldable pub map_memory : Answers → ℕ → End
unfolding initialize_barrier
map_memory a size = before (mmap a.fd) (at_address a size a.address)

unfoldable pub resize_memory : Answers → ℕ → End
unfolding map_memory
resize_memory a size =
    before (ftruncate a.fd) (if int_eq a.ftruncate minus_one then die else map_memory a size)

unfoldable pub open_memory : Answers → Text → ℕ → End
unfolding resize_memory
open_memory a name size =
    before (shm_open name true) (if int_eq a.fd minus_one then die else resize_memory a size)

-- BARRIER_NAME_PREFIX
abbrev pub barrier_name_prefix : Text
barrier_name_prefix = bytes "java-ubench-agent"

-- strcpy to a block that malloc did not give is undefined.
abbrev pub create_barrier : Answers → Text → Option ℤ → End
create_barrier a suffix none = undefined
create_barrier a suffix (some size) =
    if a.malloc_ok
    then open_memory a (barrier_name_prefix ++ suffix) (to_bits 32 size)
    else undefined

-- `main`, with the name of the program as the first argument; without it the message prints NULL.
unfoldable pub main : Answers → List Text → End
unfolding atoi open_memory
main a (program ∷ suffix ∷ size ∷ []) = create_barrier a suffix (atoi size)
main a [] = undefined
main a (program ∷ []) = exits 1 []
main a (program ∷ suffix ∷ []) = exits 1 []
main a (program ∷ suffix ∷ size ∷ more ∷ arguments) = exits 1 []
