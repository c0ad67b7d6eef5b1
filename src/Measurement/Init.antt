-- ===== src/Measurement/Init.antt =====
-- src/c/measurement.c: ubench_measurement_init, which starts PAPI or ends the process.
use java_ubench_agent.Prelude.{
  zero, suc, ℤ, pos, negsuc, int_eq, Bool, true, false, not, ◌&&◌, Option, none, some,
  if◌then◌else◌,
}

-- PAPI_VER_CURRENT, and what PAPI_library_init and PAPI_thread_init return.
pub record PapiStart : Type 0 where
  pub version : ℤ
  pub library_init : ℤ
  pub thread_init : ℤ

abbrev pub is_negative : ℤ → Bool
is_negative (pos n) = false
is_negative (negsuc n) = true

abbrev pub is_positive : ℤ → Bool
is_positive (pos zero) = false
is_positive (pos (suc n)) = true
is_positive (negsuc n) = false

-- __check_papi_error: `none` is the end of the process.
abbrev pub check_papi_error : ℤ → Option Bool → Option Bool
check_papi_error rc rest = if is_negative rc then none else rest

unfoldable pub ubench_measurement_init : PapiStart → Option Bool
ubench_measurement_init papi =
    if not (int_eq papi.library_init papi.version) && is_positive papi.library_init
    then none
    else check_papi_error papi.library_init (check_papi_error papi.thread_init (some true))
