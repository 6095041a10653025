-- ===== src/Errors/Translate.antt =====
-- src/c_api.cpp: `set_error`, `mr_guard`, and c_api.h's `MRStatus`.
-- src/bindings.cpp: `NB_MODULE`'s exception registrations.
pub mod Laws
use mathlib.Core.List
use metal_runtime.Common.{
  ℕ, Bool, true, false, List, [], ◌∷◌, Option, none, some, ◌≡◌, ◌≢◌, ◌↔◌, refl, arith,
  if◌then◌else◌,
}
use metal_runtime.Errors.{
  Exception, metal_error, no_device_error, msl_compile_error, msl_function_not_found_error,
  pipeline_build_error, dispatch_error, capture_error, allocation_error, invalid_argument,
  type_error, runtime_error, std_exception, base, catches, Error, exception, Result, ok, throw,
}

pub data MrStatus : Type 0 where
  mr_ok mr_error_no_device mr_error_compile mr_error_function_not_found : MrStatus
  mr_error_dispatch mr_error_invalid_argument mr_error_unknown mr_error_allocation : MrStatus

-- The first handler of a chain that takes the exception.
abbrev pub first_match {ℓ} : {A : Type ℓ} → List (Exception × A) → Exception → Option A
first_match [] e = none
first_match ((handler, a) ∷ hs) e = if catches handler e then some a else first_match hs e

-- `mr_guard`'s `catch` clauses, in order.
abbrev guard_handlers : List (Exception × MrStatus)
guard_handlers =
    (msl_function_not_found_error, mr_error_function_not_found)
    ∷ (msl_compile_error, mr_error_compile)
    ∷ (dispatch_error, mr_error_dispatch)
    ∷ (no_device_error, mr_error_no_device)
    ∷ (allocation_error, mr_error_allocation)
    ∷ (invalid_argument, mr_error_invalid_argument)
    ∷ (std_exception, mr_error_unknown)
    ∷ []

-- What `*out_err_msg` holds: garbage of the caller's, null, or the message of an error.
pub data Message : Type 0 where
  untouched null : Message
  message : Error → Message

-- `set_error`: `out_err_msg` may be null (`none`), and `malloc` may fail.
unfoldable pub set_error : Bool → Option Message → Error → Option Message
set_error malloc none e = none
set_error malloc (some m) e = if malloc then some (message e) else some null

unfoldable pub status_of : Exception → MrStatus
status_of e = elim (first_match guard_handlers e) [ some s ↦ s | none ↦ mr_error_unknown ]

-- `mr_guard`, with the state that the body left behind.
unfoldable pub mr_guard {ℓ} :
    {A : Type ℓ} → Bool → Option Message → Result A → MrStatus × Option Message
unfolding set_error status_of exception
mr_guard malloc out (ok a) = (mr_ok, out)
mr_guard malloc out (throw e) = (status_of (exception e), set_error malloc out e)

-- The classes that Python sees, as nanobind's registrations name them.
pub data PyClass : Type 0 where
  py_metal_error py_device_error py_compile_error py_function_not_found_error : PyClass
  py_pipeline_build_error py_dispatch_error py_capture_error py_memory_error : PyClass

-- `NB_MODULE` registers in this order.
abbrev registrations : List (Exception × PyClass)
registrations =
    (metal_error, py_metal_error)
    ∷ (no_device_error, py_device_error)
    ∷ (msl_compile_error, py_compile_error)
    ∷ (msl_function_not_found_error, py_function_not_found_error)
    ∷ (pipeline_build_error, py_pipeline_build_error)
    ∷ (dispatch_error, py_dispatch_error)
    ∷ (capture_error, py_capture_error)
    ∷ (allocation_error, py_memory_error)
    ∷ []

-- nanobind tries the most recent registration first.
abbrev newest_first : List (Exception × PyClass) → List (Exception × PyClass)
newest_first = List.reverse

-- `none`: nanobind's own translator takes it (`invalid_argument` is `ValueError`).
unfoldable pub translate : Exception → Option PyClass
translate e = first_match (newest_first registrations) e

-- The base class that each registration passes to `nb::exception`.
unfoldable pub py_base : PyClass → Option PyClass
py_base py_metal_error = none
py_base py_device_error = some py_metal_error
py_base py_compile_error = some py_metal_error
py_base py_function_not_found_error = some py_compile_error
py_base py_pipeline_build_error = some py_compile_error
py_base py_dispatch_error = some py_metal_error
py_base py_capture_error = some py_metal_error
py_base py_memory_error = none
