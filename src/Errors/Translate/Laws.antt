-- ===== src/Errors/Translate/Laws.antt =====
-- How the classes of src/errors.h reach a C caller and Python.
use metal_runtime.Common.{
  ◌≡◌, ◌≢◌, ◌↔◌, refl, arith, List, [], ◌∷◌, Option, none, some, Bool, true, false, if◌then◌else◌,
}
use metal_runtime.Errors.{
  Exception, metal_error, no_device_error, msl_compile_error, msl_function_not_found_error,
  pipeline_build_error, dispatch_error, capture_error, allocation_error, invalid_argument,
  std_exception, bases, Error, exception, Result, ok, throw,
}
use metal_runtime.Errors.Translate
use mathlib.Core.Option

-- The status that is a class's own, by the names of c_api.h.
abbrev pub own_status : Exception → Option Translate.MrStatus
own_status msl_function_not_found_error = some Translate.mr_error_function_not_found
own_status msl_compile_error = some Translate.mr_error_compile
own_status dispatch_error = some Translate.mr_error_dispatch
own_status no_device_error = some Translate.mr_error_no_device
own_status allocation_error = some Translate.mr_error_allocation
own_status invalid_argument = some Translate.mr_error_invalid_argument
own_status std_exception = some Translate.mr_error_unknown
own_status e = none

-- The first value along a chain of classes.
abbrev pub nearest {ℓ} : {A : Type ℓ} → (Exception → Option A) → List Exception → Option A
nearest own [] = none
nearest own (e ∷ es) = elim (own e) [ some a ↦ some a | none ↦ nearest own es ]

-- Every exception reaches the C caller as the status of the nearest class among itself and its
-- bases that has a status of its own: no `catch` clause of `mr_guard` hides a later one.
pub status_of-nearest :
    (e : Exception) → some (Translate.status_of e) ≡ nearest own_status (bases 5 e)
unfolding Translate.status_of
status_of-nearest metal_error = refl
status_of-nearest _ = refl

-- The Python class that is a class's own.
abbrev pub own_class : Exception → Option Translate.PyClass
own_class metal_error = some Translate.py_metal_error
own_class no_device_error = some Translate.py_device_error
own_class msl_compile_error = some Translate.py_compile_error
own_class msl_function_not_found_error = some Translate.py_function_not_found_error
own_class pipeline_build_error = some Translate.py_pipeline_build_error
own_class dispatch_error = some Translate.py_dispatch_error
own_class capture_error = some Translate.py_capture_error
own_class allocation_error = some Translate.py_memory_error
own_class e = none

-- A Python class and its bases, nearest first.
abbrev pub py_bases : Translate.PyClass → List Translate.PyClass
unfolding Translate.py_base
py_bases c = elim (Translate.py_base c) [
  | none ↦ c ∷ []
  | some b ↦ elim (Translate.py_base b) [ none ↦ c ∷ b ∷ [] | some b' ↦ c ∷ b ∷ b' ∷ [] ]
]

-- The Python classes of a chain of C++ classes, those without one passed over.
abbrev pub classes : List Exception → List Translate.PyClass
classes [] = []
classes (e ∷ es) = elim (own_class e) [ some c ↦ c ∷ classes es | none ↦ classes es ]

-- nanobind's order of registration makes every exception the Python class of the nearest class
-- among itself and its bases that has one, and that class's Python bases are those of the C++
-- bases, in order; an exception with no such class is left to nanobind.
pub translate-nearest :
    (e : Exception)
    → (Translate.translate e ≡ nearest own_class (bases 5 e))
      × ((c : Translate.PyClass)
          → Translate.translate e ≡ some c
          → py_bases c ≡ classes (bases 5 e))
unfolding Translate.translate Translate.py_base
translate-nearest metal_error = (refl, λ c h. ground arith)
translate-nearest _ = (refl, λ c h. ground arith)

abbrev pub left_behind : Bool → Error → Translate.Message
left_behind malloc e = if malloc then Translate.message e else Translate.null

status_of-ne-ok : (e : Exception) → Translate.status_of e ≢ Translate.mr_ok
unfolding Translate.status_of
status_of-ne-ok metal_error = λ h. cc
status_of-ne-ok _ = λ h. cc

set_error_lem :
    (malloc : Bool) (out : Option Translate.Message) (e : Error)
    → Translate.set_error malloc out e ≡ Option.map (λ _. left_behind malloc e) out
unfolding Translate.set_error
set_error_lem malloc none e = refl
set_error_lem true (some m) e = refl
set_error_lem false (some m) e = refl

-- The C contract of every entry point: the status is `MR_OK` exactly when the body returned, the
-- error message is then untouched; after a throw a given slot holds the message, or null if
-- `malloc` failed, and an absent slot is not written.
pub mr_guard_lem {ℓ} :
    {A : Type ℓ} (malloc : Bool) (out : Option Translate.Message) (r : Result A)
    → (((Translate.mr_guard malloc out r).0 ≡ Translate.mr_ok) ↔ ((a : A) × (r ≡ ok a)))
      × ((a : A) → r ≡ ok a → (Translate.mr_guard malloc out r).1 ≡ out)
      × ((e : Error)
          → r ≡ throw e
          → (Translate.mr_guard malloc out r).1 ≡ Option.map (λ _. left_behind malloc e) out)
unfolding Translate.mr_guard
mr_guard_lem malloc out (ok a) = ((λ _. (a, refl), λ _. refl), λ _ _. refl, λ e h. cc)
mr_guard_lem malloc out (throw e) = (
  (λ h. absurd (status_of-ne-ok (exception e) h), λ h. let (a, eq) = h in cc),
  λ a h. cc,
  λ e' h. ground (arith, set_error_lem malloc out e),
)
