-- ===== src/Errors.antt =====
-- src/errors.h: the exception classes, and every throw site of the modelled code as a value.
-- src/c_api.cpp: `mr_guard` and `set_error`. src/bindings.cpp: the translators to Python.
pub mod Translate
use metal_runtime.Common.{
  ℕ, zero, suc, ◌≡◌, refl, ◌↔◌, ◌⊎◌, inl, inr, Bool, true, false, ◌||◌, List, [], ◌∷◌, Option, none,
  some, Text, ◌==◌, if◌then◌else◌,
}
use metal_runtime.Common.Int.{ℤ}

-- The last four are the standard library's, and nanobind's `type_error`.
pub data Exception : Type 0 where
  metal_error no_device_error msl_compile_error msl_function_not_found_error : Exception
  pipeline_build_error dispatch_error capture_error allocation_error : Exception
  invalid_argument type_error runtime_error std_exception : Exception

-- The base class. `std::logic_error`, between `invalid_argument` and `std::exception`, is left out:
-- no handler names it.
abbrev pub base : Exception → Option Exception
base metal_error = some runtime_error
base no_device_error = some metal_error
base msl_compile_error = some metal_error
base msl_function_not_found_error = some msl_compile_error
base pipeline_build_error = some msl_compile_error
base dispatch_error = some metal_error
base capture_error = some metal_error
base allocation_error = some runtime_error
base invalid_argument = some std_exception
base type_error = some runtime_error
base runtime_error = some std_exception
base std_exception = none

abbrev pub rank : Exception → ℕ
rank metal_error = 0
rank no_device_error = 1
rank msl_compile_error = 2
rank msl_function_not_found_error = 3
rank pipeline_build_error = 4
rank dispatch_error = 5
rank capture_error = 6
rank allocation_error = 7
rank invalid_argument = 8
rank type_error = 9
rank runtime_error = 10
rank std_exception = 11

-- The class and its bases, nearest first; the hierarchy is five deep.
abbrev pub bases : ℕ → Exception → List Exception
bases zero e = e ∷ []
bases (suc depth) e = elim (base e) [ none ↦ e ∷ [] | some b ↦ e ∷ bases depth b ]

abbrev listed : Exception → List Exception → Bool
listed e [] = false
listed e (b ∷ bs) = rank b == rank e || listed e bs

-- `catch (const handler&)` takes an exception of class `e`.
abbrev pub catches : Exception → Exception → Bool
catches handler e = listed handler (bases 5 e)

-- The throw sites, each with the values that its message prints.
pub data Error : Type 0 where
  -- no throw: a read out of bounds
  undefined_behaviour : Error
  -- dtype.cpp and bindings.cpp
  unsupported_float64 : Error
  unsupported_dtype : Text → Error
  vector_dtype : Error
  unsupported_array_dtype : ℕ → ℕ → Error
  scalar_float64 : ℕ → Error
  scalar_dtype : ℕ → Error → Error
  width_mismatch : ℕ → ℕ → Error
  extent_dimensions : ℕ → Error
  shape_overflows bytes_overflow : Error
  copy_dtype : Option Text → Option Text → Error
  copy_size : ℕ → ℕ → Error
  export_width : Text → ℕ → ℕ → Error
  export_bfloat : Error
  dlpack_stream dlpack_device dlpack_copy : Error
  indirect_threadgroup indirect_offset_alone none_buffer : Error
  constant_out_of_range constant_kind : Text → Error
  -- buffer.cpp
  buffer_allocation : ℕ → Error
  external_misaligned : ℕ → Error
  external_wrap : ℕ → Error
  -- dispatch.cpp
  no_pipeline : Error
  zero_grid zero_threadgroup : Error
  threadgroup_too_large : ℕ → ℕ → Error
  too_many_bindings : ℕ → Error
  argument_not_bound : Text → ℕ → ℕ → Error
  threadgroup_memory_not_given : Text → ℕ → Error
  threadgroup_length_overflows : Error
  threadgroup_budget_exceeded : ℕ → Error
  threadgroup_total_exceeded : ℕ → ℕ → Error
  scalar_too_large : ℕ → Error
  scalar_width : ℕ → ℕ → ℕ → Error
  buffer_offset : ℕ → ℕ → ℕ → Error
  indirect_arguments : ℕ → ℕ → Error
  uneven_grid : Error
  pipeline_build : Error
  no_command_buffer no_encoder : Error
  add_committed add_discarded : Error
  barrier_committed barrier_discarded : Error
  batch_discarded : Error
  execution_failed : Error
  -- metal.h and library.cpp
  nul_byte not_utf8 : Text → Error
  constant_unsupported : Text → ℕ → Error
  constant_type : Text → Text → Text → Error
  constant_range : Text → ℤ → Text → Error
  function_not_found : Text → Error
  constants_mismatch : Text → List Text → List Text → Error
  specialization_failed : Text → Error
  missing_key : Text → Error
  compile_failed : Error
  -- runtime.cpp
  no_device no_queue : Error
  empty_capture_path : Error
  capture_in_progress capture_unsupported : Error
  capture_failed : Text → Error
  no_capture_started capture_stopped_outside : Error
  -- c_api.cpp: a null argument is named by its position among the checks of its entry point
  null_argument : ℕ → Error
  unknown_math_mode : Error
  null_pointer_for_size : Error
  range_overflows rounded_range_overflows : Error
  launch_null launch_no_pipeline : Text → Error
  buffers_required scalars_required threadgroup_memory_required : Text → Error
  null_buffer null_scalar : Text → ℕ → Error
  logical_offset : Text → ℕ → ℕ → ℕ → Error

-- The class that each site throws.
unfoldable pub exception : Error → Exception
exception (buffer_allocation n) = allocation_error
exception (external_wrap n) = allocation_error
exception pipeline_build = pipeline_build_error
exception no_command_buffer = dispatch_error
exception no_encoder = dispatch_error
exception add_committed = dispatch_error
exception add_discarded = dispatch_error
exception barrier_committed = dispatch_error
exception barrier_discarded = dispatch_error
exception batch_discarded = dispatch_error
exception execution_failed = dispatch_error
exception (constant_unsupported name type) = msl_compile_error
exception (constant_type name msl_name what) = msl_compile_error
exception (constant_range name value msl_name) = msl_compile_error
exception (function_not_found name) = msl_function_not_found_error
exception (constants_mismatch name missing unknown) = msl_compile_error
exception (specialization_failed name) = msl_compile_error
exception (missing_key key) = std_exception
exception compile_failed = msl_compile_error
exception export_bfloat = type_error
exception dlpack_stream = type_error
exception dlpack_device = type_error
exception dlpack_copy = type_error
exception no_device = no_device_error
exception no_queue = no_device_error
exception capture_in_progress = capture_error
exception capture_unsupported = capture_error
exception (capture_failed path) = capture_error
exception no_capture_started = capture_error
exception capture_stopped_outside = capture_error
exception e = invalid_argument

pub data Result {ℓ} (A : Type ℓ) : Type ℓ where
  ok : A → Result A
  throw : Error → Result A

infixl 5 ◌>>=◌ ◌>>◌
abbrev pub ◌>>=◌ {ℓ κ} : {C : Type ℓ} {D : Type κ} → Result C → (C → Result D) → Result D
throw error >>= next = throw error
ok value >>= next = next value

abbrev pub ◌>>◌ {ℓ κ} : {C : Type ℓ} {D : Type κ} → Result C → Result D → Result D
first >> second = first >>= λ ignored. second

module _ {ℓ κ} {C : Type ℓ} {D : Type κ} where
  -- A chain that returns returns at each link.
  pub >>=-eq-ok :
      (first : Result C) (next : C → Result D) {last : D}
      → (first >>= next) ≡ ok last
      → (value : C) × (first ≡ ok value) × (next value ≡ ok last)
  >>=-eq-ok (throw error) next returns = cc
  >>=-eq-ok (ok value) next returns = (value, refl, returns)

-- `if (bad) throw e;`
abbrev pub throw_if : Bool → Error → Result (Unit {0})
throw_if bad e = if bad then throw e else ok tt

-- To split on a computed result and keep the equation.
pub Result-cases {ℓ} :
    {A : Type ℓ} (r : Result A) → ((a : A) × (r ≡ ok a)) ⊎ ((e : Error) × (r ≡ throw e))
Result-cases (ok a) = inl (a, refl)
Result-cases (throw e) = inr (e, refl)

-- A sequence of checks passes exactly when each does.
pub >>_iff : (m k : Result (Unit {0})) → ((m >> k) ≡ ok tt) ↔ ((m ≡ ok tt) × (k ≡ ok tt))
>>_iff (ok a) k = (λ h. (refl, h), λ h. h.1)
>>_iff (throw e) k = (λ h. cc, λ h. cc)

pub throw_if_iff : (bad : Bool) (e : Error) → (throw_if bad e ≡ ok tt) ↔ (bad ≡ false)
throw_if_iff true e = (λ h. cc, λ h. cc)
throw_if_iff false e = (λ h. refl, λ h. refl)

pub >>-eq-ok {ℓ} :
    {A : Type ℓ} (m : Result (Unit {0})) (k : Result A) {a : A}
    → (m >> k) ≡ ok a
    → (m ≡ ok tt) × (k ≡ ok a)
>>-eq-ok (ok u) k h = (refl, h)
>>-eq-ok (throw e) k h = cc

-- A guard that a chain has passed.
pub throw_if-eq-ok {ℓ} :
    {A : Type ℓ} (bad : Bool) (e : Error) (k : Result A) {a : A}
    → (throw_if bad e >> k) ≡ ok a
    → (bad ≡ false) × (k ≡ ok a)
throw_if-eq-ok true e k h = cc
throw_if-eq-ok false e k h = (refl, h)

pub ok-injective {ℓ} : {A : Type ℓ} {a b : A} → ok a ≡ ok b → a ≡ b
ok-injective h = cc

pub some-injective {ℓ} : {A : Type ℓ} {a b : A} → some a ≡ some b → a ≡ b
some-injective h = cc
