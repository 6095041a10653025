-- ===== src/Dispatch/Defined.antt =====
-- `validate` reads nothing out of bounds, and rounds what `add` rounds again.
use metal_runtime.Common.{
  ℕ, ◌+◌, ◌≡◌, ◌≢◌, inl, inr, refl, Bool, arith, ltb, List, [], ◌∷◌, some, length, Option-cases,
}
use metal_runtime.Dispatch.Bindings.{check_arguments_iff, check_scalar_widths-ne-undefined}
use metal_runtime.Dispatch.{
  ComputePipeline, BindingInfo, BufferBinding, Scalar, Launch, rounded_threadgroup_length,
  add_lengths, check_extents, check_arguments, check_threadgroup_arguments, check_memory,
  check_scalar_sizes, check_scalar_widths, check_offsets, check_division, validate_with, validate,
}
use metal_runtime.Errors.{
  Result, ok, throw, ◌>>◌, throw_if, undefined_behaviour, too_many_bindings, Result-cases, >>_iff,
  >>=-eq-ok,
}

-- A result that was not reached by reading out of bounds.
abbrev pub IsDefined {ℓ} : {A : Type ℓ} → Result A → Type ℓ
IsDefined r = r ≢ throw undefined_behaviour

>>-IsDefined :
    (m k : Result (Unit {0})) → IsDefined m → (m ≡ ok tt → IsDefined k) → IsDefined (m >> k)
>>-IsDefined (ok a) k hm hk = hk refl
>>-IsDefined (throw e) k hm hk = hm

check_extents-IsDefined : (l : Launch) (m : ℕ) → IsDefined (check_extents l m)
unfolding check_extents
check_extents-IsDefined l m = λ h. ground arith

check_arguments-IsDefined : (n : ℕ) (bs : List BindingInfo) → IsDefined (check_arguments n bs)
unfolding check_arguments
check_arguments-IsDefined n [] = λ h. cc
check_arguments-IsDefined n (b ∷ bs) = λ h. ground (arith, check_arguments-IsDefined n bs)

check_threadgroup_arguments-IsDefined :
    (n : ℕ) (bs : List BindingInfo) → IsDefined (check_threadgroup_arguments n bs)
unfolding check_threadgroup_arguments
check_threadgroup_arguments-IsDefined n [] = λ h. cc
check_threadgroup_arguments-IsDefined n (b ∷ bs) =
    λ h. ground (arith, check_threadgroup_arguments-IsDefined n bs)

add_lengths-IsDefined : (m s : ℕ) (ns : List ℕ) → IsDefined (add_lengths m s ns)
unfolding add_lengths rounded_threadgroup_length
add_lengths-IsDefined m s [] = λ h. cc
add_lengths-IsDefined m s (n ∷ ns) = λ h. elim (Result-cases (rounded_threadgroup_length n)) [
  | inl (r, e) ↦ ground (arith, add_lengths-IsDefined m (s + r) ns)
  | inr (x, e) ↦ ground arith
]

check_memory-IsDefined : (m s : ℕ) (ns : List ℕ) → IsDefined (check_memory m s ns)
unfolding check_memory
check_memory-IsDefined m s ns = λ h. elim (Result-cases (add_lengths m s ns)) [
  | inl (t, e) ↦ ground arith
  | inr (x, e) ↦ ground (arith, add_lengths-IsDefined m s ns)
]

check_scalar_sizes-IsDefined : (ss : List Scalar) → IsDefined (check_scalar_sizes ss)
unfolding check_scalar_sizes
check_scalar_sizes-IsDefined [] = λ h. cc
check_scalar_sizes-IsDefined (s ∷ ss) = λ h. ground (arith, check_scalar_sizes-IsDefined ss)

check_offsets-IsDefined : (i : ℕ) (bs : List BufferBinding) → IsDefined (check_offsets i bs)
unfolding check_offsets
check_offsets-IsDefined i [] = λ h. cc
check_offsets-IsDefined i (b ∷ bs) = λ h. ground (arith, check_offsets-IsDefined (i + 1) bs)

check_division-IsDefined : (l : Launch) (nu : Bool) → IsDefined (check_division l nu)
unfolding check_division
check_division-IsDefined l nu = λ h. elim (Option-cases l.indirect_grid) [
  | inl direct ↦ ground arith
  | inr (b, indirect) ↦ ground arith
]

validate_with-IsDefined :
    (p : ComputePipeline) (l : Launch) (nu : Bool) (m : ℕ) → IsDefined (validate_with p l nu m)
unfolding validate_with
validate_with-IsDefined p l nu m =
    let n = length l.buffers + length l.scalars in
    let widths = check_scalar_widths-ne-undefined (length l.buffers) l.scalars p.buffer_bindings in
    >>-IsDefined (check_extents l p.max_threads_per_threadgroup) _ (check_extents-IsDefined l _)
      λ _.
        >>-IsDefined (throw_if (ltb 31 n) (too_many_bindings n)) _ (λ h. ground arith)
          λ _.
            >>-IsDefined (check_arguments n p.buffer_bindings) _ (check_arguments-IsDefined n _)
              λ covered.
                >>-IsDefined
                  (check_threadgroup_arguments (length l.threadgroup_memory) p.threadgroup_bindings)
                  _
                  (check_threadgroup_arguments-IsDefined (length l.threadgroup_memory)
                    p.threadgroup_bindings)
                  λ _.
                    >>-IsDefined
                      (check_memory m p.static_threadgroup_memory_length l.threadgroup_memory) _
                      (check_memory-IsDefined m p.static_threadgroup_memory_length
                        l.threadgroup_memory)
                      λ _.
                        >>-IsDefined (check_scalar_sizes l.scalars) _
                          (check_scalar_sizes-IsDefined l.scalars)
                          λ _.
                            >>-IsDefined
                              (check_scalar_widths (length l.buffers) l.scalars p.buffer_bindings) _
                              (widths ((check_arguments_iff n p.buffer_bindings).0 covered))
                              λ _.
                                >>-IsDefined (check_offsets 0 l.buffers) _
                                  (check_offsets-IsDefined 0 l.buffers)
                                  λ _. check_division-IsDefined l nu

-- For every launch, and whatever the kernel's reflection reports, `validate` indexes `scalars`
-- within its bounds: what makes the index safe is checked before.
pub validate-IsDefined : (l : Launch) (nu : Bool) (m : ℕ) → IsDefined (validate l nu m)
unfolding validate
validate-IsDefined l nu m = elim (Option-cases l.pipeline) [
  | inl missing ↦ λ h. ground arith
  | inr (p, found) ↦ λ h. validate_with-IsDefined p l nu m (ground arith)
]

-- A launch that passed has a pipeline, and its lengths were all rounded.
pub validate-ok-lengths :
    (l : Launch) (nu : Bool) (m : ℕ)
    → validate l nu m ≡ ok tt
    → (p : ComputePipeline) × (t : ℕ) × (l.pipeline ≡ some p)
      × (add_lengths m p.static_threadgroup_memory_length l.threadgroup_memory ≡ ok t)
unfolding validate validate_with check_memory
validate-ok-lengths l nu m h = elim (Option-cases l.pipeline) [
  | inl missing ↦ absurd (ground arith)
  | inr (p, found) ↦
      let n = length l.buffers + length l.scalars in
      let passed : validate_with p l nu m ≡ ok tt = ground arith in
      let (_, r1) = (>>_iff (check_extents l p.max_threads_per_threadgroup) _).0 passed in
      let (_, r2) = (>>_iff (throw_if (ltb 31 n) (too_many_bindings n)) _).0 r1 in
      let (_, r3) = (>>_iff (check_arguments n p.buffer_bindings) _).0 r2 in
      let (_, r4) =
        (>>_iff (check_threadgroup_arguments (length l.threadgroup_memory) p.threadgroup_bindings)
            _).0
          r3 in
      let (memory, _) =
        (>>_iff (check_memory m p.static_threadgroup_memory_length l.threadgroup_memory) _).0 r4 in
      let (t, runs, _) =
        >>=-eq-ok (add_lengths m p.static_threadgroup_memory_length l.threadgroup_memory) _
          memory in
      (p, t, found, runs)
]

-- The last check of a launch that passes.
pub validate-ok-division :
    (l : Launch) (nu : Bool) (m : ℕ) → validate l nu m ≡ ok tt → check_division l nu ≡ ok tt
unfolding validate validate_with
validate-ok-division l nu m h = elim (Option-cases l.pipeline) [
  | inl missing ↦ absurd (ground arith)
  | inr (p, found) ↦
      let passed : validate_with p l nu m ≡ ok tt = ground arith in
      let (_, r1) = (>>_iff (check_extents l p.max_threads_per_threadgroup) _).0 passed in
      let (_, r2) = (>>_iff (throw_if _ _) _).0 r1 in
      let (_, r3) = (>>_iff (check_arguments _ p.buffer_bindings) _).0 r2 in
      let (_, r4) = (>>_iff (check_threadgroup_arguments _ p.threadgroup_bindings) _).0 r3 in
      let (_, r5) = (>>_iff (check_memory m _ l.threadgroup_memory) _).0 r4 in
      let (_, r6) = (>>_iff (check_scalar_sizes l.scalars) _).0 r5 in
      let (_, r7) = (>>_iff (check_scalar_widths _ l.scalars p.buffer_bindings) _).0 r6 in
      let (_, r8) = (>>_iff (check_offsets 0 l.buffers) _).0 r7 in r8
]
