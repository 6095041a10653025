-- ===== src/Reflection/Bound.antt =====
-- What a launch that passes `validate` binds, against what the kernel's function uses.
use mathlib.Core.List.{Memᴰ}
use native.Mathlib.Nat.{zero-add}
use metal_runtime.Batch.Encode.{bound, count_from, bound-encode, set_lengths-ok}
use metal_runtime.Batch.{
  Command, set_threadgroup_memory_length, set_scalars, set_buffers, set_lengths, dispatch_command,
  encode,
}
use metal_runtime.Common.{
  ℕ, zero, suc, ◌+◌, ◌<◌, ◌≡◌, refl, sym, ap, ◌∙◌, subst, arith, Bool, true, List, [], ◌∷◌, ◌++◌,
  some, Text, All, length, inl, inr, Option-cases, append-nil, ltb,
}
use metal_runtime.Dispatch.{
  BufferBinding, Scalar, ComputePipeline, Launch, check_extents, check_arguments,
  check_threadgroup_arguments, validate, validate_with, rounded_threadgroup_length,
}
use metal_runtime.Dispatch.Defined.{validate-ok-lengths}
use metal_runtime.Errors.{ok, ok-injective, >>_iff, throw_if, too_many_bindings, Result-cases}
use metal_runtime.Reflection.{Binding, PipelineState, build}
use metal_runtime.Reflection.Used.{is_buffer, is_threadgroup, described, build-described}

-- The indices of threadgroup memory whose length a list of calls sets.
abbrev pub sized_indices : List Command → List ℕ
sized_indices [] = []
sized_indices (set_threadgroup_memory_length n i ∷ cs) = i ∷ sized_indices cs
sized_indices (_ ∷ cs) = sized_indices cs

-- The index of every used buffer is bound, and every used threadgroup memory has its length set.
abbrev pub BindsUsed : List Binding → List Command → Type 0
BindsUsed bs cs =
    All (λ b. (is_buffer b ≡ true → Memᴰ b.index (bound cs))) bs
    × All (λ b. (is_threadgroup b ≡ true → Memᴰ b.index (sized_indices cs))) bs

count_from-Memᴰ : (start n i : ℕ) → i < n → Memᴰ (start + i) (count_from start n)
count_from-Memᴰ start zero i h = absurd (omega arith)
count_from-Memᴰ start (suc n) zero h = Memᴰ.head (omega arith)
count_from-Memᴰ start (suc n) (suc i) h =
    let same : start + 1 + i ≡ start + suc i = omega arith in
    Memᴰ.tail (
      subst (λ k. Memᴰ k (count_from (start + 1) n)) same
        (count_from-Memᴰ (start + 1) n i (omega arith)))

pub sized_indices-append :
    (xs ys : List Command) → sized_indices (xs ++ ys) ≡ sized_indices xs ++ sized_indices ys
sized_indices-append [] ys = refl
sized_indices-append (set_threadgroup_memory_length n i ∷ xs) ys =
    ap (◌∷◌ i) (sized_indices-append xs ys)
sized_indices-append (_ ∷ xs) ys = sized_indices-append xs ys

sized_indices-set_scalars : (i : ℕ) (ss : List Scalar) → sized_indices (set_scalars i ss) ≡ []
unfolding set_scalars
sized_indices-set_scalars i [] = refl
sized_indices-set_scalars i (s ∷ ss) = sized_indices-set_scalars (i + 1) ss

sized_indices-set_buffers :
    (i : ℕ) (bs : List BufferBinding) (ss : List Scalar) → sized_indices (set_buffers i bs ss) ≡ []
unfolding set_buffers
sized_indices-set_buffers i [] ss = sized_indices-set_scalars i ss
sized_indices-set_buffers i (b ∷ bs) ss = sized_indices-set_buffers (i + 1) bs ss

sized_indices-set_lengths :
    (i : ℕ) (ns : List ℕ)
    → (set_lengths i ns).1 ≡ ok tt
    → sized_indices (set_lengths i ns).0 ≡ count_from i (length ns)
unfolding set_lengths
sized_indices-set_lengths i [] h = refl
sized_indices-set_lengths i (n ∷ ns) h = elim (Result-cases (rounded_threadgroup_length n)) [
  | inl (r, e) ↦ ground (arith, sized_indices-set_lengths (i + 1) ns)
  | inr (x, e) ↦ absurd (ground arith)
]

sized_indices-dispatch : (l : Launch) (nu : Bool) → sized_indices (dispatch_command l nu ∷ []) ≡ []
unfolding dispatch_command
sized_indices-dispatch l nu = elim (Option-cases l.indirect_grid) [
  | inl direct ↦ ground arith
  | inr (b, indirect) ↦ ground arith
]

sized_indices-encode :
    (p : ComputePipeline) (l : Launch) (nu : Bool)
    → (set_lengths 0 l.threadgroup_memory).1 ≡ ok tt
    → sized_indices (encode p l nu).0 ≡ count_from 0 (length l.threadgroup_memory)
unfolding encode
sized_indices-encode p l nu h =
    let bs = set_buffers 0 l.buffers l.scalars in
    let ns = set_lengths 0 l.threadgroup_memory in
    let first = sized_indices-set_buffers 0 l.buffers l.scalars in
    let second = sized_indices-set_lengths 0 l.threadgroup_memory h in
    rw (h, encode) (simp (sized_indices-append, first, second, sized_indices-dispatch, append-nil))

-- The two checks of what is given that `validate` makes.
validate-given :
    (p : ComputePipeline) (l : Launch) (nu : Bool) (m : ℕ)
    → l.pipeline ≡ some p
    → validate l nu m ≡ ok tt
    → (check_arguments (length l.buffers + length l.scalars) p.buffer_bindings ≡ ok tt)
      × (check_threadgroup_arguments (length l.threadgroup_memory) p.threadgroup_bindings ≡ ok tt)
unfolding validate validate_with
validate-given p l nu m found h =
    let n = length l.buffers + length l.scalars in
    let passed : validate_with p l nu m ≡ ok tt = ground arith in
    let (_, r1) = (>>_iff (check_extents l p.max_threads_per_threadgroup) _).0 passed in
    let (_, r2) = (>>_iff (throw_if (ltb 31 n) (too_many_bindings n)) _).0 r1 in
    let (arguments, r3) = (>>_iff (check_arguments n p.buffer_bindings) _).0 r2 in
    let (given, _) =
      (>>_iff (check_threadgroup_arguments (length l.threadgroup_memory) p.threadgroup_bindings)
          _).0
        r3 in
    (arguments, given)

used-Memᴰ :
    (n : ℕ) (test : Binding → Bool) (is : List ℕ) (bs : List Binding)
    → is ≡ count_from 0 n
    → All (λ b. (test b ≡ true → b.index < n)) bs
    → All (λ b. (test b ≡ true → Memᴰ b.index is)) bs
used-Memᴰ n test is [] same h = tt
used-Memᴰ n test is (b ∷ bs) same h = (
  λ used. subst (Memᴰ b.index) (sym same) (
      subst (λ k. Memᴰ k (count_from 0 n)) (zero-add b.index)
        (count_from-Memᴰ 0 n b.index (h.0 used))),
  used-Memᴰ n test is bs same h.1,
)

-- No argument that the function uses is left unbound. For a pipeline that was built from a function's
-- reflection, a launch that passes `validate` is encoded such that the index of every used buffer binding
-- is bound to a buffer or to a scalar's bytes, and the length of every used threadgroup memory is set.
pub encode-BindsUsed :
    (label : Text) (s : PipelineState) (bs : List Binding) (p : ComputePipeline) (l : Launch)
    (nu : Bool) (m : ℕ)
    → build label (some s) (some bs) ≡ ok p
    → l.pipeline ≡ some p
    → validate l nu m ≡ ok tt
    → BindsUsed bs (encode p l nu).0
encode-BindsUsed label s bs p l nu m built found passed =
    let (is, buffers, memories) = build-described label s bs in
    let same : described label s bs ≡ p = ok-injective (sym is ∙ built) in
    let (arguments, given) = validate-given p l nu m found passed in
    let (q, t, there, runs) = validate-ok-lengths l nu m passed in
    let n = length l.buffers + length l.scalars in
    let k = length l.threadgroup_memory in
    (
      used-Memᴰ n is_buffer (bound (encode p l nu).0) bs (bound-encode p l nu) (
          (buffers n).0 (
            subst (λ (p : ComputePipeline). check_arguments n p.buffer_bindings ≡ ok tt) (sym same)
              arguments)),
      used-Memᴰ k is_threadgroup (sized_indices (encode p l nu).0) bs
          (sized_indices-encode p l nu
            (set_lengths-ok m q.static_threadgroup_memory_length 0 l.threadgroup_memory runs))
          ((memories k).0 (
            subst
              (λ (p : ComputePipeline).
                check_threadgroup_arguments k p.threadgroup_bindings ≡ ok tt)
              (sym same) given)),
    )
