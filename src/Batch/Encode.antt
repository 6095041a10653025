-- ===== src/Batch/Encode.antt =====
-- What `add` sends to the encoder.
use metal_runtime.Batch.Protocol.{encoding, follow, follow-append}
use metal_runtime.Batch.{
  Command, set_buffer, set_bytes, set_scalars, set_buffers, set_lengths, dispatch_command, encode,
}
use native.Mathlib.Nat.{zero-add, suc-add}
use metal_runtime.Common.{
  append-nil, ℕ, zero, suc, ◌+◌, ◌≡◌, refl, ap, ◌∙◌, inl, inr, Bool, List, [], ◌∷◌, ◌++◌, some,
  arith, length, Option-cases,
}
use metal_runtime.Dispatch.{
  ComputePipeline, BufferBinding, Scalar, Launch, rounded_threadgroup_length, add_lengths,
}
use metal_runtime.Errors.{ok, Result-cases}

set_scalars-encoding :
    (i : ℕ) (ss : List Scalar) → follow encoding (set_scalars i ss) ≡ some encoding
unfolding set_scalars
set_scalars-encoding i [] = refl
set_scalars-encoding i (s ∷ ss) = set_scalars-encoding (i + 1) ss

set_buffers-encoding :
    (i : ℕ) (bs : List BufferBinding) (ss : List Scalar)
    → follow encoding (set_buffers i bs ss) ≡ some encoding
unfolding set_buffers
set_buffers-encoding i [] ss = set_scalars-encoding i ss
set_buffers-encoding i (b ∷ bs) ss = set_buffers-encoding (i + 1) bs ss

set_lengths-encoding : (i : ℕ) (ns : List ℕ) → follow encoding (set_lengths i ns).0 ≡ some encoding
unfolding set_lengths
set_lengths-encoding i [] = refl
set_lengths-encoding i (n ∷ ns) = elim (Result-cases (rounded_threadgroup_length n)) [
  | inl (r, e) ↦ ground (arith, set_lengths-encoding (i + 1) ns)
  | inr (x, e) ↦ ground arith
]

dispatch_command-encoding :
    (l : Launch) (nu : Bool) → follow encoding (dispatch_command l nu ∷ []) ≡ some encoding
unfolding dispatch_command
dispatch_command-encoding l nu = elim (Option-cases l.indirect_grid) [
  | inl direct ↦ ground arith
  | inr (b, indirect) ↦ ground arith
]

-- Everything that `add` sends leaves the encoder open, also where it stops halfway.
pub encode-encoding :
    (p : ComputePipeline) (l : Launch) (nu : Bool)
    → follow encoding (encode p l nu).0 ≡ some encoding
unfolding encode
encode-encoding p l nu =
    let bs = set_buffers 0 l.buffers l.scalars in
    let ns = set_lengths 0 l.threadgroup_memory in
    let first = set_buffers-encoding 0 l.buffers l.scalars in
    let second = set_lengths-encoding 0 l.threadgroup_memory in
    let head = follow-append encoding encoding bs ns.0 first ∙ second in
    elim (Result-cases ns.1) [
      | inl (r, e) ↦
          rw (e, encode)
            (follow-append encoding encoding (bs ++ ns.0) (dispatch_command l nu ∷ []) head
              ∙ dispatch_command-encoding l nu)
      | inr (x, e) ↦ rw (e, encode) head
    ]

-- The rounding that passed in `validate` passes again.
pub set_lengths-ok :
    (m s i : ℕ) (ns : List ℕ) {t : ℕ} → add_lengths m s ns ≡ ok t → (set_lengths i ns).1 ≡ ok tt
unfolding set_lengths add_lengths
set_lengths-ok m s i [] h = refl
set_lengths-ok m s i (n ∷ ns) {t} h = elim (Result-cases (rounded_threadgroup_length n)) [
  | inl (r, e) ↦ ground (arith, set_lengths-ok m (s + r) (i + 1) ns {t = t})
  | inr (x, e) ↦ ground arith
]

-- The buffer indices that a list of calls binds.
abbrev pub bound : List Command → List ℕ
bound [] = []
bound (set_buffer h o i ∷ cs) = i ∷ bound cs
bound (set_bytes a n i ∷ cs) = i ∷ bound cs
bound (_ ∷ cs) = bound cs

abbrev pub count_from : ℕ → ℕ → List ℕ
count_from i zero = []
count_from i (suc n) = i ∷ count_from (i + 1) n

pub bound-append : (xs ys : List Command) → bound (xs ++ ys) ≡ bound xs ++ bound ys
bound-append [] ys = refl
bound-append (set_buffer h o i ∷ xs) ys = ap (◌∷◌ i) (bound-append xs ys)
bound-append (set_bytes a n i ∷ xs) ys = ap (◌∷◌ i) (bound-append xs ys)
bound-append (_ ∷ xs) ys = bound-append xs ys

bound-set_scalars : (i : ℕ) (ss : List Scalar) → bound (set_scalars i ss) ≡ count_from i (length ss)
unfolding set_scalars
bound-set_scalars i [] = refl
bound-set_scalars i (s ∷ ss) = ap (◌∷◌ i) (bound-set_scalars (i + 1) ss)

bound-set_buffers :
    (i : ℕ) (bs : List BufferBinding) (ss : List Scalar)
    → bound (set_buffers i bs ss) ≡ count_from i (length bs + length ss)
unfolding set_buffers
bound-set_buffers i [] ss = rw zero-add (bound-set_scalars i ss)
bound-set_buffers i (b ∷ bs) ss = rw suc-add (ap (◌∷◌ i) (bound-set_buffers (i + 1) bs ss))

bound-set_lengths : (i : ℕ) (ns : List ℕ) → bound (set_lengths i ns).0 ≡ []
unfolding set_lengths
bound-set_lengths i [] = refl
bound-set_lengths i (n ∷ ns) = elim (Result-cases (rounded_threadgroup_length n)) [
  | inl (r, e) ↦ ground (arith, bound-set_lengths (i + 1) ns)
  | inr (x, e) ↦ ground arith
]

bound-dispatch : (l : Launch) (nu : Bool) → bound (dispatch_command l nu ∷ []) ≡ []
unfolding dispatch_command
bound-dispatch l nu = elim (Option-cases l.indirect_grid) [
  | inl direct ↦ ground arith
  | inr (b, indirect) ↦ ground arith
]

-- Whatever `add` encodes binds the indices 0, 1, … in order, one for each buffer and then one for
-- each scalar.
pub bound-encode :
    (p : ComputePipeline) (l : Launch) (nu : Bool)
    → bound (encode p l nu).0 ≡ count_from 0 (length l.buffers + length l.scalars)
unfolding encode
bound-encode p l nu =
    let bs = set_buffers 0 l.buffers l.scalars in
    let ns = set_lengths 0 l.threadgroup_memory in
    let head = bound-append bs ns.0 in
    let first = bound-set_buffers 0 l.buffers l.scalars in
    let second = bound-set_lengths 0 l.threadgroup_memory in
    elim (Result-cases ns.1) [
      | inl (r, e) ↦ rw (e, encode) (simp (bound-append, first, second, bound-dispatch, append-nil))
      | inr (x, e) ↦ rw (e, encode) (simp (bound-append, first, second, append-nil))
    ]
