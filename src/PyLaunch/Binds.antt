-- ===== src/PyLaunch/Binds.antt =====
-- What the loops of `prepare` over the buffers and the scalars return.
use metal_runtime.Common.{
  ℕ, ◌+◌, ◌≡◌, ◌↔◌, inl, inr, refl, sym, ap, ◌∙◌, arith, Option-cases, List, [], ◌∷◌, some, All,
}
use metal_runtime.DType.{DType, check_scalar_dtype, from_dlpack}
use metal_runtime.DType.Laws.{check_scalar_dtype_iff}
use metal_runtime.Dispatch.{BufferBinding, Scalar}
use metal_runtime.Errors.{Result, ok, ◌>>=◌, >>=-eq-ok, >>-eq-ok, ok-injective, some-injective}
use metal_runtime.PyLaunch.{
  BufferObject, BufferArg, plain, at_offset, ScalarArray, pointer, offset_of, prepare_buffers,
  prepare_scalars,
}

-- The buffer that an argument names, and the offset it is bound at: 0 where none is given.
abbrev pub Names : BufferArg → BufferObject → ℕ → Type 0
Names (plain p) b offset = (p ≡ some b) × (offset ≡ 0)
Names (at_offset p n) b offset = (p ≡ some b) × (offset ≡ n)

pub Names-pointer :
    (arg : BufferArg) (b : BufferObject) (offset : ℕ)
    → Names arg b offset ↔ ((pointer arg ≡ some b) × (offset ≡ offset_of arg))
Names-pointer (plain p) b offset = (λ h. h, λ h. h)
Names-pointer (at_offset p n) b offset = (λ h. h, λ h. h)

-- What a list of arguments that are not null binds, and the objects that it pins, in order.
abbrev pub Binds : List BufferArg → List BufferBinding × List ℕ → Type 0
Binds [] r = r ≡ ([], [])
Binds (arg ∷ args) r =
    (b : BufferObject) × (offset : ℕ) × Names arg b offset
    × (rest : List BufferBinding × List ℕ) × Binds args rest
    × (r ≡ (record { buffer = b.buffer; offset = offset } ∷ rest.0, b.object ∷ rest.1))

pub prepare_buffers_iff :
    (args : List BufferArg) (r : List BufferBinding × List ℕ)
    → (prepare_buffers args ≡ ok r) ↔ Binds args r
unfolding prepare_buffers
prepare_buffers_iff [] r = (λ h. sym (ok-injective h), λ h. ap ok (sym h))
prepare_buffers_iff (arg ∷ args) r = elim (Option-cases (pointer arg)) [
  | inl null ↦ (
    λ h. absurd (ground arith),
    λ h.
        let (b, offset, names, rest, more, is) = h in
        let e = ((Names-pointer arg b offset).0 names).0 in absurd (ground arith),
  )
  | inr (b, given) ↦
      let next : BufferObject → ℕ → List BufferBinding × List ℕ → List BufferBinding × List ℕ =
        λ b offset rest.
          (record { buffer = b.buffer; offset = offset } ∷ rest.0, b.object ∷ rest.1) in
      (
        λ h.
            let e : (prepare_buffers args >>= λ rest. ok (next b (offset_of arg) rest)) ≡ ok r =
              ground arith in
            let (rest, made, e2) = >>=-eq-ok (prepare_buffers args) _ e in
            (
              b,
              offset_of arg,
              (Names-pointer arg b (offset_of arg)).1 (given, refl),
              rest,
              (prepare_buffers_iff args rest).0 made,
              sym (ok-injective e2),
            ),
        λ h.
            let (c, offset, names, rest, binds, is) = h in
            let (given', bound) = (Names-pointer arg c offset).0 names in
            let same : c ≡ b = some-injective (sym given' ∙ given) in
            let shown : next b (offset_of arg) rest ≡ r =
              sym (is ∙ (λ i. next (same i) (bound i) rest)) in
            let e : (prepare_buffers args >>= λ rest. ok (next b (offset_of arg) rest)) ≡ ok r =
              rw ((prepare_buffers_iff args rest).1 binds) (ap ok shown) in
            ground arith,
      )
]

-- The dtype of a scalar is one of the table.
abbrev pub IsScalar : ScalarArray → Type 0
IsScalar s = (d : DType) × (from_dlpack s.dtype ≡ ok d)

abbrev pub scalars_of : List ScalarArray → List Scalar
scalars_of [] = []
scalars_of (s ∷ ss) = record { address = s.data_address; size = s.nbytes } ∷ scalars_of ss

pub prepare_scalars_iff :
    (i : ℕ) (ss : List ScalarArray) (out : List Scalar)
    → (prepare_scalars i ss ≡ ok out) ↔ (All IsScalar ss × (out ≡ scalars_of ss))
unfolding prepare_scalars
prepare_scalars_iff i [] out = (λ h. (tt, sym (ok-injective h)), λ h. ap ok (sym h.1))
prepare_scalars_iff i (s ∷ ss) out =
    let first = check_scalar_dtype_iff s.dtype i in
    let push : List Scalar → Result (List Scalar) =
      λ rest. ok (record { address = s.data_address; size = s.nbytes } ∷ rest) in
    (
      λ h.
          let (passes, e) =
            >>-eq-ok (check_scalar_dtype s.dtype i) (prepare_scalars (i + 1) ss >>= push) h in
          let (rest, made, e2) = >>=-eq-ok (prepare_scalars (i + 1) ss) push e in
          let (fine, is) = (prepare_scalars_iff (i + 1) ss rest).0 made in
          (
            (first.0 passes, fine),
            sym (ok-injective e2)
                ∙ ap (λ l. record { address = s.data_address; size = s.nbytes } ∷ l) is,
          ),
      λ h.
          let (fine, is) = h in
          rw (first.1 fine.0, (prepare_scalars_iff (i + 1) ss (scalars_of ss)).1 (fine.1, refl))
            (ap ok (sym is)),
    )
