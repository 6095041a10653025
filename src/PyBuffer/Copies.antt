-- ===== src/PyBuffer/Copies.antt =====
-- Copies in and out of a `PyBuffer`.
use metal_runtime.Common.{
  ℕ, ◌*◌, max, ◌≡◌, ◌≢◌, ◌↔◌, refl, sym, ap, ◌∙◌, subst, arith, Bool, true, false, not, List,
  Option, some, Text, length, length-take_of_le, ◌==◌, ==_iff,
}
use metal_runtime.DType.{
  DType, bfloat_code, itemsize, dtype_eq, dtype_name, dtype_from_name, resolve_dtype,
}
use metal_runtime.DType.Laws.{dtype_from_name_iff}
use metal_runtime.Errors.{
  Result, ok, throw_if, ◌>>=◌, ◌>>◌, copy_dtype, copy_size, export_bfloat, export_width,
  throw_if-eq-ok, >>=-eq-ok, ok-injective,
}
use metal_runtime.Extent.Sizes.{product}
use metal_runtime.PyBuffer.{
  HostArray, PyBuffer, copy_bytes, copy_resolved, copy_from, export_dtype, view, to_numpy,
}
use metal_runtime.PyBuffer.Construct.{IsWhole, overwrite, copy_bytes_of_le}
use metal_runtime.PyBuffer.Upload.{Holds, overwrite-Holds}

not-eq : {b : Bool} → not b ≡ false → b ≡ true
not-eq {b = true} h = refl
not-eq {b = false} h = absurd (ground arith)

dtype_eq_iff : (d e : DType) → (dtype_eq d e ≡ true) ↔ (d ≡ e)
dtype_eq_iff d e = (
  λ h.
      let code : d.code ≡ e.code = ground arith in
      let bits : d.bits ≡ e.bits = ground arith in λ i. record { code = code i; bits = bits i },
  λ h.
      let code : d.code ≡ e.code = ap (λ (d : DType). d.code) h in
      let bits : d.bits ≡ e.bits = ap (λ (d : DType). d.bits) h in ground arith,
)

copy_resolved_iff :
    (b c : PyBuffer) (bytes : List ℕ) (d : DType)
    → IsWhole b
    → (copy_resolved b bytes d ≡ ok c) ↔ (
        (d ≡ b.dtype)
        × (length bytes ≡ b.buffer.size)
        × (c ≡ record b { contents = overwrite b.contents bytes }))
unfolding copy_resolved
copy_resolved_iff b c bytes d whole =
    let copied : PyBuffer = record b { contents = overwrite b.contents bytes } in
    let copies : length bytes ≡ b.buffer.size
        → copy_bytes b.contents bytes ≡ ok (overwrite b.contents bytes) =
      λ e. copy_bytes_of_le b.contents bytes (omega (arith, whole.1)) in
    let finish : Result (List ℕ) → Result PyBuffer =
      λ r. r >>= λ contents. ok (record b { contents = contents }) in
    let unequal = copy_dtype (dtype_name d) (dtype_name b.dtype) in
    let unsized = copy_size (length bytes) b.buffer.size in
    (
      λ h.
          let (same, e2) =
            throw_if-eq-ok (not (dtype_eq d b.dtype)) unequal
              (throw_if (not (length bytes == b.buffer.size)) unsized
                >> finish (copy_bytes b.contents bytes))
              h in
          let (sized, e3) =
            throw_if-eq-ok (not (length bytes == b.buffer.size)) unsized
              (finish (copy_bytes b.contents bytes)) e2 in
          let exact : length bytes ≡ b.buffer.size =
            (==_iff (length bytes) b.buffer.size).0 (not-eq sized) in
          let done : ok copied ≡ ok c = ap finish (sym (copies exact)) ∙ e3 in
          ((dtype_eq_iff d b.dtype).0 (not-eq same), exact, sym (ok-injective done)),
      λ h.
          let (same, exact, is) = h in
          rw
            (
              (dtype_eq_iff d b.dtype).1 same,
              (==_iff (length bytes) b.buffer.size).1 exact,
              copies exact,
            )
            (ap ok (sym is)),
    )

-- `copy_from` into a whole buffer succeeds exactly when the array resolves to the buffer's dtype and
-- has as many bytes; the buffer then holds the array's bytes under its own shape, and its handle,
-- size and dtype stay. The copy never runs past the end of the allocation.
pub copy_from_iff :
    (b c : PyBuffer) (array : HostArray) (name : Option Text)
    → IsWhole b
    → (copy_from b array name ≡ ok c) ↔ (
        (resolve_dtype array.dtype array.itemsize name ≡ ok b.dtype)
        × (length array.bytes ≡ b.buffer.size)
        × (c ≡ record b { contents = overwrite b.contents array.bytes })
        × Holds b.shape array.bytes c)
unfolding copy_from
copy_from_iff b c array name whole =
    let copied : PyBuffer = record b { contents = overwrite b.contents array.bytes } in
    (
      λ h.
          let (d, resolved, e2) =
            >>=-eq-ok (resolve_dtype array.dtype array.itemsize name) (copy_resolved b array.bytes)
              h in
          let (same, exact, is) = (copy_resolved_iff b c array.bytes d whole).0 e2 in
          (
            resolved ∙ ap ok same,
            exact,
            is,
            subst (Holds b.shape array.bytes) (sym is) (
                overwrite-Holds copied b.contents array.bytes (exact ∙ whole.0) (sym exact)
                  (whole.1 ∙ ap (λ n. max n 1) (sym exact)) refl),
          ),
      λ h.
          let (resolved, exact, is, holds) = h in
          rw resolved ((copy_resolved_iff b c array.bytes b.dtype whole).1 (refl, exact, is)),
    )

export_dtype_iff :
    (b : PyBuffer) (name : Text) (d : DType)
    → (export_dtype b (some name) ≡ ok d)
      ↔ ((dtype_name d ≡ some name) × (itemsize d ≡ itemsize b.dtype))
unfolding export_dtype
export_dtype_iff b name d = (
  λ h.
      let (e, found, e2) = >>=-eq-ok (dtype_from_name name) _ h in
      let (same, e3) =
        throw_if-eq-ok (not (itemsize e == itemsize b.dtype))
          (export_width name (itemsize e) (itemsize b.dtype)) (ok e) e2 in
      let is : e ≡ d = ok-injective e3 in
      (
        (dtype_from_name_iff name d).0 (found ∙ ap ok is),
        sym (ap itemsize is) ∙ (==_iff (itemsize e) (itemsize b.dtype)).0 (not-eq same),
      ),
  λ h. rw ((dtype_from_name_iff name d).1 h.0, (==_iff (itemsize d) (itemsize b.dtype)).1 h.1) refl,
)

-- `to_numpy` of a whole buffer under a dtype's name succeeds exactly when the name is supported, has
-- the width of the buffer's elements and is not bfloat16. The array it returns has the buffer's
-- shape, and its bytes are all of the buffer's.
pub to_numpy_iff :
    (b : PyBuffer) (name : Text) (array : HostArray)
    → IsWhole b
    → (to_numpy b (some name) ≡ ok array) ↔ (
        (d : DType) × (dtype_name d ≡ some name)
        × (itemsize d ≡ itemsize b.dtype)
        × (d.code ≢ bfloat_code)
        × (array ≡ view b.contents b.shape d)
        × (length array.bytes ≡ b.buffer.size))
unfolding to_numpy
to_numpy_iff b name array whole =
    let out = export_dtype_iff b name in
    let finish : DType → Result HostArray =
      λ d. throw_if (d.code == bfloat_code) export_bfloat >> ok (view b.contents b.shape d) in
    (
      λ h.
          let (d, exported, e2) = >>=-eq-ok (export_dtype b (some name)) finish h in
          let (scalar, e3) =
            throw_if-eq-ok (d.code == bfloat_code) export_bfloat (ok (view b.contents b.shape d))
              e2 in
          let (named, wide) = (out d).0 exported in
          let is : array ≡ view b.contents b.shape d = sym (ok-injective e3) in
          let all : product 1 b.shape * itemsize d ≡ b.buffer.size =
            ap (λ n. product 1 b.shape * n) wide ∙ sym whole.0 in
          (
            d,
            named,
            wide,
            ground arith,
            is,
            ap (λ (a : HostArray). length a.bytes) is
                ∙ length-take_of_le (product 1 b.shape * itemsize d) b.contents
                    (omega (arith, whole.1))
                ∙ all,
          ),
      λ h.
          let (d, named, wide, scalar, is, sized) = h in
          let other : (d.code == bfloat_code) ≡ false = ground arith in
          rw ((out d).1 (named, wide), other) (ap ok (sym is)),
    )
