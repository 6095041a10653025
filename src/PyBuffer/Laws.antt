-- ===== src/PyBuffer/Laws.antt =====
-- What a `PyBuffer` holds: the bytes of its elements.
use metal_runtime.Buffer.{Device}
use metal_runtime.Common.{
  ℕ, ◌*◌, max, ◌≤◌, ◌≡◌, ◌↔◌, sym, ap, ◌∙◌, subst, arith, false, List, Option, some, Text, length,
  size_max,
}
use metal_runtime.DType.{DType, itemsize, resolve_dtype}
use metal_runtime.Errors.{Result, ok, ◌>>=◌, >>=-eq-ok, ok-injective}
use metal_runtime.Extent.Sizes.{RunsWithin, product}
use metal_runtime.PyBuffer.{HostArray, PyBuffer, copy_bytes, construct, from_array}
use metal_runtime.PyBuffer.Construct.{
  IsArray, overwrite, copy_bytes_of_le, resolve_dtype-itemsize, uploaded, constructed,
  construct_iff,
}

-- The constructor from an array returns exactly when the dtype resolves, no product of sides wraps
-- around and Metal has the memory. The new buffer then starts with the array's bytes: the copy never
-- runs past the end of the allocation.
pub from_array_iff :
    (device : Device) (fresh : ℕ → List ℕ) (array : HostArray) (name : Option Text) (b : PyBuffer)
    → ((n : ℕ) → length (fresh n) ≡ n)
    → IsArray array
    → (from_array device fresh array name ≡ ok b) ↔ (
        (d : DType) × (h : ℕ) × (resolve_dtype array.dtype array.itemsize name ≡ ok d)
        × RunsWithin 1 array.shape
        × (length array.bytes ≤ size_max)
        × (device.new_buffer (max (length array.bytes) 1) ≡ some h)
        × (b ≡ uploaded fresh array d h))
unfolding from_array
from_array_iff device fresh array name b fresh_length (item, whole) =
    let size : (d : DType)
        → resolve_dtype array.dtype array.itemsize name ≡ ok d
        → product 1 array.shape * itemsize d ≡ length array.bytes =
      λ d e. sym (
        whole
        ∙ ap (λ k. product 1 array.shape * k)
            (resolve_dtype-itemsize array.dtype array.itemsize name d item e)) in
    let copies : copy_bytes (fresh (max (length array.bytes) 1)) array.bytes
        ≡ ok (overwrite (fresh (max (length array.bytes) 1)) array.bytes) =
      copy_bytes_of_le (fresh (max (length array.bytes) 1)) array.bytes
        (omega (arith, fresh_length (max (length array.bytes) 1))) in
    (
      λ h.
          let (d, resolved, e2) = >>=-eq-ok (resolve_dtype array.dtype array.itemsize name) _ h in
          let (c, made, e3) = >>=-eq-ok (construct device fresh array.shape d false) _ e2 in
          let (runs, fits, k, allocated, is) =
            (construct_iff device fresh array.shape d false c fresh_length).0 made in
          let finish : (c : PyBuffer) → Result PyBuffer = λ c.
            copy_bytes c.contents array.bytes >>= λ contents.
            ok (record c { contents = contents }) in
          let exact = size d resolved in
          let e4 : finish (constructed fresh false array.shape d (length array.bytes) k) ≡ ok b =
            subst (λ n. finish (constructed fresh false array.shape d n k) ≡ ok b) exact
              (subst (λ c. finish c ≡ ok b) is e3) in
          let e5 : ok (uploaded fresh array d k) ≡ ok b =
            ap
              (λ r. r >>= λ contents.
                ok (record (constructed fresh false array.shape d (length array.bytes) k) {
                  contents = contents;
                }))
              (sym copies)
            ∙ e4 in
          (
            d,
            k,
            resolved,
            runs,
            subst (λ n. n ≤ size_max) exact fits,
            subst (λ n. device.new_buffer (max n 1) ≡ some k) exact allocated,
            sym (ok-injective e5),
          ),
      λ h.
          let (d, k, resolved, runs, fits, made, same) = h in
          let exact = size d resolved in
          let c : PyBuffer = constructed fresh false array.shape d (length array.bytes) k in
          let built : construct device fresh array.shape d false ≡ ok c =
            (construct_iff device fresh array.shape d false c fresh_length).1 (
              runs,
              subst (λ n. n ≤ size_max) (sym exact) fits,
              k,
              subst (λ n. device.new_buffer (max n 1) ≡ some k) (sym exact) made,
              ap (λ n. constructed fresh false array.shape d n k) (sym exact),
            ) in
          rw (resolved, built, copies) (ap ok (sym same)),
    )
