-- ===== src/Extent/Sizes.antt =====
-- The sizes of a buffer, against products of true numbers.
use native.Mathlib.Nat.{le-div_iff_mul-le, mul_comm, mul-div_cancel}
use metal_runtime.Common.{
  ℕ, zero, suc, ◌*◌, ◌/◌, ◌≤◌, ◌≡◌, ◌↔◌, refl, sym, ap, ◌∙◌, subst, arith, not, ◌&&◌, List, [], ◌∷◌,
  ltb, ◌==◌, size_max,
}
use metal_runtime.DType.{DType, itemsize}
use metal_runtime.Errors.{
  Error, ok, throw_if, >>=-eq-ok, shape_overflows, bytes_overflow, >>-eq-ok, ok-injective,
}
use metal_runtime.Extent.{
  count_elements, checked_element_count, checked_byte_count, allocation_size, element_count,
}
use metal_runtime.Word.{mul64, mul64_of_lt}

-- Every product of the first sides fits in a `size_t`.
abbrev pub RunsWithin : ℕ → List ℕ → Type 0
RunsWithin count [] = Unit
RunsWithin count (dim ∷ shape) = (count * dim ≤ size_max) × RunsWithin (count * dim) shape

abbrev pub product : ℕ → List ℕ → ℕ
product count [] = count
product count (dim ∷ shape) = product (count * dim) shape

-- The guard before a product passes exactly when the product fits.
guard_iff :
    (a b : ℕ) (e : Error)
    → (throw_if (not (b == 0) && ltb (size_max / b) a) e ≡ ok tt) ↔ (a * b ≤ size_max)
guard_iff a zero e = (λ h. omega arith, λ h. refl)
guard_iff a (suc b) e =
    let law = le-div_iff_mul-le {k = suc b} {x = a} {y = size_max} (omega arith) in
    (λ h. law.0 (ground arith), λ h. let x = law.1 h in ground arith)

mul64_of_le : (a b : ℕ) → a * b ≤ size_max → mul64 a b ≡ a * b
mul64_of_le a b h = mul64_of_lt a b (omega (arith))

-- The loop counts exactly, and refuses a shape as soon as a product of its first sides does not fit.
count_elements_iff :
    (count : ℕ) (shape : List ℕ) (n : ℕ)
    → (count_elements count shape ≡ ok n) ↔ (RunsWithin count shape × (n ≡ product count shape))
unfolding count_elements
count_elements_iff count [] n = (λ h. (tt, sym (ok-injective h)), λ h. ap ok (sym h.1))
count_elements_iff count (dim ∷ shape) n =
    let guard = guard_iff count dim shape_overflows in
    let rest = count_elements_iff (count * dim) shape n in
    (
      λ h.
          let (passes, more) = >>-eq-ok _ _ h in
          let fits = guard.0 passes in
          let counted : count_elements (count * dim) shape ≡ ok n =
            subst (λ m. count_elements m shape ≡ ok n) (mul64_of_le count dim fits) more in
          let (runs, same) = rest.0 counted in ((fits, runs), same),
      λ (h : RunsWithin count (dim ∷ shape) × (n ≡ product count (dim ∷ shape))).
          let passes = guard.1 h.0.0 in
          rw (passes, mul64_of_le count dim h.0.0) (rest.1 (h.0.1, h.1)),
    )

checked_byte_count_iff :
    (count : ℕ) (dtype : DType) (bytes : ℕ)
    → (checked_byte_count count dtype ≡ ok bytes)
      ↔ ((count * itemsize dtype ≤ size_max) × (bytes ≡ count * itemsize dtype))
unfolding checked_byte_count
checked_byte_count_iff count dtype bytes =
    let guard = guard_iff (itemsize dtype) count bytes_overflow in
    let turn : itemsize dtype * count ≡ count * itemsize dtype = mul_comm (itemsize dtype) count in
    (
      λ h.
          let (passes, more) = >>-eq-ok _ _ h in
          let fits : count * itemsize dtype ≤ size_max =
            subst (λ m. m ≤ size_max) turn (guard.0 passes) in
          (fits, sym (ok-injective more) ∙ mul64_of_le count (itemsize dtype) fits),
      λ h.
          rw
            (
              guard.1 (subst (λ m. m ≤ size_max) (sym turn) h.0),
              mul64_of_le count (itemsize dtype) h.0,
            )
            (ap ok (sym h.1)),
    )

-- A buffer's allocation has exactly the bytes of its elements: it is refused exactly when a product
-- of the first sides, or the elements' bytes, do not fit in a `size_t`, and no product wraps around.
pub allocation_size_iff :
    (shape : List ℕ) (dtype : DType) (bytes : ℕ)
    → (allocation_size shape dtype ≡ ok bytes) ↔ (
        RunsWithin 1 shape
        × (product 1 shape * itemsize dtype ≤ size_max)
        × (bytes ≡ product 1 shape * itemsize dtype))
unfolding allocation_size checked_element_count checked_byte_count
allocation_size_iff shape dtype bytes = (
  λ h.
      let (count, counts, more) = >>=-eq-ok (count_elements 1 shape) _ h in
      let (runs, same) = (count_elements_iff 1 shape count).0 counts in
      let (fits, exact) = (checked_byte_count_iff count dtype bytes).0 more in
      (
        runs,
        subst (λ n. n * itemsize dtype ≤ size_max) same fits,
        exact ∙ ap (λ n. n * itemsize dtype) same,
      ),
  λ h.
      rw ((count_elements_iff 1 shape (product 1 shape)).1 (h.0, refl))
        ((checked_byte_count_iff (product 1 shape) dtype bytes).1 (h.1, h.2)),
)

-- `size` reads back the number of elements from an allocation's bytes, for elements of at least a bit.
pub element_count-allocation_size :
    (shape : List ℕ) (dtype : DType) (bytes : ℕ)
    → 1 ≤ dtype.bits
    → allocation_size shape dtype ≡ ok bytes
    → element_count bytes dtype ≡ product 1 shape
unfolding element_count itemsize
element_count-allocation_size shape dtype bytes pos h =
    let (runs, fits, exact) = (allocation_size_iff shape dtype bytes).0 h in
    rw exact (mul-div_cancel (product 1 shape) (omega arith))
