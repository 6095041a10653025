-- ===== src/PyBuffer/Construct.antt =====
-- When the private constructor of a `PyBuffer` returns, and what the buffer holds.
use metal_runtime.Buffer.{Device, Buffer, allocate}
use metal_runtime.Bytes.{zeros}
use metal_runtime.Common.{
  ℕ, zero, suc, ◌+◌, ◌*◌, ◌/◌, max, ◌≤◌, ◌≡◌, ◌↔◌, inl, inr, refl, sym, ap, ◌∙◌, subst, arith, Bool,
  true, false, List, ◌++◌, Option, none, some, Text, length, drop, length-drop, length-append,
  if◌then◌else◌, Option-cases, size_max,
}
use metal_runtime.DType.{DType, itemsize, DlpackType, resolve_dtype}
use metal_runtime.DType.Laws.{from_dlpack_iff, resolve_dtype_iff}
use metal_runtime.Errors.{ok, >>=-eq-ok, ok-injective}
use metal_runtime.Extent.{allocation_size}
use metal_runtime.Extent.Sizes.{RunsWithin, product, allocation_size_iff}
use metal_runtime.PyBuffer.{HostArray, PyBuffer, copy_bytes, construct}

-- An array as nanobind hands it over: contiguous, with whole elements.
abbrev pub IsArray : HostArray → Type 0
IsArray a =
    (a.itemsize ≡ (a.dtype.bits * a.dtype.lanes + 7) / 8)
    × (length a.bytes ≡ product 1 a.shape * a.itemsize)

-- The buffer's size is that of its elements, and its allocation holds them.
abbrev pub IsWhole : PyBuffer → Type 0
IsWhole b =
    (b.buffer.size ≡ product 1 b.shape * itemsize b.dtype)
    × (length b.contents ≡ max b.buffer.size 1)

abbrev pub overwrite : List ℕ → List ℕ → List ℕ
overwrite to from = from ++ drop (length from) to

pub copy_bytes_of_le :
    (to from : List ℕ) → length from ≤ length to → copy_bytes to from ≡ ok (overwrite to from)
unfolding copy_bytes
copy_bytes_of_le to from h = ground arith

pub length-overwrite :
    (to from : List ℕ) → length from ≤ length to → length (overwrite to from) ≡ length to
length-overwrite to from h =
    length-append from (drop (length from) to) ∙ length-drop (length from) to h

pub resolve_dtype-itemsize :
    (dt : DlpackType) (width : ℕ) (name : Option Text) (d : DType)
    → width ≡ (dt.bits * dt.lanes + 7) / 8
    → resolve_dtype dt width name ≡ ok d
    → width ≡ itemsize d
unfolding resolve_dtype itemsize
resolve_dtype-itemsize dt width none d e h =
    let (lanes, code, bits, named) = (from_dlpack_iff dt d).0 h in
    let exact : (d.bits * 1 + 7) / 8 ≡ (d.bits + 7) / 8 = omega arith in e ∙ rw (lanes, bits) exact
resolve_dtype-itemsize dt width (some name) d e h = ((resolve_dtype_iff dt width name d).0 h).2

-- The buffer that an upload of `array` into a new allocation with this handle leaves.
abbrev pub uploaded : (ℕ → List ℕ) → HostArray → DType → ℕ → PyBuffer
uploaded fresh array d handle = record {
  shape = array.shape;
  dtype = d;
  buffer = record { handle = handle; size = length array.bytes };
  contents = overwrite (fresh (max (length array.bytes) 1)) array.bytes;
}

allocate_iff :
    (device : Device) (n : ℕ) (b : Buffer)
    → (allocate device n ≡ ok b)
      ↔ ((h : ℕ) × (device.new_buffer (max n 1) ≡ some h) × (b ≡ record { handle = h; size = n }))
unfolding allocate
allocate_iff device n b = elim (Option-cases (device.new_buffer (max n 1))) [
  | inl refused ↦ (λ h. ground arith, λ h. let (k, e, _) = h in ground arith)
  | inr (k, made) ↦ (
    λ h.
        let same : ok (record { handle = k; size = n }) ≡ ok b = ground arith in
        (k, made, sym (ok-injective same)),
    λ h. let (l, e, same) = h in rw (e, allocate) (ap ok (sym same)),
  )
]

length-zeros : (n : ℕ) → length (zeros n) ≡ n
length-zeros zero = refl
length-zeros (suc n) = ap suc (length-zeros n)

-- The bytes that a new allocation for `n` of them starts with.
abbrev pub first_bytes : (ℕ → List ℕ) → Bool → ℕ → List ℕ
first_bytes fresh zero_fill n =
    if zero_fill then overwrite (fresh (max n 1)) (zeros n) else fresh (max n 1)

pub length-first_bytes :
    (fresh : ℕ → List ℕ) (zero_fill : Bool) (n : ℕ)
    → ((n : ℕ) → length (fresh n) ≡ n)
    → length (first_bytes fresh zero_fill n) ≡ max n 1
length-first_bytes fresh true n h =
    length-overwrite (fresh (max n 1)) (zeros n) (omega (arith, length-zeros n, h (max n 1)))
    ∙ h (max n 1)
length-first_bytes fresh false n h = h (max n 1)

fill_lem :
    (fresh : ℕ → List ℕ) (zero_fill : Bool) (n : ℕ)
    → ((n : ℕ) → length (fresh n) ≡ n)
    → (if zero_fill then copy_bytes (fresh (max n 1)) (zeros n) else ok (fresh (max n 1)))
      ≡ ok (first_bytes fresh zero_fill n)
fill_lem fresh true n h =
    copy_bytes_of_le (fresh (max n 1)) (zeros n) (omega (arith, length-zeros n, h (max n 1)))
fill_lem fresh false n h = refl

abbrev pub constructed : (ℕ → List ℕ) → Bool → List ℕ → DType → ℕ → ℕ → PyBuffer
constructed fresh zero_fill shape d n handle = record {
  shape = shape;
  dtype = d;
  buffer = record { handle = handle; size = n };
  contents = first_bytes fresh zero_fill n;
}

-- The private constructor returns exactly when the size does not wrap around and Metal has the memory.
pub construct_iff :
    (device : Device) (fresh : ℕ → List ℕ) (shape : List ℕ) (d : DType) (zero_fill : Bool)
    (b : PyBuffer)
    → ((n : ℕ) → length (fresh n) ≡ n)
    → let n = product 1 shape * itemsize d in
      (construct device fresh shape d zero_fill ≡ ok b) ↔ (
        RunsWithin 1 shape
        × (n ≤ size_max)
        × (h : ℕ) × (device.new_buffer (max n 1) ≡ some h)
        × (b ≡ constructed fresh zero_fill shape d n h))
unfolding construct
construct_iff device fresh shape d zero_fill b fresh_length =
    let n : ℕ = product 1 shape * itemsize d in
    let size = allocation_size_iff shape d in
    (
      λ h.
          let (m, sized, e2) = >>=-eq-ok (allocation_size shape d) _ h in
          let (runs, fits, exact) = (size m).0 sized in
          let (buffer, allocated, e3) = >>=-eq-ok (allocate device m) _ e2 in
          let (k, made, is) = (allocate_iff device m buffer).0 allocated in
          let (contents, filled, e4) =
            >>=-eq-ok
              (if zero_fill then copy_bytes (fresh (max m 1)) (zeros m) else ok (fresh (max m 1))) _
              e3 in
          let start : first_bytes fresh zero_fill m ≡ contents =
            ok-injective (sym (fill_lem fresh zero_fill m fresh_length) ∙ filled) in
          let all : b ≡ constructed fresh zero_fill shape d m k =
            sym (ok-injective e4)
            ∙ (λ i. record { shape = shape; dtype = d; buffer = is i; contents = sym start i }) in
          (
            runs,
            fits,
            k,
            subst (λ m. device.new_buffer (max m 1) ≡ some k) exact made,
            subst (λ m. b ≡ constructed fresh zero_fill shape d m k) exact all,
          ),
      λ h.
          let (runs, fits, k, made, same) = h in
          let sized = (size n).1 (runs, fits, refl) in
          let allocated =
            (allocate_iff device n (record { handle = k; size = n })).1 (k, made, refl) in
          rw (sized, allocated, fill_lem fresh zero_fill n fresh_length) (ap ok (sym same)),
    )
