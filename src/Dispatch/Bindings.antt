-- ===== src/Dispatch/Bindings.antt =====
-- The loops of `validate` over bindings, scalars and buffers.
use metal_runtime.Common.{
  ℕ, zero, suc, ◌+◌, ◌-◌, ◌%◌, ◌≤◌, ◌<◌, ◌≡◌, ◌≢◌, ◌↔◌, ◌⊎◌, inl, inr, refl, ◌||◌, Bool-cases,
  arith, ltb, ◌==◌, List, [], ◌∷◌, some, length, get_elem?, All, Option-cases,
}
use metal_runtime.Dispatch.{
  BindingInfo, BufferBinding, Scalar, check_arguments, check_threadgroup_arguments,
  check_scalar_sizes, check_scalar_width, check_scalar_widths, check_offsets,
}
use metal_runtime.Errors.{ok, throw, undefined_behaviour}

abbrev pub Below : ℕ → List BindingInfo → Type 0
Below n = All (λ b. b.index < n)

pub check_arguments_iff :
    (n : ℕ) (bs : List BindingInfo) → (check_arguments n bs ≡ ok tt) ↔ Below n bs
unfolding check_arguments
check_arguments_iff n [] = (λ h. tt, λ h. refl)
check_arguments_iff n (b ∷ bs) = (
  λ h. ground (arith, (check_arguments_iff n bs).0),
  λ h. ground (arith, (check_arguments_iff n bs).1 h.1),
)

pub check_threadgroup_arguments_iff :
    (n : ℕ) (bs : List BindingInfo) → (check_threadgroup_arguments n bs ≡ ok tt) ↔ Below n bs
unfolding check_threadgroup_arguments
check_threadgroup_arguments_iff n [] = (λ h. tt, λ h. refl)
check_threadgroup_arguments_iff n (b ∷ bs) = (
  λ h. ground (arith, (check_threadgroup_arguments_iff n bs).0),
  λ h. ground (arith, (check_threadgroup_arguments_iff n bs).1 h.1),
)

abbrev pub AreSmall : List Scalar → Type 0
AreSmall = All (λ s. s.size ≤ 4096)

pub check_scalar_sizes_iff : (ss : List Scalar) → (check_scalar_sizes ss ≡ ok tt) ↔ AreSmall ss
unfolding check_scalar_sizes
check_scalar_sizes_iff [] = (λ h. tt, λ h. refl)
check_scalar_sizes_iff (s ∷ ss) = (
  λ h. ground (arith, (check_scalar_sizes_iff ss).0),
  λ h. ground (arith, (check_scalar_sizes_iff ss).1 h.1),
)

-- The kernel's binding is a buffer, or of no known width, or a scalar of one or more whole elements.
abbrev pub IsWide : ℕ → List Scalar → BindingInfo → Type 0
IsWide buffer_count scalars b =
    (b.index < buffer_count)
    ⊎ (b.data_size ≡ 0)
    ⊎ ((s : Scalar) × (get_elem? scalars (b.index - buffer_count) ≡ some s)
        × (b.data_size ≤ s.size)
        × (s.size % b.data_size ≡ 0))

check_scalar_width_iff :
    (n : ℕ) (ss : List Scalar) (b : BindingInfo)
    → (check_scalar_width n ss b ≡ ok tt) ↔ IsWide n ss b
unfolding check_scalar_width
check_scalar_width_iff n ss b = elim (Bool-cases (ltb b.index n || b.data_size == 0)) [
  | inl skipped ↦ (λ h. ground arith, λ h. ground arith)
  | inr used ↦ elim (Option-cases (get_elem? ss (b.index - n))) [
    | inl absent ↦ (λ h. ground arith, λ h. ground arith)
    | inr (s, e) ↦ (
      λ h. inr (inr (s, e, ground arith, ground arith)),
      λ h. elim h [
        | inl i ↦ ground arith
        | inr (inl i) ↦ ground arith
        | inr (inr (s', e', wide, whole)) ↦ ground arith
      ],
    )
  ]
]

pub check_scalar_widths_iff :
    (n : ℕ) (ss : List Scalar) (bs : List BindingInfo)
    → (check_scalar_widths n ss bs ≡ ok tt) ↔ All (IsWide n ss) bs
unfolding check_scalar_widths
check_scalar_widths_iff n ss [] = (λ h. tt, λ h. refl)
check_scalar_widths_iff n ss (b ∷ bs) = (
  λ h. (
    (check_scalar_width_iff n ss b).0 (ground arith),
    (check_scalar_widths_iff n ss bs).0 (ground arith),
  ),
  λ h.
      rw ((check_scalar_width_iff n ss b).1 h.0, check_scalar_widths)
        ((check_scalar_widths_iff n ss bs).1 h.1),
)

-- A binding starts inside its buffer, or at the start of an empty one.
abbrev pub StartsInside : BufferBinding → Type 0
StartsInside b = (b.offset < b.buffer.size) ⊎ ((b.offset ≡ 0) × (b.buffer.size ≡ 0))

pub check_offsets_iff :
    (i : ℕ) (bs : List BufferBinding) → (check_offsets i bs ≡ ok tt) ↔ All StartsInside bs
unfolding check_offsets
check_offsets_iff i [] = (λ h. tt, λ h. refl)
check_offsets_iff i (b ∷ bs) = (
  λ h. (ground arith, (check_offsets_iff (i + 1) bs).0 (ground arith)),
  λ h. ground (arith, (check_offsets_iff (i + 1) bs).1 h.1),
)

pub get_elem?_of_lt {ℓ} :
    {A : Type ℓ} (xs : List A) (i : ℕ) → i < length xs → (x : A) × (get_elem? xs i ≡ some x)
get_elem?_of_lt [] i h = absurd (omega arith)
get_elem?_of_lt (x ∷ xs) zero h = (x, refl)
get_elem?_of_lt (x ∷ xs) (suc i) h = get_elem?_of_lt xs i (omega arith)

-- No scalar is read out of bounds, since every used binding is below the number of bindings.
pub check_scalar_widths-ne-undefined :
    (n : ℕ) (ss : List Scalar) (bs : List BindingInfo)
    → Below (n + length ss) bs
    → check_scalar_widths n ss bs ≢ throw undefined_behaviour
unfolding check_scalar_widths check_scalar_width
check_scalar_widths-ne-undefined n ss [] h = λ e. cc
check_scalar_widths-ne-undefined n ss (b ∷ bs) h = λ e.
    let rest = check_scalar_widths-ne-undefined n ss bs h.1 in
    elim (Bool-cases (ltb b.index n)) [
      | inl buffer ↦ ground arith
      | inr scalar ↦
          let (s, found) = get_elem?_of_lt ss (b.index - n) (ground arith) in ground arith
    ]
