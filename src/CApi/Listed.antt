-- ===== src/CApi/Listed.antt =====
-- What the loops of `build_launch` read from the arrays of a description.
use metal_runtime.CApi.{
  Array, at, bind_at, bind_buffer, bind_buffers, bind_scalar, bind_scalars, assign,
}
use metal_runtime.CApi.Memory.{MrBuffer}
use metal_runtime.Common.{
  ℕ, zero, suc, ◌+◌, ◌≡◌, ◌≢◌, inl, inr, refl, sym, ap, subst, Bool-cases, Option-cases, arith,
  List, [], ◌∷◌, ◌++◌, Option, none, some, Text, length, length-take_of_le, get_elem?, take, drop,
  leb, ◌==◌, ◌∙◌,
}
use metal_runtime.Dispatch.{BufferBinding, Scalar}
use metal_runtime.Errors.{ok, ◌>>=◌, >>=-eq-ok, >>-eq-ok, ok-injective}

-- The element of an array that is not null.
abbrev pub Holds : {A : Type 0} → Array A → ℕ → A → Type 0
Holds {A} array i x = (xs : List A) × (array ≡ some xs) × (get_elem? xs i ≡ some x)

at-Holds : {A : Type 0} (array : Array A) (i : ℕ) (x : A) → at array i ≡ ok x → Holds array i x
unfolding at
at-Holds none i x h = absurd (cc)
at-Holds (some xs) i x h = elim (Option-cases (get_elem? xs i)) [
  | inl out ↦ absurd (ground arith)
  | inr (y, found) ↦
      let e : ok y ≡ ok x = ground arith in (xs, refl, found ∙ ap some (ok-injective e))
]

-- What a launch's buffer stands for: a handle of the description, with its offset counted from the start
-- of the Metal buffer.
abbrev pub IsBuffer : Array (Option MrBuffer) → Array ℕ → ℕ → BufferBinding → Type 0
IsBuffer buffers offsets i binding =
    (b : MrBuffer) × (offset : ℕ) × Holds buffers i (some b)
    × Holds offsets i offset
    × (binding.buffer ≡ b.buffer)
    × (binding.offset ≡ b.external_offset + offset)

abbrev pub IsScalar : Array (Option ℕ) → Array ℕ → ℕ → Scalar → Type 0
IsScalar scalars sizes i s = Holds scalars i (some s.address) × Holds sizes i s.size

bind_buffer-IsBuffer :
    (who : Text) (buffers : Array (Option MrBuffer)) (offsets : Array ℕ) (i : ℕ)
    (binding : BufferBinding)
    → bind_buffer who buffers offsets i ≡ ok binding
    → IsBuffer buffers offsets i binding
unfolding bind_buffer bind_at
bind_buffer-IsBuffer who buffers offsets i binding e =
    let (entry, found, e2) = >>=-eq-ok (at buffers i) _ e in
    elim (Option-cases entry) [
      | inl null ↦ absurd (ground arith)
      | inr (b, given) ↦
          let bound : bind_at who offsets i b ≡ ok binding = ground arith in
          let (offset, there, e3) = >>=-eq-ok (at offsets i) _ bound in
          let (passes, e4) = >>-eq-ok _ _ e3 in
          let same : record { buffer = b.buffer; offset = offset + b.external_offset } ≡ binding =
            ok-injective e4 in
          (
            b,
            offset,
            at-Holds buffers i (some b) (found ∙ ap ok given),
            at-Holds offsets i offset there,
            ap (λ (b : BufferBinding). b.buffer) (sym same),
            omega (arith, ap (λ (b : BufferBinding). b.offset) (sym same)),
          )
    ]

bind_scalar-IsScalar :
    (who : Text) (scalars : Array (Option ℕ)) (sizes : Array ℕ) (i : ℕ) (s : Scalar)
    → bind_scalar who scalars sizes i ≡ ok s
    → IsScalar scalars sizes i s
unfolding bind_scalar
bind_scalar-IsScalar who scalars sizes i s e =
    let (entry, found, e2) = >>=-eq-ok (at scalars i) _ e in
    elim (Option-cases entry) [
      | inl null ↦ absurd (ground arith)
      | inr (address, given) ↦
          let bound : (at sizes i >>= λ size. ok (record { address = address; size = size }))
              ≡ ok s =
            ground arith in
          let (size, there, e3) = >>=-eq-ok (at sizes i) _ bound in
          let same : record { address = address; size = size } ≡ s = ok-injective e3 in
          (
            at-Holds scalars i (some s.address)
                (found ∙ ap ok (given ∙ ap (λ (s : Scalar). some s.address) same)),
            at-Holds sizes i s.size (there ∙ ap (λ (s : Scalar). ok s.size) same),
          )
    ]

-- Each entry of a list, counted from `i`.
abbrev pub Each : {A : Type 0} → (ℕ → A → Type 0) → ℕ → List A → Type 0
Each P i [] = Unit
Each P i (x ∷ xs) = P i x × Each P (i + 1) xs

pub bind_buffers-Each :
    (who : Text) (buffers : Array (Option MrBuffer)) (offsets : Array ℕ) (rounds i : ℕ)
    (bs : List BufferBinding)
    → bind_buffers who buffers offsets rounds i ≡ ok bs
    → Each (IsBuffer buffers offsets) i bs
unfolding bind_buffers
bind_buffers-Each who buffers offsets zero i bs e =
    subst (Each (IsBuffer buffers offsets) i) (ok-injective e) tt
bind_buffers-Each who buffers offsets (suc rounds) i bs e =
    let (b, first, e2) = >>=-eq-ok (bind_buffer who buffers offsets i) _ e in
    let (rest, others, e3) = >>=-eq-ok (bind_buffers who buffers offsets rounds (i + 1)) _ e2 in
    subst (Each (IsBuffer buffers offsets) i) (ok-injective e3) (
      bind_buffer-IsBuffer who buffers offsets i b first,
      bind_buffers-Each who buffers offsets rounds (i + 1) rest others,
    )

pub bind_scalars-Each :
    (who : Text) (scalars : Array (Option ℕ)) (sizes : Array ℕ) (rounds i : ℕ) (ss : List Scalar)
    → bind_scalars who scalars sizes rounds i ≡ ok ss
    → Each (IsScalar scalars sizes) i ss × (length ss ≡ rounds)
unfolding bind_scalars
bind_scalars-Each who scalars sizes zero i ss e =
    subst (λ ss. Each (IsScalar scalars sizes) i ss × (length ss ≡ zero)) (ok-injective e)
      (tt, refl)
bind_scalars-Each who scalars sizes (suc rounds) i ss e =
    let (s, first, e2) = >>=-eq-ok (bind_scalar who scalars sizes i) _ e in
    let (rest, others, e3) = >>=-eq-ok (bind_scalars who scalars sizes rounds (i + 1)) _ e2 in
    let known = bind_scalars-Each who scalars sizes rounds (i + 1) rest others in
    subst (λ ss. Each (IsScalar scalars sizes) i ss × (length ss ≡ suc rounds)) (ok-injective e3)
      ((bind_scalar-IsScalar who scalars sizes i s first, known.0), ap suc known.1)

-- The first `n` elements of an array, which may be null if there are none.
abbrev pub IsCopy : Array ℕ → ℕ → List ℕ → Type 0
IsCopy array n ns = (length ns ≡ n) × (n ≢ 0 → (rest : List ℕ) × (array ≡ some (ns ++ rest)))

append-take-drop : (n : ℕ) (xs : List ℕ) → xs ≡ take n xs ++ drop n xs
append-take-drop zero xs = refl
append-take-drop (suc n) [] = refl
append-take-drop (suc n) (x ∷ xs) = ap (◌∷◌ x) (append-take-drop n xs)

pub assign-IsCopy :
    (lengths : Array ℕ) (n : ℕ) (ns : List ℕ) → assign lengths n ≡ ok ns → IsCopy lengths n ns
unfolding assign
assign-IsCopy none n ns e = elim (Bool-cases (n == 0)) [
  | inl empty ↦
      let nil : [] ≡ ns = ground arith in
      (rw (sym nil) (ground arith), λ nonempty. absurd (ground arith))
  | inr bad ↦ absurd (ground arith)
]
assign-IsCopy (some xs) n ns e = elim (Bool-cases (leb n (length xs))) [
  | inl enough ↦
      let taken : take n xs ≡ ns = ground arith in
      (
        rw (sym taken) (length-take_of_le n xs (ground arith)),
        λ nonempty. (drop n xs, ap some (append-take-drop n xs ∙ ap (λ ns. ns ++ drop n xs) taken)),
      )
  | inr short ↦ absurd (ground arith)
]
