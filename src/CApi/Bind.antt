-- ===== src/CApi/Bind.antt =====
-- What `build_launch` binds: buffers at offsets inside their bytes.
use metal_runtime.CApi.{Array, at, bind_buffer, bind_buffers, bind_at}
use metal_runtime.CApi.Memory.{MrBuffer}
use metal_runtime.Common.{
  ℕ, zero, suc, ◌+◌, ◌-◌, ◌≤◌, ◌≡◌, inl, inr, refl, ap, subst, not, ◌||◌, ◌&&◌, Bool-cases,
  Option-cases, arith, List, [], ◌∷◌, Option, none, some, Text, length, get_elem?, ltb, leb, ◌==◌,
  size_max, All,
}
use metal_runtime.Dispatch.Bindings.{StartsInside}
use metal_runtime.Dispatch.{BufferBinding}
use metal_runtime.Errors.{Error, ok, throw_if, >>=-eq-ok, >>-eq-ok, ok-injective}

-- The caller's bytes lie in the Metal buffer; an empty range has an empty buffer. `mr_wrap_buffer`
-- makes only such buffers.
pub record IsWhole (b : MrBuffer) : Type 0 where
  pub inside : b.external_offset + b.logical_size ≤ b.buffer.size
  pub empty : b.logical_size ≡ 0 → (b.external_offset ≡ 0) × (b.buffer.size ≡ 0)

abbrev pub WholeEntry : Option MrBuffer → Type 0
WholeEntry none = Unit
WholeEntry (some b) = IsWhole b

abbrev pub WholeArray : Array (Option MrBuffer) → Type 0
WholeArray none = Unit
WholeArray (some bs) = All WholeEntry bs

All-get_elem? {ℓ κ} :
    {A : Type ℓ} (P : A → Type κ) (xs : List A) (i : ℕ) (x : A)
    → All P xs
    → get_elem? xs i ≡ some x
    → P x
All-get_elem? P [] i x h e = cc
All-get_elem? P (y ∷ xs) zero x h e = let e2 : y ≡ x = cc in subst P e2 h.0
All-get_elem? P (y ∷ xs) (suc i) x h e = All-get_elem? P xs i x h.1 e

at-Whole :
    (bs : Array (Option MrBuffer)) (i : ℕ) (b : Option MrBuffer)
    → WholeArray bs
    → at bs i ≡ ok b
    → WholeEntry b
unfolding at
at-Whole none i b h e = cc
at-Whole (some bs) i b h e = elim (Option-cases (get_elem? bs i)) [
  | inl out ↦ absurd (ground arith)
  | inr (x, found) ↦ All-get_elem? WholeEntry bs i b h (ground arith)
]

bound-StartsInside :
    (b : MrBuffer) (offset : ℕ) (error : Error)
    → IsWhole b
    → (throw_if
          (leb b.logical_size offset && not (offset == 0 && b.logical_size == 0)
            || ltb (size_max - b.external_offset) offset)
          error
        ≡ ok tt)
    → StartsInside (record { buffer = b.buffer; offset = offset + b.external_offset })
bound-StartsInside b offset error whole passes =
    let inside : b.external_offset + b.logical_size ≤ b.buffer.size = whole.inside in
    let empty : b.logical_size ≡ 0 → (b.external_offset ≡ 0) × (b.buffer.size ≡ 0) = whole.empty in
    elim (Bool-cases (ltb offset b.logical_size)) [
      | inl under ↦ inl (ground arith)
      | inr over ↦
          let nothing : b.logical_size ≡ 0 = ground arith in
          let both = empty nothing in inr (ground arith, both.1)
    ]

bind_at-StartsInside :
    (who : Text) (offsets : Array ℕ) (i : ℕ) (b : MrBuffer) (binding : BufferBinding)
    → IsWhole b
    → bind_at who offsets i b ≡ ok binding
    → StartsInside binding
unfolding bind_at
bind_at-StartsInside who offsets i b binding whole e =
    let (offset, o, e2) = >>=-eq-ok (at offsets i) _ e in
    let (passes, e3) = >>-eq-ok _ _ e2 in
    subst StartsInside (ok-injective e3) (bound-StartsInside b offset _ whole passes)

bind_buffer-StartsInside :
    (who : Text) (bs : Array (Option MrBuffer)) (offsets : Array ℕ) (i : ℕ)
    (binding : BufferBinding)
    → WholeArray bs
    → bind_buffer who bs offsets i ≡ ok binding
    → StartsInside binding
unfolding bind_buffer
bind_buffer-StartsInside who bs offsets i binding h e =
    let (entry, found, rest) = >>=-eq-ok (at bs i) _ e in
    elim (Option-cases entry) [
      | inl null ↦ absurd (ground arith)
      | inr (b, e2) ↦
          bind_at-StartsInside who offsets i b binding
            (subst WholeEntry e2 (at-Whole bs i entry h found)) (ground arith)
    ]

pub bind_buffers-StartsInside :
    (who : Text) (bs : Array (Option MrBuffer)) (offsets : Array ℕ) (rounds i : ℕ)
    (bindings : List BufferBinding)
    → WholeArray bs
    → bind_buffers who bs offsets rounds i ≡ ok bindings
    → All StartsInside bindings × (length bindings ≡ rounds)
unfolding bind_buffers
bind_buffers-StartsInside who bs offsets zero i bindings h e =
    let z : [] ≡ bindings = ok-injective e in
    subst (λ bs. All StartsInside bs × (length bs ≡ 0)) z (tt, refl)
bind_buffers-StartsInside who bs offsets (suc rounds) i bindings h e =
    let (b, first, e2) = >>=-eq-ok (bind_buffer who bs offsets i) _ e in
    let (rest, others, e3) = >>=-eq-ok (bind_buffers who bs offsets rounds (i + 1)) _ e2 in
    let known = bind_buffers-StartsInside who bs offsets rounds (i + 1) rest h others in
    let inside = bind_buffer-StartsInside who bs offsets i b h first in
    subst (λ bs. All StartsInside bs × (length bs ≡ suc rounds)) (ok-injective e3)
      ((inside, known.0), ap suc known.1)
