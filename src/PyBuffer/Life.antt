-- ===== src/PyBuffer/Life.antt =====
-- The life of a `PyBuffer`: made, refilled, and written through its views and by kernels.
use native.Mathlib.Nat.{mul-div_cancel}
use metal_runtime.Buffer.{Device}
use metal_runtime.Common.{
  ℕ, ◌*◌, ◌≡◌, ◌≢◌, refl, sym, ◌∙◌, subst, arith, Bool, List, Option, none, some, Text, length,
  length-take_of_le,
}
use metal_runtime.DType.{itemsize, dtype_name, dtype_from_name}
use metal_runtime.DType.Laws.{dtype_from_name_iff, bits-pos, resolve_dtype-named}
use metal_runtime.Errors.{ok, >>=-eq-ok}
use metal_runtime.Extent.{element_count}
use metal_runtime.Extent.Sizes.{product}
use metal_runtime.PyBuffer.{HostArray, PyBuffer, from_array, filled, copy_from, to_dlpack_ndarray}
use metal_runtime.PyBuffer.Copies.{copy_from_iff}
use metal_runtime.PyBuffer.Upload.{from_array-Holds}
use metal_runtime.PyBuffer.Laws.{from_array_iff}
use metal_runtime.PyBuffer.Construct.{IsArray, IsWhole, construct_iff, length-first_bytes}

-- A buffer that calls of Python have made. Kernels and NumPy views write bytes of its allocation.
pub data Reach (device : Device) (fresh : ℕ → List ℕ) : PyBuffer → Type 0 where
  uploaded :
      (array : HostArray) (name : Option Text) (b : PyBuffer)
      → IsArray array
      → from_array device fresh array name ≡ ok b
      → Reach device fresh b
  made :
      (zero_fill : Bool) (shape : List ℕ) (name : Text) (b : PyBuffer)
      → filled device fresh zero_fill shape name ≡ ok b
      → Reach device fresh b
  refilled :
      (array : HostArray) (name : Option Text) (b c : PyBuffer)
      → Reach device fresh b
      → copy_from b array name ≡ ok c
      → Reach device fresh c
  written :
      (bytes : List ℕ) (b : PyBuffer)
      → Reach device fresh b
      → length bytes ≡ length b.contents
      → Reach device fresh (record b { contents = bytes })

-- What every use of a buffer relies on.
abbrev pub IsTyped : PyBuffer → Type 0
IsTyped b = IsWhole b × (dtype_name b.dtype ≢ none)

module _ (device : Device) (fresh : ℕ → List ℕ)
    (fresh_length : (n : ℕ) → length (fresh n) ≡ n) where
  uploaded-IsTyped :
      (array : HostArray) (name : Option Text) (b : PyBuffer)
      → IsArray array
      → from_array device fresh array name ≡ ok b
      → IsTyped b
  uploaded-IsTyped array name b whole h =
      let (d, k, resolved, _, _, _, is) =
        (from_array_iff device fresh array name b fresh_length whole).0 h in
      let holds = from_array-Holds device fresh array name b fresh_length whole h in
      (
        holds.0,
        subst (λ (b : PyBuffer). dtype_name b.dtype ≢ none) (sym is)
            (resolve_dtype-named array.dtype array.itemsize name d resolved),
      )

  made-IsTyped :
      (zero_fill : Bool) (shape : List ℕ) (name : Text) (b : PyBuffer)
      → filled device fresh zero_fill shape name ≡ ok b
      → IsTyped b
  unfolding filled
  made-IsTyped zero_fill shape name b h =
      let (d, named, built) = >>=-eq-ok (dtype_from_name name) _ h in
      let (_, _, k, _, is) =
        (construct_iff device fresh shape d zero_fill b fresh_length).0 built in
      let n = product 1 shape * itemsize d in
      let known : dtype_name d ≡ some name = (dtype_from_name_iff name d).0 named in
      subst IsTyped (sym is)
        ((refl, length-first_bytes fresh zero_fill n fresh_length), λ missing. cc)

  keeps : {b : PyBuffer} → Reach device fresh b → IsTyped b
  keeps (uploaded array name b whole h) = uploaded-IsTyped array name b whole h
  keeps (made zero_fill shape name b h) = made-IsTyped zero_fill shape name b h
  keeps (refilled array name b c r h) =
      let (whole, named) = keeps r in
      let (_, _, is, holds) = (copy_from_iff b c array name whole).0 h in
      (holds.0, subst (λ (b : PyBuffer). dtype_name b.dtype ≢ none) (sym is) named)
  keeps (written bytes b r h) = let ((sized, room), named) = keeps r in ((sized, h ∙ room), named)

  -- Every buffer that the constructors, `copy_from` and writes to its memory can leave has a dtype of the
  -- table, so no null name is printed; its size is that of its elements and does not wrap around, its
  -- allocation holds them, `size` counts them, and a DLPack view has exactly the buffer's bytes.
  pub Reach-IsTyped :
      {b : PyBuffer}
      → Reach device fresh b
      → IsTyped b
        × (element_count b.buffer.size b.dtype ≡ product 1 b.shape)
        × (length (to_dlpack_ndarray b).bytes ≡ b.buffer.size)
  unfolding element_count itemsize to_dlpack_ndarray
  Reach-IsTyped {b} r =
      let typed = keeps r in
      let ((sized, room), named) = typed in
      let bits = bits-pos b.dtype named in
      (
        typed,
        rw sized (mul-div_cancel (product 1 b.shape) (omega arith)),
        length-take_of_le (product 1 b.shape * itemsize b.dtype) b.contents (omega arith)
            ∙ sym sized,
      )
