-- ===== src/Batch/Sends.antt =====
-- What a launch must send to the encoder, described apart from the code that sends it.
use metal_runtime.Batch.Encode.{set_lengths-ok}
use metal_runtime.Batch.{
  Command, set_pipeline, set_buffer, set_bytes, set_threadgroup_memory_length, dispatch_threads,
  dispatch_threadgroups, dispatch_threadgroups_indirect, set_scalars, set_buffers, set_lengths,
  dispatch_command, encode,
}
use metal_runtime.Buffer.{Buffer}
use metal_runtime.Common.{
  ℕ, suc, ◌+◌, ◌*◌, ◌%◌, ◌/◌, ◌≤◌, ◌<◌, ◌≡◌, inl, inr, refl, ap, subst, arith, Bool, true, false,
  List, [], ◌∷◌, ◌++◌, none, some, length, Option-cases,
}
use metal_runtime.Dispatch.Defined.{validate-ok-lengths, validate-ok-division}
use metal_runtime.Dispatch.Validate.{Divides, check_division_iff}
use metal_runtime.Dispatch.{
  Dim3, ComputePipeline, BufferBinding, Scalar, Launch, rounded_threadgroup_length, validate,
}
use metal_runtime.Errors.{ok, Result-cases}

-- Two lists of the same length, entry by entry, counted from `i`.
abbrev pub Pairs : {A B : Type 0} → (ℕ → A → B → Type 0) → ℕ → List A → List B → Type 0
Pairs P i [] [] = Unit
Pairs P i [] (y ∷ ys) = ⊥
Pairs P i (x ∷ xs) [] = ⊥
Pairs P i (x ∷ xs) (y ∷ ys) = P i x y × Pairs P (i + 1) xs ys

-- A buffer is bound at its offset, and a scalar by its bytes.
abbrev pub SendsBuffer : ℕ → BufferBinding → Command → Type 0
SendsBuffer i b c = c ≡ set_buffer b.buffer.handle b.offset i

abbrev pub SendsScalar : ℕ → Scalar → Command → Type 0
SendsScalar i s c = c ≡ set_bytes s.address s.size i

-- Threadgroup memory gets the least multiple of 16 bytes that holds what is asked for.
abbrev pub SendsLength : ℕ → ℕ → Command → Type 0
SendsLength i n c =
    (r : ℕ) × (c ≡ set_threadgroup_memory_length r i) × (r % 16 ≡ 0) × (n ≤ r) × (r < n + 16)

-- The dispatch runs the launch's grid: the counts in the indirect buffer, the grid's threads, or as many
-- whole threadgroups as make up exactly the grid.
pub data Dispatches (l : Launch) : Bool → Command → Type 0 where
  counts :
      {non_uniform : Bool} (b : Buffer)
      → l.indirect_grid ≡ some b
      → Dispatches l non_uniform
          (dispatch_threadgroups_indirect b.handle l.indirect_offset l.threadgroup)
  whole_grid : l.indirect_grid ≡ none → Dispatches l true (dispatch_threads l.grid l.threadgroup)
  groups :
      (n : Dim3)
      → l.indirect_grid ≡ none
      → n.x * l.threadgroup.x ≡ l.grid.x
      → n.y * l.threadgroup.y ≡ l.grid.y
      → n.z * l.threadgroup.z ≡ l.grid.z
      → Dispatches l false (dispatch_threadgroups n l.threadgroup)

-- The calls in order: the pipeline, the buffers from index 0 on, the scalars behind them, the threadgroup
-- memory from index 0 on, and one dispatch.
pub record Sends (p : ComputePipeline) (l : Launch) (non_uniform : Bool) (cs : List Command)
    : Type 0 where
  pub buffers : List Command
  pub scalars : List Command
  pub lengths : List Command
  pub dispatch : Command
  pub all : cs ≡ set_pipeline p ∷ (buffers ++ scalars) ++ lengths ++ dispatch ∷ []
  pub each_buffer : Pairs SendsBuffer 0 l.buffers buffers
  pub each_scalar : Pairs SendsScalar (length l.buffers) l.scalars scalars
  pub each_length : Pairs SendsLength 0 l.threadgroup_memory lengths
  pub runs : Dispatches l non_uniform dispatch

set_scalars-Pairs : (i : ℕ) (ss : List Scalar) → Pairs SendsScalar i ss (set_scalars i ss)
unfolding set_scalars
set_scalars-Pairs i [] = tt
set_scalars-Pairs i (s ∷ ss) = (refl, set_scalars-Pairs (i + 1) ss)

-- The calls of the first loop, and those of the second behind them.
set_buffers-Pairs :
    (i : ℕ) (bs : List BufferBinding) (ss : List Scalar)
    → (buffers : List Command) × (scalars : List Command) × (set_buffers i bs ss
        ≡ buffers ++ scalars)
      × Pairs SendsBuffer i bs buffers
      × Pairs SendsScalar (i + length bs) ss scalars
unfolding set_buffers
set_buffers-Pairs i [] ss =
    let here : i ≡ i + 0 = omega arith in
    (
      [],
      set_scalars i ss,
      refl,
      tt,
      subst (λ j. Pairs SendsScalar j ss (set_scalars i ss)) here (set_scalars-Pairs i ss),
    )
set_buffers-Pairs i (b ∷ bs) ss =
    let (buffers, scalars, all, bound, behind) = set_buffers-Pairs (i + 1) bs ss in
    let first = set_buffer b.buffer.handle b.offset i in
    let next : i + 1 + length bs ≡ i + suc (length bs) = omega arith in
    (
      first ∷ buffers,
      scalars,
      ap (◌∷◌ first) all,
      (refl, bound),
      subst (λ j. Pairs SendsScalar j ss scalars) next behind,
    )

round-Sends :
    (n r : ℕ) → rounded_threadgroup_length n ≡ ok r → (r % 16 ≡ 0) × (n ≤ r) × (r < n + 16)
unfolding rounded_threadgroup_length
round-Sends n r h = ground arith

set_lengths-Pairs :
    (i : ℕ) (ns : List ℕ)
    → (set_lengths i ns).1 ≡ ok tt
    → Pairs SendsLength i ns (set_lengths i ns).0
unfolding set_lengths
set_lengths-Pairs i [] h = tt
set_lengths-Pairs i (n ∷ ns) h = elim (Result-cases (rounded_threadgroup_length n)) [
  | inr (x, e) ↦ absurd (ground arith)
  | inl (r, e) ↦
      let rest : (set_lengths (i + 1) ns).1 ≡ ok tt = ground arith in
      rw (e, set_lengths)
        (
          let (whole, holds, least) = round-Sends n r e in (r, refl, whole, holds, least),
          set_lengths-Pairs (i + 1) ns rest,
        )
]

-- A side that the threadgroup's divides is made up of whole threadgroups.
div-mul : (n d : ℕ) → n % d ≡ 0 → (n / d) * d ≡ n
div-mul n d h = grind arith

direct-Dispatches :
    (l : Launch) (nu : Bool)
    → l.indirect_grid ≡ none
    → Divides l nu none
    → Dispatches l nu (dispatch_command l nu)
unfolding dispatch_command
direct-Dispatches l true direct h =
    let sent : dispatch_threads l.grid l.threadgroup ≡ dispatch_command l true = ground arith in
    subst (Dispatches l true) sent (whole_grid direct)
direct-Dispatches l false direct h = elim h [
  | inl uneven ↦ absurd (ground arith)
  | inr (x, y, z) ↦
      let n : Dim3 = record {
        x = l.grid.x / l.threadgroup.x;
        y = l.grid.y / l.threadgroup.y;
        z = l.grid.z / l.threadgroup.z;
      } in
      let sent : dispatch_threadgroups n l.threadgroup ≡ dispatch_command l false = ground arith in
      subst (Dispatches l false) sent (
        groups n direct (div-mul l.grid.x l.threadgroup.x x) (div-mul l.grid.y l.threadgroup.y y)
          (div-mul l.grid.z l.threadgroup.z z))
]

dispatch_command-Dispatches :
    (l : Launch) (nu : Bool)
    → Divides l nu l.indirect_grid
    → Dispatches l nu (dispatch_command l nu)
unfolding dispatch_command
dispatch_command-Dispatches l nu h = elim (Option-cases l.indirect_grid) [
  | inr (b, indirect) ↦
      let sent : dispatch_threadgroups_indirect b.handle l.indirect_offset l.threadgroup
          ≡ dispatch_command l nu =
        ground arith in
      subst (Dispatches l nu) sent (counts b indirect)
  | inl direct ↦ direct-Dispatches l nu direct (subst (Divides l nu) direct h)
]

-- What is encoded of a launch that `validate` accepts.
pub encode-Sends :
    (p : ComputePipeline) (l : Launch) (nu : Bool) (m : ℕ)
    → validate l nu m ≡ ok tt
    → Sends p l nu (encode p l nu).0
unfolding encode
encode-Sends p l nu m h =
    let (q, t, found, fits) = validate-ok-lengths l nu m h in
    let rounds =
      set_lengths-ok m q.static_threadgroup_memory_length 0 l.threadgroup_memory {t = t} fits in
    let (buffers, scalars, all, bound, behind) = set_buffers-Pairs 0 l.buffers l.scalars in
    let start : 0 + length l.buffers ≡ length l.buffers = omega arith in
    let lengths = (set_lengths 0 l.threadgroup_memory).0 in
    let last = dispatch_command l nu in
    record {
      buffers = buffers;
      scalars = scalars;
      lengths = lengths;
      dispatch = last;
      all = rw (rounds, encode) (ap (λ bs. set_pipeline p ∷ bs ++ lengths ++ last ∷ []) all);
      each_buffer = bound;
      each_scalar = subst (λ j. Pairs SendsScalar j l.scalars scalars) start behind;
      each_length = set_lengths-Pairs 0 l.threadgroup_memory rounds;
      runs =
          dispatch_command-Dispatches l nu
            ((check_division_iff l nu).0 (validate-ok-division l nu m h));
    }
