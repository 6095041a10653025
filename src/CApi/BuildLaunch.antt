-- ===== src/CApi/BuildLaunch.antt =====
-- `build_launch`: what it hands to `validate`.
use metal_runtime.Buffer.{Device}
use metal_runtime.CApi.Wrap.{mr_wrap_buffer_covers}
use metal_runtime.CApi.{MrLaunchDesc, bind_buffers, bind_scalars, assign, build_with, build_launch}
use metal_runtime.CApi.Memory.{Region, Copy, mr_wrap_buffer, MrBuffer}
use metal_runtime.Common.{
  ℕ, ◌≡◌, ◌≢◌, inl, inr, refl, sym, subst, Bool-cases, arith, List, [], Option, none, some, Text,
  length, ◌==◌, if◌then◌else◌, ◌∙◌,
}
use metal_runtime.Dispatch.Bindings.{check_offsets_iff}
use metal_runtime.Dispatch.{
  BufferBinding, Scalar, Launch, check_offsets, default_threadgroup, ComputePipeline,
}
use metal_runtime.Errors.{ok, Result-cases}
use metal_runtime.CApi.Bind.{IsWhole, WholeArray, bind_buffers-StartsInside}
use metal_runtime.CApi.Listed.{
  IsBuffer, IsScalar, Each, bind_buffers-Each, bind_scalars-Each, IsCopy, assign-IsCopy,
}

-- The launch that `build_with` fills in.
built : ComputePipeline → MrLaunchDesc → List BufferBinding → List Scalar → List ℕ → Launch
built pipeline d bs ss ns = record {
  pipeline = some pipeline;
  buffers = bs;
  scalars = ss;
  threadgroup_memory = ns;
  grid = d.grid;
  threadgroup = if d.threadgroup.x == 0 then default_threadgroup pipeline d.grid else d.threadgroup;
  indirect_grid = none;
  indirect_offset = 0;
}

build_with-built :
    (who : Text) (pipeline : ComputePipeline) (d : MrLaunchDesc) (l : Launch)
    → build_with who pipeline d ≡ ok l
    → (bs : List BufferBinding) × (ss : List Scalar) × (ns : List ℕ) × (bind_buffers who d.buffers
          d.buffer_offsets d.buffer_count 0
        ≡ ok bs)
      × (bind_scalars who d.scalars d.scalar_sizes d.scalar_count 0 ≡ ok ss)
      × IsCopy d.threadgroup_memory d.threadgroup_memory_count ns
      × (built pipeline d bs ss ns ≡ l)
unfolding build_with built
build_with-built who pipeline d l e =
    elim (Result-cases (bind_buffers who d.buffers d.buffer_offsets d.buffer_count 0)) [
      | inr (x, b) ↦ absurd (ground arith)
      | inl (bs, b) ↦
          elim (Result-cases (bind_scalars who d.scalars d.scalar_sizes d.scalar_count 0)) [
            | inr (x, s) ↦ absurd (ground arith)
            | inl (ss, s) ↦ elim (Bool-cases (d.threadgroup_memory_count == 0)) [
              | inl no_memory ↦
                  (bs, ss, [], b, s, (ground arith, λ m. absurd (ground arith)), ground arith)
              | inr memory ↦
                  elim (Result-cases (assign d.threadgroup_memory d.threadgroup_memory_count)) [
                    | inr (x, n) ↦ absurd (ground arith)
                    | inl (ns, n) ↦ (
                      bs,
                      ss,
                      ns,
                      b,
                      s,
                      assign-IsCopy d.threadgroup_memory d.threadgroup_memory_count ns n,
                      ground arith,
                    )
                  ]
            ]
          ]
    ]

-- What a launch of a description is. Its buffers and scalars are the description's, in order and as many
-- as it counts: the Metal buffer of each handle, at the caller's offset behind the start of the caller's
-- bytes, and the address and the size of each scalar. A null array stands for none.
pub record Describes (pipeline : ComputePipeline) (d : MrLaunchDesc) (l : Launch) : Type 0 where
  pub kernel : l.pipeline ≡ some pipeline
  pub buffers : Each (IsBuffer d.buffers d.buffer_offsets) 0 l.buffers
  pub buffer_count : length l.buffers ≡ d.buffer_count
  pub scalars : Each (IsScalar d.scalars d.scalar_sizes) 0 l.scalars
  pub scalar_count : length l.scalars ≡ d.scalar_count
  pub lengths : IsCopy d.threadgroup_memory d.threadgroup_memory_count l.threadgroup_memory
  pub grid : l.grid ≡ d.grid
  pub given : d.threadgroup.x ≢ 0 → l.threadgroup ≡ d.threadgroup
  pub derived : d.threadgroup.x ≡ 0 → l.threadgroup ≡ default_threadgroup pipeline d.grid
  pub direct : (l.indirect_grid ≡ none) × (l.indirect_offset ≡ 0)

-- A launch made from a description of whole buffers has exactly what the description lists. Each buffer
-- is the Metal buffer of its handle, at the caller's offset counted from the start of the caller's
-- bytes, and each scalar its address and its size, in order and as many as are counted. The threadgroup
-- memory and the grid are copied, as is the threadgroup unless its first side is 0; then it is derived
-- from the grid. There is no indirect grid, and every buffer passes the offset check of `validate`.
pub build_launch-Builds :
    (who : Text) (pipeline : ComputePipeline) (d : MrLaunchDesc) (l : Launch)
    → d.pipeline ≡ some pipeline
    → WholeArray d.buffers
    → build_launch who (some d) ≡ ok l
    → Describes pipeline d l × (check_offsets 0 l.buffers ≡ ok tt)
unfolding build_launch built
build_launch-Builds who pipeline d l p whole e =
    let (bs, ss, ns, b, s, n, same) = build_with-built who pipeline d l (ground arith) in
    let known =
      bind_buffers-StartsInside who d.buffers d.buffer_offsets d.buffer_count 0 bs whole b in
    let (scalars, count) = bind_scalars-Each who d.scalars d.scalar_sizes d.scalar_count 0 ss s in
    subst (λ (l : Launch). Describes pipeline d l × (check_offsets 0 l.buffers ≡ ok tt)) same
      (
        record {
          kernel = refl;
          buffers = bind_buffers-Each who d.buffers d.buffer_offsets d.buffer_count 0 bs b;
          buffer_count = known.1;
          scalars = scalars;
          scalar_count = count;
          lengths = n;
          grid = refl;
          given = λ h. ground arith;
          derived = λ h. ground arith;
          direct = (refl, refl);
        },
        (check_offsets_iff 0 bs).1 known.0,
      )

-- `mr_wrap_buffer` makes only buffers that hold the caller's bytes, empty exactly where the caller's
-- range is.
pub mr_wrap_buffer-IsWhole :
    (device : Device) (vm : ℕ → Option Region) (ptr size : ℕ) (b : MrBuffer) (copies : List Copy)
    → mr_wrap_buffer device vm ptr size ≡ ok (b, copies)
    → IsWhole b
mr_wrap_buffer-IsWhole device vm ptr size b copies h =
    let (kind, p, l) = mr_wrap_buffer_covers device vm ptr size b copies h in
    elim kind [
      | inl i ↦
          let within = i.within in
          let pos = i.some_bytes in
          let covers = i.covers.covers in
          record { inside = omega arith; empty = λ none. absurd (omega arith) }
      | inr o ↦
          let start = o.no_offset in
          let same = o.same_size in
          record { inside = omega arith; empty = λ none. (start, same ∙ sym l ∙ none) }
    ]
