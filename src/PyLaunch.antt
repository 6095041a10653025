-- ===== src/PyLaunch.antt =====
-- src/bindings.cpp: `GridArg`, `BufferArg`, `PreparedLaunch`, `prepare`, `run`. A Python object is
-- the number that `nb::find` gives for it.
pub mod Binds
pub mod Laws
pub mod Pinned
pub mod Run
use metal_runtime.Batch.{Command, CommandBatch, Completion, dispatch}
use metal_runtime.Buffer.{Buffer}
use metal_runtime.Common.{
  ℕ, ◌+◌, Bool, not, any, List, [], ◌∷◌, ◌++◌, Option, none, some, map, ◌==◌,
}
use metal_runtime.DType.{DlpackType, check_scalar_dtype}
use metal_runtime.Dispatch.{
  Dim3, ComputePipeline, BufferBinding, Scalar, Launch, default_threadgroup,
}
use metal_runtime.Errors.{
  Result, ok, throw, ◌>>=◌, ◌>>◌, throw_if, indirect_threadgroup, indirect_offset_alone,
  none_buffer,
}
use metal_runtime.Extent.{Extent, to_dim3}

-- A `PyBuffer*` that is not null.
pub record BufferObject : Type 0 where
  pub object : ℕ
  pub buffer : Buffer

pub record KernelObject : Type 0 where
  pub object : ℕ
  pub pipeline : ComputePipeline

pub data GridArg : Type 0 where
  host : Extent → GridArg
  indirect : BufferObject → GridArg

-- A null `PyBuffer*` is `none`.
pub data BufferArg : Type 0 where
  plain : Option BufferObject → BufferArg
  at_offset : Option BufferObject → ℕ → BufferArg

-- A `HostArray` that is a scalar argument.
pub record ScalarArray : Type 0 where
  pub dtype : DlpackType
  pub data_address : ℕ
  pub nbytes : ℕ

pub record Arguments : Type 0 where
  pub kernel : KernelObject
  pub grid : GridArg
  pub threadgroup : Option Extent
  pub buffers : List BufferArg
  pub scalars : List ScalarArray
  pub threadgroup_memory : List ℕ
  pub indirect_offset : ℕ

pub record PreparedLaunch : Type 0 where
  pub launch : Launch
  pub keepalive : List ℕ
  pub scalars : List ScalarArray

-- `count` of a set of objects.
abbrev pub contains : ℕ → List ℕ → Bool
contains o os = any (λ p. p == o) os

abbrev pub unit_extent : Dim3
unit_extent = record { x = 1; y = 1; z = 1 }

-- The fields that the branch on `grid` writes, and the objects it pins.
pub record GridFields : Type 0 where
  pub grid : Dim3
  pub threadgroup : Dim3
  pub indirect_grid : Option Buffer
  pub indirect_offset : ℕ
  pub pinned : List ℕ

unfoldable pub host_threadgroup : ComputePipeline → Dim3 → Option Extent → Result Dim3
unfolding to_dim3 default_threadgroup
host_threadgroup pipeline grid none = ok (default_threadgroup pipeline grid)
host_threadgroup pipeline grid (some e) = to_dim3 e

unfoldable pub indirect_extent : Option Extent → Result Dim3
unfolding to_dim3
indirect_extent none = throw indirect_threadgroup
indirect_extent (some e) = to_dim3 e

unfoldable pub prepare_grid : ComputePipeline → GridArg → Option Extent → ℕ → Result GridFields
unfolding host_threadgroup indirect_extent to_dim3
prepare_grid pipeline (indirect b) threadgroup offset = do
  t ← indirect_extent threadgroup
  ok (record {
    grid = unit_extent;
    threadgroup = t;
    indirect_grid = some b.buffer;
    indirect_offset = offset;
    pinned = b.object ∷ [];
  })
prepare_grid pipeline (host e) threadgroup offset = do
  throw_if (not (offset == 0)) indirect_offset_alone
  grid ← to_dim3 e
  t ← host_threadgroup pipeline grid threadgroup
  ok (record {
    grid = grid;
    threadgroup = t;
    indirect_grid = none;
    indirect_offset = 0;
    pinned = [];
  })

abbrev pub pointer : BufferArg → Option BufferObject
pointer (plain b) = b
pointer (at_offset b offset) = b

abbrev pub offset_of : BufferArg → ℕ
offset_of (plain b) = 0
offset_of (at_offset b offset) = offset

-- The loop over `buffers`: the bindings, and the objects it pins.
unfoldable pub prepare_buffers : List BufferArg → Result (List BufferBinding × List ℕ)
prepare_buffers [] = ok ([], [])
prepare_buffers (arg ∷ args) = elim (pointer arg) [
  | none ↦ throw none_buffer
  | some b ↦ prepare_buffers args >>= λ rest.
      ok (record { buffer = b.buffer; offset = offset_of arg } ∷ rest.0, b.object ∷ rest.1)
]

-- The loop over `scalars`; `i` is its counter.
unfoldable pub prepare_scalars : ℕ → List ScalarArray → Result (List Scalar)
unfolding check_scalar_dtype
prepare_scalars i [] = ok []
prepare_scalars i (s ∷ ss) = do
  check_scalar_dtype s.dtype i
  rest ← prepare_scalars (i + 1) ss
  ok (record { address = s.data_address; size = s.nbytes } ∷ rest)

-- The launch that the parts make, with the objects it pins.
abbrev pub prepared :
    Arguments → GridFields → List BufferBinding × List ℕ → List Scalar → PreparedLaunch
prepared a g bound scalars = record {
  launch = record {
    pipeline = some a.kernel.pipeline;
    buffers = bound.0;
    scalars = scalars;
    threadgroup_memory = a.threadgroup_memory;
    grid = g.grid;
    threadgroup = g.threadgroup;
    indirect_grid = g.indirect_grid;
    indirect_offset = g.indirect_offset;
  };
  keepalive = a.kernel.object ∷ g.pinned ++ bound.1;
  scalars = a.scalars;
}

unfoldable pub prepare : Arguments → Result PreparedLaunch
unfolding prepare_grid prepare_buffers prepare_scalars
prepare a = do
  g ← prepare_grid a.kernel.pipeline a.grid a.threadgroup a.indirect_offset
  bound ← prepare_buffers a.buffers
  scalars ← prepare_scalars 0 a.scalars
  ok (prepared a g bound scalars)

-- `run`, over the batch that `dispatch` makes: the calls of Metal, and the result.
unfoldable pub run : CommandBatch → Arguments → Completion → List Command × Result (Unit {0})
unfolding prepare dispatch
run b a done = elim (prepare a) [ throw e ↦ ([], throw e) | ok p ↦ dispatch b p.launch done ]
