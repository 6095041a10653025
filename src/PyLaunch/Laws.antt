-- ===== src/PyLaunch/Laws.antt =====
-- When `prepare` returns, and the launch that it returns.
use metal_runtime.Common.{
  ℕ, ◌≡◌, ◌↔◌, refl, sym, ap, ◌∙◌, subst, arith, not, List, [], ◌∷◌, ◌++◌, Option, none, some, All,
  ◌==◌, ==_iff,
}
use metal_runtime.Dispatch.{Dim3, ComputePipeline, BufferBinding, default_threadgroup}
use metal_runtime.Errors.{
  Result, ok, ◌>>=◌, >>=-eq-ok, throw_if-eq-ok, ok-injective, some-injective, indirect_offset_alone,
}
use metal_runtime.Extent.{Extent, to_dim3}
use metal_runtime.PyLaunch.{
  GridArg, host, indirect, Arguments, PreparedLaunch, GridFields, host_threadgroup, indirect_extent,
  prepare_grid, prepare_buffers, prepare_scalars, prepared, prepare, unit_extent,
}
use metal_runtime.PyLaunch.Binds.{
  Binds, prepare_buffers_iff, IsScalar, scalars_of, prepare_scalars_iff,
}

-- A host launch's threadgroup: the one that is given, or else one that is derived from the grid.
abbrev pub HostThreadgroup : ComputePipeline → Dim3 → Option Extent → Dim3 → Type 0
HostThreadgroup p grid none t = t ≡ default_threadgroup p grid
HostThreadgroup p grid (some e) t = to_dim3 e ≡ ok t

-- The fields that a grid argument stands for. An indirect grid needs a threadgroup, and only it takes
-- an offset.
abbrev pub Extents : ComputePipeline → GridArg → Option Extent → ℕ → GridFields → Type 0
Extents p (host e) threadgroup offset g =
    (offset ≡ 0)
    × (grid : Dim3) × (to_dim3 e ≡ ok grid)
    × (t : Dim3) × HostThreadgroup p grid threadgroup t
    × (g ≡ record {
      grid = grid;
      threadgroup = t;
      indirect_grid = none;
      indirect_offset = 0;
      pinned = [];
    })
Extents p (indirect b) threadgroup offset g =
    (e : Extent) × (threadgroup ≡ some e)
    × (t : Dim3) × (to_dim3 e ≡ ok t)
    × (g ≡ record {
      grid = unit_extent;
      threadgroup = t;
      indirect_grid = some b.buffer;
      indirect_offset = offset;
      pinned = b.object ∷ [];
    })

host_threadgroup_iff :
    (p : ComputePipeline) (grid : Dim3) (e : Option Extent) (t : Dim3)
    → (host_threadgroup p grid e ≡ ok t) ↔ HostThreadgroup p grid e t
unfolding host_threadgroup
host_threadgroup_iff p grid none t = (λ h. sym (ok-injective h), λ h. ap ok (sym h))
host_threadgroup_iff p grid (some e) t = (λ h. h, λ h. h)

indirect_extent_iff :
    (e : Option Extent) (t : Dim3)
    → (indirect_extent e ≡ ok t) ↔ ((x : Extent) × (e ≡ some x) × (to_dim3 x ≡ ok t))
unfolding indirect_extent
indirect_extent_iff none t = (λ h. cc, λ h. let e = h.1 in cc)
indirect_extent_iff (some x) t = (
  λ h. (x, refl, h),
  λ h. let (y, e, made) = h in subst (λ x. to_dim3 x ≡ ok t) (sym (some-injective e)) made,
)

prepare_grid_iff :
    (p : ComputePipeline) (grid : GridArg) (t : Option Extent) (offset : ℕ) (g : GridFields)
    → (prepare_grid p grid t offset ≡ ok g) ↔ Extents p grid t offset g
unfolding prepare_grid
prepare_grid_iff p (indirect b) e offset g = (
  λ h.
      let (t, made, is) = >>=-eq-ok (indirect_extent e) _ h in
      let (x, given, read) = (indirect_extent_iff e t).0 made in
      (x, given, t, read, sym (ok-injective is)),
  λ h.
      let (x, given, t, read, is) = h in
      rw ((indirect_extent_iff e t).1 (x, given, read)) (ap ok (sym is)),
)
prepare_grid_iff p (host x) e offset g =
    let fields : Dim3 → Dim3 → Result GridFields = λ grid t. ok (record {
      grid = grid;
      threadgroup = t;
      indirect_grid = none;
      indirect_offset = 0;
      pinned = [];
    }) in
    (
      λ h.
          let (alone, h2) =
            throw_if-eq-ok (not (offset == 0)) indirect_offset_alone
              (to_dim3 x >>= λ grid. host_threadgroup p grid e >>= fields grid) h in
          let (grid, read, h3) =
            >>=-eq-ok (to_dim3 x) (λ grid. host_threadgroup p grid e >>= fields grid) h2 in
          let (t, made, is) = >>=-eq-ok (host_threadgroup p grid e) (fields grid) h3 in
          (
            ground arith,
            grid,
            read,
            t,
            (host_threadgroup_iff p grid e t).0 made,
            sym (ok-injective is),
          ),
      λ h.
          let (zero_offset, grid, read, t, fine, is) = h in
          rw ((==_iff offset 0).1 zero_offset, read, (host_threadgroup_iff p grid e t).1 fine)
            (ap ok (sym is)),
    )

-- Over the code's own assembly of the parts.
pub prepare-prepared_iff :
    (a : Arguments) (r : PreparedLaunch)
    → (prepare a ≡ ok r) ↔ (
        (g : GridFields) × Extents a.kernel.pipeline a.grid a.threadgroup a.indirect_offset g
        × (bound : List BufferBinding × List ℕ) × Binds a.buffers bound
        × All IsScalar a.scalars
        × (r ≡ prepared a g bound (scalars_of a.scalars)))
unfolding prepare
prepare-prepared_iff a r =
    let grid = prepare_grid_iff a.kernel.pipeline a.grid a.threadgroup a.indirect_offset in
    (
      λ h.
          let (g, made, h2) =
            >>=-eq-ok (prepare_grid a.kernel.pipeline a.grid a.threadgroup a.indirect_offset) _ h in
          let (bound, binds, h3) = >>=-eq-ok (prepare_buffers a.buffers) _ h2 in
          let (scalars, reads, is) = >>=-eq-ok (prepare_scalars 0 a.scalars) _ h3 in
          let (fine, all) = (prepare_scalars_iff 0 a.scalars scalars).0 reads in
          (
            g,
            (grid g).0 made,
            bound,
            (prepare_buffers_iff a.buffers bound).0 binds,
            fine,
            sym (ok-injective is) ∙ ap (prepared a g bound) all,
          ),
      λ h.
          let (g, extents, bound, binds, fine, is) = h in
          rw
            (
              (grid g).1 extents,
              (prepare_buffers_iff a.buffers bound).1 binds,
              (prepare_scalars_iff 0 a.scalars (scalars_of a.scalars)).1 (fine, refl),
            )
            (ap ok (sym is)),
    )

-- The launch of a call and what it pins, field by field: the kernel's pipeline, the bindings of the
-- buffers, the scalars' addresses and sizes, the threadgroup memory as given, the extents of the grid
-- argument; and the kernel's object, the indirect grid's and those of the buffers, in this order.
pub record IsPrepared (a : Arguments) (r : PreparedLaunch) : Type 0 where
  pub fields : GridFields
  pub extents : Extents a.kernel.pipeline a.grid a.threadgroup a.indirect_offset fields
  pub bound : List BufferBinding × List ℕ
  pub binds : Binds a.buffers bound
  pub readable : All IsScalar a.scalars
  pub pipeline : r.launch.pipeline ≡ some a.kernel.pipeline
  pub buffers : r.launch.buffers ≡ bound.0
  pub scalars : r.launch.scalars ≡ scalars_of a.scalars
  pub memory : r.launch.threadgroup_memory ≡ a.threadgroup_memory
  pub grid : r.launch.grid ≡ fields.grid
  pub threadgroup : r.launch.threadgroup ≡ fields.threadgroup
  pub indirect_grid : r.launch.indirect_grid ≡ fields.indirect_grid
  pub indirect_offset : r.launch.indirect_offset ≡ fields.indirect_offset
  pub pins : r.keepalive ≡ a.kernel.object ∷ fields.pinned ++ bound.1
  pub arrays : r.scalars ≡ a.scalars

prepared-IsPrepared :
    (a : Arguments) (g : GridFields) (bound : List BufferBinding × List ℕ)
    → Extents a.kernel.pipeline a.grid a.threadgroup a.indirect_offset g
    → Binds a.buffers bound
    → All IsScalar a.scalars
    → IsPrepared a (prepared a g bound (scalars_of a.scalars))
prepared-IsPrepared a g bound extents binds readable = record {
  fields = g;
  extents = extents;
  bound = bound;
  binds = binds;
  readable = readable;
  pipeline = refl;
  buffers = refl;
  scalars = refl;
  memory = refl;
  grid = refl;
  threadgroup = refl;
  indirect_grid = refl;
  indirect_offset = refl;
  pins = refl;
  arrays = refl;
}

IsPrepared-prepared :
    (a : Arguments) (r : PreparedLaunch) (h : IsPrepared a r)
    → r ≡ prepared a h.fields h.bound (scalars_of a.scalars)
IsPrepared-prepared a r h = λ i. record {
  launch = record {
    pipeline = h.pipeline i;
    buffers = h.buffers i;
    scalars = h.scalars i;
    threadgroup_memory = h.memory i;
    grid = h.grid i;
    threadgroup = h.threadgroup i;
    indirect_grid = h.indirect_grid i;
    indirect_offset = h.indirect_offset i;
  };
  keepalive = h.pins i;
  scalars = h.arrays i;
}

-- `prepare` returns exactly when the grid argument and the threadgroup stand for extents, no buffer is
-- null and every scalar has a dtype of the table. The launch has then the kernel's pipeline, the
-- buffers at their offsets, the scalars' addresses and sizes and the threadgroup memory that are
-- given, each in its order, and the kernel, an indirect grid's buffer and every bound buffer are pinned.
pub prepare_iff : (a : Arguments) (r : PreparedLaunch) → (prepare a ≡ ok r) ↔ IsPrepared a r
prepare_iff a r = (
  λ h.
      let (g, extents, bound, binds, fine, is) = (prepare-prepared_iff a r).0 h in
      subst (IsPrepared a) (sym is) (prepared-IsPrepared a g bound extents binds fine),
  λ h.
      (prepare-prepared_iff a r).1
        (h.fields, h.extents, h.bound, h.binds, h.readable, IsPrepared-prepared a r h),
)
