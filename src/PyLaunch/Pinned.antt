-- ===== src/PyLaunch/Pinned.antt =====
-- The objects that `prepare` pins own the buffers of its launch.
use metal_runtime.Buffer.{Buffer}
use metal_runtime.Common.{
  ℕ, ◌≡◌, refl, sym, ap, ◌∙◌, subst, arith, true, List, [], ◌∷◌, ◌++◌, none, some, All, ==_iff,
}
use metal_runtime.Dispatch.{BufferBinding, Launch}
use metal_runtime.Errors.{ok, some-injective}
use metal_runtime.PyLaunch.{
  BufferObject, GridArg, host, indirect, BufferArg, Arguments, PreparedLaunch, GridFields, contains,
  pointer, prepare,
}
use metal_runtime.PyLaunch.Laws.{Extents, prepare-prepared_iff}
use metal_runtime.PyLaunch.Binds.{Names-pointer, Binds}

contains_self : (o : ℕ) (os : List ℕ) → contains o (o ∷ os) ≡ true
contains_self o os = ground (arith, (==_iff o o).1 refl)

pub contains-cons : (o p : ℕ) (os : List ℕ) → contains o os ≡ true → contains o (p ∷ os) ≡ true
contains-cons o p os h = ground arith

pub contains-append : (o : ℕ) (ps os : List ℕ) → contains o os ≡ true → contains o (ps ++ os) ≡ true
contains-append o [] os h = h
contains-append o (p ∷ ps) os h = contains-cons o p (ps ++ os) (contains-append o ps os h)

-- The Python object that owns a Metal buffer is pinned.
module _ (owner : ℕ → ℕ) where
  abbrev pub IsPinned : List ℕ → ℕ → Type 0
  IsPinned os handle = contains (owner handle) os ≡ true

  abbrev pub OwnsGrid : GridArg → Type 0
  OwnsGrid (host e) = Unit
  OwnsGrid (indirect b) = owner b.buffer.handle ≡ b.object

  -- `owner` is right for the arguments: each Python buffer has a Metal buffer of its own.
  abbrev pub Owns : Arguments → Type 0
  Owns a =
      OwnsGrid a.grid
      × All (λ arg. ((b : BufferObject) → pointer arg ≡ some b → owner b.buffer.handle ≡ b.object))
          a.buffers

  abbrev pub LaunchIsPinned : List ℕ → Launch → Type 0
  LaunchIsPinned os l =
      All (λ (b : BufferBinding). IsPinned os b.buffer.handle) l.buffers
      × ((b : Buffer) → l.indirect_grid ≡ some b → IsPinned os b.handle)

  Binds-IsPinned :
      (args : List BufferArg) (r : List BufferBinding × List ℕ) (os : List ℕ)
      → All
          (λ arg. ((b : BufferObject) → pointer arg ≡ some b → owner b.buffer.handle ≡ b.object))
          args
      → Binds args r
      → ((o : ℕ) → contains o r.1 ≡ true → contains o os ≡ true)
      → All (λ (b : BufferBinding). IsPinned os b.buffer.handle) r.0
  Binds-IsPinned [] r os owns binds sub =
      subst
        (λ (r : List BufferBinding × List ℕ).
          All (λ (b : BufferBinding). IsPinned os b.buffer.handle) r.0)
        (sym binds) tt
  Binds-IsPinned (arg ∷ args) r os owns binds sub =
      let (b, offset, names, rest, more, is) = binds in
      let given = ((Names-pointer arg b offset).0 names).0 in
      let objects : r.1 ≡ b.object ∷ rest.1 = ap (λ (r : List BufferBinding × List ℕ). r.1) is in
      let sub2 : (o : ℕ) → contains o (b.object ∷ rest.1) ≡ true → contains o os ≡ true =
        subst (λ ps. (o : ℕ) → contains o ps ≡ true → contains o os ≡ true) objects sub in
      let first : IsPinned os b.buffer.handle = sub2 (owner b.buffer.handle) (
        subst (λ o. contains o (b.object ∷ rest.1) ≡ true) (sym (owns.0 b given))
          (contains_self b.object rest.1)) in
      let others =
        Binds-IsPinned args rest os owns.1 more
          (λ o h. sub2 o (contains-cons o b.object rest.1 h)) in
      subst
        (λ (r : List BufferBinding × List ℕ).
          All (λ (b : BufferBinding). IsPinned os b.buffer.handle) r.0)
        (sym is) (first, others)

  Extents-IsPinned :
      (a : Arguments) (g : GridFields) (os : List ℕ)
      → OwnsGrid a.grid
      → Extents a.kernel.pipeline a.grid a.threadgroup a.indirect_offset g
      → (b : Buffer) → g.indirect_grid ≡ some b
      → IsPinned (g.pinned ++ os) b.handle
  Extents-IsPinned a g os owns extents b h = go a.grid owns extents
    where
      go :
          (grid : GridArg)
          → OwnsGrid grid
          → Extents a.kernel.pipeline grid a.threadgroup a.indirect_offset g
          → IsPinned (g.pinned ++ os) b.handle
      go (host e) owns extents =
          let (z, d, r, t, u, is) = extents in
          let none_here : none ≡ some b = sym (ap (λ (g : GridFields). g.indirect_grid) is) ∙ h in
          cc
      go (indirect c) owns extents =
          let (x, e, t, r, is) = extents in
          let same : c.buffer ≡ b =
            some-injective (sym (ap (λ (g : GridFields). g.indirect_grid) is) ∙ h) in
          let pinned : g.pinned ≡ c.object ∷ [] = ap (λ (g : GridFields). g.pinned) is in
          let object : owner b.handle ≡ c.object =
            sym (ap (λ (b : Buffer). owner b.handle) same) ∙ owns in
          subst (λ ps. contains (owner b.handle) (ps ++ os) ≡ true) (sym pinned)
            (subst (λ o. contains o (c.object ∷ os) ≡ true) (sym object)
              (contains_self c.object os))

  -- Every buffer that a prepared launch points into, the indirect grid's with it, belongs to an
  -- object of its keepalive list, and so does the kernel.
  pub prepare-IsPinned :
      (a : Arguments) (p : PreparedLaunch)
      → Owns a
      → prepare a ≡ ok p
      → LaunchIsPinned p.keepalive p.launch × (contains a.kernel.object p.keepalive ≡ true)
  prepare-IsPinned a p owns h =
      let (g, extents, bound, binds, fine, is) = (prepare-prepared_iff a p).0 h in
      let kernel = a.kernel.object in
      let all : List ℕ = kernel ∷ g.pinned ++ bound.1 in
      let buffers = Binds-IsPinned a.buffers bound all owns.1 binds (λ o h.
        contains-cons o kernel (g.pinned ++ bound.1) (contains-append o g.pinned bound.1 h)) in
      let grid : (b : Buffer) → g.indirect_grid ≡ some b → IsPinned all b.handle = λ b h.
        contains-cons (owner b.handle) kernel (g.pinned ++ bound.1)
          (Extents-IsPinned a g bound.1 owns.0 extents b h) in
      subst
        (λ (p : PreparedLaunch).
          LaunchIsPinned p.keepalive p.launch × (contains kernel p.keepalive ≡ true))
        (sym is) ((buffers, grid), contains_self kernel (g.pinned ++ bound.1))
