-- ===== src/Dispatch/Threadgroup.antt =====
-- `default_threadgroup`: what it returns, and that `validate` takes it.
use native.Mathlib.Nat.{mul-mod_left, div-add-mod}
use metal_runtime.Common.{
  ℕ, ◌+◌, ◌*◌, ◌/◌, ◌%◌, ◌^◌, ◌≤◌, ◌<◌, ◌≡◌, refl, sym, subst, ◌&&◌, min, max, arith, leb,
  Bool-cases, inl, inr,
}
use metal_runtime.Dispatch.{
  Dim3, volume, ComputePipeline, linear_threadgroup, spread_threadgroup, default_threadgroup,
  Launch, check_extents,
}
use metal_runtime.Errors.{ok}
use metal_runtime.Word.{mul64_of_lt}

-- One thread at least, never more than the kernel supports, and no side longer than the grid's.
pub record Fits (grid : Dim3) (max_total : ℕ) (tg : Dim3) : Type 0 where
  pub x_pos : 1 ≤ tg.x
  pub y_pos : 1 ≤ tg.y
  pub z_pos : 1 ≤ tg.z
  pub x_le : tg.x ≤ max grid.x 1
  pub y_le : tg.y ≤ max grid.y 1
  pub z_le : tg.z ≤ max grid.z 1
  pub threads : tg.x * tg.y * tg.z ≤ max_total

div-mul-le : (m p : ℕ) → 1 ≤ p → (m / p) * p ≤ m
div-mul-le m p h = grind arith

-- A side that shares what is left over `p` threads.
share : ℕ → ℕ → ℕ → ℕ
share g m p = max (min g (m / p)) 1

share-le : (g m p : ℕ) → 1 ≤ p → p ≤ m → p * share g m p ≤ m
unfolding share
share-le g m p h k = grind (arith, div-mul-le m p h)

linear-Fits : (grid : Dim3) (m w : ℕ) → 1 ≤ m → 1 ≤ w → Fits grid m (linear_threadgroup grid m w)
unfolding linear_threadgroup
linear-Fits grid m w hm hw = record {
  x_pos = omega arith;
  y_pos = omega arith;
  z_pos = omega arith;
  x_le = ground arith;
  y_le = omega arith;
  z_le = omega arith;
  threads = ground (arith, div-mul-le m w hw);
}

spread-Fits :
    (grid : Dim3) (m w : ℕ) → 1 ≤ w → w ≤ m → m < 2 ^ 64 → Fits grid m (spread_threadgroup grid m w)
unfolding spread_threadgroup share
spread-Fits grid m w hw hm fits =
    let x = max (min grid.x w) 1 in
    let y = share grid.y m x in
    let area = share-le grid.y m x (omega arith) (omega arith) in
    let exact = mul64_of_lt x y (omega arith) in
    record {
      x_pos = omega arith;
      y_pos = omega arith;
      z_pos = omega arith;
      x_le = omega arith;
      y_le = omega arith;
      z_le = omega arith;
      threads = rw exact (share-le grid.z m (x * y) (grind arith) area);
    }

-- Limits that a pipeline can report: a SIMD group fits in a threadgroup.
pub record IsSane (p : ComputePipeline) : Type 0 where
  pub some_thread : 1 ≤ p.max_threads_per_threadgroup
  pub simd_fits : p.thread_execution_width ≤ p.max_threads_per_threadgroup
  pub small : p.max_threads_per_threadgroup < 2 ^ 64

-- The default threadgroup of any grid has at least one thread and no more than the kernel supports,
-- and no side longer than the grid's (an empty side counts as 1).
pub default_threadgroup-Fits :
    (p : ComputePipeline) (grid : Dim3)
    → IsSane p
    → Fits grid p.max_threads_per_threadgroup (default_threadgroup p grid)
unfolding default_threadgroup
default_threadgroup-Fits p grid s =
    let m = max p.max_threads_per_threadgroup 1 in
    let w = max p.thread_execution_width 1 in
    let same : p.max_threads_per_threadgroup ≡ m = omega arith in
    let fits : Fits grid m (default_threadgroup p grid) =
      elim (Bool-cases (leb grid.y 1 && leb grid.z 1)) [
        | inl line ↦
            let e : default_threadgroup p grid ≡ linear_threadgroup grid m w =
              rw (line, default_threadgroup) refl in
            subst (Fits grid m) (sym e) (linear-Fits grid m w (omega arith) (omega arith))
        | inr plane ↦
            let e : default_threadgroup p grid ≡ spread_threadgroup grid m w =
              rw (plane, default_threadgroup) refl in
            subst (Fits grid m) (sym e)
              (spread-Fits grid m w (omega arith) (omega arith) (omega arith))
      ] in
    subst (λ n. Fits grid n (default_threadgroup p grid)) (sym same) fits

le-mul : (a b : ℕ) → 1 ≤ b → a ≤ a * b
le-mul a b h = grind arith

le-mul_left : (a b : ℕ) → 1 ≤ a → b ≤ a * b
le-mul_left a b h = grind arith

volume_of_Fits :
    (grid tg : Dim3) (m : ℕ) → m < 2 ^ 64 → Fits grid m tg → volume tg ≡ tg.x * tg.y * tg.z
unfolding volume
volume_of_Fits grid tg m h f =
    let xy : tg.x * tg.y ≤ m = omega (arith, le-mul (tg.x * tg.y) tg.z f.z_pos, f.threads) in
    rw (mul64_of_lt tg.x tg.y (omega arith)) (mul64_of_lt (tg.x * tg.y) tg.z (omega arith))

-- For a kernel with sane limits (at least one thread, a SIMD group that fits in a threadgroup, and fewer
-- than 2 ^ 64 threads), a launch on a non-empty grid that takes the default threadgroup passes
-- `validate`'s checks of the grid and the threadgroup.
pub check_extents-default_threadgroup :
    (p : ComputePipeline) (l : Launch)
    → IsSane p
    → 1 ≤ l.grid.x
    → 1 ≤ l.grid.y
    → 1 ≤ l.grid.z
    → l.threadgroup ≡ default_threadgroup p l.grid
    → check_extents l p.max_threads_per_threadgroup ≡ ok tt
unfolding check_extents
check_extents-default_threadgroup p l s hx hy hz e =
    let f =
      subst (Fits l.grid p.max_threads_per_threadgroup) (sym e)
        (default_threadgroup-Fits p l.grid s) in
    let v = volume_of_Fits l.grid l.threadgroup p.max_threads_per_threadgroup s.small f in
    let area = le-mul (l.threadgroup.x * l.threadgroup.y) l.threadgroup.z f.z_pos in
    let x = le-mul l.threadgroup.x l.threadgroup.y f.y_pos in
    let y = le-mul_left l.threadgroup.x l.threadgroup.y f.x_pos in
    let xy : 1 ≤ l.threadgroup.x * l.threadgroup.y = omega (arith, f.x_pos) in
    let z = le-mul_left (l.threadgroup.x * l.threadgroup.y) l.threadgroup.z xy in
    ground (arith, f, v, area, x, y, z)

-- On a line of at least as many threads as fit, the default is whole SIMD groups, and one more
-- would not fit.
pub linear_threadgroup_whole :
    (grid : Dim3) (m w : ℕ)
    → 1 ≤ w
    → w ≤ m
    → m ≤ grid.x
    → ((linear_threadgroup grid m w).x % w ≡ 0) × (m < (linear_threadgroup grid m w).x + w)
unfolding linear_threadgroup
linear_threadgroup_whole grid m w hw hm hg =
    let q : 1 ≤ m / w = grind arith in
    let some_group = le-mul_left (m / w) w q in
    let total = div-mul-le m w hw in
    let e : (linear_threadgroup grid m w).x ≡ (m / w) * w = ground arith in
    (rw e (mul-mod_left (m / w) w), rw e (omega (arith, div-add-mod m w)))
