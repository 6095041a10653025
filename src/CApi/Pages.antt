-- ===== src/CApi/Pages.antt =====
-- The pages around a range of bytes, and `region_is_mapped_rw`.
use native.Mathlib.Nat.{div-add-mod', mod-lt, mul-mod_left}
use metal_runtime.CApi.Memory.{Region, region_is_mapped_rw}
use metal_runtime.Common.{
  ℕ, ◌+◌, ◌-◌, ◌*◌, ◌/◌, ◌%◌, ◌≤◌, ◌<◌, ◌≡◌, ◌↔◌, inl, inr, true, Option-cases, arith, Option, some,
}

-- Every byte of a range lies in one mapped region that can be read and written.
abbrev pub IsMapped : (ℕ → Option Region) → ℕ → ℕ → Type 0
IsMapped vm start n =
    (r : Region) × (vm start ≡ some r)
    × (r.start ≤ start)
    × (start + n ≤ r.start + r.size)
    × (r.readable ≡ true)
    × (r.writable ≡ true)

-- A non-empty range passes exactly when the system reports one mapped region, readable and
-- writable, that holds all of it.
pub region_is_mapped_rw_iff :
    (vm : ℕ → Option Region) (start n : ℕ)
    → 1 ≤ n
    → (region_is_mapped_rw vm start n ≡ true) ↔ IsMapped vm start n
unfolding region_is_mapped_rw
region_is_mapped_rw_iff vm start n h = elim (Option-cases (vm start)) [
  | inl missing ↦ (λ e. absurd (ground arith), λ m. absurd (ground (arith, m)))
  | inr (r, found) ↦ (
    λ e. (r, found, ground arith, ground arith, ground arith, ground arith),
    λ m. let same : m.0 ≡ r = cc (m.1) in ground (arith, m, same),
  )
]

-- The rounded range: it starts at the page of `addr`, ends at a page, and covers the bytes.
pub record Covers (page first n addr size : ℕ) : Type 0 where
  pub first_page : first % page ≡ 0
  pub whole_pages : n % page ≡ 0
  pub starts : first ≤ addr
  pub near : addr < first + page
  pub covers : addr + size ≤ first + n
  pub tight : first + n < addr + size + page

pub round-Covers :
    (page addr size : ℕ)
    → 1 ≤ page
    → let first = addr / page * page in
      Covers page first ((addr - first + size + page - 1) / page * page) addr size
round-Covers page addr size h =
    let first = addr / page * page in
    let n = (addr - first + size + page - 1) / page * page in
    let a = div-add-mod' addr page in
    let b = div-add-mod' (addr - first + size + page - 1) page in
    let c = mod-lt addr h in
    let d = mod-lt (addr - first + size + page - 1) h in
    record {
      first_page = mul-mod_left (addr / page) page;
      whole_pages = mul-mod_left _ page;
      starts = omega (arith, a);
      near = omega (arith, a, c);
      covers = omega (arith, a, b, c, d);
      tight = omega (arith, a, b, c, d);
    }
