-- ===== src/Dispatch/Memory.antt =====
-- The threadgroup-memory budget of `validate`.
use metal_runtime.Common.{
  ℕ, ◌+◌, ◌*◌, ◌/◌, ◌%◌, ◌≤◌, ◌<◌, ◌≡◌, ◌↔◌, inl, inr, arith, List, [], ◌∷◌, size_max,
}
use metal_runtime.Dispatch.{rounded_threadgroup_length, add_lengths, check_memory}
use metal_runtime.Errors.{ok, Result-cases, >>=-eq-ok}

-- `n` rounded up to whole 16-byte units, with no bound.
abbrev pub round_up : ℕ → ℕ
round_up n = 16 * ((n + 15) / 16)

-- A length is rounded up to the least multiple of 16 that holds it, exactly when that fits in a
-- `size_t`.
pub rounded_threadgroup_length_lem :
    (n r : ℕ)
    → n ≤ size_max
    → (rounded_threadgroup_length n ≡ ok r)
      ↔ ((r ≤ size_max) × (r % 16 ≡ 0) × (n ≤ r) × (r < n + 16))
unfolding rounded_threadgroup_length
rounded_threadgroup_length_lem n r h = (λ e. ground arith, λ k. ground arith)

rounded-round_up : (n : ℕ) → round_up n ≤ size_max → rounded_threadgroup_length n ≡ ok (round_up n)
unfolding rounded_threadgroup_length
rounded-round_up n h = ground arith

round_up-rounded : (n r : ℕ) → rounded_threadgroup_length n ≡ ok r → r ≡ round_up n
unfolding rounded_threadgroup_length
round_up-rounded n r h = ground arith

-- The bytes that a launch's allocations take, each rounded up.
pub total : List ℕ → ℕ
total [] = 0
total (n ∷ ns) = round_up n + total ns

add_lengths_sound : (m s : ℕ) (ns : List ℕ) (t : ℕ) → add_lengths m s ns ≡ ok t → t ≡ s + total ns
unfolding add_lengths total
add_lengths_sound m s [] t h = ground arith
add_lengths_sound m s (n ∷ ns) t h = elim (Result-cases (rounded_threadgroup_length n)) [
  | inl (r, e) ↦ ground (arith, round_up-rounded n r e, add_lengths_sound m (s + r) ns t)
  | inr (x, e) ↦ ground arith
]

add_lengths_complete :
    (m s : ℕ) (ns : List ℕ)
    → m ≤ size_max
    → s + total ns ≤ m
    → add_lengths m s ns ≡ ok (s + total ns)
unfolding add_lengths total
add_lengths_complete m s [] hm h = ground arith
add_lengths_complete m s (n ∷ ns) hm h =
    rw (rounded-round_up n (omega arith), add_lengths)
      (ground (arith, add_lengths_complete m (s + round_up n) ns hm))

-- The budget check passes exactly when the kernel's static bytes and all the rounded allocations
-- fit together: the running sum neither wraps around nor refuses a launch that fits.
pub check_memory_iff :
    (m s : ℕ) (ns : List ℕ) → m ≤ size_max → (check_memory m s ns ≡ ok tt) ↔ (s + total ns ≤ m)
unfolding check_memory
check_memory_iff m s ns hm = (
  λ h.
      let (t, runs, last) = >>=-eq-ok (add_lengths m s ns) _ h in
      ground (arith, add_lengths_sound m s ns t runs),
  λ h. rw (add_lengths_complete m s ns hm h, check_memory) (ground arith),
)
