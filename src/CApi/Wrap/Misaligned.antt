-- ===== src/CApi/Wrap/Misaligned.antt =====
-- The errors of `mr_wrap_buffer` that cannot happen.
use metal_runtime.Buffer.{Device, allocate}
use metal_runtime.CApi.Memory.{
  Region, page_start, wrapped_length, wrap_in_place, wrap_copy, mr_wrap_buffer,
}
use metal_runtime.Common.{ℕ, ◌-◌, ◌≢◌, inl, inr, Option-cases, arith, Option, none, some, max}
use metal_runtime.Errors.{throw, Result-cases, external_misaligned}
use metal_runtime.CApi.Wrap.{wrap-aligned}

wrap_in_place-ne-misaligned :
    (device : Device) (vm : ℕ → Option Region) (ptr size page : ℕ)
    → wrap_in_place device vm ptr size ≢ throw (external_misaligned page)
unfolding wrap_in_place
wrap_in_place-ne-misaligned device vm ptr size page h =
    let first = page_start device ptr in
    let n = wrapped_length device (ptr - first) size in
    elim (Option-cases (device.wrap_buffer first n)) [
      | inl refused ↦ ground (arith, wrap-aligned device ptr size)
      | inr (handle, made) ↦ ground (arith, wrap-aligned device ptr size)
    ]

wrap_copy-ne-misaligned :
    (device : Device) (ptr size page : ℕ)
    → wrap_copy device ptr size ≢ throw (external_misaligned page)
unfolding wrap_copy allocate
wrap_copy-ne-misaligned device ptr size page h =
    elim (Option-cases (device.new_buffer (max size 1))) [
      | inl refused ↦ ground arith
      | inr (handle, made) ↦ ground arith
    ]

-- Wrapping never fails for a misaligned address or length: the range is rounded out to whole pages.
pub mr_wrap_buffer_ne_misaligned :
    (device : Device) (vm : ℕ → Option Region) (ptr size page : ℕ)
    → mr_wrap_buffer device vm ptr size ≢ throw (external_misaligned page)
unfolding mr_wrap_buffer
mr_wrap_buffer_ne_misaligned device vm ptr size page h =
    let copy = wrap_copy-ne-misaligned device ptr size page in
    let in_place = wrap_in_place-ne-misaligned device vm ptr size page in
    elim (Result-cases (wrap_in_place device vm ptr size)) [
      | inr (x, e) ↦ ground (arith, copy, in_place)
      | inl (none, e) ↦ ground (arith, copy, in_place)
      | inl (some c, e) ↦ ground (arith, copy, in_place)
    ]
