-- ===== src/CApi/Memory.antt =====
-- src/c_api.cpp: `region_is_mapped_rw`, `mr_wrap_buffer` and `mr_buffer_flush_to`.
use metal_runtime.Buffer.{Device, page_size, Buffer, allocate, wrap}
use metal_runtime.Common.{
  ℕ, ◌+◌, ◌-◌, ◌*◌, ◌/◌, Bool, true, false, not, ◌&&◌, ◌||◌, List, [], ◌∷◌, Option, none, some,
  length, ltb, leb, ◌==◌, if◌then◌else◌, size_max,
}
use metal_runtime.Errors.{
  Result, ok, throw, ◌>>=◌, ◌>>◌, throw_if, null_argument, null_pointer_for_size, range_overflows,
  rounded_range_overflows,
}

-- What `mach_vm_region` reports: the region that holds an address, or the next one above it.
pub record Region : Type 0 where
  pub start : ℕ
  pub size : ℕ
  pub readable : Bool
  pub writable : Bool

-- `vm` is `mach_vm_region`; `none` is a failure.
unfoldable pub region_is_mapped_rw : (ℕ → Option Region) → ℕ → ℕ → Bool
region_is_mapped_rw vm start length = if length == 0 then true else elim (vm start) [
  | none ↦ false
  | some r ↦
      if ltb start r.start
      then false
      else if not r.readable || not r.writable
      then false
      else leb (start - r.start) r.size && leb length (r.size - (start - r.start))
]

-- A `memcpy`.
pub record Copy : Type 0 where
  pub target : ℕ
  pub source : ℕ
  pub size : ℕ

pub record MrBuffer : Type 0 where
  pub buffer : Buffer
  pub external_ptr : ℕ
  pub external_offset : ℕ
  pub owns_copy : Bool
  pub logical_size : ℕ

-- `addr & ~(page_size - 1)`, where the page size is a power of two.
abbrev pub page_start : Device → ℕ → ℕ
page_start device addr = addr / page_size device * page_size device

-- The bytes of the pages that a range touches, from the range's offset in its first page.
abbrev pub wrapped_length : Device → ℕ → ℕ → ℕ
wrapped_length device offset n =
    (offset + n + page_size device - 1) / page_size device * page_size device

-- The first part of `mr_wrap_buffer`: `none` where the range cannot be wrapped in place.
unfoldable pub wrap_in_place : Device → (ℕ → Option Region) → ℕ → ℕ → Result (Option MrBuffer)
unfolding region_is_mapped_rw
wrap_in_place device vm ptr size_bytes = do
  let first = page_start device ptr
  let offset = ptr - first
  throw_if
      (ltb (size_max - ptr) size_bytes
        || ltb (size_max - offset) size_bytes
        || ltb (size_max - (page_size device - 1)) (offset + size_bytes))
      range_overflows
  let wrapped = wrapped_length device offset size_bytes
  throw_if (ltb (size_max - first) wrapped) rounded_range_overflows
  if region_is_mapped_rw vm first wrapped
      then (do
        b ← wrap device first wrapped
        ok (
            some (record {
              buffer = b;
              external_ptr = ptr;
              external_offset = offset;
              owns_copy = false;
              logical_size = size_bytes;
            })))
      else ok none

-- The second part: an owned copy.
unfoldable pub wrap_copy : Device → ℕ → ℕ → Result (MrBuffer × List Copy)
wrap_copy device ptr size_bytes = do
  owned ← allocate device size_bytes
  let copies : List Copy =
      if ltb 0 size_bytes
      then record { target = device.contents owned.handle; source = ptr; size = size_bytes } ∷ []
      else []
  ok (
    record {
      buffer = owned;
      external_ptr = ptr;
      external_offset = 0;
      owns_copy = true;
      logical_size = size_bytes;
    },
    copies,
  )

-- The body of `mr_wrap_buffer`, with a non-null `out_buffer`: the buffer, and the copies made.
unfoldable pub mr_wrap_buffer : Device → (ℕ → Option Region) → ℕ → ℕ → Result (MrBuffer × List Copy)
unfolding wrap_in_place wrap_copy
mr_wrap_buffer device vm ptr size_bytes = do
  throw_if (ptr == 0 && ltb 0 size_bytes) null_pointer_for_size
  if ltb 0 size_bytes
      then (do
        wrapped ← wrap_in_place device vm ptr size_bytes
        elim wrapped [ some b ↦ ok (b, []) | none ↦ wrap_copy device ptr size_bytes ])
      else wrap_copy device ptr size_bytes

-- The body of `mr_buffer_flush_to`.
unfoldable pub mr_buffer_flush_to : Device → Option MrBuffer → Result (List Copy)
mr_buffer_flush_to device none = throw (null_argument 0)
mr_buffer_flush_to device (some b) =
    if not b.owns_copy
    then ok []
    else if ltb 0 b.buffer.size
    then ok (
        record {
          target = b.external_ptr;
          source = device.contents b.buffer.handle;
          size = b.buffer.size;
        }
        ∷ [])
    else ok []
