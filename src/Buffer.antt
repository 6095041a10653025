-- ===== src/Buffer.antt =====
-- src/buffer.h, src/buffer.cpp: `Buffer`, over a device that may refuse an allocation.
use metal_runtime.Common.{ℕ, not, ◌||◌, ◌%◌, ◌^◌, max, Option, none, some, ◌==◌}
use metal_runtime.Errors.{
  Result, ok, throw, ◌>>◌, throw_if, buffer_allocation, external_misaligned, external_wrap,
}

-- What the program calls of `MTL::Device`, and `getpagesize`. A handle is a number; `none` is a
-- null pointer. `new_buffer` takes a length, `wrap_buffer` an address and a length; `contents` is
-- the address of a buffer's bytes. A page has 2 ^ `page_bits` bytes.
pub record Device : Type 0 where
  pub new_buffer : ℕ → Option ℕ
  pub wrap_buffer : ℕ → ℕ → Option ℕ
  pub contents : ℕ → ℕ
  pub page_bits : ℕ

-- `getpagesize()`
abbrev pub page_size : Device → ℕ
page_size device = 2 ^ device.page_bits

pub record Buffer : Type 0 where
  pub handle : ℕ
  pub size : ℕ

-- `Buffer(device, size_bytes)`
unfoldable pub allocate : Device → ℕ → Result Buffer
allocate device size_bytes = elim (device.new_buffer (max size_bytes 1)) [
  | none ↦ throw (buffer_allocation size_bytes)
  | some h ↦ ok (record { handle = h; size = size_bytes })
]

-- `Buffer(device, external_ptr, size_bytes)`
unfoldable pub wrap : Device → ℕ → ℕ → Result Buffer
wrap device external_ptr size_bytes = do
  throw_if (not (external_ptr % page_size device == 0) || not (size_bytes % page_size device == 0))
      (external_misaligned (page_size device))
  elim (device.wrap_buffer external_ptr size_bytes) [
    | none ↦ throw (external_wrap size_bytes)
    | some h ↦ ok (record { handle = h; size = size_bytes })
  ]
