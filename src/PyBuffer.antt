-- ===== src/PyBuffer.antt =====
-- src/bindings.cpp: `PyBuffer`: its constructors, `copy_from`, `to_numpy` and `to_dlpack_ndarray`.
pub mod Upload
pub mod Construct
pub mod Laws
pub mod Copies
pub mod Life
use metal_runtime.Buffer.{Device, Buffer, allocate}
use metal_runtime.Bytes.{zeros}
use metal_runtime.Common.{
  ℕ, ◌*◌, max, Bool, true, false, not, List, ◌++◌, Option, none, some, Text, length, take, drop,
  ltb, ◌==◌, if◌then◌else◌,
}
use metal_runtime.DType.{
  DType, bfloat_code, itemsize, dtype_eq, dtype_name, dtype_from_name, DlpackType, to_dlpack,
  resolve_dtype,
}
use metal_runtime.Errors.{
  Result, ok, throw, ◌>>=◌, ◌>>◌, throw_if, undefined_behaviour, copy_dtype, copy_size,
  export_width, export_bfloat,
}
use metal_runtime.Extent.{allocation_size}
use metal_runtime.Extent.Sizes.{product}

-- An array of the host, as nanobind reports it: `nbytes` is the length of its bytes.
pub record HostArray : Type 0 where
  pub dtype : DlpackType
  pub itemsize : ℕ
  pub shape : List ℕ
  pub bytes : List ℕ

-- `contents` are the bytes of the allocation, which holds at least one.
pub record PyBuffer : Type 0 where
  pub shape : List ℕ
  pub dtype : DType
  pub buffer : Buffer
  pub contents : List ℕ

-- `memcpy` to the start of an allocation: a write past its end is undefined.
unfoldable pub copy_bytes : List ℕ → List ℕ → Result (List ℕ)
copy_bytes to from =
    if ltb (length to) (length from)
    then throw undefined_behaviour
    else ok (from ++ drop (length from) to)

-- The private constructor. `fresh` gives the bytes that an allocation of some length starts with.
unfoldable pub construct : Device → (ℕ → List ℕ) → List ℕ → DType → Bool → Result PyBuffer
unfolding allocation_size allocate copy_bytes
construct device fresh shape dtype zero_fill = do
  size ← allocation_size shape dtype
  buffer ← allocate device size
  let start = fresh (max size 1)
  contents ← if zero_fill then copy_bytes start (zeros size) else ok start
  ok (record { shape = shape; dtype = dtype; buffer = buffer; contents = contents })

-- `PyBuffer(array, dtype)`
unfoldable pub from_array : Device → (ℕ → List ℕ) → HostArray → Option Text → Result PyBuffer
unfolding construct copy_bytes resolve_dtype
from_array device fresh array dtype = do
  resolved ← resolve_dtype array.dtype array.itemsize dtype
  b ← construct device fresh array.shape resolved false
  contents ← copy_bytes b.contents array.bytes
  ok (record b { contents = contents })

-- `zeros`, and `empty` without the fill.
unfoldable pub filled : Device → (ℕ → List ℕ) → Bool → List ℕ → Text → Result PyBuffer
unfolding construct dtype_from_name
filled device fresh zero_fill shape dtype = do
  d ← dtype_from_name dtype
  construct device fresh shape d zero_fill

-- `copy_from`, once the array's dtype is resolved.
unfoldable pub copy_resolved : PyBuffer → List ℕ → DType → Result PyBuffer
unfolding copy_bytes
copy_resolved b bytes incoming = do
  throw_if (not (dtype_eq incoming b.dtype)) (copy_dtype (dtype_name incoming) (dtype_name b.dtype))
  throw_if (not (length bytes == b.buffer.size)) (copy_size (length bytes) b.buffer.size)
  contents ← copy_bytes b.contents bytes
  ok (record b { contents = contents })

unfoldable pub copy_from : PyBuffer → HostArray → Option Text → Result PyBuffer
unfolding copy_resolved resolve_dtype
copy_from b array dtype = do
  incoming ← resolve_dtype array.dtype array.itemsize dtype
  copy_resolved b array.bytes incoming

-- The dtype that `to_numpy` exports.
unfoldable pub export_dtype : PyBuffer → Option Text → Result DType
unfolding dtype_from_name itemsize
export_dtype b none = ok b.dtype
export_dtype b (some name) = do
  out ← dtype_from_name name
  throw_if (not (itemsize out == itemsize b.dtype))
      (export_width name (itemsize out) (itemsize b.dtype))
  ok out

-- `nb::ndarray` over an allocation: the array's elements are its first bytes.
abbrev pub view : List ℕ → List ℕ → DType → HostArray
view contents shape dtype = record {
  dtype = to_dlpack dtype;
  itemsize = itemsize dtype;
  shape = shape;
  bytes = take (product 1 shape * itemsize dtype) contents;
}

unfoldable pub to_numpy : PyBuffer → Option Text → Result HostArray
unfolding export_dtype
to_numpy b dtype = do
  out ← export_dtype b dtype
  throw_if (out.code == bfloat_code) export_bfloat
  ok (view b.contents b.shape out)

unfoldable pub to_dlpack_ndarray : PyBuffer → HostArray
to_dlpack_ndarray b = view b.contents b.shape b.dtype
