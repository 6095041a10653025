-- ===== src/DType.antt =====
-- src/dtype.h, src/dtype.cpp: element types as DLPack's (code, bits), and the table of names.
-- src/bindings.cpp: `from_dlpack`, `to_dlpack`, `check_scalar_dtype`, `resolve_dtype`.
pub mod Laws
use metal_runtime.Common.{
  ℕ, ◌+◌, ◌/◌, Bool, not, ◌&&◌, List, [], ◌∷◌, ◌++◌, Option, none, some, Text, codes, ◌==◌, text_eq,
  if◌then◌else◌, ◌||◌,
}
use metal_runtime.Errors.{
  Error, unsupported_float64, unsupported_dtype, vector_dtype, unsupported_array_dtype,
  scalar_float64, scalar_dtype, width_mismatch, Result, ok, throw, ◌>>=◌, ◌>>◌, throw_if,
}

-- `enum Code`. The two fields of a `DType` are `uint8_t`.
abbrev pub int_code : ℕ
int_code = 0

abbrev pub uint_code : ℕ
uint_code = 1

abbrev pub float_code : ℕ
float_code = 2

abbrev pub bfloat_code : ℕ
bfloat_code = 4

abbrev pub bool_code : ℕ
bool_code = 6

pub record DType : Type 0 where
  pub code : ℕ
  pub bits : ℕ

-- `(bits + 7) / 8` is computed in `int`, where a `uint8_t` leaves room.
unfoldable pub itemsize : DType → ℕ
itemsize d = (d.bits + 7) / 8

-- `operator==`
abbrev pub dtype_eq : DType → DType → Bool
dtype_eq a b = a.code == b.code && a.bits == b.bits

pub record Entry : Type 0 where
  pub name : Text
  pub msl_name : Text
  pub dtype : DType

abbrev entry : Text → Text → ℕ → ℕ → Entry
entry name msl_name code bits = record {
  name = name;
  msl_name = msl_name;
  dtype = record { code = code; bits = bits };
}

-- `kEntries`
abbrev pub entries : List Entry
entries =
    entry (codes "bool") (codes "bool") bool_code 8
    ∷ entry (codes "int8") (codes "char") int_code 8
    ∷ entry (codes "int16") (codes "short") int_code 16
    ∷ entry (codes "int32") (codes "int") int_code 32
    ∷ entry (codes "int64") (codes "long") int_code 64
    ∷ entry (codes "uint8") (codes "uchar") uint_code 8
    ∷ entry (codes "uint16") (codes "ushort") uint_code 16
    ∷ entry (codes "uint32") (codes "uint") uint_code 32
    ∷ entry (codes "uint64") (codes "ulong") uint_code 64
    ∷ entry (codes "float16") (codes "half") float_code 16
    ∷ entry (codes "float32") (codes "float") float_code 32
    ∷ entry (codes "bfloat16") (codes "bfloat") bfloat_code 16
    ∷ []

-- The loop of `dtype_from_name`.
unfoldable pub find_name : Text → List Entry → Option DType
find_name name [] = none
find_name name (e ∷ es) = if text_eq name e.name then some e.dtype else find_name name es

unfoldable pub dtype_from_name : Text → Result DType
unfolding find_name
dtype_from_name name = elim (find_name name entries) [
  | some d ↦ ok d
  | none ↦
      if text_eq name (codes "float64") || text_eq name (codes "double")
      then throw unsupported_float64
      else throw (unsupported_dtype name)
]

-- The loop of `dtype_name` and `msl_type_name`.
unfoldable pub find_dtype : DType → List Entry → Option Entry
find_dtype d [] = none
find_dtype d (e ∷ es) = if dtype_eq d e.dtype then some e else find_dtype d es

-- `none` is a null pointer.
unfoldable pub dtype_name : DType → Option Text
unfolding find_dtype
dtype_name d = elim (find_dtype d entries) [ some e ↦ some e.name | none ↦ none ]

unfoldable pub msl_type_name : DType → Option Text
unfolding find_dtype
msl_type_name d = elim (find_dtype d entries) [ some e ↦ some e.msl_name | none ↦ none ]

-- The loop of `supported_dtype_names`.
join_names : Text → List Entry → Text
join_names out [] = out
join_names out (e ∷ es) = elim out [
  | [] ↦ join_names e.name es
  | c ∷ cs ↦ join_names ((c ∷ cs) ++ codes ", " ++ e.name) es
]

unfoldable pub supported_dtype_names : Text
unfolding join_names
supported_dtype_names = join_names [] entries

-- `nb::dlpack::dtype`
pub record DlpackType : Type 0 where
  pub code : ℕ
  pub bits : ℕ
  pub lanes : ℕ

unfoldable pub from_dlpack : DlpackType → Result DType
unfolding dtype_name
from_dlpack dt = do
  throw_if (not (dt.lanes == 1)) vector_dtype
  let out : DType = record { code = dt.code; bits = dt.bits }
  elim (dtype_name out) [
    | some name ↦ ok out
    | none ↦
        if out.code == float_code && out.bits == 64
        then throw unsupported_float64
        else throw (unsupported_array_dtype out.code out.bits)
  ]

unfoldable pub to_dlpack : DType → DlpackType
to_dlpack d = record { code = d.code; bits = d.bits; lanes = 1 }

-- `scalar` is the dtype of the host array; the `catch` adds the position to the message.
unfoldable pub check_scalar_dtype : DlpackType → ℕ → Result (Unit {0})
unfolding from_dlpack
check_scalar_dtype dt position =
    if dt.code == float_code && dt.bits == 64 && dt.lanes == 1
    then throw (scalar_float64 position)
    else elim (from_dlpack dt) [ ok _ ↦ ok tt | throw e ↦ throw (scalar_dtype position e) ]

-- The dtype and item size of a host array, as nanobind reports them.
unfoldable pub resolve_dtype : DlpackType → ℕ → Option Text → Result DType
unfolding from_dlpack dtype_from_name itemsize
resolve_dtype dt array_itemsize none = from_dlpack dt
resolve_dtype dt array_itemsize (some override_name) = do
  requested ← dtype_from_name override_name
  throw_if (not (dt.lanes == 1)) vector_dtype
  throw_if (not (array_itemsize == itemsize requested))
      (width_mismatch (itemsize requested) array_itemsize)
  ok requested
