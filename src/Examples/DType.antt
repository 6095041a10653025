-- ===== src/Examples/DType.antt =====
-- Names and arrays that are accepted.
use metal_runtime.Common.{◌≢◌, none}
use metal_runtime.DType.{DType, float_code, dtype_name, DlpackType}

abbrev pub half : DType
half = record { code = float_code; bits = 16 }

abbrev pub half_array : DlpackType
half_array = record { code = float_code; bits = 16; lanes = 1 }

half-named : dtype_name half ≢ none
unfolding dtype_name
half-named = λ h. cc
