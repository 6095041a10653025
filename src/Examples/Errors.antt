-- ===== src/Examples/Errors.antt =====
-- A failed pipeline build.
use metal_runtime.Common.{ℕ, ◌≡◌, some}
use metal_runtime.Errors.{pipeline_build_error, bases, Result, throw, pipeline_build}
use metal_runtime.Errors.Translate.{status_of}
use metal_runtime.Errors.Translate.Laws.{own_status, nearest, status_of-nearest}

status_of-nearest_example :
    some (status_of pipeline_build_error) ≡ nearest own_status (bases 5 pipeline_build_error)
status_of-nearest_example = status_of-nearest pipeline_build_error

abbrev failed : Result ℕ
failed = throw pipeline_build
