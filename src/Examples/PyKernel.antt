-- ===== src/Examples/PyKernel.antt =====
-- A kernel with a constant, built over empty caches.
use metal_runtime.Batch.{Completion}
use metal_runtime.Dispatch.{validate, rounded_threadgroup_length}
use metal_runtime.Examples.Batch.{fresh, fresh_made}
use metal_runtime.Examples.Reflection.{bound_kernel, limits, bindings, built}
use metal_runtime.Examples.Specialize.{metal}
use metal_runtime.Extent.{line}
use metal_runtime.PyKernel.{PyKernel, Pipelines}
use metal_runtime.Compile.{MtlDevice}
use metal_runtime.Reflection.Origin.{Origin}
use metal_runtime.PyKernel.Run.{run-BindsUsed}
use metal_runtime.PyLaunch
use metal_runtime.PyLaunch.{host, plain, at_offset, run}
use metal_runtime.Reflection.Bound.{BindsUsed}
use metal_runtime.Word.{mul64}
use metal_runtime.Caches.{Library}
use metal_runtime.Common.{
  ◌≡◌, refl, true, false, List, [], ◌∷◌, none, some, Option, Text, codes, ℕ, length,
}
use metal_runtime.Common.Int.{pos}
use metal_runtime.Errors.{Error, ok, throw, function_not_found}
use metal_runtime.Examples.Compile.{gpu}
use metal_runtime.Keys.{fast, FunctionConstant, integer, double}
use metal_runtime.Lru.Assoc.{lookup}
use metal_runtime.Constant.{coerce}
use metal_runtime.Lru.{init, find, insert, clear}
use metal_runtime.PyConstants.{PyValue, py_int, py_float, parse_constants}
use metal_runtime.PyConstants.Order.{trade}
use metal_runtime.PyKernel.Order.{construct_kernel-Reordered}
use metal_runtime.PyKernel.{Arguments, Outcome, function_name, construct_kernel}

abbrev blur : Arguments
blur = record {
  msl_source = codes "x";
  function_name = codes "blur";
  math_mode = fast;
  defines = [];
  constants = (codes "N", py_int (pos 16)) ∷ [];
}

abbrev two : List (Text × PyValue)
two = (codes "N", py_int (pos 16)) ∷ (codes "bias", py_float 0) ∷ []

abbrev turned : List (Text × PyValue)
turned = (codes "bias", py_float 0) ∷ (codes "N", py_int (pos 16)) ∷ []

abbrev parsed : List FunctionConstant
parsed =
    record { name = codes "N"; value = integer (pos 16) }
    ∷ record { name = codes "bias"; value = double 0 }
    ∷ []

parses : parse_constants two ≡ ok parsed
unfolding parse_constants
parses = refl

-- Other threads clear the cache of pipelines while the pipeline is built.
abbrev empty : Pipelines
empty l = (init 128, λ c. clear c)

abbrev IsGpu : MtlDevice → Type 0
IsGpu device = device ≡ gpu

abbrev failure : Option Outcome → Option Error
failure none = none
failure (some o) = elim o.result [ ok k ↦ none | throw e ↦ some e ]

missing_function :
    failure (
      construct_kernel gpu empty
        (record blur { function_name = codes "blurr" })
        (λ c. c)
        (init 256))
    ≡ some (function_not_found (codes "blurr"))
unfolding construct_kernel find lookup init insert
missing_function = refl

-- The function's name, and the number of libraries in the cache.
abbrev made : Option Outcome → Option (Text × ℕ)
made none = none
made (some o) = elim o.result [
  | ok k ↦ some (function_name k, length o.libraries.order)
  | throw e ↦ none
]

builds : made (construct_kernel gpu empty blur (λ c. c) (init 256)) ≡ some (codes "blur", 1)
unfolding construct_kernel find insert lookup init coerce clear
builds = refl

construct_kernel-Reordered_example :
    construct_kernel gpu empty (record blur { constants = turned }) (λ c. c) (init 256)
    ≡ construct_kernel gpu empty (record blur { constants = two }) (λ c. c) (init 256)
construct_kernel-Reordered_example =
    construct_kernel-Reordered gpu empty blur two turned parsed (λ c. c) (init 256)
      (trade (codes "N") (codes "bias") (py_int (pos 16)) (py_float 0) refl) parses

abbrev library : Library
library = record { library = metal }

-- A kernel whose function uses a buffer at index 2 and threadgroup memory at index 1.
abbrev bound : PyKernel
bound = record { math_mode = fast; library = library; pipeline = bound_kernel }

abbrev origin : Origin bound_kernel
origin = record { state = limits; reflection = some bindings; built = built }

abbrev arguments : PyLaunch.Arguments
arguments = record {
  kernel = record { object = 100; pipeline = bound_kernel };
  grid = host (line 64);
  threadgroup = some (line 32);
  buffers =
      plain (some (record { object = 107; buffer = record { handle = 7; size = 64 } }))
      ∷ at_offset (some (record { object = 108; buffer = record { handle = 8; size = 64 } })) 16
      ∷ [];
  scalars =
      record { dtype = record { code = 1; bits = 64; lanes = 1 }; data_address = 9; nbytes = 8 }
      ∷ [];
  threadgroup_memory = 0 ∷ 100 ∷ [];
  indirect_offset = 0;
}

abbrev finished : Completion
finished = record { elapsed = 5; failed = false }

runs : (run fresh arguments finished).1 ≡ ok tt
unfolding run validate rounded_threadgroup_length mul64
runs = refl

run-BindsUsed_example : BindsUsed bindings (run fresh arguments finished).0
run-BindsUsed_example =
    run-BindsUsed bound origin bindings (some 1) (some 2) true 32768 fresh arguments finished refl
      refl fresh_made runs
