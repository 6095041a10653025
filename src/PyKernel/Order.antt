-- ===== src/PyKernel/Order.antt =====
-- The order of the dict of constants does not matter to the kernel.
use metal_runtime.Caches.{Library, library_for}
use metal_runtime.Common.{◌≡◌, refl, sym, ap, ◌∙◌, List, Option, none, some, Text}
use metal_runtime.Compile.{MtlDevice}
use metal_runtime.Errors.{Result, ok, throw}
use metal_runtime.Keys.{FunctionConstant}
use metal_runtime.Lru.{Cache}
use metal_runtime.PyConstants.{PyValue, parse_constants}
use metal_runtime.PyConstants.Order.{Reordered, parse_constants-Reordered}
use metal_runtime.PyKernel.{
  Arguments, Pipelines, with_constants, with_library, options_of, construct_kernel,
}

module _ (device : MtlDevice) (pipelines : Pipelines) (a : Arguments)
    (d e : List (Text × PyValue)) where
  with_constants-eq :
      (l : Library) (libraries : Cache Text Library) (made : Result (List FunctionConstant))
      → with_constants device pipelines (record a { constants = e }) l libraries made
        ≡ with_constants device pipelines (record a { constants = d }) l libraries made
  unfolding with_constants
  with_constants-eq l libraries (throw x) = refl
  with_constants-eq l libraries (ok cs) = refl

  with_library-eq :
      parse_constants e ≡ parse_constants d
      → (r : Option (Cache Text Library × Result Library))
      → with_library device pipelines (record a { constants = e }) r
        ≡ with_library device pipelines (record a { constants = d }) r
  unfolding with_library
  with_library-eq same none = refl
  with_library-eq same (some (libraries, throw x)) = refl
  with_library-eq same (some (libraries, ok l)) =
      with_constants-eq l libraries (parse_constants e)
      ∙ ap (with_constants device pipelines (record a { constants = d }) l libraries) same

-- If every constant of a dict can be read, two kernels that differ in the order of these constants alone
-- are built alike: the same caches are left behind, and the result is the same kernel or the same error.
pub construct_kernel-Reordered :
    (device : MtlDevice) (pipelines : Pipelines) (a : Arguments) (d e : List (Text × PyValue))
    (cs : List FunctionConstant) (others : Cache Text Library → Cache Text Library)
    (libraries : Cache Text Library)
    → Reordered d e
    → parse_constants d ≡ ok cs
    → construct_kernel device pipelines (record a { constants = e }) others libraries
      ≡ construct_kernel device pipelines (record a { constants = d }) others libraries
unfolding construct_kernel with_library
construct_kernel-Reordered device pipelines a d e cs others libraries r h =
    with_library-eq device pipelines a d e (parse_constants-Reordered d e cs r h ∙ sym h)
      (library_for device a.msl_source (options_of a) others libraries)
