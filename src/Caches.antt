-- ===== src/Caches.antt =====
-- src/runtime.h, src/runtime.cpp: `MetalRuntime::library_for` and the calls of its cache.
-- src/library.h, src/library.cpp: `Library::pipeline_for`. Both look up, make the value outside of
-- the lock, and insert: two critical sections, between which other threads may run.
pub mod Made
pub mod Sound
pub mod Stored
pub mod Branches
pub mod Serve
pub mod Again
pub mod Limit
use metal_runtime.Common.{ℕ, ◌≡◌, refl, ℕ_discrete, Option, none, some, Text}
use metal_runtime.Compile.{MtlDevice, compile}
use metal_runtime.Dispatch.{ComputePipeline}
use metal_runtime.Errors.{Result, ok, throw, ◌>>=◌}
use metal_runtime.Keys.{CompileOptions, library_key, FunctionConstant, pipeline_key}
use metal_runtime.Reflection
use metal_runtime.Specialize.{MtlLibrary, create_specialized}
use metal_runtime.Lru.{Cache, init, size, find, insert, set_limit, clear}
use mathlib.Core.List.{List-discrete, List}

abbrev pub texts : Discrete Text
texts = List-discrete ℕ_discrete

-- `kDefaultLibraryCacheLimit`
abbrev pub default_library_cache_limit : ℕ
default_library_cache_limit = 256

-- `kMaxCachedPipelines`
abbrev pub max_cached_pipelines : ℕ
max_cached_pipelines = 128

-- `Library::library_`. The cache of pipelines that a `Library` also holds is an argument of its calls.
pub record Library : Type 0 where
  pub library : MtlLibrary

module _ {V : Type 0} where
  -- The second critical section.
  unfoldable pub store : Text → V → Cache Text V → Option (Cache Text V × Result V)
  store key value c = elim (insert texts c key value) [
    | none ↦ none
    | some (c', kept) ↦ some (c', ok kept)
  ]

  pub after_find :
      Text
      → Result V
      → (Cache Text V → Cache Text V)
      → Cache Text V × Option V
      → Option (Cache Text V × Result V)
  unfolding store
  after_find key made others (c, some hit) = some (c, ok hit)
  after_find key (throw e) others (c, none) = some (c, throw e)
  after_find key (ok value) others (c, none) = store key value (others c)

  -- Both critical sections. `others` is what other threads make of the cache while the value is made
  -- outside of the lock; `none` is an eviction that does not end.
  unfoldable pub cached :
      Text
      → Result V
      → (Cache Text V → Cache Text V)
      → Cache Text V
      → Option (Cache Text V × Result V)
  unfolding after_find
  cached key made others c = after_find key made others (find texts c key)

-- `std::make_shared<Library>`
unfoldable pub compile_with : MtlDevice → Text → CompileOptions → Result Library
unfolding compile
compile_with device source options = do
  library ← compile device source options
  ok (record { library = library })

unfoldable pub library_for :
    MtlDevice
    → Text
    → CompileOptions
    → (Cache Text Library → Cache Text Library)
    → Cache Text Library
    → Option (Cache Text Library × Result Library)
unfolding cached compile_with
library_for device source options others c =
    cached (library_key source options) (compile_with device source options) others c

-- `MetalRuntime::set_library_cache_limit`; `none` is an eviction that does not end.
unfoldable pub set_library_cache_limit : ℕ → Cache Text Library → Option (Cache Text Library)
set_library_cache_limit limit c = set_limit texts c limit

-- `MetalRuntime::library_cache_size`
abbrev pub library_cache_size : Cache Text Library → ℕ
library_cache_size c = size c

-- `MetalRuntime::clear_library_cache`
abbrev pub clear_library_cache : Cache Text Library → Cache Text Library
clear_library_cache c = clear c

-- `create_specialized` and `ComputePipeline`'s constructor.
unfoldable pub build_pipeline :
    MtlDevice → MtlLibrary → Text → List FunctionConstant → Result ComputePipeline
unfolding create_specialized Reflection.build
build_pipeline device library name constants = do
  fn ← create_specialized library name constants
  Reflection.build name (device.new_pipeline fn).0 (device.new_pipeline fn).1

unfoldable pub pipeline_for :
    MtlDevice
    → MtlLibrary
    → Text
    → List FunctionConstant
    → (Cache Text ComputePipeline → Cache Text ComputePipeline)
    → Cache Text ComputePipeline
    → Option (Cache Text ComputePipeline × Result ComputePipeline)
unfolding cached build_pipeline
pipeline_for device library name constants others c =
    cached (pipeline_key name constants) (build_pipeline device library name constants) others c

module _ {V : Type 0} (Made : Text → V → Type 0) where
  -- One critical section of some thread. What is inserted was made for its key.
  pub data Step (c : Cache Text V) : Cache Text V → Type 0 where
    found : (key : Text) → Step c (find texts c key).0
    inserted :
        (key : Text) (v w : V) (c' : Cache Text V)
        → Made key v
        → insert texts c key v ≡ some (c', w)
        → Step c c'
    limited : (limit : ℕ) (c' : Cache Text V) → set_limit texts c limit ≡ some c' → Step c c'
    cleared : Step c (clear c)

  pub data Reach (limit : ℕ) : Cache Text V → Type 0 where
    created : Reach limit (init limit)
    later : {c c' : Cache Text V} → Reach limit c → Step c c' → Reach limit c'

  -- What other threads do keeps a cache in the states that calls can bring it to.
  abbrev pub Others : ℕ → (Cache Text V → Cache Text V) → Type 0
  Others limit others = (c : Cache Text V) → Reach limit c → Reach limit (others c)
