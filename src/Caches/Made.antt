-- ===== src/Caches/Made.antt =====
-- What a library and a pipeline are made from. `Metal` says which answers Metal may give: each compilation
-- and each build may be answered by another of them.
use metal_runtime.Caches.{Library, compile_with, build_pipeline}
use metal_runtime.Common.{◌≡◌, subst, ℕ, List, Text}
use metal_runtime.Compile.{MtlDevice, compile}
use metal_runtime.Compile.Laws.{Compiles, compile_iff}
use metal_runtime.Dispatch.{ComputePipeline}
use metal_runtime.Errors.{ok, >>=-eq-ok, ok-injective}
use metal_runtime.Keys.{CompileOptions, library_key, FunctionConstant, pipeline_key}
use metal_runtime.Keys.Pipeline.{AreWhole}
use metal_runtime.Reflection
use metal_runtime.Reflection.Origin.{Origin, build-Origin}
use metal_runtime.Reflection.Used.{build-label}
use metal_runtime.Specialize.{MtlLibrary, create_specialized}
use metal_runtime.Specialize.Laws.{Specializes, create_specialized_iff}

module _ (Metal : MtlDevice → Type 0) where
  -- Metal compiled the library from this source under these options.
  abbrev pub IsCompiled : Text → CompileOptions → Library → Type 0
  IsCompiled source options l =
      (device : MtlDevice) × Metal device × Compiles device source options l.library

  -- Metal made the pipeline of the function that this name and these constants stand for.
  pub record IsBuilt (library : MtlLibrary) (name : Text) (constants : List FunctionConstant)
      (p : ComputePipeline) : Type 0 where
    pub device : MtlDevice
    pub metal : Metal device
    pub fn : ℕ
    pub specializes : Specializes library name constants fn
    pub built : Reflection.build name (device.new_pipeline fn).0 (device.new_pipeline fn).1 ≡ ok p

  -- A library of the cache was compiled for its key.
  pub record IsLibrary (key : Text) (l : Library) : Type 0 where
    pub source : Text
    pub options : CompileOptions
    pub keyed : library_key source options ≡ key
    pub compiled : IsCompiled source options l

  -- A pipeline of the cache was built for its key. The array of an exact scalar starts as zeros, and only
  -- its element's bytes are written.
  pub record IsPipeline (library : MtlLibrary) (key : Text) (p : ComputePipeline) : Type 0 where
    pub name : Text
    pub constants : List FunctionConstant
    pub whole : AreWhole constants
    pub keyed : pipeline_key name constants ≡ key
    pub made : IsBuilt library name constants p

  pub compile_with-IsCompiled :
      (device : MtlDevice) (source : Text) (options : CompileOptions) (l : Library)
      → Metal device
      → compile_with device source options ≡ ok l
      → IsCompiled source options l
  unfolding compile_with
  compile_with-IsCompiled device source options l metal h =
      let (m, made, is) = >>=-eq-ok (compile device source options) _ h in
      (
        device,
        metal,
        subst (λ (l : Library). Compiles device source options l.library) (ok-injective is)
            ((compile_iff device source options m).0 made),
      )

  pub build_pipeline-IsBuilt :
      (device : MtlDevice) (library : MtlLibrary) (name : Text) (constants : List FunctionConstant)
      (p : ComputePipeline)
      → Metal device
      → build_pipeline device library name constants ≡ ok p
      → IsBuilt library name constants p
  unfolding build_pipeline
  build_pipeline-IsBuilt device library name constants p metal h =
      let (fn, special, built) = >>=-eq-ok (create_specialized library name constants) _ h in
      record {
        device = device;
        metal = metal;
        fn = fn;
        specializes = (create_specialized_iff library name constants fn).0 special;
        built = built;
      }

  pub IsBuilt-label :
      (library : MtlLibrary) (name : Text) (constants : List FunctionConstant) (p : ComputePipeline)
      → IsBuilt library name constants p
      → p.label ≡ name
  IsBuilt-label library name constants p b =
      build-label name (b.device.new_pipeline b.fn).0 (b.device.new_pipeline b.fn).1 p b.built

  pub IsBuilt-Origin :
      (library : MtlLibrary) (name : Text) (constants : List FunctionConstant) (p : ComputePipeline)
      → IsBuilt library name constants p
      → Origin p
  IsBuilt-Origin library name constants p b =
      build-Origin name (b.device.new_pipeline b.fn).0 (b.device.new_pipeline b.fn).1 p b.built
