-- ===== src/Examples/Caches.antt =====
-- A library and a pipeline that two threads ask for.
use metal_runtime.Caches.{
  texts, Library, build_pipeline, compile_with, library_for, pipeline_for, Reach, created, later,
  found, inserted, cleared, set_library_cache_limit, library_cache_size, clear_library_cache,
}
use metal_runtime.Caches.Again.{library_for-again}
use metal_runtime.Caches.Limit.{library_cache_size-IsWithin}
use metal_runtime.Caches.Made.{IsCompiled, IsBuilt, IsLibrary, IsPipeline, compile_with-IsCompiled}
use metal_runtime.Caches.Serve.{insert-Made, library_for-Served, pipeline_for-Served}
use metal_runtime.Caches.Sound.{Reach-Sound}
use metal_runtime.Common.{ℕ, ◌≤◌, ◌≢◌, ◌≡◌, refl, ◌⊎◌, inl, inr, none, some, Text, codes, [], ◌∷◌}
use metal_runtime.Compile.{MtlDevice, compile}
use metal_runtime.Dispatch.{ComputePipeline}
use metal_runtime.Errors.{Error, Result, ok, throw}
use metal_runtime.Examples.Compile.{gpu}
use metal_runtime.Examples.Keys.{options, constants, constants-AreWhole}
use metal_runtime.Examples.Specialize.{metal}
use metal_runtime.Keys.{library_key, pipeline_key}
use metal_runtime.Lru.Assoc.{lookup}
use metal_runtime.Lru.{Cache, init, find, clear, insert}
use metal_runtime.Specialize.{MtlLibrary}

-- What a second compilation of the same source makes: another library.
abbrev fresh_metal : MtlLibrary
fresh_metal = record metal { specialize = λ name settings. some 9 }

abbrev second : MtlDevice
second = record gpu { new_library = λ source o. some fresh_metal }

-- Metal answers with either.
abbrev pub Either : MtlDevice → Type 0
Either device = (device ≡ gpu) ⊎ (device ≡ second)

abbrev fresh_compiled : Library
fresh_compiled = record { library = fresh_metal }

abbrev key : Text
key = library_key (codes "x") options

-- Another thread has looked up the library, and a third has cleared the cache.
abbrev used : Cache Text Library
used = clear (find texts (init 1) key).0

used-Reach : Reach (IsLibrary Either) 1 used
used-Reach = later (later created (found key)) cleared

fresh-IsLibrary : IsLibrary Either key fresh_compiled
unfolding compile_with
fresh-IsLibrary = record {
  source = codes "x";
  options = options;
  keyed = refl;
  compiled =
      compile_with-IsCompiled Either second (codes "x") options fresh_compiled (inr refl) refl;
}

-- While the library is compiled, another thread stores its own library of the same source.
abbrev racing : Cache Text Library → Cache Text Library
racing c = elim (insert texts c key fresh_compiled) [ none ↦ c | some r ↦ r.0 ]

racing-keeps :
    (c : Cache Text Library) → Reach (IsLibrary Either) 1 c → Reach (IsLibrary Either) 1 (racing c)
racing-keeps c reach =
    let (c', w, stored, _) =
      insert-Made (IsLibrary Either) c key fresh_compiled (Reach-Sound (IsLibrary Either) reach)
        fresh-IsLibrary in
    rw (stored, racing) (later reach (inserted key fresh_compiled w c' fresh-IsLibrary stored))

library_for-Served_example :
    (c' : Cache Text Library) × (r : Result Library) × (library_for gpu
        (codes "x")
        options
        racing
        used
      ≡ some (c', r))
    × Reach (IsLibrary Either) 1 c'
    × (((l : Library) × (r ≡ ok l)
          × IsCompiled Either (codes "x") options l
          × ((find texts c' (library_key (codes "x") options)).1 ≡ some l))
        ⊎ ((e : Error) × (r ≡ throw e) × (compile gpu (codes "x") options ≡ throw e)))
library_for-Served_example =
    library_for-Served Either 1 gpu (codes "x") options racing used (inl refl) racing-keeps
      used-Reach

pipeline_for-Served_example :
    (c' : Cache Text ComputePipeline) × (r : Result ComputePipeline) × (pipeline_for gpu metal
        (codes "f")
        constants
        (λ c. clear c)
        (init 128)
      ≡ some (c', r))
    × Reach (IsPipeline Either metal) 128 c'
    × (((p : ComputePipeline) × (r ≡ ok p)
          × IsBuilt Either metal (codes "f") constants p
          × ((find texts c' (pipeline_key (codes "f") constants)).1 ≡ some p))
        ⊎ ((e : Error) × (r ≡ throw e)
            × (build_pipeline gpu metal (codes "f") constants ≡ throw e)))
pipeline_for-Served_example =
    pipeline_for-Served Either 128 gpu metal (codes "f") constants (λ c. clear c) (init 128)
      (inl refl) constants-AreWhole (λ c r. later r cleared) created

abbrev broken : MtlDevice
broken = record gpu { new_library = λ source o. none }

abbrev compiled : Library
compiled = record { library = metal }

abbrev filled : Cache Text Library
filled = record { limit = 1; order = key ∷ []; entries = (key, (compiled, key)) ∷ [] }

-- Other threads clear the cache meanwhile.
fills : library_for gpu (codes "x") options (λ c. clear c) used ≡ some (filled, ok compiled)
unfolding library_for find insert init lookup clear
fills = refl

library_for-again_example :
    (c : Cache Text Library) × (library_for broken (codes "x") options racing filled
      ≡ some (c, ok compiled))
library_for-again_example =
    library_for-again Either 1 gpu broken (codes "x") options (λ c. clear c) racing used filled
      compiled (λ c r. later r cleared) used-Reach fills

library_cache_size-IsWithin_example :
    (used.limit ≢ 0 → library_cache_size used ≤ used.limit)
    × ((n : ℕ)
        → (c' : Cache Text Library) × (set_library_cache_limit n used ≡ some c')
          × (c'.limit ≡ n)
          × (n ≢ 0 → library_cache_size c' ≤ n))
    × (library_cache_size (clear_library_cache used) ≡ 0)
library_cache_size-IsWithin_example = library_cache_size-IsWithin Either 1 used used-Reach
