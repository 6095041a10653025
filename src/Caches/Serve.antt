-- ===== src/Caches/Serve.antt =====
-- What `library_for` and `pipeline_for` return, whatever other threads do before them, after them, and
-- between their two critical sections.
use metal_runtime.Caches.{
  texts, Library, cached, compile_with, library_for, build_pipeline, pipeline_for, found, inserted,
  Reach, later, Others,
}
use metal_runtime.Caches.Made.{
  IsCompiled, IsBuilt, IsLibrary, IsPipeline, compile_with-IsCompiled, build_pipeline-IsBuilt,
}
use metal_runtime.Caches.Stored.{find-find, find-insert}
use metal_runtime.Caches.Sound.{Sound, lookup-Keyed, Reach-Sound}
use metal_runtime.Compile.{MtlDevice, compile}
use metal_runtime.Dispatch.{ComputePipeline}
use metal_runtime.Specialize.{MtlLibrary}
use metal_runtime.Common.{
  ℕ, ◌≡◌, refl, sym, ◌∙◌, subst, arith, List, Option, some, Text, Option-cases, inl, inr, ◌⊎◌,
}
use metal_runtime.Errors.{Error, Result, ok, throw, Result-cases}
use metal_runtime.Keys.{CompileOptions, library_key, FunctionConstant, pipeline_key}
use metal_runtime.Keys.Library.{library_key-injective}
use metal_runtime.Keys.Pipeline.{AreWhole, pipeline_key-injective}
use metal_runtime.Lru.{Cache, find, insert}
use metal_runtime.Lru.Assoc.{lookup}
use metal_runtime.Lru.Refinement.Calls.{find-Represents, insert-Represents, winner}
use metal_runtime.Caches.Branches.{after_find-hit, after_find-throw, after_find-store}

module _ {V : Type 0} (Made : Text → V → Type 0) where
  -- A lookup answers with a value that was made for the key.
  pub find-Made :
      (c : Cache Text V) (k : Text) (v : V) → Sound Made c → (find texts c k).1 ≡ some v → Made k v
  find-Made c k v s e =
      let (answer, r, l) = find-Represents texts c s.entries k s.holds in
      lookup-Keyed Made k s.entries v s.keyed (sym answer ∙ e)

  winner-Made :
      (k : Text) (v : V) (c : Cache Text V) (s : Sound Made c)
      → Made k v
      → Made k (winner texts k v s.entries)
  winner-Made k v c s made = elim (Option-cases (lookup texts k s.entries)) [
    | inl miss ↦ let new : v ≡ winner texts k v s.entries = ground arith in subst (Made k) new made
    | inr (w, hit) ↦
        let old : w ≡ winner texts k v s.entries = ground arith in
        subst (Made k) old (lookup-Keyed Made k s.entries w s.keyed hit)
  ]

  -- An insertion ends, and returns a value that was made for the key.
  pub insert-Made :
      (c : Cache Text V) (k : Text) (v : V)
      → Sound Made c
      → Made k v
      → (c' : Cache Text V) × (w : V) × (insert texts c k v ≡ some (c', w)) × Made k w
  insert-Made c k v s made =
      let (c', e, r, l) = insert-Represents texts c s.entries k v s.holds in
      (c', winner texts k v s.entries, e, winner-Made k v c s made)

  -- What one call of a cache does: it ends in a state that other threads can also reach, with a value
  -- made for the key that the cache now holds, or with the error of the maker.
  abbrev pub Served : ℕ → Text → Result V → Option (Cache Text V × Result V) → Type 0
  Served limit key made outcome =
      (c : Cache Text V) × (r : Result V) × (outcome ≡ some (c, r))
      × Reach Made limit c
      × (((v : V) × (r ≡ ok v) × Made key v × ((find texts c key).1 ≡ some v))
          ⊎ ((e : Error) × (r ≡ throw e) × (made ≡ throw e)))

  pub cached-Served :
      (limit : ℕ) (key : Text) (made : Result V) (others : Cache Text V → Cache Text V)
      (c : Cache Text V)
      → Others Made limit others
      → Reach Made limit c
      → ((v : V) → made ≡ ok v → Made key v)
      → Served limit key made (cached key made others c)
  unfolding cached
  cached-Served limit key made others c keep r h = elim (Option-cases (find texts c key).1) [
    | inr (v, hit) ↦ (
      (find texts c key).0,
      ok v,
      after_find-hit key others made (find texts c key) v hit,
      later r (found key),
      inl (
        v,
        refl,
        find-Made c key v (Reach-Sound Made r) hit,
        find-find key c (Reach-Sound Made r).entries v (Reach-Sound Made r).holds hit,
      ),
    )
    | inl miss ↦ elim (Result-cases made) [
      | inr (e, failed) ↦ (
        (find texts c key).0,
        throw e,
        rw failed (after_find-throw key others (find texts c key) e miss),
        later r (found key),
        inr (e, refl, failed),
      )
      | inl (v, good) ↦
          let between = keep (find texts c key).0 (later r (found key)) in
          let (c', w, stored, kept) =
            insert-Made (others (find texts c key).0) key v (Reach-Sound Made between) (h v good) in
          (
            c',
            ok w,
            rw good (after_find-store key others (find texts c key) v w c' miss stored),
            later between (inserted key v w c' (h v good) stored),
            inl (
              w,
              refl,
              kept,
              find-insert key (others (find texts c key).0) c' (Reach-Sound Made between).entries v
                  w (Reach-Sound Made between).holds stored,
            ),
          )
    ]
  ]

-- `library_for` ends, whatever other threads do to the library cache before the call and between its two
-- critical sections, as long as they only call the cache, and whatever Metal answers to each
-- compilation. The library that it returns, its own or one that another thread has stored meanwhile, is
-- one that Metal compiled from the source asked for under the options asked for, and is the one that the
-- cache then holds for them; or it throws, and then
-- its own compilation threw.
pub library_for-Served :
    (Metal : MtlDevice → Type 0) (limit : ℕ) (device : MtlDevice) (source : Text)
    (options : CompileOptions) (others : Cache Text Library → Cache Text Library)
    (c : Cache Text Library)
    → Metal device
    → Others (IsLibrary Metal) limit others
    → Reach (IsLibrary Metal) limit c
    → (c' : Cache Text Library) × (r : Result Library) × (library_for device source options others c
        ≡ some (c', r))
      × Reach (IsLibrary Metal) limit c'
      × (((l : Library) × (r ≡ ok l)
            × IsCompiled Metal source options l
            × ((find texts c' (library_key source options)).1 ≡ some l))
          ⊎ ((e : Error) × (r ≡ throw e) × (compile device source options ≡ throw e)))
unfolding library_for compile_with
library_for-Served Metal limit device source options others c metal keep reach =
    let made : (l : Library)
        → compile_with device source options ≡ ok l
        → IsLibrary Metal (library_key source options) l =
      λ l done. record {
        source = source;
        options = options;
        keyed = refl;
        compiled = compile_with-IsCompiled Metal device source options l metal done;
      } in
    let (c', r, e, after, answer) =
      cached-Served (IsLibrary Metal) limit (library_key source options)
        (compile_with device source options) others c keep reach made in
    let served : ((l : Library) × (r ≡ ok l)
          × IsCompiled Metal source options l
          × ((find texts c' (library_key source options)).1 ≡ some l))
        ⊎ ((e : Error) × (r ≡ throw e) × (compile device source options ≡ throw e)) =
      elim answer [
        | inl (l, returned, of, holds) ↦
            let (s, o) = library_key-injective of.source source of.options options of.keyed in
            inl (
              l,
              returned,
              subst (λ o. IsCompiled Metal source o l) o
                  (subst (λ s. IsCompiled Metal s of.options l) s of.compiled),
              holds,
            )
        | inr (x, thrown, failed) ↦ inr (x, thrown, ground arith)
      ] in
    (c', r, e, after, served)

-- `pipeline_for` ends, whatever other threads do to the library's cache before the call and between its
-- two critical sections, as long as they only call the cache, and whatever Metal answers to each build.
-- The pipeline that it returns, its own or another thread's, is one that Metal made of the function that
-- the name and the constants asked for stand for, each constant under its declared type, and is the one
-- that the cache then holds for them; or it throws,
-- and then its own build threw. Exact scalars are padded with zeros.
pub pipeline_for-Served :
    (Metal : MtlDevice → Type 0) (limit : ℕ) (device : MtlDevice) (library : MtlLibrary)
    (name : Text) (constants : List FunctionConstant)
    (others : Cache Text ComputePipeline → Cache Text ComputePipeline)
    (c : Cache Text ComputePipeline)
    → Metal device
    → AreWhole constants
    → Others (IsPipeline Metal library) limit others
    → Reach (IsPipeline Metal library) limit c
    → (c' : Cache Text ComputePipeline) × (r : Result ComputePipeline) × (pipeline_for device
          library name constants others c
        ≡ some (c', r))
      × Reach (IsPipeline Metal library) limit c'
      × (((p : ComputePipeline) × (r ≡ ok p)
            × IsBuilt Metal library name constants p
            × ((find texts c' (pipeline_key name constants)).1 ≡ some p))
          ⊎ ((e : Error) × (r ≡ throw e)
              × (build_pipeline device library name constants ≡ throw e)))
unfolding pipeline_for
pipeline_for-Served Metal limit device library name constants others c metal whole keep reach =
    let made : (p : ComputePipeline)
        → build_pipeline device library name constants ≡ ok p
        → IsPipeline Metal library (pipeline_key name constants) p =
      λ p done. record {
        name = name;
        constants = constants;
        whole = whole;
        keyed = refl;
        made = build_pipeline-IsBuilt Metal device library name constants p metal done;
      } in
    let (c', r, e, after, answer) =
      cached-Served (IsPipeline Metal library) limit (pipeline_key name constants)
        (build_pipeline device library name constants) others c keep reach made in
    let served : ((p : ComputePipeline) × (r ≡ ok p)
          × IsBuilt Metal library name constants p
          × ((find texts c' (pipeline_key name constants)).1 ≡ some p))
        ⊎ ((e : Error) × (r ≡ throw e) × (build_pipeline device library name constants ≡ throw e)) =
      elim answer [
        | inl (p, returned, of, holds) ↦
            let (n, k) =
              pipeline_key-injective of.name name of.constants constants of.whole whole of.keyed in
            inl (
              p,
              returned,
              subst (λ k. IsBuilt Metal library name k p) k
                  (subst (λ n. IsBuilt Metal library n of.constants p) n of.made),
              holds,
            )
        | inr (x, thrown, failed) ↦ inr (x, thrown, failed)
      ] in
    (c', r, e, after, served)
