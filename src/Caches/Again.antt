-- ===== src/Caches/Again.antt =====
-- A second call with the same key.
use metal_runtime.Caches.{
  texts, Library, cached, compile_with, library_for, found, later, Reach, Others,
}
use metal_runtime.Caches.Made.{IsLibrary}
use metal_runtime.Caches.Branches.{after_find-hit, after_find-throw, after_find-store}
use metal_runtime.Caches.Stored.{lookup-stored, lookup-touch}
use metal_runtime.Caches.Sound.{Reach-Sound}
use metal_runtime.Compile.{MtlDevice}
use metal_runtime.Common.{ℕ, ◌≡◌, sym, ap, ◌∙◌, subst, List, some, Text, Option-cases, inl, inr}
use metal_runtime.Errors.{Result, ok, throw, Result-cases}
use metal_runtime.Keys.{CompileOptions, library_key}
use metal_runtime.Lru.{Cache, find}
use metal_runtime.Lru.Assoc.{lookup}
use metal_runtime.Lru.Refinement.{Represents, touch, stored}
use metal_runtime.Lru.Refinement.Calls.{find-Represents, insert-Represents, winner}

module _ {V : Type 0} (k : Text) where
  -- A cache that holds a value under the key answers with it, and makes nothing.
  held :
      (c : Cache Text V) (l : List (Text × V)) (v : V) (other : Result V)
      (others : Cache Text V → Cache Text V)
      → Represents texts c l
      → lookup texts k l ≡ some v
      → (c' : Cache Text V) × (cached k other others c ≡ some (c', ok v))
  unfolding cached
  held c l v other others r e =
      let (answer, _, _) = find-Represents texts c l k r in
      ((find texts c k).0, after_find-hit k others other (find texts c k) v (answer ∙ e))

  module _ (Made : Text → V → Type 0) (limit : ℕ) (others again : Cache Text V → Cache Text V)
      (keep : Others Made limit others) where
    cached-again :
        (c c' : Cache Text V) (v : V) (made other : Result V)
        → Reach Made limit c
        → cached k made others c ≡ some (c', ok v)
        → (c2 : Cache Text V) × (cached k other again c' ≡ some (c2, ok v))
    unfolding cached
    cached-again c c' v made other reach e =
        let s = Reach-Sound Made reach in
        let l = s.entries in
        let (answer, moved, kept) = find-Represents texts c l k s.holds in
        elim (Option-cases (find texts c k).1) [
          | inr (w, hit) ↦
              let first = after_find-hit k others made (find texts c k) w hit in
              let state : (find texts c k).0 ≡ c' = cc in
              let value : w ≡ v = cc in
              let there : lookup texts k (touch texts k l) ≡ some v =
                lookup-touch k l w (sym answer ∙ hit) ∙ ap some value in
              held c' (touch texts k l) v other again
                (subst (λ c. Represents texts c (touch texts k l)) state moved) there
          | inl miss ↦ elim (Result-cases made) [
            | inr (x, failed) ↦
                let thrown : cached k made others c ≡ some ((find texts c k).0, throw x) =
                  rw failed (after_find-throw k others (find texts c k) x miss) in
                absurd cc
            | inl (w, good) ↦
                let between = keep (find texts c k).0 (later reach (found k)) in
                let b = Reach-Sound Made between in
                let m = (others (find texts c k).0).limit in
                let (c2, stores, holds, _) =
                  insert-Represents texts (others (find texts c k).0) b.entries k w b.holds in
                let wins = winner texts k w b.entries in
                let returned : cached k made others c ≡ some (c2, ok wins) =
                  rw good (after_find-store k others (find texts c k) w wins c2 miss stores) in
                let state : c2 ≡ c' = cc in
                let value : wins ≡ v = cc in
                held c' (stored texts m k w b.entries) v other again
                  (subst (λ c. Represents texts c (stored texts m k w b.entries)) state holds)
                  (lookup-stored k m w b.entries ∙ ap some value)
          ]
        ]

-- An immediate second `library_for` with the same source and options returns the very library that the
-- first one returned, which may be another thread's, whatever Metal would compile by then. The other
-- threads only call the cache.
pub library_for-again :
    (Metal : MtlDevice → Type 0) (limit : ℕ) (device later_device : MtlDevice) (source : Text)
    (options : CompileOptions) (others later_others : Cache Text Library → Cache Text Library)
    (c c' : Cache Text Library) (l : Library)
    → Others (IsLibrary Metal) limit others
    → Reach (IsLibrary Metal) limit c
    → library_for device source options others c ≡ some (c', ok l)
    → (c2 : Cache Text Library) × (library_for later_device source options later_others c'
        ≡ some (c2, ok l))
unfolding library_for
library_for-again Metal limit device later_device source options others later_others c c' l keep
      reach e =
    cached-again (library_key source options) (IsLibrary Metal) limit others later_others keep c c'
      l (compile_with device source options) (compile_with later_device source options) reach e
