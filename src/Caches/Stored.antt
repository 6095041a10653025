-- ===== src/Caches/Stored.antt =====
-- What is found under a key after a hit or an insertion.
use mathlib.Core.Logic.{if_pos}
use metal_runtime.Caches.{texts}
use metal_runtime.Common.{
  ℕ, zero, suc, ◌≡◌, refl, sym, ap, ◌∙◌, subst, arith, List, ◌∷◌, some, Text, Option-cases, inl,
  inr, take,
}
use metal_runtime.Lru.{Cache, find, insert}
use metal_runtime.Lru.Assoc.{lookup, remove}
use metal_runtime.Lru.Refinement.{Represents, touch, stored, trim}
use metal_runtime.Lru.Refinement.Calls.{find-Represents, insert-Represents, winner, touch_hit}

module _ {V : Type 0} (k : Text) where
  lookup_head : (v : V) (l : List (Text × V)) → lookup texts k ((k, v) ∷ l) ≡ some v
  unfolding lookup
  lookup_head v l = if_pos (texts k k) refl (some v) (lookup texts k l)

  lookup-trim :
      (limit : ℕ) (v : V) (l : List (Text × V)) → lookup texts k (trim limit ((k, v) ∷ l)) ≡ some v
  lookup-trim zero v l = lookup_head v l
  lookup-trim (suc n) v l =
      let cut : trim (suc n) ((k, v) ∷ l) ≡ (k, v) ∷ take n l = ground arith in
      ap (lookup texts k) cut ∙ lookup_head v (take n l)

  -- What an insertion returns is what is stored under the key afterwards.
  pub lookup-stored :
      (limit : ℕ) (v : V) (l : List (Text × V))
      → lookup texts k (stored texts limit k v l) ≡ some (winner texts k v l)
  lookup-stored limit v l = elim (Option-cases (lookup texts k l)) [
    | inl miss ↦
        let new : stored texts limit k v l ≡ trim limit ((k, v) ∷ l) = ground arith in
        let won : v ≡ winner texts k v l = ground arith in
        ap (lookup texts k) new ∙ lookup-trim limit v l ∙ ap some won
    | inr (w, hit) ↦
        let old : stored texts limit k v l ≡ (k, w) ∷ remove texts k l = ground arith in
        let won : w ≡ winner texts k v l = ground arith in
        ap (lookup texts k) old ∙ lookup_head w (remove texts k l) ∙ ap some won
  ]

  pub lookup-touch :
      (l : List (Text × V)) (v : V)
      → lookup texts k l ≡ some v
      → lookup texts k (touch texts k l) ≡ some v
  lookup-touch l v hit =
      ap (lookup texts k) (touch_hit texts k l v hit) ∙ lookup_head v (remove texts k l)

  -- A value that is found is found again.
  pub find-find :
      (c : Cache Text V) (l : List (Text × V)) (v : V)
      → Represents texts c l
      → (find texts c k).1 ≡ some v
      → (find texts (find texts c k).0 k).1 ≡ some v
  find-find c l v r hit =
      let (answer, moved, _) = find-Represents texts c l k r in
      let (again, _, _) = find-Represents texts (find texts c k).0 (touch texts k l) k moved in
      again ∙ lookup-touch l v (sym answer ∙ hit)

  -- What an insertion returns is found afterwards.
  pub find-insert :
      (c c' : Cache Text V) (l : List (Text × V)) (v w : V)
      → Represents texts c l
      → insert texts c k v ≡ some (c', w)
      → (find texts c' k).1 ≡ some w
  find-insert c c' l v w r e =
      let (d, runs, holds, _) = insert-Represents texts c l k v r in
      let state : d ≡ c' = cc in
      let value : winner texts k v l ≡ w = cc in
      let (answer, _, _) =
        find-Represents texts c' (stored texts c.limit k v l) k
          (subst (λ c'. Represents texts c' (stored texts c.limit k v l)) state holds) in
      answer ∙ lookup-stored c.limit v l ∙ ap some value
