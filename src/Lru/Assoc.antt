-- ===== src/Lru/Assoc.antt =====
-- Association lists with distinct keys, and the lists of their keys.
use mathlib.Core.Logic.{ite, if_pos, if_neg}
use metal_runtime.Common.{
  ℕ, zero, suc, ◌+◌, ◌≤◌, ◌≡◌, ◌⊎◌, inl, inr, refl, ap, List, [], ◌∷◌, ◌++◌, map, Option, none,
  some, length, take, arith,
}

-- The list without its last element, and that element.
abbrev pub unsnoc {ℓ} : {A : Type ℓ} → List A → Option (List A × A)
unsnoc [] = none
unsnoc (x ∷ xs) = elim (unsnoc xs) [ none ↦ some ([], x) | some (ys, y) ↦ some (x ∷ ys, y) ]

pub unsnoc-append {ℓ} : {A : Type ℓ} (xs : List A) (x : A) → unsnoc (xs ++ x ∷ []) ≡ some (xs, x)
unsnoc-append [] x = refl
unsnoc-append (y ∷ xs) x = rw (unsnoc-append xs x)

-- A list is empty or ends in an element.
pub snoc-cases {ℓ} :
    {A : Type ℓ} (l : List A) → (l ≡ []) ⊎ ((xs : List A) × (x : A) × (l ≡ xs ++ x ∷ []))
snoc-cases [] = inl refl
snoc-cases (y ∷ l) = elim (snoc-cases l) [
  | inl e ↦ inr ([], y, ap (◌∷◌ y) e)
  | inr (xs, x, e) ↦ inr (y ∷ xs, x, ap (◌∷◌ y) e)
]

pub take-append_last {ℓ} :
    {A : Type ℓ} (n : ℕ) (xs : List A) (x : A) → n ≤ length xs → take n (xs ++ x ∷ []) ≡ take n xs
take-append_last zero xs x h = refl
take-append_last (suc n) [] x h = absurd (omega arith)
take-append_last (suc n) (y ∷ xs) x h = ap (◌∷◌ y) (take-append_last n xs x (omega arith))

abbrev pub keys {ℓ} : {K W : Type ℓ} → List (K × W) → List K
keys = map (λ e. e.0)

module _ {ℓ} {K : Type ℓ} (dec : Discrete K) where
  -- The list without the first node that holds `k`.
  unfoldable pub unlink : K → List K → List K
  unlink k [] = []
  unlink k (j ∷ l) = ite (dec j k) l (j ∷ unlink k l)

module _ {ℓ} {K W : Type ℓ} (dec : Discrete K) where
  unfoldable pub lookup : K → List (K × W) → Option W
  lookup k [] = none
  lookup k ((j, w) ∷ l) = ite (dec j k) (some w) (lookup k l)

  unfoldable pub remove : K → List (K × W) → List (K × W)
  remove k [] = []
  remove k ((j, w) ∷ l) = ite (dec j k) l ((j, w) ∷ remove k l)

  -- No key stands twice.
  abbrev pub Distinct : List (K × W) → Type ℓ
  Distinct [] = Unit
  Distinct ((k, w) ∷ l) = (lookup k l ≡ none) × Distinct l

  pub keys-remove : (k : K) (l : List (K × W)) → keys (remove k l) ≡ unlink dec k (keys l)
  unfolding remove unlink
  keys-remove k [] = refl
  keys-remove k ((j, w) ∷ l) = ground (arith, keys-remove k l)

  pub lookup-remove :
      (j k : K) (l : List (K × W))
      → Distinct l
      → lookup j (remove k l) ≡ ite (dec k j) none (lookup j l)
  unfolding lookup remove
  lookup-remove j k [] d = ground arith
  lookup-remove j k ((i, w) ∷ l) d = ground (arith, lookup-remove j k l d.1)

  pub remove-Distinct : (k : K) (l : List (K × W)) → Distinct l → Distinct (remove k l)
  unfolding lookup remove
  remove-Distinct k [] d = tt
  remove-Distinct k ((i, w) ∷ l) d = elim (dec i k) [
    | yes p ↦ rw (if_pos _ p) d.1
    | no p ↦ rw (if_neg _ p) (ground (arith, lookup-remove i k l d.1), remove-Distinct k l d.1)
  ]

  pub length-remove :
      (k : K) (l : List (K × W)) (w : W) → lookup k l ≡ some w → length (remove k l) + 1 ≡ length l
  unfolding lookup remove
  length-remove k [] w h = cc
  length-remove k ((i, v) ∷ l) w h = ground (arith, length-remove k l w)

  pub lookup-append_last :
      (j : K) (l : List (K × W)) (k : K) (w : W)
      → lookup j (l ++ (k, w) ∷ [])
        ≡ elim (lookup j l) [ some v ↦ some v | none ↦ ite (dec k j) (some w) none ]
  unfolding lookup
  lookup-append_last j [] k w = refl
  lookup-append_last j ((i, v) ∷ l) k w = ground (arith, lookup-append_last j l k w)

  -- The last key stands nowhere else.
  pub Distinct-append_last :
      (l : List (K × W)) (k : K) (w : W)
      → Distinct (l ++ (k, w) ∷ [])
      → Distinct l × (lookup k l ≡ none)
  unfolding lookup
  Distinct-append_last [] k w d = (tt, refl)
  Distinct-append_last ((i, v) ∷ l) k w d =
      let rest = Distinct-append_last l k w d.1 in ground (arith, rest, lookup-append_last i l k w)
