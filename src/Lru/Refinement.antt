-- ===== src/Lru/Refinement.antt =====
-- `LruCache` against a list of entries, most recently used first.
pub mod Evict
pub mod Calls
pub mod Runs
use mathlib.Core.Logic.{ite, if_pos, if_neg}
use mathlib.Core.Option
use metal_runtime.Common.{
  ℕ, zero, suc, ◌≤◌, ◌≡◌, ◌≢◌, refl, List, [], ◌∷◌, map, Option, none, some, length, take, arith,
  Option-cases, ◌==◌, if◌then◌else◌,
}
use metal_runtime.Lru.Assoc.{keys, lookup, remove, Distinct}
use metal_runtime.Lru.{Cache}

-- The ideal cache. A limit of 0 keeps everything.
abbrev pub trim {ℓ} : {A : Type ℓ} → ℕ → List A → List A
trim limit l = if limit == 0 then l else take limit l

module _ {ℓ} {K V : Type ℓ} (dec : Discrete K) where
  -- A lookup that hits moves its entry to the front.
  abbrev pub touch : K → List (K × V) → List (K × V)
  touch k l = elim (lookup dec k l) [ none ↦ l | some v ↦ (k, v) ∷ remove dec k l ]

  -- What is stored wins; a new entry goes to the front, and the least recent ones beyond the limit go.
  abbrev pub stored : ℕ → K → V → List (K × V) → List (K × V)
  stored limit k v l = elim (lookup dec k l) [
    | none ↦ trim limit ((k, v) ∷ l)
    | some w ↦ (k, w) ∷ remove dec k l
  ]

  abbrev pub linked : K → Option V → Option (V × K)
  linked k o = Option.map (λ v. (v, k)) o

  -- The cache holds the entries of `l`, in the order of `l`, and its two containers agree.
  pub record Represents (c : Cache K V) (l : List (K × V)) : Type ℓ where
    pub order : c.order ≡ keys l
    pub agree : (k : K) → lookup dec k c.entries ≡ linked k (lookup dec k l)
    pub size : length c.entries ≡ length l
    pub unique : Distinct dec c.entries
    pub distinct : Distinct dec l
