-- ===== src/Lru.antt =====
-- src/lru.h: `LruCache<V>`. Keys are of any type with a decidable equality (the program's are
-- strings), values are non-null `shared_ptr`s. An iterator into `order_` is the key that its node
-- holds: the keys in `order_` are distinct, and `splice` moves a node without invalidating it.
pub mod Assoc
pub mod Refinement
use mathlib.Core.Logic.{ite}
use metal_runtime.Common.{
  ℕ, zero, suc, List, [], ◌∷◌, Bool, true, false, Option, none, some, length, ltb, ◌==◌,
  if◌then◌else◌,
}
use Assoc.{lookup, remove, unlink, unsnoc}

-- `entries_` is the `unordered_map`: the value and the iterator of each key.
pub record Cache {ℓ} (K V : Type ℓ) : Type ℓ where
  pub limit : ℕ
  pub order : List K
  pub entries : List (K × (V × K))

unfoldable pub init {ℓ} : {K V : Type ℓ} → ℕ → Cache K V
init limit = record { limit = limit; order = []; entries = [] }

unfoldable pub size {ℓ} : {K V : Type ℓ} → Cache K V → ℕ
size c = length c.entries

unfoldable pub clear {ℓ} : {K V : Type ℓ} → Cache K V → Cache K V
clear c = record c { order = []; entries = [] }

-- `order_.splice(order_.begin(), order_, it)`
unfoldable pub splice {ℓ} : {K : Type ℓ} (dec : Discrete K) → K → List K → List K
splice dec it order = it ∷ unlink dec it order

module _ {ℓ} {K V : Type ℓ} (dec : Discrete K) where
  unfoldable pub find : Cache K V → K → Cache K V × Option V
  unfolding splice
  find c key = elim (lookup dec key c.entries) [
    | none ↦ (c, none)
    | some (value, it) ↦ (record c { order = splice dec it c.order }, some value)
  ]

  -- The loop of `evict`, with the rounds left as fuel. `none` stands for a loop that does not end,
  -- and for `back()` of an empty list.
  unfoldable pub evict_loop : ℕ → Cache K V → Option (Cache K V)
  evict_loop zero c = none
  evict_loop (suc fuel) c = elim (ltb c.limit (length c.entries)) [
    | false ↦ some c
    | true ↦ elim (unsnoc c.order) [
      | none ↦ none
      | some (rest, back) ↦
          evict_loop fuel (record c { order = rest; entries = remove dec back c.entries })
    ]
  ]

  unfoldable pub evict : Cache K V → Option (Cache K V)
  unfolding evict_loop
  evict c = if c.limit == 0 then some c else evict_loop (suc (length c.entries)) c

  -- `emplace` on the map: no effect where the key is present.
  unfoldable pub emplace : K → V × K → List (K × (V × K)) → List (K × (V × K))
  emplace key e entries = elim (lookup dec key entries) [
    | none ↦ (key, e) ∷ entries
    | some _ ↦ entries
  ]

  add_entry : Cache K V → K → V → Cache K V
  unfolding emplace
  add_entry c key value = record c {
    order = key ∷ c.order;
    entries = emplace key (value, key) c.entries;
  }

  -- The rest of `insert`, after the lookup.
  insert_after : K → V → Cache K V × Option V → Option (Cache K V × V)
  unfolding evict add_entry
  insert_after key value (c, some existing) = some (c, existing)
  insert_after key value (c, none) = elim (evict (add_entry c key value)) [
    | none ↦ none
    | some c' ↦ some (c', value)
  ]

  unfoldable pub insert : Cache K V → K → V → Option (Cache K V × V)
  unfolding find insert_after
  insert c key value = insert_after key value (find c key)

  unfoldable pub set_limit : Cache K V → ℕ → Option (Cache K V)
  unfolding evict
  set_limit c limit = evict (record c { limit = limit })
