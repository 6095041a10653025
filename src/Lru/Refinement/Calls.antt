-- ===== src/Lru/Refinement/Calls.antt =====
-- Each method of `LruCache`, and any run of them, against the ideal cache.
use metal_runtime.Common.{
  ℕ, suc, ◌≡◌, inl, inr, refl, sym, ap, ◌∙◌, List, [], ◌∷◌, none, some, arith, Option-cases,
}
use metal_runtime.Lru.Assoc.{
  lookup, remove, unlink, keys-remove, lookup-remove, remove-Distinct, length-remove,
}
use metal_runtime.Lru.Refinement.{trim, touch, stored, Represents}
use metal_runtime.Lru.Refinement.Evict.{evict-Represents}
use metal_runtime.Lru
use metal_runtime.Lru.{
  Cache, init, splice, find, emplace, add_entry, insert_after, insert, set_limit, clear, size,
}

module _ {ℓ} {K V : Type ℓ} (dec : Discrete K) where
  -- Moving a node to the front of `order_` moves its entry to the front of the list.
  moved-Represents :
      (c : Cache K V) (l : List (K × V)) (k : K) (v : V)
      → lookup dec k l ≡ some v
      → Represents dec c l
      → Represents dec (record c { order = splice dec k c.order }) ((k, v) ∷ remove dec k l)
  unfolding splice lookup
  moved-Represents c l k v hit r = record {
    order = ap (◌∷◌ k) (ap (unlink dec k) r.order ∙ sym (keys-remove dec k l));
    agree = λ j. ground (arith, r.agree j, lookup-remove dec j k l r.distinct);
    size = omega (arith, r.size, length-remove dec k l v hit);
    unique = r.unique;
    distinct =
        (ground (arith, lookup-remove dec k k l r.distinct), remove-Distinct dec k l r.distinct);
  }

  pub touch_miss : (k : K) (l : List (K × V)) → lookup dec k l ≡ none → touch dec k l ≡ l
  touch_miss k l e = ground arith

  pub touch_hit :
      (k : K) (l : List (K × V)) (v : V)
      → lookup dec k l ≡ some v
      → touch dec k l ≡ (k, v) ∷ remove dec k l
  touch_hit k l v e = ground arith

  find_miss : (c : Cache K V) (k : K) → lookup dec k c.entries ≡ none → find dec c k ≡ (c, none)
  unfolding find
  find_miss c k e = ground arith

  find_hit :
      (c : Cache K V) (k : K) (v : V)
      → lookup dec k c.entries ≡ some (v, k)
      → find dec c k ≡ (record c { order = splice dec k c.order }, some v)
  unfolding find
  find_hit c k v e = ground arith

  -- `find` returns the stored value and moves a hit to the front; nothing else changes.
  pub find-Represents :
      (c : Cache K V) (l : List (K × V)) (k : K)
      → Represents dec c l
      → ((find dec c k).1 ≡ lookup dec k l)
        × Represents dec (find dec c k).0 (touch dec k l)
        × ((find dec c k).0.limit ≡ c.limit)
  find-Represents c l k r = elim (Option-cases (lookup dec k l)) [
    | inl miss ↦
        let absent : lookup dec k c.entries ≡ none = ground (arith, r.agree k) in
        rw (find_miss c k absent, touch_miss k l miss) (sym miss, r, refl)
    | inr (v, hit) ↦
        let present : lookup dec k c.entries ≡ some (v, k) = ground (arith, r.agree k) in
        rw (find_hit c k v present, touch_hit k l v hit)
          (sym hit, moved-Represents c l k v hit r, refl)
  ]

  -- A new entry in front, before the eviction.
  added-Represents :
      (c : Cache K V) (l : List (K × V)) (k : K) (v : V)
      → lookup dec k l ≡ none
      → Represents dec c l
      → Represents dec (add_entry dec c k v) ((k, v) ∷ l)
  unfolding add_entry emplace lookup
  added-Represents c l k v miss r =
      let absent : lookup dec k c.entries ≡ none = ground (arith, r.agree k) in
      let grown : emplace dec k (v, k) c.entries ≡ (k, (v, k)) ∷ c.entries = ground arith in
      record {
        order = ap (◌∷◌ k) r.order;
        agree = λ j. rw grown (ground (arith, r.agree j));
        size = rw grown (ap suc r.size);
        unique = rw grown (absent, r.unique);
        distinct = (miss, r.distinct);
      }

  -- The value that `insert` returns: what is stored already wins.
  abbrev pub winner : K → V → List (K × V) → V
  winner k v l = elim (lookup dec k l) [ none ↦ v | some w ↦ w ]

  insert_after_miss :
      (c c' : Cache K V) (k : K) (v : V)
      → Lru.evict dec (add_entry dec c k v) ≡ some c'
      → insert_after dec k v (c, none) ≡ some (c', v)
  unfolding insert_after
  insert_after_miss c c' k v e = ground arith

  -- `insert` ends. It returns the stored value if there is one, and moves it to the front; else it
  -- stores the new one in front and evicts the least recently used entries beyond the limit.
  pub insert-Represents :
      (c : Cache K V) (l : List (K × V)) (k : K) (v : V)
      → Represents dec c l
      → (c' : Cache K V) × (insert dec c k v ≡ some (c', winner k v l))
        × Represents dec c' (stored dec c.limit k v l)
        × (c'.limit ≡ c.limit)
  unfolding insert insert_after
  insert-Represents c l k v r = elim (Option-cases (lookup dec k l)) [
    | inl miss ↦
        let absent : lookup dec k c.entries ≡ none = ground (arith, r.agree k) in
        let (c', runs, rep, same) =
          evict-Represents dec (add_entry dec c k v) ((k, v) ∷ l)
            (added-Represents c l k v miss r) in
        let won : winner k v l ≡ v = ground arith in
        let kept : stored dec c.limit k v l ≡ trim c.limit ((k, v) ∷ l) = ground arith in
        (
          c',
          ap (insert_after dec k v) (find_miss c k absent)
              ∙ insert_after_miss c c' k v runs
              ∙ ap (λ x. some (c', x)) (sym won),
          rw kept rep,
          same,
        )
    | inr (w, hit) ↦
        let present : lookup dec k c.entries ≡ some (w, k) = ground (arith, r.agree k) in
        let won : winner k v l ≡ w = ground arith in
        let kept : stored dec c.limit k v l ≡ (k, w) ∷ remove dec k l = ground arith in
        (
          record c { order = splice dec k c.order },
          ap (insert_after dec k v) (find_hit c k w present)
              ∙ ap (λ x. some (record c { order = splice dec k c.order }, x)) (sym won),
          rw kept (moved-Represents c l k w hit r),
          refl,
        )
  ]

  -- `set_limit` ends, and evicts down to the new limit.
  pub set_limit-Represents :
      (c : Cache K V) (l : List (K × V)) (limit : ℕ)
      → Represents dec c l
      → (c' : Cache K V) × (set_limit dec c limit ≡ some c')
        × Represents dec c' (trim limit l)
        × (c'.limit ≡ limit)
  unfolding set_limit
  set_limit-Represents c l limit r =
      evict-Represents dec (record c { limit = limit }) l
        (record {
          order = r.order;
          agree = r.agree;
          size = r.size;
          unique = r.unique;
          distinct = r.distinct;
        })

  pub empty-Represents : (limit : ℕ) → Represents dec (init {V = V} limit) []
  unfolding init lookup
  empty-Represents limit = record {
    order = refl;
    agree = λ k. refl;
    size = refl;
    unique = tt;
    distinct = tt;
  }

  pub clear-Represents : (c : Cache K V) → Represents dec (clear c) []
  unfolding clear lookup
  clear-Represents c = record {
    order = refl;
    agree = λ k. refl;
    size = refl;
    unique = tt;
    distinct = tt;
  }
