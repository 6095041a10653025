-- ===== src/Lru/Refinement/Evict.antt =====
-- The eviction loop ends, drops the least recently used entries, and no others.
use metal_runtime.Common.{
  ℕ, zero, suc, ◌+◌, ◌<◌, ◌≤◌, ◌≡◌, inl, inr, refl, sym, ap, ◌∙◌, subst, true, Bool-cases, ltb,
  ◌==◌, List, [], ◌∷◌, ◌++◌, some, length, length-append, take, take_of_length-le, arith,
}
use metal_runtime.Lru.Assoc.{
  keys, lookup, remove, unsnoc, unsnoc-append, snoc-cases, take-append_last, lookup-append_last,
  Distinct-append_last, lookup-remove, remove-Distinct, length-remove,
}
use metal_runtime.Lru.Refinement.{trim, Represents}
use metal_runtime.Lru.{Cache, evict_loop, evict}

module _ {ℓ} {K V : Type ℓ} (dec : Discrete K) where
  keys-append_last : (l : List (K × V)) (k : K) (v : V) → keys (l ++ (k, v) ∷ []) ≡ keys l ++ k ∷ []
  keys-append_last [] k v = refl
  keys-append_last (e ∷ l) k v = ap (◌∷◌ e.0) (keys-append_last l k v)

  -- One round: the last key goes, from both containers.
  drop_last : Cache K V → List K → K → Cache K V
  drop_last c rest back = record c { order = rest; entries = remove dec back c.entries }

  drop_last-Represents :
      (c : Cache K V) (l : List (K × V)) (k : K) (v : V)
      → Represents dec c (l ++ (k, v) ∷ [])
      → Represents dec (drop_last c (keys l) k) l
  unfolding drop_last
  drop_last-Represents c l k v r =
      let (distinct, fresh) = Distinct-append_last dec l k v r.distinct in
      let held : lookup dec k c.entries ≡ some (v, k) =
        ground (arith, r.agree k, lookup-append_last dec k l k v) in
      record {
        order = refl;
        agree = λ j. ground (
          arith,
          lookup-remove dec j k c.entries r.unique,
          r.agree j,
          lookup-append_last dec j l k v,
        );
        size = omega (
          arith,
          length-remove dec k c.entries (v, k) held,
          r.size,
          length-append {ℓ} l ((k, v) ∷ []),
        );
        unique = remove-Distinct dec k c.entries r.unique;
        distinct = distinct;
      }

  unsnoc-keys :
      (l : List (K × V)) (k : K) (v : V) → unsnoc (keys (l ++ (k, v) ∷ [])) ≡ some (keys l, k)
  unsnoc-keys l k v = rw (keys-append_last l k v) (unsnoc-append (keys l) k)

  evict_round :
      (fuel : ℕ) (c : Cache K V) (l : List (K × V)) (k : K) (v : V)
      → ltb c.limit (length c.entries) ≡ true
      → c.order ≡ keys (l ++ (k, v) ∷ [])
      → evict_loop dec (suc fuel) c ≡ evict_loop dec fuel (drop_last c (keys l) k)
  unfolding evict_loop drop_last
  evict_round fuel c l k v over order = rw (over, evict_loop, order, unsnoc-keys l k v) refl

  -- With more rounds than entries the loop ends, and keeps the `limit` first entries.
  evict_loop-Represents :
      (fuel : ℕ) (c : Cache K V) (l : List (K × V))
      → length l < fuel
      → Represents dec c l
      → (c' : Cache K V) × (evict_loop dec fuel c ≡ some c')
        × Represents dec c' (take c.limit l)
        × (c'.limit ≡ c.limit)
  unfolding evict_loop drop_last
  evict_loop-Represents zero c l h r = absurd (omega arith)
  evict_loop-Represents (suc fuel) c l h r = elim (Bool-cases (ltb c.limit (length c.entries))) [
    | inr fits ↦
        let small : length l ≤ c.limit = ground (arith, r.size) in
        (c, rw (fits, evict_loop) refl, rw (take_of_length-le c.limit l small) r, refl)
    | inl over ↦ elim (snoc-cases l) [
      | inl empty ↦ absurd (ground (arith, r.size, ap length empty))
      | inr (xs, (k, v), ends) ↦
          let r' : Represents dec c (xs ++ (k, v) ∷ []) = subst (Represents dec c) ends r in
          let sizes : length l ≡ length xs + 1 = ap length ends ∙ length-append xs ((k, v) ∷ []) in
          let room : c.limit ≤ length xs = ground (arith, r.size, sizes) in
          let kept : take c.limit l ≡ take c.limit xs =
            ap (take c.limit) ends ∙ take-append_last c.limit xs (k, v) room in
          let (c', runs, rep, same) =
            evict_loop-Represents fuel (drop_last c (keys xs) k) xs (omega arith)
              (drop_last-Represents c xs k v r') in
          (
            c',
            evict_round fuel c xs k v over r'.order ∙ runs,
            subst (Represents dec c') (sym kept) rep,
            same,
          )
    ]
  ]

  -- `evict` ends and trims the cache to its limit.
  pub evict-Represents :
      (c : Cache K V) (l : List (K × V))
      → Represents dec c l
      → (c' : Cache K V) × (evict dec c ≡ some c')
        × Represents dec c' (trim c.limit l)
        × (c'.limit ≡ c.limit)
  unfolding evict
  evict-Represents c l r = elim (Bool-cases (c.limit == 0)) [
    | inl unlimited ↦ (c, rw (unlimited, evict) refl, rw unlimited r, refl)
    | inr limited ↦
        rw (limited, evict)
          (evict_loop-Represents (suc (length c.entries)) c l (omega (arith, r.size)) r)
  ]
