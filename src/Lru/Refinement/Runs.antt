-- ===== src/Lru/Refinement/Runs.antt =====
-- Runs of `LruCache`'s methods against runs of the ideal cache, and what they bound.
use metal_runtime.Common.{
  ℕ, ◌≤◌, ◌≡◌, ◌⊎◌, inl, inr, refl, ◌∙◌, subst, Bool-cases, ◌==◌, List, [], ◌∷◌, Option, none, some,
  length, length-take-le, arith, Option-cases,
}
use metal_runtime.Lru.Assoc.{lookup, remove, length-remove}
use metal_runtime.Lru.Refinement.{trim, touch, stored, Represents}
use metal_runtime.Lru.Refinement.Calls.{
  winner, find-Represents, insert-Represents, set_limit-Represents, empty-Represents,
  clear-Represents, touch_hit, touch_miss,
}
use metal_runtime.Lru
use metal_runtime.Lru.{Cache}

pub data Call {ℓ} (K V : Type ℓ) : Type ℓ where
  find : K → Call K V
  insert : K → V → Call K V
  set_limit : ℕ → Call K V
  clear : Call K V

trim-fits {ℓ} : {A : Type ℓ} (n : ℕ) (l : List A) → (n ≡ 0) ⊎ (length (trim n l) ≤ n)
trim-fits n l = elim (Bool-cases (n == 0)) [
  | inl off ↦ inl (ground arith)
  | inr on ↦ inr (rw on (length-take-le n l))
]

module _ {ℓ} {K V : Type ℓ} (dec : Discrete K) where
  -- A call's answer is the pointer that it returns.
  unfoldable pub step : Call K V → Cache K V → Option (Cache K V × Option V)
  step (find k) c = some (Lru.find dec c k)
  step (insert k v) c = elim (Lru.insert dec c k v) [
    | none ↦ none
    | some (c', w) ↦ some (c', some w)
  ]
  step (set_limit n) c = elim (Lru.set_limit dec c n) [ none ↦ none | some c' ↦ some (c', none) ]
  step clear c = some (Lru.clear c, none)

  -- The ideal cache: its limit, and its entries with the most recently used first.
  abbrev pub ideal_step : Call K V → ℕ × List (K × V) → (ℕ × List (K × V)) × Option V
  ideal_step (find k) (limit, l) = ((limit, touch dec k l), lookup dec k l)
  ideal_step (insert k v) (limit, l) = ((limit, stored dec limit k v l), some (winner dec k v l))
  ideal_step (set_limit n) (limit, l) = ((n, trim n l), none)
  ideal_step clear (limit, l) = ((limit, []), none)

  unfoldable pub run : List (Call K V) → Cache K V → Option (Cache K V × List (Option V))
  run [] c = some (c, [])
  run (call ∷ calls) c = elim (step call c) [
    | none ↦ none
    | some (c', a) ↦ elim (run calls c') [
      | none ↦ none
      | some (c'', answers) ↦ some (c'', a ∷ answers)
    ]
  ]

  abbrev pub ideal_run : List (Call K V) → ℕ × List (K × V) → (ℕ × List (K × V)) × List (Option V)
  ideal_run [] s = (s, [])
  ideal_run (call ∷ calls) s =
      let r = ideal_step call s in let rs = ideal_run calls r.0 in (rs.0, r.1 ∷ rs.1)

  -- The cache stands for the ideal state, and does not exceed its limit.
  pub record Tracks (c : Cache K V) (s : ℕ × List (K × V)) : Type ℓ where
    pub held : Represents dec c s.1
    pub limit : c.limit ≡ s.0
    pub fits : (s.0 ≡ 0) ⊎ (length s.1 ≤ s.0)

  touch-length : (k : K) (l : List (K × V)) → length (touch dec k l) ≤ length l
  touch-length k l = elim (Option-cases (lookup dec k l)) [
    | inl miss ↦ rw (touch_miss dec k l miss) (omega arith)
    | inr (v, hit) ↦ rw (touch_hit dec k l v hit) (omega (arith, length-remove dec k l v hit))
  ]

  stored-fits :
      (n : ℕ) (k : K) (v : V) (l : List (K × V))
      → (n ≡ 0) ⊎ (length l ≤ n)
      → (n ≡ 0) ⊎ (length (stored dec n k v l) ≤ n)
  stored-fits n k v l h = elim (Option-cases (lookup dec k l)) [
    | inl miss ↦
        let e : stored dec n k v l ≡ trim n ((k, v) ∷ l) = ground arith in
        rw e (trim-fits n ((k, v) ∷ l))
    | inr (w, hit) ↦
        let e : stored dec n k v l ≡ (k, w) ∷ remove dec k l = ground arith in
        rw e (elim h [ inl z ↦ inl z | inr f ↦ inr (omega (arith, length-remove dec k l w hit)) ])
  ]

  -- Every call returns, answers as the ideal cache does, and leaves the two in step.
  pub step-Tracks :
      (call : Call K V) (c : Cache K V) (s : ℕ × List (K × V))
      → Tracks c s
      → (c' : Cache K V) × (step call c ≡ some (c', (ideal_step call s).1))
        × Tracks c' (ideal_step call s).0
  unfolding step
  step-Tracks (find k) c (n, l) t =
      let (answer, rep, same) = find-Represents dec c l k t.held in
      (
        (Lru.find dec c k).0,
        λ i. some ((Lru.find dec c k).0, answer i),
        record {
          held = rep;
          limit = same ∙ t.limit;
          fits = elim t.fits [ inl z ↦ inl z | inr f ↦ inr (omega (arith, touch-length k l)) ];
        },
      )
  step-Tracks (insert k v) c (n, l) t =
      let (c', runs, rep, same) = insert-Represents dec c l k v t.held in
      (
        c',
        rw (runs, step) refl,
        record {
          held = subst (λ m. Represents dec c' (stored dec m k v l)) t.limit rep;
          limit = same ∙ t.limit;
          fits = stored-fits n k v l t.fits;
        },
      )
  step-Tracks (set_limit n) c (_, l) t =
      let (c', runs, rep, same) = set_limit-Represents dec c l n t.held in
      (c', rw (runs, step) refl, record { held = rep; limit = same; fits = trim-fits n l })
  step-Tracks clear c (n, l) t = (
    Lru.clear c,
    refl,
    record {
      held = clear-Represents dec c;
      limit = unfold Lru.clear in t.limit;
      fits = inr (omega arith);
    },
  )

  -- The same of every run of calls.
  pub run-Tracks :
      (calls : List (Call K V)) (c : Cache K V) (s : ℕ × List (K × V))
      → Tracks c s
      → (c' : Cache K V) × (run calls c ≡ some (c', (ideal_run calls s).1))
        × Tracks c' (ideal_run calls s).0
  unfolding run
  run-Tracks [] c s t = (c, refl, t)
  run-Tracks (call ∷ calls) c s t =
      let (c', first, t') = step-Tracks call c s t in
      let (c'', rest, t'') = run-Tracks calls c' (ideal_step call s).0 t' in
      (c'', rw (first, run, rest) refl, t'')

  pub init-Tracks : (limit : ℕ) → Tracks (Lru.init limit) (limit, [])
  unfolding Lru.init
  init-Tracks limit = record {
    held = empty-Represents dec limit;
    limit = refl;
    fits = inr (omega arith);
  }

  -- From an empty cache, every run of calls ends: no eviction loops or pops an empty list. Each
  -- call answers as the ideal cache does, which keeps a list of entries with the most recently
  -- used first and cuts it at the limit; and the cache holds that list, no longer than the limit
  -- unless the limit is 0.
  pub run-init-Tracks :
      (calls : List (Call K V)) (limit : ℕ)
      → (c : Cache K V) × (run calls (Lru.init limit) ≡ some (c, (ideal_run calls (limit, [])).1))
        × Tracks c (ideal_run calls (limit, [])).0
  run-init-Tracks calls limit = run-Tracks calls (Lru.init limit) (limit, []) (init-Tracks limit)
