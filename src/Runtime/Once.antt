-- ===== src/Runtime/Once.antt =====
-- The one runtime of the process.
use metal_runtime.Common.{
  ◌≡◌, ◌⊎◌, inl, inr, refl, sym, ap, subst, List, [], ◌∷◌, ◌++◌, Option, none, some, All,
}
use metal_runtime.Errors.{Error, Result, ok, throw, Result-cases}
use metal_runtime.Runtime.{SystemDevice, MetalRuntime, start, runtime, calls}

abbrev pub IsThrown : Result MetalRuntime → Type 0
IsThrown r = (e : Error) × (r ≡ throw e)

calls-made :
    (rt : MetalRuntime) (ds : List (Option SystemDevice))
    → All (λ r. r ≡ ok rt) (calls (some rt) ds)
unfolding calls runtime
calls-made rt [] = tt
calls-made rt (d ∷ ds) = (refl, calls-made rt ds)

calls-start :
    (d : Option SystemDevice) (ds : List (Option SystemDevice)) (rt : MetalRuntime)
    → start d ≡ ok rt
    → calls none (d ∷ ds) ≡ ok rt ∷ calls (some rt) ds
unfolding calls
calls-start d ds rt made =
    let first : runtime none d ≡ (some rt, ok rt) = rw (made, runtime) refl in
    ap (λ (r : Option MetalRuntime × Result MetalRuntime). r.1 ∷ calls r.0 ds) first

calls-throw :
    (d : Option SystemDevice) (ds : List (Option SystemDevice)) (e : Error)
    → start d ≡ throw e
    → calls none (d ∷ ds) ≡ throw e ∷ calls none ds
unfolding calls
calls-throw d ds e failed =
    let first : runtime none d ≡ (none, throw e) = rw (failed, runtime) refl in
    ap (λ (r : Option MetalRuntime × Result MetalRuntime). r.1 ∷ calls r.0 ds) first

-- The calls throw, and if one returns, every later one returns the same.
abbrev pub Once : List (Result MetalRuntime) → Type 0
Once rs =
    All IsThrown rs
    ⊎ ((before after : List (Result MetalRuntime)) × (rt : MetalRuntime) × (rs
          ≡ before ++ ok rt ∷ after)
        × All IsThrown before
        × All (λ r. r ≡ ok rt) after)

-- However many calls of `runtime()` are made, and whatever Metal reports at each, there is one runtime at
-- most: the calls throw until a construction returns, and every call from then on returns that very
-- runtime.
pub calls-Once : (ds : List (Option SystemDevice)) → Once (calls none ds)
unfolding calls
calls-Once [] = inl tt
calls-Once (d ∷ ds) = elim (Result-cases (start d)) [
  | inl (rt, made) ↦
      subst Once (sym (calls-start d ds rt made))
        (inr ([], calls (some rt) ds, rt, refl, tt, calls-made rt ds))
  | inr (e, failed) ↦ subst Once (sym (calls-throw d ds e failed)) (elim (calls-Once ds) [
    | inl none_made ↦ inl ((e, refl), none_made)
    | inr (before, after, rt, same, thrown, returned) ↦
        inr (throw e ∷ before, after, rt, ap (◌∷◌ (throw e)) same, ((e, refl), thrown), returned)
  ])
]
