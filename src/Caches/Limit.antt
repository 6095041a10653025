-- ===== src/Caches/Limit.antt =====
-- How many values a cache holds.
use metal_runtime.Caches.{
  texts, Library, Step, found, inserted, limited, cleared, Reach, created, later,
  set_library_cache_limit, library_cache_size, clear_library_cache,
}
use metal_runtime.Caches.Made.{IsLibrary}
use metal_runtime.Compile.{MtlDevice}
use metal_runtime.Caches.Sound.{Sound, Reach-Sound}
use metal_runtime.Common.{
  ℕ, zero, suc, ◌≤◌, ◌≡◌, ◌≢◌, inl, inr, refl, sym, ap, subst, arith, List, [], ◌∷◌, some, Text,
  length, take, Option-cases,
}
use metal_runtime.Lru.{Cache, init, size, find, insert, set_limit, clear}
use metal_runtime.Lru.Assoc.{lookup, remove, length-remove}
use metal_runtime.Lru.Refinement.{trim, stored}
use metal_runtime.Lru.Refinement.Calls.{insert-Represents, set_limit-Represents}

-- A limit of 0 disables eviction.
abbrev pub IsWithin : {V : Type 0} → Cache Text V → Type 0
IsWithin c = c.limit ≢ 0 → size c ≤ c.limit

length-take-le : {A : Type 0} (n : ℕ) (l : List A) → length (take n l) ≤ n
length-take-le zero [] = omega arith
length-take-le zero (x ∷ l) = omega arith
length-take-le (suc n) [] = omega arith
length-take-le (suc n) (x ∷ l) = omega (arith, length-take-le n l)

length-trim-le : {A : Type 0} (n : ℕ) (l : List A) → n ≢ 0 → length (trim n l) ≤ n
length-trim-le n l bounded =
    let cut : trim n l ≡ take n l = ground arith in
    subst (λ m. m ≤ n) (ap length (sym cut)) (length-take-le n l)

module _ {V : Type 0} (Made : Text → V → Type 0) where
  find-IsWithin : (c : Cache Text V) (k : Text) → IsWithin c → IsWithin (find texts c k).0
  unfolding find size
  find-IsWithin c k h = elim (Option-cases (lookup texts k c.entries)) [
    | inl miss ↦ rw (miss, find) h
    | inr (v, hit) ↦ rw (hit, find) h
  ]

  length-stored :
      (limit : ℕ) (k : Text) (v : V) (l : List (Text × V))
      → limit ≢ 0
      → length l ≤ limit
      → length (stored texts limit k v l) ≤ limit
  length-stored limit k v l bounded h = elim (Option-cases (lookup texts k l)) [
    | inl miss ↦
        let new : trim limit ((k, v) ∷ l) ≡ stored texts limit k v l = ground arith in
        subst (λ l. length l ≤ limit) new (length-trim-le limit ((k, v) ∷ l) bounded)
    | inr (w, hit) ↦
        let old : (k, w) ∷ remove texts k l ≡ stored texts limit k v l = ground arith in
        subst (λ l. length l ≤ limit) old (omega (arith, length-remove texts k l w hit))
  ]

  insert-IsWithin :
      (c c' : Cache Text V) (k : Text) (v w : V)
      → Sound Made c
      → IsWithin c
      → insert texts c k v ≡ some (c', w)
      → IsWithin c'
  unfolding size
  insert-IsWithin c c' k v w s h e =
      let (d, runs, rep, same) = insert-Represents texts c s.entries k v s.holds in
      let is : d ≡ c' = cc in
      subst IsWithin is (λ bounded.
        let limit : c.limit ≢ 0 = subst (λ n. n ≢ 0) same bounded in
        let room = h limit in
        let few = length-stored c.limit k v s.entries limit (omega (arith, s.holds.size, room)) in
        omega (arith, rep.size, few, same))

  set_limit-IsWithin :
      (c c' : Cache Text V) (limit : ℕ)
      → Sound Made c
      → set_limit texts c limit ≡ some c'
      → (c'.limit ≡ limit) × IsWithin c'
  unfolding size
  set_limit-IsWithin c c' limit s e =
      let (d, runs, rep, same) = set_limit-Represents texts c s.entries limit s.holds in
      let is : d ≡ c' = cc in
      subst (λ c. (c.limit ≡ limit) × IsWithin c) is
        (
          same,
          λ bounded.
              let few = length-trim-le limit s.entries (subst (λ n. n ≢ 0) same bounded) in
              omega (arith, rep.size, few, same),
        )

  step-IsWithin : {c c' : Cache Text V} → Sound Made c → IsWithin c → Step Made c c' → IsWithin c'
  unfolding clear size
  step-IsWithin {c = c} s h (found k) = find-IsWithin c k h
  step-IsWithin {c = c} s h (inserted k v w c' made e) = insert-IsWithin c c' k v w s h e
  step-IsWithin {c = c} s h (limited n c' e) = (set_limit-IsWithin c c' n s e).1
  step-IsWithin {c = c} s h cleared = λ bounded. omega arith

  Reach-IsWithin : {limit : ℕ} {c : Cache Text V} → Reach Made limit c → IsWithin c
  unfolding init size
  Reach-IsWithin created = λ bounded. omega arith
  Reach-IsWithin (later r s) = step-IsWithin (Reach-Sound Made r) (Reach-IsWithin r) s

-- In every state that calls of any threads bring the library cache to, it holds no more libraries than
-- its limit, unless the limit is 0. Setting a limit always ends, and leaves that limit and no more
-- libraries than it allows; clearing leaves none.
pub library_cache_size-IsWithin :
    (Metal : MtlDevice → Type 0) (limit : ℕ) (c : Cache Text Library)
    → Reach (IsLibrary Metal) limit c
    → (c.limit ≢ 0 → library_cache_size c ≤ c.limit)
      × ((n : ℕ)
          → (c' : Cache Text Library) × (set_library_cache_limit n c ≡ some c')
            × (c'.limit ≡ n)
            × (n ≢ 0 → library_cache_size c' ≤ n))
      × (library_cache_size (clear_library_cache c) ≡ 0)
unfolding set_library_cache_limit clear size
library_cache_size-IsWithin Metal limit c r =
    let s = Reach-Sound (IsLibrary Metal) r in
    (
      Reach-IsWithin (IsLibrary Metal) r,
      λ n.
          let (c', runs, _, _) = set_limit-Represents texts c s.entries n s.holds in
          let (same, within) = set_limit-IsWithin (IsLibrary Metal) c c' n s runs in
          (
            c',
            runs,
            same,
            λ bounded.
                subst (λ n. length c'.entries ≤ n) same
                  (within (subst (λ n. n ≢ 0) (sym same) bounded)),
          ),
      refl,
    )
