-- ===== src/Caches/Sound.antt =====
-- What every state of a shared cache holds: each entry under the key that it was made for.
use mathlib.Core.Logic.{if_pos, if_neg}
use metal_runtime.Caches.{texts, Step, found, inserted, limited, cleared, Reach, created, later}
use metal_runtime.Common.{
  ℕ, zero, suc, ◌≡◌, subst, arith, List, [], ◌∷◌, some, Text, All, take, Option-cases, ◌==◌,
  Bool-cases, inl, inr,
}
use metal_runtime.Lru.{Cache, find, insert, set_limit}
use metal_runtime.Lru.Assoc.{lookup, remove}
use metal_runtime.Lru.Refinement.{Represents, touch, stored, trim}
use metal_runtime.Lru.Refinement.Calls.{
  find-Represents, insert-Represents, set_limit-Represents, empty-Represents, clear-Represents,
  touch_hit, touch_miss,
}

module _ {V : Type 0} (Made : Text → V → Type 0) where
  abbrev pub Keyed : List (Text × V) → Type 0
  Keyed = All (λ e. Made e.0 e.1)

  pub record Sound (c : Cache Text V) : Type 0 where
    pub entries : List (Text × V)
    pub holds : Represents texts c entries
    pub keyed : Keyed entries

  remove-Keyed : (k : Text) (l : List (Text × V)) → Keyed l → Keyed (remove texts k l)
  unfolding remove
  remove-Keyed k [] h = tt
  remove-Keyed k ((j, v) ∷ l) h = elim (texts j k) [
    | yes same ↦ rw (if_pos (texts j k) same) h.1
    | no other ↦ rw (if_neg (texts j k) other) ((h.0, remove-Keyed k l h.1))
  ]

  take-Keyed : (n : ℕ) (l : List (Text × V)) → Keyed l → Keyed (take n l)
  take-Keyed zero [] h = tt
  take-Keyed zero (e ∷ l) h = tt
  take-Keyed (suc n) [] h = tt
  take-Keyed (suc n) (e ∷ l) h = (h.0, take-Keyed n l h.1)

  pub lookup-Keyed :
      (k : Text) (l : List (Text × V)) (v : V) → Keyed l → lookup texts k l ≡ some v → Made k v
  unfolding lookup
  lookup-Keyed k [] v h e = cc
  lookup-Keyed k ((j, w) ∷ l) v h e = elim (texts j k) [
    | yes same ↦
        let here : w ≡ v = ground arith in
        subst (λ w. Made k w) here (subst (λ k. Made k w) same h.0)
    | no other ↦ lookup-Keyed k l v h.1 (ground arith)
  ]

  trim-Keyed : (limit : ℕ) (l : List (Text × V)) → Keyed l → Keyed (trim limit l)
  trim-Keyed limit l h = elim (Bool-cases (limit == 0)) [
    | inl unlimited ↦ let all : l ≡ trim limit l = ground arith in subst Keyed all h
    | inr bounded ↦
        let cut : take limit l ≡ trim limit l = ground arith in
        subst Keyed cut (take-Keyed limit l h)
  ]

  touch-Keyed : (k : Text) (l : List (Text × V)) → Keyed l → Keyed (touch texts k l)
  touch-Keyed k l h = elim (Option-cases (lookup texts k l)) [
    | inl miss ↦ rw (touch_miss texts k l miss) h
    | inr (v, hit) ↦ rw (touch_hit texts k l v hit) ((lookup-Keyed k l v h hit, remove-Keyed k l h))
  ]

  stored-Keyed :
      (limit : ℕ) (k : Text) (v : V) (l : List (Text × V))
      → Made k v
      → Keyed l
      → Keyed (stored texts limit k v l)
  stored-Keyed limit k v l made h = elim (Option-cases (lookup texts k l)) [
    | inl miss ↦
        let new : trim limit ((k, v) ∷ l) ≡ stored texts limit k v l = ground arith in
        subst Keyed new (trim-Keyed limit ((k, v) ∷ l) (made, h))
    | inr (w, hit) ↦
        let old : (k, w) ∷ remove texts k l ≡ stored texts limit k v l = ground arith in
        subst Keyed old (lookup-Keyed k l w h hit, remove-Keyed k l h)
  ]

  pub find-Sound : (c : Cache Text V) (k : Text) → Sound c → Sound (find texts c k).0
  find-Sound c k s = record {
    entries = touch texts k s.entries;
    holds = let (answer, r, l) = find-Represents texts c s.entries k s.holds in r;
    keyed = touch-Keyed k s.entries s.keyed;
  }

  pub insert-Sound :
      (c c' : Cache Text V) (k : Text) (v w : V)
      → Sound c
      → Made k v
      → insert texts c k v ≡ some (c', w)
      → Sound c'
  insert-Sound c c' k v w s made e =
      let (c2, e2, r, l) = insert-Represents texts c s.entries k v s.holds in
      let same : c2 ≡ c' = cc in
      record {
        entries = stored texts c.limit k v s.entries;
        holds = subst (λ d. Represents texts d (stored texts c.limit k v s.entries)) same r;
        keyed = stored-Keyed c.limit k v s.entries made s.keyed;
      }

  pub set_limit-Sound :
      (c c' : Cache Text V) (limit : ℕ) → Sound c → set_limit texts c limit ≡ some c' → Sound c'
  set_limit-Sound c c' limit s e =
      let (c2, e2, r, l) = set_limit-Represents texts c s.entries limit s.holds in
      let same : c2 ≡ c' = cc in
      record {
        entries = trim limit s.entries;
        holds = subst (λ c. Represents texts c (trim limit s.entries)) same r;
        keyed = trim-Keyed limit s.entries s.keyed;
      }

  step-Sound : {c c' : Cache Text V} → Sound c → Step Made c c' → Sound c'
  step-Sound {c = c} s (found k) = find-Sound c k s
  step-Sound {c = c} s (inserted k v w c' made e) = insert-Sound c c' k v w s made e
  step-Sound {c = c} s (limited n c' e) = set_limit-Sound c c' n s e
  step-Sound {c = c} s cleared = record {
    entries = [];
    holds = clear-Represents texts c;
    keyed = tt;
  }

  pub Reach-Sound : {limit : ℕ} {c : Cache Text V} → Reach Made limit c → Sound c
  Reach-Sound {limit = limit} created = record {
    entries = [];
    holds = empty-Represents texts limit;
    keyed = tt;
  }
  Reach-Sound (later r s) = step-Sound (Reach-Sound r) s
