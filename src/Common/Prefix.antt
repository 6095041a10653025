-- ===== src/Common/Prefix.antt =====
-- When `a ++ r ≡ b ++ s` gives back its parts: what makes a key of joined fields unambiguous.
use mathlib.Core.List.{List, [], ◌∷◌, ◌++◌}
use mathlib.Core.Logic.{◌≢◌}
use mathlib.Core.Path.{◌≡◌, refl}
use native.Mathlib.Omega.{arith}
use metal_runtime.Common.Lists.{length, All}

-- The text up to the first mark, if neither text holds the mark.
pub split_at_mark {ℓ} :
    {A : Type ℓ} (c : A) (a b : List A) {r s : List A}
    → All (λ x. x ≢ c) a
    → All (λ x. x ≢ c) b
    → a ++ c ∷ r ≡ b ++ c ∷ s
    → (a ≡ b) × (r ≡ s)
split_at_mark c [] [] ha hb e = (refl, cc)
split_at_mark c [] (y ∷ b) ha hb e = absurd (hb.0 (cc))
split_at_mark c (x ∷ a) [] ha hb e = absurd (ha.0 (cc))
split_at_mark c (x ∷ a) (y ∷ b) ha hb e =
    let rest = split_at_mark c a b ha.1 hb.1 (cc) in
    let head : x ≡ y = cc in (λ i. head i ∷ rest.0 i, rest.1)

-- Two texts of one length.
pub split_at_length {ℓ} :
    {A : Type ℓ} (a b : List A) {r s : List A}
    → length a ≡ length b
    → a ++ r ≡ b ++ s
    → (a ≡ b) × (r ≡ s)
split_at_length [] [] h e = (refl, e)
split_at_length [] (y ∷ b) h e = absurd (omega arith)
split_at_length (x ∷ a) [] h e = absurd (omega arith)
split_at_length (x ∷ a) (y ∷ b) h e =
    let rest = split_at_length a b (omega arith) (cc) in
    let head : x ≡ y = cc in (λ i. head i ∷ rest.0 i, rest.1)

-- What is left of a text is at its end, or at a mark.
abbrev pub Stops {ℓ} : {A : Type ℓ} → A → List A → Type ℓ
Stops c [] = Unit
Stops c (x ∷ r) = x ≡ c

-- The text up to the first mark or to the end.
pub split_at_stop {ℓ} :
    {A : Type ℓ} (c : A) (a b r s : List A)
    → All (λ x. x ≢ c) a
    → All (λ x. x ≢ c) b
    → Stops c r
    → Stops c s
    → a ++ r ≡ b ++ s
    → (a ≡ b) × (r ≡ s)
split_at_stop c [] [] r s ha hb hr hs e = (refl, e)
split_at_stop c [] (y ∷ b) [] s ha hb hr hs e = cc
split_at_stop c [] (y ∷ b) (x ∷ r) s ha hb hr hs e = absurd (hb.0 (cc))
split_at_stop c (x ∷ a) [] r [] ha hb hr hs e = cc
split_at_stop c (x ∷ a) [] r (y ∷ s) ha hb hr hs e = absurd (ha.0 (cc))
split_at_stop c (x ∷ a) (y ∷ b) r s ha hb hr hs e =
    let rest = split_at_stop c a b r s ha.1 hb.1 hr hs (cc) in
    let head : x ≡ y = cc in (λ i. head i ∷ rest.0 i, rest.1)
