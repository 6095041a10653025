-- ===== src/PyConstants/Unordered.antt =====
-- The dict of constants without its order, and the pipeline's key as a function of it.
use native.Mathlib.Bridge.{le_prop}
use mathlib.Core.Option
use mathlib.Core.Quot
use mathlib.Core.Quot.{Quot, Quot-set}
use metal_runtime.Common.{
  ◌≡◌, refl, sym, ap, ◌∙◌, arith, true, false, Bool-cases, inl, inr, List, [], ◌∷◌, Option, none,
  some, Text, text_eq, eq_of_text_eq, text_eq_refl, subst, Option-cases, ℕ_discrete,
}
use metal_runtime.Errors.{Result, ok, throw, Result-cases, some-injective}
use metal_runtime.Keys.{ConstantValue, exact_scalar, FunctionConstant, pipeline_key}
use metal_runtime.Keys.Pipeline.{IsWhole, AreWhole, pipeline_key-injective}
use metal_runtime.PyConstants.{PyValue, parse_constants}
use metal_runtime.PyConstants.Order.{
  Reordered, same, trade, behind, through, parse_constants-Reordered,
}
use metal_runtime.PyConstants.Sound.{parse_constants-AreWhole}

-- A dict, up to the order of its entries.
abbrev pub Unordered : Type 0
Unordered = Quot Reordered

text_eq-sym : (s t : Text) → text_eq s t ≡ false → text_eq t s ≡ false
text_eq-sym s t h = elim (Bool-cases (text_eq t s)) [
  | inl equal ↦
      let is = eq_of_text_eq t s equal in
      let bad : text_eq s t ≡ true = subst (λ u. text_eq u t ≡ true) is (text_eq_refl t) in cc
  | inr apart ↦ apart
]

Reordered-sym : {d e : List (Text × PyValue)} → Reordered d e → Reordered e d
Reordered-sym same = same
Reordered-sym (trade {d} m n v w apart) = trade n m w v (text_eq-sym m n apart)
Reordered-sym (behind x r) = behind x (Reordered-sym r)
Reordered-sym (through r s) = through (Reordered-sym s) (Reordered-sym r)

abbrev pub returned : {A : Type 0} → Result A → Option A
returned (ok a) = some a
returned (throw e) = none

pub returned-Reordered :
    (d e : List (Text × PyValue))
    → Reordered d e
    → returned (parse_constants d) ≡ returned (parse_constants e)
returned-Reordered d e r = elim (Result-cases (parse_constants d)) [
  | inl (cs, parsed) ↦ rw (parsed, parse_constants-Reordered d e cs r parsed) refl
  | inr (x, refused) ↦ elim (Result-cases (parse_constants e)) [
    | inl (cs, parsed) ↦
        let again = parse_constants-Reordered e d cs (Reordered-sym r) parsed in absurd (cc)
    | inr (y, refused') ↦ rw (refused, refused') refl
  ]
]

pub Constants-set : IsSet (Option (List FunctionConstant))
Constants-set = hlevel ℕ_discrete

-- The constants of a dict, or none if one of them is refused.
unfoldable pub unordered_constants : Unordered → Option (List FunctionConstant)
unordered_constants = Quot.lift Constants-set (λ d. returned (parse_constants d)) returned-Reordered

-- The key of the pipeline that a function's name and a dict ask for.
abbrev pub unordered_key : Text → Unordered → Option Text
unordered_key name q = Option.map (pipeline_key name) (unordered_constants q)

IsWhole-IsProp : (v : ConstantValue) → IsProp (IsWhole v)
IsWhole-IsProp (exact_scalar d bytes) = hlevel (ℕ_discrete, le_prop)
IsWhole-IsProp _ = hlevel

pub AreWhole-IsProp : (cs : List FunctionConstant) → IsProp (AreWhole cs)
AreWhole-IsProp [] = hlevel
AreWhole-IsProp (c ∷ cs) = hlevel (IsWhole-IsProp c.value, AreWhole-IsProp cs)

returned-eq : {A : Type 0} (r : Result A) (a : A) → returned r ≡ some a → r ≡ ok a
returned-eq (ok b) a h = ap ok (some-injective h)
returned-eq (throw e) a h = absurd (cc)

unordered-AreWhole :
    (q : Unordered) (cs : List FunctionConstant) → unordered_constants q ≡ some cs → AreWhole cs
unfolding unordered_constants
unordered-AreWhole =
    Quot.ind (λ q. hlevel AreWhole-IsProp)
      (λ d cs h. parse_constants-AreWhole d cs (returned-eq (parse_constants d) cs h))

key-cases :
    (name : Text) (q : Unordered) (k : Text)
    → unordered_key name q ≡ some k
    → (cs : List FunctionConstant) × (unordered_constants q ≡ some cs) × (pipeline_key name cs ≡ k)
key-cases name q k h = elim (Option-cases (unordered_constants q)) [
  | inl refused ↦ absurd (ground arith)
  | inr (cs, given) ↦ (cs, given, ground arith)
]

-- The key of a pipeline is a function of the dict without its order, and it determines the function's
-- name and the constants: two requests share a key only if they ask for the same name and their dicts
-- stand for the same constants.
pub unordered_key-injective :
    (m n : Text) (q r : Unordered) (k : Text)
    → unordered_key m q ≡ some k
    → unordered_key n r ≡ some k
    → (m ≡ n) × (unordered_constants q ≡ unordered_constants r)
unordered_key-injective m n q r k first second =
    let (cs, given, made) = key-cases m q k first in
    let (ds, given', made') = key-cases n r k second in
    let (names, constants) =
      pipeline_key-injective m n cs ds (unordered-AreWhole q cs given)
        (unordered-AreWhole r ds given') (made ∙ sym made') in
    (names, given ∙ ap some constants ∙ sym given')
