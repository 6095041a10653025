-- ===== src/Keys/Sized.antt =====
-- A length-prefixed field can be read back in front of any text.
use metal_runtime.Common.{
  ◌≡◌, ◌∷◌, ◌++◌, append_assoc, inr, arith, Text, length, split_at_mark, split_at_length,
}
use metal_runtime.Keys.{sized}
use metal_runtime.Text.{to_string, to_string-injective, to_string-Lacks}

pub sized-split : (a b r s : Text) → sized a ++ r ≡ sized b ++ s → (a ≡ b) × (r ≡ s)
sized-split a b r s e =
    let regroup = λ (x y : Text). append_assoc (to_string (length x)) (b':' ∷ x) y in
    let e' : to_string (length a) ++ b':' ∷ (a ++ r) ≡ to_string (length b) ++ b':' ∷ (b ++ s) =
      cc (regroup a r, regroup b s) in
    let lacks = λ (x : Text). to_string-Lacks b':' (length x) (inr (omega arith)) in
    let (sizes, rest) = split_at_mark b':' _ _ (lacks a) (lacks b) e' in
    split_at_length a b (to_string-injective _ _ sizes) rest
