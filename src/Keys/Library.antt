-- ===== src/Keys/Library.antt =====
-- The key of the library cache: no two (source, options) pairs share one.
use metal_runtime.Common.{
  ◌≡◌, refl, sym, ◌∙◌, List, [], ◌∷◌, ◌++◌, append_assoc, append-nil, arith, Text, codes, length,
  split_at_length,
}
use metal_runtime.Keys.Sized.{sized-split}
use metal_runtime.Keys.{
  MathMode, safe, math_code, CompileOptions, sized, add_defines, cache_key, library_key,
}
use metal_runtime.Text.{to_string, to_string-injective}

abbrev Defines : Type 0
Defines = List (Text × Text)

-- What the loop of `cache_key` appends.
fields : Defines → Text
fields [] = []
fields ((name, value) ∷ ds) = b';' ∷ (sized name ++ b'=' ∷ (sized value ++ fields ds))

add_defines-fields : (out : Text) (ds : Defines) → add_defines out ds ≡ out ++ fields ds
unfolding add_defines fields
add_defines-fields out [] = sym (append-nil out)
add_defines-fields out ((name, value) ∷ ds) =
    let next = (out ++ b';' ∷ sized name) ++ b'=' ∷ sized value in
    rw (add_defines-fields next ds) (simp append_assoc)

fields-injective : (ds es : Defines) → fields ds ≡ fields es → ds ≡ es
unfolding fields
fields-injective [] [] h = refl
fields-injective [] (e ∷ es) h = cc
fields-injective (d ∷ ds) [] h = cc
fields-injective ((n, v) ∷ ds) ((m, w) ∷ es) h =
    let after_name =
      sized-split n m (b'=' ∷ (sized v ++ fields ds)) (b'=' ∷ (sized w ++ fields es)) (cc) in
    let after_value = sized-split v w (fields ds) (fields es) (cc after_name.1) in
    let rest = fields-injective ds es after_value.1 in
    λ i. (after_name.0 i, after_value.0 i) ∷ rest i

abbrev prefix : MathMode → Text
prefix m = codes "math=" ++ to_string (math_code m)

length-prefix : (m : MathMode) → length (prefix m) ≡ 6
unfolding to_string math_code
length-prefix safe = refl
length-prefix _ = refl

math_code-injective : (m n : MathMode) → math_code m ≡ math_code n → m ≡ n
unfolding math_code
math_code-injective m n h = ground arith

-- The options can be read back from their key: the math mode, and every macro with its value.
pub cache_key-injective : (o p : CompileOptions) → cache_key o ≡ cache_key p → o ≡ p
unfolding cache_key
cache_key-injective o p h =
    let spelled = λ (q : CompileOptions). add_defines-fields (prefix q.math_mode) q.defines in
    let (head, rest) =
      split_at_length (prefix o.math_mode) (prefix p.math_mode)
        (length-prefix o.math_mode ∙ sym (length-prefix p.math_mode))
        (sym (spelled o) ∙ h ∙ spelled p) in
    let (_, digit) = split_at_length (codes "math=") (codes "math=") refl head in
    let mode = math_code-injective o.math_mode p.math_mode (to_string-injective _ _ digit) in
    let defines = fields-injective o.defines p.defines rest in
    λ i. record { math_mode = mode i; defines = defines i }

-- Two libraries share a cache key only if their sources and their compile options are the same.
pub library_key-injective :
    (s t : Text) (o p : CompileOptions) → library_key s o ≡ library_key t p → (s ≡ t) × (o ≡ p)
unfolding library_key
library_key-injective s t o p h =
    let (options, source) = sized-split (cache_key o) (cache_key p) s t h in
    (source, cache_key-injective o p options)
