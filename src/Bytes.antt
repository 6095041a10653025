-- ===== src/Bytes.antt =====
-- Numbers as bytes, least significant first: the byte order of every machine that the program runs on.
pub mod Float
use metal_runtime.Common.{
  ℕ, zero, suc, ◌+◌, ◌-◌, ◌*◌, ◌/◌, ◌%◌, ◌^◌, ◌≤◌, ◌<◌, ◌≡◌, refl, sym, ap, ◌∙◌, arith, List, [],
  ◌∷◌, ◌++◌, length, take, ltb, leb, Bool, true, false, if◌then◌else◌,
}
use metal_runtime.Common.Int.{ℤ, pos, negsuc}

abbrev pub zeros : ℕ → List ℕ
zeros zero = []
zeros (suc n) = 0 ∷ zeros n

-- The object representation of an unsigned integer of `n` bytes.
abbrev pub le_bytes : ℕ → ℕ → List ℕ
le_bytes zero v = []
le_bytes (suc n) v = v % 256 ∷ le_bytes n (v / 256)

abbrev pub of_bytes : List ℕ → ℕ
of_bytes [] = 0
of_bytes (b ∷ bs) = b + 256 * of_bytes bs

pub length-le_bytes : (n v : ℕ) → length (le_bytes n v) ≡ n
length-le_bytes zero v = refl
length-le_bytes (suc n) v = ap suc (length-le_bytes n (v / 256))

pub of_bytes-le_bytes : (n v : ℕ) → v < 256 ^ n → of_bytes (le_bytes n v) ≡ v
of_bytes-le_bytes zero v h = omega arith
of_bytes-le_bytes (suc n) v h = omega (arith, of_bytes-le_bytes n (v / 256) (omega arith))

pub take-append-length {ℓ} : {A : Type ℓ} (xs ys : List A) → take (length xs) (xs ++ ys) ≡ xs
take-append-length [] ys = refl
take-append-length (x ∷ xs) ys = ap (◌∷◌ x) (take-append-length xs ys)

-- The two's complement pattern of an integer cast to `w` bits.
unfoldable pub pattern_of : ℕ → ℤ → ℕ
pattern_of w (pos n) = n % 2 ^ w
pattern_of w (negsuc n) = 2 ^ w - 1 - n % 2 ^ w

-- The integer that a pattern of `w` bits stands for, in a signed type or an unsigned one.
unfoldable pub of_pattern : Bool → ℕ → ℕ → ℤ
of_pattern false w p = pos p
of_pattern true w p = if ltb p (2 ^ (w - 1)) then pos p else negsuc (2 ^ w - 1 - p)
