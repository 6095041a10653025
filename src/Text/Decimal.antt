-- ===== src/Text/Decimal.antt =====
-- `std::to_string` of an unsigned and of a signed integer: decimal digits, a minus sign in front
-- of a negative number. The fuel is one more than the number, and each round divides it by ten.
use metal_runtime.Common.{
  ℕ, zero, suc, ◌+◌, ◌-◌, ◌*◌, ◌/◌, ◌%◌, ◌^◌, ◌⊎◌, ◌≤◌, ◌<◌, ◌≡◌, ◌≢◌, refl, sym, ap, [], ◌∷◌, ◌++◌,
  true, false, arith, Text, codes, ltb, Bool-cases, inl, inr, All, All-append,
}
use metal_runtime.Common.Int.{ℤ, pos, negsuc}

digits : ℕ → ℕ → Text
digits zero n = []
digits (suc fuel) n = elim (ltb n 10) [
  | true ↦ (b'0' + n) ∷ []
  | false ↦ digits fuel (n / 10) ++ (b'0' + n % 10) ∷ []
]

unfoldable pub to_string : ℕ → Text
unfolding digits
to_string n = digits (suc n) n

unfoldable pub int_to_string : ℤ → Text
int_to_string (pos n) = to_string n
int_to_string (negsuc n) = b'-' ∷ to_string (suc n)

value : ℕ → Text → ℕ
value n [] = n
value n (c ∷ s) = value (n * 10 + (c - b'0')) s

value-append : (n : ℕ) (s t : Text) → value n (s ++ t) ≡ value (value n s) t
unfolding value
value-append n [] t = refl
value-append n (c ∷ s) t = value-append (n * 10 + (c - b'0')) s t

value-digits : (fuel n : ℕ) → n < fuel → value 0 (digits fuel n) ≡ n
unfolding value digits
value-digits zero n h = absurd (omega arith)
value-digits (suc fuel) n h = ground (
  arith,
  value-digits fuel (n / 10),
  value-append 0 (digits fuel (n / 10)) ((b'0' + n % 10) ∷ []),
)

-- Two numbers with one decimal print are equal.
pub to_string-injective : (m n : ℕ) → to_string m ≡ to_string n → m ≡ n
unfolding to_string
to_string-injective m n e =
    let p = value-digits (suc m) m (omega arith) in
    let q = value-digits (suc n) n (omega arith) in cc (p, q)

abbrev IsDigit : ℕ → Type 0
IsDigit c = (b'0' ≤ c) × (c ≤ b'9')

digits-IsDigit : (fuel n : ℕ) → All IsDigit (digits fuel n)
unfolding digits
digits-IsDigit zero n = tt
digits-IsDigit (suc fuel) n = elim (Bool-cases (ltb n 10)) [
  | inl small ↦ rw (small, digits) (ground arith, tt)
  | inr large ↦
      rw (large, digits)
        (All-append IsDigit (digits fuel (n / 10)) _ (digits-IsDigit fuel (n / 10)) (omega arith))
]

Lacks_of_digits : (c : ℕ) (s : Text) → c < b'0' ⊎ b'9' < c → All IsDigit s → All (λ x. x ≢ c) s
Lacks_of_digits c [] h d = tt
Lacks_of_digits c (x ∷ s) h d = (grind arith, Lacks_of_digits c s h d.1)

-- A print holds no byte but digits.
pub to_string-Lacks : (c n : ℕ) → c < b'0' ⊎ b'9' < c → All (λ x. x ≢ c) (to_string n)
unfolding to_string
to_string-Lacks c n h = Lacks_of_digits c _ h (digits-IsDigit (suc n) n)

to_string-int-head : (m n : ℕ) → to_string m ≢ b'-' ∷ to_string n
to_string-int-head m n e =
    let h : All (λ x. x ≢ b'-') (b'-' ∷ to_string n) =
      rw e at (to_string-Lacks b'-' m (inl (omega arith))) in
    h.0 refl

pub int_to_string-injective : (i j : ℤ) → int_to_string i ≡ int_to_string j → i ≡ j
unfolding int_to_string
int_to_string-injective (pos m) (pos n) e = ap pos (to_string-injective m n e)
int_to_string-injective (pos m) (negsuc n) e = absurd (to_string-int-head m (suc n) e)
int_to_string-injective (negsuc m) (pos n) e = absurd (to_string-int-head n (suc m) (sym e))
int_to_string-injective (negsuc m) (negsuc n) e =
    let tail : to_string (suc m) ≡ to_string (suc n) = cc in
    let next = to_string-injective (suc m) (suc n) tail in ground arith

to_string_largest : to_string (2 ^ 64 - 1) ≡ codes "18446744073709551615"
unfolding to_string
to_string_largest = refl

pub int_to_string-Lacks :
    (c : ℕ) (i : ℤ) → c ≢ b'-' → c < b'0' ⊎ b'9' < c → All (λ x. x ≢ c) (int_to_string i)
unfolding int_to_string
int_to_string-Lacks c (pos n) h d = to_string-Lacks c n d
int_to_string-Lacks c (negsuc n) h d = (omega arith, to_string-Lacks c (suc n) d)
