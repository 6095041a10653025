-- ===== src/PyConstants/Sound.antt =====
-- The constants that `parse_constants` makes are sorted, and are what the other parts expect.
use metal_runtime.Bytes.{zeros, take-append-length}
use metal_runtime.Common.{
  ℕ, zero, suc, ◌+◌, ◌-◌, ◌≤◌, ◌≡◌, ◌≢◌, inl, inr, sym, ap, ◌∙◌, subst, arith, true, false, not,
  ◌==◌, Bool-cases, List, [], ◌∷◌, ◌++◌, none, some, Text, All, length, take, drop,
  length-take_of_le, ltb,
}
use metal_runtime.Common.Int.{ℤ, pos, negsuc}
use metal_runtime.Constant.Coerce.{IsInt64}
use metal_runtime.Constant.Defined.{IsSupported}
use metal_runtime.DType.{DType, itemsize, dtype_name, from_dlpack}
use metal_runtime.DType.Laws.{from_dlpack_iff, itemsize-le}
use metal_runtime.Errors.{
  ok, undefined_behaviour, constant_kind, ◌>>=◌, >>=-eq-ok, throw_if-eq-ok, ok-injective,
}
use metal_runtime.Keys.{ConstantValue, boolean, integer, double, exact_scalar, FunctionConstant}
use metal_runtime.Keys.Pipeline.{IsWhole, AreWhole, padded}
use metal_runtime.PyBuffer.{copy_bytes}
use metal_runtime.PyConstants.Order.{parse_cons, text_lt-asym}
use metal_runtime.PyConstants.{
  Scalar, PyValue, py_bool, py_int, py_float, py_object, is_int64, parse_element, parse_scalar,
  parse_value, parse_all, text_lt, insert_sorted, sort, parse_constants,
}

-- What the keys and `coerce` ask of a value: exact scalars of a dtype of the table, padded with zeros,
-- and integers of 64 bits.
abbrev pub IsInteger64 : ConstantValue → Type 0
IsInteger64 (integer v) = IsInt64 v
IsInteger64 (boolean b) = Unit
IsInteger64 (double bits) = Unit
IsInteger64 (exact_scalar d bytes) = Unit

abbrev pub IsSound : FunctionConstant → Type 0
IsSound c = IsWhole c.value × IsSupported c.value × IsInteger64 c.value

-- Each name is no greater than the next one.
abbrev pub IsSorted : List FunctionConstant → Type 0
IsSorted [] = Unit
IsSorted (c ∷ []) = Unit
IsSorted (c ∷ d ∷ ds) = (text_lt d.name c.name ≡ false) × IsSorted (d ∷ ds)

drop-zeros : (k n m : ℕ) → n ≡ k + m → drop k (zeros n) ≡ zeros m
drop-zeros zero n m h = let e : n ≡ m = omega arith in ap zeros e
drop-zeros (suc k) zero m h = absurd (omega arith)
drop-zeros (suc k) (suc n) m h = drop-zeros k n m (omega arith)

-- Up to eight bytes at the start of an array of zeros.
copy_bytes-zeros : (xs : List ℕ) → length xs ≤ 8 → copy_bytes (zeros 8) xs ≡ ok (padded xs)
unfolding copy_bytes
copy_bytes-zeros xs h =
    let fits : ltb 8 (length xs) ≡ false = ground arith in
    rw fits (
      ap (λ (rest : List ℕ). ok (xs ++ rest))
        (drop-zeros (length xs) 8 (8 - length xs) (omega arith)))

take-padded : (n : ℕ) (xs : List ℕ) → length xs ≡ n → take n (padded xs) ≡ xs
take-padded n xs h =
    subst (λ n. take n (padded xs) ≡ xs) h (take-append-length xs (zeros (8 - length xs)))

parse_element-IsWhole :
    (s : Scalar) (d : DType) (value : ConstantValue)
    → dtype_name d ≢ none
    → parse_element s d ≡ ok value
    → IsWhole value × IsSupported value × IsInteger64 value
unfolding parse_element
parse_element-IsWhole s d value named h =
    let element = take (itemsize d) s.bytes in
    let (inside, h2) =
      throw_if-eq-ok (ltb (length s.bytes) (itemsize d)) undefined_behaviour
        (copy_bytes (zeros 8) element >>= λ bytes. ok (exact_scalar d bytes)) h in
    let (bytes, copied, h3) =
      >>=-eq-ok (copy_bytes (zeros 8) element) (λ bytes. ok (exact_scalar d bytes)) h2 in
    let small = itemsize-le d named in
    let taken : length element ≡ itemsize d =
      length-take_of_le (itemsize d) s.bytes (ground arith) in
    let is : bytes ≡ padded element =
      ok-injective (sym copied ∙ copy_bytes-zeros element (omega arith)) in
    let first : take (itemsize d) bytes ≡ element =
      ap (take (itemsize d)) is ∙ take-padded (itemsize d) element taken in
    subst (λ v. IsWhole v × IsSupported v × IsInteger64 v) (ok-injective h3)
      ((small, is ∙ ap padded (sym first)), named, tt)

parse_scalar-IsWhole :
    (name : Text) (s : Scalar) (value : ConstantValue)
    → parse_scalar name s ≡ ok value
    → IsWhole value × IsSupported value × IsInteger64 value
unfolding parse_scalar
parse_scalar-IsWhole name s value h =
    let (single, h2) =
      throw_if-eq-ok (not (s.size == 1)) (constant_kind name)
        (from_dlpack s.dtype >>= parse_element s) h in
    let (d, read, h3) = >>=-eq-ok (from_dlpack s.dtype) (parse_element s) h2 in
    let (lanes, code, bits, named) = (from_dlpack_iff s.dtype d).0 read in
    parse_element-IsWhole s d value named h3

is_int64-IsInt64 : (v : ℤ) → is_int64 v ≡ true → IsInt64 v
is_int64-IsInt64 (pos n) h = ground arith
is_int64-IsInt64 (negsuc n) h = ground arith

parse_value-IsSound :
    (name : Text) (v : PyValue) (value : ConstantValue)
    → parse_value name v ≡ ok value
    → IsSound (record { name = name; value = value })
unfolding parse_value
parse_value-IsSound name (py_bool b) value h =
    subst (λ w. IsSound (record { name = name; value = w })) (ok-injective h) (tt, tt, tt)
parse_value-IsSound name (py_float b) value h =
    subst (λ w. IsSound (record { name = name; value = w })) (ok-injective h) (tt, tt, tt)
parse_value-IsSound name (py_int v) value h = elim (Bool-cases (is_int64 v)) [
  | inl fits ↦
      let is : ok (integer v) ≡ ok value = ground arith in
      subst (λ w. IsSound (record { name = name; value = w })) (ok-injective is)
        (tt, tt, is_int64-IsInt64 v fits)
  | inr out ↦ absurd (ground arith)
]
parse_value-IsSound name (py_object none) value h = absurd (ground arith)
parse_value-IsSound name (py_object (some s)) value h = parse_scalar-IsWhole name s value h

parse_all-IsSound :
    (dict : List (Text × PyValue)) (cs : List FunctionConstant)
    → parse_all dict ≡ ok cs
    → All IsSound cs
unfolding parse_all
parse_all-IsSound [] cs h = subst (All IsSound) (ok-injective h) tt
parse_all-IsSound ((name, v) ∷ dict) cs h =
    let (value, parsed, rest, more, is) = parse_cons name v dict cs h in
    subst (All IsSound) (sym is)
      (parse_value-IsSound name v value parsed, parse_all-IsSound dict rest more)

insert_sorted-IsSound :
    (c : FunctionConstant) (cs : List FunctionConstant)
    → IsSound c
    → All IsSound cs
    → All IsSound (insert_sorted c cs)
insert_sorted-IsSound c [] h k = (h, tt)
insert_sorted-IsSound c (d ∷ ds) h k = elim (Bool-cases (text_lt c.name d.name)) [
  | inl before ↦ rw before (h, k)
  | inr after ↦ rw after (k.0, insert_sorted-IsSound c ds h k.1)
]

sort-IsSound : (cs : List FunctionConstant) → All IsSound cs → All IsSound (sort cs)
unfolding sort
sort-IsSound [] h = tt
sort-IsSound (c ∷ cs) h = insert_sorted-IsSound c (sort cs) h.0 (sort-IsSound cs h.1)

-- The first of a list does not come before a constant.
abbrev StartsAfter : FunctionConstant → List FunctionConstant → Type 0
StartsAfter d [] = Unit
StartsAfter d (x ∷ xs) = text_lt x.name d.name ≡ false

IsSorted-cons :
    (d : FunctionConstant) (xs : List FunctionConstant)
    → StartsAfter d xs
    → IsSorted xs
    → IsSorted (d ∷ xs)
IsSorted-cons d [] h k = tt
IsSorted-cons d (x ∷ xs) h k = (h, k)

insert_sorted-StartsAfter :
    (c d : FunctionConstant) (ds : List FunctionConstant)
    → text_lt c.name d.name ≡ false
    → StartsAfter d ds
    → StartsAfter d (insert_sorted c ds)
insert_sorted-StartsAfter c d [] h k = h
insert_sorted-StartsAfter c d (e ∷ es) h k = elim (Bool-cases (text_lt c.name e.name)) [
  | inl before ↦ rw before h
  | inr after ↦ rw after k
]

IsSorted-tail :
    (d : FunctionConstant) (ds : List FunctionConstant)
    → IsSorted (d ∷ ds)
    → StartsAfter d ds × IsSorted ds
IsSorted-tail d [] h = (tt, tt)
IsSorted-tail d (e ∷ es) h = h

insert_sorted-IsSorted :
    (c : FunctionConstant) (cs : List FunctionConstant)
    → IsSorted cs
    → IsSorted (insert_sorted c cs)
insert_sorted-IsSorted c [] h = tt
insert_sorted-IsSorted c (d ∷ ds) h =
    let (starts, rest) = IsSorted-tail d ds h in
    elim (Bool-cases (text_lt c.name d.name)) [
      | inl before ↦ rw before (text_lt-asym c.name d.name before, h)
      | inr after ↦ rw after (
          IsSorted-cons d (insert_sorted c ds) (insert_sorted-StartsAfter c d ds after starts)
            (insert_sorted-IsSorted c ds rest))
    ]

sort-IsSorted : (cs : List FunctionConstant) → IsSorted (sort cs)
unfolding sort
sort-IsSorted [] = tt
sort-IsSorted (c ∷ cs) = insert_sorted-IsSorted c (sort cs) (sort-IsSorted cs)

pub parse_constants-IsSound :
    (dict : List (Text × PyValue)) (cs : List FunctionConstant)
    → parse_constants dict ≡ ok cs
    → IsSorted cs × All IsSound cs
unfolding parse_constants
parse_constants-IsSound dict cs h =
    let (out, parsed, h2) = >>=-eq-ok (parse_all dict) _ h in
    subst (λ cs. IsSorted cs × All IsSound cs) (ok-injective h2)
      (sort-IsSorted out, sort-IsSound out (parse_all-IsSound dict out parsed))

-- The part of it that the key of a pipeline relies on.
IsSound-AreWhole : (cs : List FunctionConstant) → All IsSound cs → AreWhole cs
IsSound-AreWhole [] h = tt
IsSound-AreWhole (c ∷ cs) h = (h.0.0, IsSound-AreWhole cs h.1)

pub parse_constants-AreWhole :
    (dict : List (Text × PyValue)) (cs : List FunctionConstant)
    → parse_constants dict ≡ ok cs
    → AreWhole cs
parse_constants-AreWhole dict cs h = IsSound-AreWhole cs (parse_constants-IsSound dict cs h).1
