-- ===== src/Keys/Pipeline.antt =====
-- The key of the pipeline cache: no two (function name, constants) pairs share one.
use metal_runtime.Bytes.{zeros}
use metal_runtime.Common.{
  ℕ, ◌-◌, ◌≤◌, ◌≡◌, ◌≢◌, refl, sym, ap, ◌∙◌, inl, inr, true, false, List, [], ◌∷◌, ◌++◌,
  append_assoc, append-nil, arith, Text, codes, length, length-append, take, All, All-append,
  split_at_mark, split_at_stop, Stops,
}
use metal_runtime.DType.{itemsize}
use metal_runtime.Keys.Sized.{sized-split}
use metal_runtime.Keys.{
  sized, ConstantValue, boolean, integer, double, exact_scalar, FunctionConstant, add_bytes,
  add_value, add_constants, pipeline_key,
}
use metal_runtime.Text.{
  to_string, int_to_string, to_string-injective, to_string-Lacks, int_to_string-injective,
  int_to_string-Lacks,
}

-- What each loop appends.
byte_fields : List ℕ → Text
byte_fields [] = []
byte_fields (b ∷ bytes) = to_string b ++ b',' ∷ byte_fields bytes

value_field : ConstantValue → Text
unfolding byte_fields
value_field (boolean true) = codes "B1"
value_field (boolean false) = codes "B0"
value_field (integer i) = b'I' ∷ int_to_string i
value_field (double bits) = b'F' ∷ to_string bits
value_field (exact_scalar d bytes) =
    b'E'
    ∷ (to_string d.code
        ++ b'.' ∷ (to_string d.bits ++ b':' ∷ byte_fields (take (itemsize d) bytes)))

constant_fields : List FunctionConstant → Text
constant_fields [] = []
constant_fields (c ∷ cs) =
    b';' ∷ (sized c.name ++ b'=' ∷ (value_field c.value ++ constant_fields cs))

add_bytes-fields : (key : Text) (bytes : List ℕ) → add_bytes key bytes ≡ key ++ byte_fields bytes
unfolding add_bytes byte_fields
add_bytes-fields key [] = sym (append-nil key)
add_bytes-fields key (b ∷ bytes) =
    rw (add_bytes-fields (key ++ to_string b ++ codes ",") bytes) (simp append_assoc)

add_value-field : (key : Text) (v : ConstantValue) → add_value key v ≡ key ++ value_field v
unfolding add_value value_field
add_value-field key (boolean true) = refl
add_value-field key (boolean false) = refl
add_value-field key (integer i) = simp append_assoc
add_value-field key (double bits) = simp append_assoc
add_value-field key (exact_scalar d bytes) =
    rw (add_bytes-fields _ (take (itemsize d) bytes)) (simp append_assoc)

add_constants-fields :
    (key : Text) (cs : List FunctionConstant) → add_constants key cs ≡ key ++ constant_fields cs
unfolding add_constants constant_fields
add_constants-fields key [] = sym (append-nil key)
add_constants-fields key (c ∷ cs) =
    let head = key ++ (codes ";" ++ sized c.name) ++ codes "=" in
    rw (add_constants-fields (add_value head c.value) cs, add_value-field head c.value)
      (simp append_assoc)

byte_fields-injective : (bs cs : List ℕ) → byte_fields bs ≡ byte_fields cs → bs ≡ cs
unfolding byte_fields
byte_fields-injective [] [] h = refl
byte_fields-injective [] (c ∷ cs) h =
    absurd (omega (arith, ap length h, length-append (to_string c) (b',' ∷ byte_fields cs)))
byte_fields-injective (b ∷ bs) [] h =
    absurd (omega (arith, ap length h, length-append (to_string b) (b',' ∷ byte_fields bs)))
byte_fields-injective (b ∷ bs) (c ∷ cs) h =
    let lacks = λ (x : ℕ). to_string-Lacks b',' x (inl (omega arith)) in
    let (head, tail) = split_at_mark b',' _ _ (lacks b) (lacks c) h in
    let same = to_string-injective b c head in
    let rest = byte_fields-injective bs cs tail in λ i. same i ∷ rest i

byte_fields-Lacks : (bs : List ℕ) → All (λ x. x ≢ b';') (byte_fields bs)
unfolding byte_fields
byte_fields-Lacks [] = tt
byte_fields-Lacks (b ∷ bs) =
    All-append _ (to_string b) _ (to_string-Lacks b';' b (inr (omega arith)))
      (omega arith, byte_fields-Lacks bs)

value_field-Lacks : (v : ConstantValue) → All (λ x. x ≢ b';') (value_field v)
unfolding value_field
value_field-Lacks (boolean true) = omega arith
value_field-Lacks (boolean false) = omega arith
value_field-Lacks (integer i) =
    (omega arith, int_to_string-Lacks b';' i (omega arith) (inr (omega arith)))
value_field-Lacks (double bits) = (omega arith, to_string-Lacks b';' bits (inr (omega arith)))
value_field-Lacks (exact_scalar d bytes) =
    let lacks = λ (x : ℕ). to_string-Lacks b';' x (inr (omega arith)) in
    let tail = byte_fields-Lacks (take (itemsize d) bytes) in
    (
      omega arith,
      All-append _ (to_string d.code) _ (lacks d.code)
          (omega arith, All-append _ (to_string d.bits) _ (lacks d.bits) (omega arith, tail)),
    )

-- An exact scalar holds its bytes in front of zeros, in an array of eight.
abbrev pub padded : List ℕ → List ℕ
padded bytes = bytes ++ zeros (8 - length bytes)

abbrev pub IsWhole : ConstantValue → Type 0
IsWhole (exact_scalar d bytes) = (itemsize d ≤ 8) × (bytes ≡ padded (take (itemsize d) bytes))
IsWhole (boolean b) = Unit
IsWhole (integer i) = Unit
IsWhole (double bits) = Unit

value_field-injective :
    (v w : ConstantValue) → IsWhole v → IsWhole w → value_field v ≡ value_field w → v ≡ w
unfolding value_field
value_field-injective (boolean true) (boolean true) p q h = refl
value_field-injective (boolean false) (boolean false) p q h = refl
value_field-injective (integer i) (integer j) p q h = ap integer (int_to_string-injective i j (cc))
value_field-injective (double m) (double n) p q h = ap double (to_string-injective m n (cc))
value_field-injective (exact_scalar d bs) (exact_scalar e cs) p q h =
    let lacks = λ (x : ℕ). to_string-Lacks b'.' x (inl (omega arith)) in
    let lacks' = λ (x : ℕ). to_string-Lacks b':' x (inr (omega arith)) in
    let h' : to_string d.code
          ++ b'.' ∷ (to_string d.bits ++ b':' ∷ byte_fields (take (itemsize d) bs))
        ≡ to_string e.code
          ++ b'.' ∷ (to_string e.bits ++ b':' ∷ byte_fields (take (itemsize e) cs)) =
      cc in
    let codes_same = split_at_mark b'.' _ _ (lacks d.code) (lacks e.code) h' in
    let bits_same = split_at_mark b':' _ _ (lacks' d.bits) (lacks' e.bits) codes_same.1 in
    let code = to_string-injective d.code e.code codes_same.0 in
    let bits = to_string-injective d.bits e.bits bits_same.0 in
    let bytes = byte_fields-injective _ _ bits_same.1 in
    λ i.
      exact_scalar (record { code = code i; bits = bits i }) ((p.1 ∙ ap padded bytes ∙ sym q.1) i)
value_field-injective _ _ p q h = ground arith

constant_fields-Stops : (cs : List FunctionConstant) → Stops b';' (constant_fields cs)
unfolding constant_fields
constant_fields-Stops [] = tt
constant_fields-Stops (c ∷ cs) = refl

abbrev pub AreWhole : List FunctionConstant → Type 0
AreWhole = All (λ c. IsWhole c.value)

constant_fields-injective :
    (cs ds : List FunctionConstant)
    → AreWhole cs
    → AreWhole ds
    → constant_fields cs ≡ constant_fields ds
    → cs ≡ ds
unfolding constant_fields
constant_fields-injective [] [] p q h = refl
constant_fields-injective [] (d ∷ ds) p q h = cc
constant_fields-injective (c ∷ cs) [] p q h = cc
constant_fields-injective (c ∷ cs) (d ∷ ds) p q h =
    let behind = λ (x : FunctionConstant) (xs : List FunctionConstant).
      value_field x.value ++ constant_fields xs in
    let named = sized-split c.name d.name (b'=' ∷ behind c cs) (b'=' ∷ behind d ds) (cc) in
    let split =
      split_at_stop b';' (value_field c.value) (value_field d.value) (constant_fields cs)
        (constant_fields ds) (value_field-Lacks c.value) (value_field-Lacks d.value)
        (constant_fields-Stops cs) (constant_fields-Stops ds) (cc named.1) in
    let value = value_field-injective c.value d.value p.0 q.0 split.0 in
    let rest = constant_fields-injective cs ds p.1 q.1 split.1 in
    λ i. record { name = named.0 i; value = value i } ∷ rest i

-- Two pipelines of a library share a cache key only if their function names are the same and their
-- constants are the same in order, name, kind and value, where exact scalars are padded with zeros.
pub pipeline_key-injective :
    (n m : Text) (cs ds : List FunctionConstant)
    → AreWhole cs
    → AreWhole ds
    → pipeline_key n cs ≡ pipeline_key m ds
    → (n ≡ m) × (cs ≡ ds)
unfolding pipeline_key
pipeline_key-injective n m cs ds p q h =
    let h' = sym (add_constants-fields (sized n) cs) ∙ h ∙ add_constants-fields (sized m) ds in
    let (name, rest) = sized-split n m (constant_fields cs) (constant_fields ds) h' in
    (name, constant_fields-injective cs ds p q rest)
