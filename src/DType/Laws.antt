-- ===== src/DType/Laws.antt =====
-- The table of element types: names and (code, bits) pairs determine one another.
use metal_runtime.Common.{
  ◌≤◌, ℕ, ◌≡◌, ◌≢◌, ◌↔◌, refl, sym, ap, subst, ◌∙◌, All, inl, inr, true, List, [], ◌∷◌, none, some,
  arith, Text, text_eq, eq_of_text_eq, Option-cases, Bool-cases, Option,
}
use metal_runtime.Errors.{ok}
use metal_runtime.DType.{
  DType, itemsize, entries, find_name, find_dtype, dtype_from_name, dtype_name, DlpackType,
  from_dlpack, to_dlpack, check_scalar_dtype, resolve_dtype, dtype_eq, Entry,
}

eq_of_dtype_eq : (a b : DType) → dtype_eq a b ≡ true → a ≡ b
eq_of_dtype_eq a b h = ground arith

module _ (P : Entry → Type 0) where
  find_name-All :
      (name : Text) (es : List Entry) (d : DType)
      → All P es
      → find_name name es ≡ some d
      → (e : Entry) × P e × (e.name ≡ name) × (e.dtype ≡ d)
  unfolding find_name
  find_name-All name [] d hp h = cc
  find_name-All name (e ∷ es) d hp h = elim (Bool-cases (text_eq name e.name)) [
    | inl same ↦ (e, hp.0, sym (eq_of_text_eq name e.name same), ground arith)
    | inr other ↦ find_name-All name es d hp.1 (ground arith)
  ]

  find_dtype-All :
      (d : DType) (es : List Entry) (e : Entry)
      → All P es
      → find_dtype d es ≡ some e
      → P e × (e.dtype ≡ d)
  unfolding find_dtype
  find_dtype-All d [] e hp h = cc
  find_dtype-All d (x ∷ es) e hp h = elim (Bool-cases (dtype_eq d x.dtype)) [
    | inl same ↦
        let here : x ≡ e = ground arith in
        (
          subst P here hp.0,
          ap (λ (y : Entry). y.dtype) (sym here) ∙ sym (eq_of_dtype_eq d x.dtype same),
        )
    | inr other ↦ find_dtype-All d es e hp.1 (ground arith)
  ]

-- Looked up by its name or by its dtype, an entry is found.
abbrev IsFound : Entry → Type 0
IsFound e = (find_name e.name entries ≡ some e.dtype) × (find_dtype e.dtype entries ≡ some e)

entries-IsFound : All IsFound entries
unfolding find_name find_dtype
entries-IsFound = (
  (refl, refl),
  (
    (refl, refl),
    (
      (refl, refl),
      (
        (refl, refl),
        (
          (refl, refl),
          (
            (refl, refl),
            (
              (refl, refl),
              ((refl, refl), ((refl, refl), ((refl, refl), ((refl, refl), ((refl, refl), tt))))),
            ),
          ),
        ),
      ),
    ),
  ),
)

-- A name gives a dtype exactly when the dtype has that name: the table reads back every name that
-- it prints, and accepts no other.
pub dtype_from_name_iff :
    (name : Text) (d : DType) → (dtype_from_name name ≡ ok d) ↔ (dtype_name d ≡ some name)
unfolding dtype_from_name dtype_name
dtype_from_name_iff name d = (
  λ h.
      let found : find_name name entries ≡ some d = ground arith in
      let (e, p, n, t) = find_name-All IsFound name entries d entries-IsFound found in
      ground (arith, p.1),
  λ h. elim (Option-cases (find_dtype d entries)) [
    | inl absent ↦ ground arith
    | inr (e, found) ↦
        let (p, t) = find_dtype-All IsFound d entries e entries-IsFound found in
        let named : e.name ≡ name = ground arith in
        let by_name : find_name name entries ≡ some d =
          subst (λ n. find_name n entries ≡ some d) named (p.0 ∙ ap some t) in
        ground arith
  ],
)

-- What an array's dtype is read as.
abbrev pub Reads : DlpackType → DType → Type 0
Reads dt d = (dt.lanes ≡ 1) × (dt.code ≡ d.code) × (dt.bits ≡ d.bits) × (dtype_name d ≢ none)

-- An array's dtype is accepted exactly when it is a scalar type of the table, and is kept as it is.
pub from_dlpack_iff : (dt : DlpackType) (d : DType) → (from_dlpack dt ≡ ok d) ↔ Reads dt d
unfolding from_dlpack
from_dlpack_iff dt d = (λ h. ground arith, λ h. ground arith)

-- Exporting a supported dtype and reading it back gives it unchanged.
pub from_dlpack-to_dlpack : (d : DType) → dtype_name d ≢ none → from_dlpack (to_dlpack d) ≡ ok d
unfolding to_dlpack
from_dlpack-to_dlpack d h = (from_dlpack_iff (to_dlpack d) d).1 (refl, refl, refl, h)

-- A `dtype=` override is taken exactly when the name is supported, the array holds scalars, and the
-- element width stays the same: it relabels bytes and never changes how many there are.
pub resolve_dtype_iff :
    (dt : DlpackType) (width : ℕ) (name : Text) (d : DType)
    → (resolve_dtype dt width (some name) ≡ ok d)
      ↔ ((dtype_name d ≡ some name) × (dt.lanes ≡ 1) × (width ≡ itemsize d))
unfolding resolve_dtype
resolve_dtype_iff dt width name d = (
  λ h. ground (arith, (dtype_from_name_iff name d).0),
  λ h. ground (arith, (dtype_from_name_iff name d).1 h.0),
)

float64_unnamed : dtype_name (record { code = 2; bits = 64 }) ≡ none
unfolding dtype_name
float64_unnamed = refl

-- A scalar argument passes exactly when its dtype does: the earlier test for `float64` changes the
-- message alone.
pub check_scalar_dtype_iff :
    (dt : DlpackType) (position : ℕ)
    → (check_scalar_dtype dt position ≡ ok tt) ↔ ((d : DType) × (from_dlpack dt ≡ ok d))
unfolding check_scalar_dtype from_dlpack
check_scalar_dtype_iff dt position =
    elim (Option-cases (dtype_name (record { code = dt.code; bits = dt.bits }))) [
      | inl unnamed ↦ ground arith
      | inr (name, named) ↦ ground (arith, float64_unnamed)
    ]

entries-size : All (λ (e : Entry). itemsize e.dtype ≤ 8) entries
unfolding itemsize
entries-size = ground arith

-- Every element type of the table is at most eight bytes wide.
pub itemsize-le : (d : DType) → dtype_name d ≢ none → itemsize d ≤ 8
unfolding dtype_name
itemsize-le d named = elim (Option-cases (find_dtype d entries)) [
  | inl absent ↦ absurd (named (rw (absent, dtype_name) refl))
  | inr (e, found) ↦
      let (small, is) =
        find_dtype-All (λ (e : Entry). itemsize e.dtype ≤ 8) d entries e entries-size found in
      subst (λ d. itemsize d ≤ 8) is small
]

entries-bits : All (λ (e : Entry). 1 ≤ e.dtype.bits) entries
entries-bits = ground arith

-- Every element type of the table has a bit at least.
pub bits-pos : (d : DType) → dtype_name d ≢ none → 1 ≤ d.bits
unfolding dtype_name
bits-pos d named = elim (Option-cases (find_dtype d entries)) [
  | inl absent ↦ absurd (named (rw (absent, dtype_name) refl))
  | inr (e, found) ↦
      let (small, is) =
        find_dtype-All (λ (e : Entry). 1 ≤ e.dtype.bits) d entries e entries-bits found in
      subst (λ (d : DType). 1 ≤ d.bits) is small
]

-- What an array resolves to is a type of the table.
pub resolve_dtype-named :
    (dt : DlpackType) (width : ℕ) (name : Option Text) (d : DType)
    → resolve_dtype dt width name ≡ ok d
    → dtype_name d ≢ none
unfolding resolve_dtype
resolve_dtype-named dt width none d h = ((from_dlpack_iff dt d).0 h).3
resolve_dtype-named dt width (some name) d h =
    let named = ((resolve_dtype_iff dt width name d).0 h).0 in λ missing. cc
