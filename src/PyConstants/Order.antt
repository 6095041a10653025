-- ===== src/PyConstants/Order.antt =====
-- The order of the dict does not matter.
use metal_runtime.Common.{
  ◌≡◌, inl, inr, refl, sym, ap, ◌∙◌, arith, true, false, Bool-cases, List, [], ◌∷◌, Text, text_eq,
}
use metal_runtime.Errors.{ok, >>=-eq-ok, ok-injective}
use metal_runtime.Keys.{FunctionConstant, ConstantValue}
use metal_runtime.PyConstants.{
  PyValue, parse_value, parse_all, text_lt, insert_sorted, sort, parse_constants,
}

text_lt_trans : (s t u : Text) → text_lt s t ≡ true → text_lt t u ≡ true → text_lt s u ≡ true
text_lt_trans s [] u h k = cc
text_lt_trans s (y ∷ t) [] h k = cc
text_lt_trans [] (y ∷ t) (z ∷ u) h k = refl
text_lt_trans (x ∷ s) (y ∷ t) (z ∷ u) h k = let rest = text_lt_trans s t u in ground (arith, rest)

pub text_lt-asym : (s t : Text) → text_lt s t ≡ true → text_lt t s ≡ false
text_lt-asym s [] h = cc
text_lt-asym [] (y ∷ t) h = refl
text_lt-asym (x ∷ s) (y ∷ t) h = let rest = text_lt-asym s t in ground (arith, rest)

-- Two different names are ordered.
text_lt-connected : (s t : Text) → text_eq s t ≡ false → text_lt s t ≡ false → text_lt t s ≡ true
text_lt-connected [] [] h k = cc
text_lt-connected (x ∷ s) [] h k = refl
text_lt-connected [] (y ∷ t) h k = cc
text_lt-connected (x ∷ s) (y ∷ t) h k = let rest = text_lt-connected s t in ground (arith, rest)

insert_here :
    (c d : FunctionConstant) (ds : List FunctionConstant)
    → text_lt c.name d.name ≡ true
    → insert_sorted c (d ∷ ds) ≡ c ∷ d ∷ ds
insert_here c d ds h = rw h refl

insert_later :
    (c d : FunctionConstant) (ds : List FunctionConstant)
    → text_lt c.name d.name ≡ false
    → insert_sorted c (d ∷ ds) ≡ d ∷ insert_sorted c ds
insert_later c d ds h = rw h refl

-- Insertions of two ordered names commute.
insert_swap_lt :
    (a b : FunctionConstant) (cs : List FunctionConstant)
    → text_lt a.name b.name ≡ true
    → insert_sorted a (insert_sorted b cs) ≡ insert_sorted b (insert_sorted a cs)
insert_swap_lt a b [] h =
    insert_here a b [] h ∙ sym (insert_later b a [] (text_lt-asym a.name b.name h))
insert_swap_lt a b (c ∷ cs) h =
    let other = text_lt-asym a.name b.name h in
    elim (Bool-cases (text_lt b.name c.name)) [
      | inl b_first ↦
          let a_first = text_lt_trans a.name b.name c.name h b_first in
          ap (insert_sorted a) (insert_here b c cs b_first)
          ∙ insert_here a b (c ∷ cs) h
          ∙ sym (
              ap (insert_sorted b) (insert_here a c cs a_first)
              ∙ insert_later b a (c ∷ cs) other
              ∙ ap (◌∷◌ a) (insert_here b c cs b_first))
      | inr b_later ↦ elim (Bool-cases (text_lt a.name c.name)) [
        | inl a_first ↦
            ap (insert_sorted a) (insert_later b c cs b_later)
            ∙ insert_here a c (insert_sorted b cs) a_first
            ∙ sym (
                ap (insert_sorted b) (insert_here a c cs a_first)
                ∙ insert_later b a (c ∷ cs) other
                ∙ ap (◌∷◌ a) (insert_later b c cs b_later))
        | inr a_later ↦
            ap (insert_sorted a) (insert_later b c cs b_later)
            ∙ insert_later a c (insert_sorted b cs) a_later
            ∙ ap (◌∷◌ c) (insert_swap_lt a b cs h)
            ∙ sym (
                ap (insert_sorted b) (insert_later a c cs a_later)
                ∙ insert_later b c (insert_sorted a cs) b_later)
      ]
    ]

insert_swap :
    (a b : FunctionConstant) (cs : List FunctionConstant)
    → text_eq a.name b.name ≡ false
    → insert_sorted a (insert_sorted b cs) ≡ insert_sorted b (insert_sorted a cs)
insert_swap a b cs h = elim (Bool-cases (text_lt a.name b.name)) [
  | inl before ↦ insert_swap_lt a b cs before
  | inr after ↦ sym (insert_swap_lt b a cs (text_lt-connected a.name b.name h after))
]

-- Another order of a dict: neighbours trade places, whose names differ.
pub data Reordered : List (Text × PyValue) → List (Text × PyValue) → Type 0 where
  same : {d : List (Text × PyValue)} → Reordered d d
  trade :
      {d : List (Text × PyValue)} (m n : Text) (v w : PyValue)
      → text_eq m n ≡ false
      → Reordered ((m, v) ∷ (n, w) ∷ d) ((n, w) ∷ (m, v) ∷ d)
  behind :
      {d e : List (Text × PyValue)} (x : Text × PyValue) → Reordered d e → Reordered (x ∷ d) (x ∷ e)
  through : {d e f : List (Text × PyValue)} → Reordered d e → Reordered e f → Reordered d f

-- The constants of the other order, and that they sort to the same.
SortsAlike : List FunctionConstant → List (Text × PyValue) → Type 0
SortsAlike cs e = (ds : List FunctionConstant) × (parse_all e ≡ ok ds) × (sort ds ≡ sort cs)

pub parse_cons :
    (name : Text) (v : PyValue) (d : List (Text × PyValue)) (cs : List FunctionConstant)
    → parse_all ((name, v) ∷ d) ≡ ok cs
    → (value : ConstantValue) × (parse_value name v ≡ ok value)
      × (rest : List FunctionConstant) × (parse_all d ≡ ok rest)
      × (cs ≡ record { name = name; value = value } ∷ rest)
unfolding parse_all
parse_cons name v d cs h =
    let (value, parsed, h2) = >>=-eq-ok (parse_value name v) _ h in
    let (rest, more, h3) = >>=-eq-ok (parse_all d) _ h2 in
    (value, parsed, rest, more, sym (ok-injective h3))

parse_cons-ok :
    (name : Text) (v : PyValue) (d : List (Text × PyValue)) (value : ConstantValue)
    (rest : List FunctionConstant)
    → parse_value name v ≡ ok value
    → parse_all d ≡ ok rest
    → parse_all ((name, v) ∷ d) ≡ ok (record { name = name; value = value } ∷ rest)
unfolding parse_all
parse_cons-ok name v d value rest parsed more = rw (parsed, more) refl

sort_cons :
    (c : FunctionConstant) (cs : List FunctionConstant) → sort (c ∷ cs) ≡ insert_sorted c (sort cs)
unfolding sort
sort_cons c cs = refl

Reordered-SortsAlike :
    {d e : List (Text × PyValue)} (cs : List FunctionConstant)
    → Reordered d e
    → parse_all d ≡ ok cs
    → SortsAlike cs e
unfolding SortsAlike
Reordered-SortsAlike cs same h = (cs, h, refl)
Reordered-SortsAlike cs (trade {d} m n v w apart) h =
    let (a, parsed, rest, more, is) = parse_cons m v ((n, w) ∷ d) cs h in
    let (b, parsed2, rest2, more2, is2) = parse_cons n w d rest more in
    let first : FunctionConstant = record { name = m; value = a } in
    let second : FunctionConstant = record { name = n; value = b } in
    let swapped =
      parse_cons-ok n w ((m, v) ∷ d) b (first ∷ rest2) parsed2
        (parse_cons-ok m v d a rest2 parsed more2) in
    let all : cs ≡ first ∷ second ∷ rest2 = is ∙ ap (◌∷◌ first) is2 in
    (
      second ∷ first ∷ rest2,
      swapped,
      sort_cons second (first ∷ rest2)
          ∙ ap (insert_sorted second) (sort_cons first rest2)
          ∙ sym (insert_swap first second (sort rest2) apart)
          ∙ sym (
              ap sort all
              ∙ sort_cons first (second ∷ rest2)
              ∙ ap (insert_sorted first) (sort_cons second rest2)),
    )
Reordered-SortsAlike cs (behind {d} {e} (name, v) r) h =
    let (a, parsed, rest, more, is) = parse_cons name v d cs h in
    let (ds, again, alike) = Reordered-SortsAlike rest r more in
    let first : FunctionConstant = record { name = name; value = a } in
    (
      first ∷ ds,
      parse_cons-ok name v e a ds parsed again,
      sort_cons first ds ∙ ap (insert_sorted first) alike ∙ sym (ap sort is ∙ sort_cons first rest),
    )
Reordered-SortsAlike cs (through r s) h =
    let (ds, again, alike) = Reordered-SortsAlike cs r h in
    let (es, once_more, alike2) = Reordered-SortsAlike ds s again in (es, once_more, alike2 ∙ alike)

-- Two dicts with the same entries in another order give the same constants in the same order, so the
-- pipeline's key does not depend on the order of the dict.
pub parse_constants-Reordered :
    (d e : List (Text × PyValue)) (cs : List FunctionConstant)
    → Reordered d e
    → parse_constants d ≡ ok cs
    → parse_constants e ≡ ok cs
unfolding parse_constants SortsAlike
parse_constants-Reordered d e cs r h =
    let (out, parsed, h2) = >>=-eq-ok (parse_all d) _ h in
    let (ds, again, alike) = Reordered-SortsAlike out r parsed in rw again (ap ok alike ∙ h2)
