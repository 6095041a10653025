-- ===== src/Batch/Protocol.antt =====
-- Metal's rules for one command buffer: encode, end the encoding once, then commit at most once.
use metal_runtime.Batch.{Command, end_encoding, commit_buffer}
use metal_runtime.Common.{
  ◌≡◌, inl, inr, Option-cases, List, [], ◌∷◌, ◌++◌, Option, none, some, arith,
}

pub data Phase : Type 0 where
  encoding ended submitted : Phase

-- `none` is a call that Metal aborts on.
abbrev pub next : Phase → Command → Option Phase
next encoding end_encoding = some ended
next encoding commit_buffer = none
next encoding c = some encoding
next ended commit_buffer = some submitted
next ended c = none
next submitted c = none

abbrev pub follow : Phase → List Command → Option Phase
follow p [] = some p
follow p (c ∷ cs) = elim (next p c) [ none ↦ none | some q ↦ follow q cs ]

pub follow-append :
    (p q : Phase) (xs ys : List Command) → follow p xs ≡ some q → follow p (xs ++ ys) ≡ follow q ys
follow-append p q [] ys h = ground arith
follow-append p q (x ∷ xs) ys h = elim (Option-cases (next p x)) [
  | inl stuck ↦ ground arith
  | inr (r, e) ↦ ground (arith, follow-append r q xs ys)
]
