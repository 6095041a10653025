-- ===== src/CApi/Wrap.antt =====
-- `mr_wrap_buffer` and `mr_buffer_flush_to`: what a wrapped buffer covers.
pub mod Misaligned
use native.Mathlib.Nat.{div-add-mod', mod-lt, mul-mod_left, one-le-pow}
use metal_runtime.Buffer.{Device, page_size, allocate, wrap}
use metal_runtime.CApi.Memory.{
  Region, region_is_mapped_rw, Copy, MrBuffer, page_start, wrapped_length, wrap_in_place, wrap_copy,
  mr_wrap_buffer, mr_buffer_flush_to,
}
use metal_runtime.Common.{
  ℕ, ◌+◌, ◌-◌, ◌*◌, ◌/◌, ◌%◌, ◌≤◌, ◌<◌, ◌≡◌, ◌≢◌, ◌↔◌, ◌⊎◌, inl, inr, refl, sym, ◌∙◌, ap, subst,
  true, false, Bool-cases, Option-cases, arith, List, [], ◌∷◌, map, Option, none, some, ltb,
  if◌then◌else◌, size_max, max,
}
use metal_runtime.Errors.{ok, throw, Result-cases, external_misaligned, external_wrap}
use metal_runtime.CApi.Pages.{IsMapped, region_is_mapped_rw_iff, Covers, round-Covers}

-- A buffer that shares the caller's bytes: mapped whole pages that cover them, with the offset of
-- the first byte, and nothing copied.
pub record InPlace (device : Device) (vm : ℕ → Option Region) (ptr size : ℕ) (b : MrBuffer)
    (copies : List Copy) : Type 0 where
  pub shared : b.owns_copy ≡ false
  pub nothing_copied : copies ≡ []
  pub some_bytes : 1 ≤ size
  pub within : b.external_offset ≤ ptr
  pub covers : Covers (page_size device) (ptr - b.external_offset) b.buffer.size ptr size
  pub mapped : IsMapped vm (ptr - b.external_offset) b.buffer.size
  pub wrapped : device.wrap_buffer (ptr - b.external_offset) b.buffer.size ≡ some b.buffer.handle
  pub no_overflow : ptr + size ≤ size_max

-- The copy that an owned buffer starts from.
abbrev pub upload : Device → ℕ → ℕ → MrBuffer → List Copy
upload device ptr size b =
    if ltb 0 size
    then record { target = device.contents b.buffer.handle; source = ptr; size = size } ∷ []
    else []

-- A buffer of the caller's size that holds a copy of the caller's bytes.
pub record Owned (device : Device) (ptr size : ℕ) (b : MrBuffer) (copies : List Copy) : Type 0 where
  pub owned : b.owns_copy ≡ true
  pub no_offset : b.external_offset ≡ 0
  pub same_size : b.buffer.size ≡ size
  pub copied : copies ≡ upload device ptr size b

wrap_copy-Owned :
    (device : Device) (ptr size : ℕ) (b : MrBuffer) (copies : List Copy)
    → wrap_copy device ptr size ≡ ok (b, copies)
    → Owned device ptr size b copies × (b.external_ptr ≡ ptr) × (b.logical_size ≡ size)
unfolding wrap_copy allocate
wrap_copy-Owned device ptr size b copies h = elim (Option-cases (device.new_buffer (max size 1))) [
  | inl refused ↦ absurd (ground arith)
  | inr (handle, made) ↦
      let copied : copies ≡ upload device ptr size b = elim (Bool-cases (ltb 0 size)) [
        | inl some_bytes ↦ ground arith
        | inr empty ↦ ground arith
      ] in
      (
        record {
          owned = ground arith;
          no_offset = ground arith;
          same_size = ground arith;
          copied = copied;
        },
        ground arith,
        ground arith,
      )
]

page-pos : (device : Device) → 1 ≤ page_size device
page-pos device = one-le-pow device.page_bits 2 (omega arith)

-- The pages of a range, where the overflow tests pass.
abbrev Rounds : Device → ℕ → ℕ → Type 0
Rounds device ptr size =
    Covers (page_size device) (page_start device ptr)
      (wrapped_length device (ptr - page_start device ptr) size) ptr size

rounds : (device : Device) (ptr size : ℕ) → Rounds device ptr size
rounds device ptr size = round-Covers (page_size device) ptr size (page-pos device)

-- The buffer that `wrap_in_place` makes.
made_in_place : Device → ℕ → ℕ → ℕ → MrBuffer
made_in_place device ptr size handle = record {
  buffer = record {
    handle = handle;
    size = wrapped_length device (ptr - page_start device ptr) size;
  };
  external_ptr = ptr;
  external_offset = ptr - page_start device ptr;
  owns_copy = false;
  logical_size = size;
}

made_in_place-InPlace :
    (device : Device) (vm : ℕ → Option Region) (ptr size handle : ℕ)
    → 1 ≤ size
    → ptr + size ≤ size_max
    → IsMapped vm (page_start device ptr) (wrapped_length device (ptr - page_start device ptr) size)
    → device.wrap_buffer
        (page_start device ptr)
        (wrapped_length device (ptr - page_start device ptr) size)
      ≡ some handle
    → InPlace device vm ptr size (made_in_place device ptr size handle) []
unfolding made_in_place
made_in_place-InPlace device vm ptr size handle pos small mapped made =
    let first = page_start device ptr in
    let r = rounds device ptr size in
    let back : ptr - (ptr - first) ≡ first = omega (arith, r.starts) in
    record {
      shared = refl;
      nothing_copied = refl;
      some_bytes = pos;
      within = omega arith;
      covers = rw back r;
      mapped = rw back mapped;
      wrapped = rw back made;
      no_overflow = small;
    }

-- `Buffer`'s constructor finds whole pages.
pub wrap-aligned :
    (device : Device) (ptr size : ℕ)
    → let first = page_start device ptr in
      let n = wrapped_length device (ptr - first) size in
      wrap device first n ≡ elim (device.wrap_buffer first n) [
        | none ↦ throw (external_wrap n)
        | some h ↦ ok (record { handle = h; size = n })
      ]
unfolding wrap
wrap-aligned device ptr size =
    let r = rounds device ptr size in ground (arith, r.first_page, r.whole_pages)

wrap_in_place-InPlace :
    (device : Device) (vm : ℕ → Option Region) (ptr size : ℕ) (b : MrBuffer)
    → 1 ≤ size
    → wrap_in_place device vm ptr size ≡ ok (some b)
    → InPlace device vm ptr size b [] × (b.external_ptr ≡ ptr) × (b.logical_size ≡ size)
unfolding wrap_in_place made_in_place
wrap_in_place-InPlace device vm ptr size b pos h =
    let first = page_start device ptr in
    let n = wrapped_length device (ptr - first) size in
    let r = rounds device ptr size in
    elim (Bool-cases (region_is_mapped_rw vm first n)) [
      | inr unmapped ↦ absurd (ground arith)
      | inl mapped ↦ elim (Option-cases (device.wrap_buffer first n)) [
        | inl refused ↦ absurd (ground (arith, wrap-aligned device ptr size))
        | inr (handle, made) ↦
            let same : made_in_place device ptr size handle ≡ b =
              ground (arith, wrap-aligned device ptr size) in
            let small : ptr + size ≤ size_max = ground arith in
            let some_page : 1 ≤ n = omega (arith, r.starts, r.covers) in
            subst
              (λ c.
                InPlace device vm ptr size c [] × (c.external_ptr ≡ ptr) × (c.logical_size ≡ size))
              same
              (
                made_in_place-InPlace device vm ptr size handle pos small
                    ((region_is_mapped_rw_iff vm first n some_page).0 mapped) made,
                refl,
                refl,
              )
      ]
    ]

-- A wrapped range is covered one of two ways. Either the buffer shares the caller's bytes: it wraps
-- the whole pages around them and no more, all in one mapped region that can be read and written,
-- the offset leads to the first byte, and nothing is copied. Or it is a buffer of the caller's size
-- that holds a copy of the bytes.
pub mr_wrap_buffer_covers :
    (device : Device) (vm : ℕ → Option Region) (ptr size : ℕ) (b : MrBuffer) (copies : List Copy)
    → mr_wrap_buffer device vm ptr size ≡ ok (b, copies)
    → (InPlace device vm ptr size b copies ⊎ Owned device ptr size b copies)
      × (b.external_ptr ≡ ptr)
      × (b.logical_size ≡ size)
unfolding mr_wrap_buffer
mr_wrap_buffer_covers device vm ptr size b copies h = elim (Bool-cases (ltb 0 size)) [
  | inr empty ↦
      let (o, p, l) = wrap_copy-Owned device ptr size b copies (ground arith) in (inr o, p, l)
  | inl some_bytes ↦ elim (Result-cases (wrap_in_place device vm ptr size)) [
    | inr (x, e) ↦ absurd (ground arith)
    | inl (none, e) ↦
        let (o, p, l) = wrap_copy-Owned device ptr size b copies (ground arith) in (inr o, p, l)
    | inl (some c, e) ↦
        let same : c ≡ b = ground arith in
        let nothing : [] ≡ copies = ground arith in
        let (i, p, l) = wrap_in_place-InPlace device vm ptr size c (ground arith) e in
        (
          inl (
              subst (λ x. InPlace device vm ptr size x copies) same
                (subst (InPlace device vm ptr size c) nothing i)),
          ap (λ (x : MrBuffer). x.external_ptr) (sym same) ∙ p,
          ap (λ (x : MrBuffer). x.logical_size) (sym same) ∙ l,
        )
  ]
]

-- The copy the other way.
abbrev pub back : Copy → Copy
back c = record { target = c.source; source = c.target; size = c.size }

-- Flushing a wrapped buffer copies back exactly what wrapping it copied, to the place that it came
-- from: nothing for shared bytes or an empty range.
pub mr_buffer_flush_to-mr_wrap_buffer :
    (device : Device) (vm : ℕ → Option Region) (ptr size : ℕ) (b : MrBuffer) (copies : List Copy)
    → mr_wrap_buffer device vm ptr size ≡ ok (b, copies)
    → mr_buffer_flush_to device (some b) ≡ ok (map back copies)
unfolding mr_buffer_flush_to
mr_buffer_flush_to-mr_wrap_buffer device vm ptr size b copies h =
    let (kind, p, l) = mr_wrap_buffer_covers device vm ptr size b copies h in
    elim kind [
      | inl i ↦ ground (arith, i.shared, i.nothing_copied)
      | inr o ↦ elim (Bool-cases (ltb 0 size)) [
        | inl some_bytes ↦ ground (arith, o.owned, o.same_size, o.copied, p)
        | inr empty ↦ ground (arith, o.owned, o.same_size, o.copied, p)
      ]
    ]
