-- ===== src/CApi/Named.antt =====
-- The entry point that a message of `build_launch` names.
use metal_runtime.CApi.{
  Array, MrLaunchDesc, is_null, at, bind_at, bind_buffer, bind_buffers, bind_scalar, bind_scalars,
  assign, build_with, build_launch,
}
use metal_runtime.CApi.Memory.{MrBuffer}
use metal_runtime.Common.{
  ℕ, zero, suc, ◌+◌, ◌≡◌, inl, inr, refl, arith, Bool, true, false, Bool-cases, Option-cases,
  Option, none, some, Text, [], not, ◌&&◌, ◌||◌, ◌-◌, ◌==◌, leb, ltb, size_max, length, get_elem?,
  if◌then◌else◌,
}
use metal_runtime.Dispatch.{ComputePipeline, BufferBinding, Scalar, Launch, default_threadgroup}
use metal_runtime.Errors.{
  Error, exception, Result, ok, throw, ◌>>=◌, ◌>>◌, throw_if, launch_null, launch_no_pipeline,
  buffers_required, scalars_required, threadgroup_memory_required, null_buffer, null_scalar,
  logical_offset,
}

-- The error with another entry point's name in its message.
pub named : Text → Error → Error
named who (launch_null other) = launch_null who
named who (launch_no_pipeline other) = launch_no_pipeline who
named who (buffers_required other) = buffers_required who
named who (scalars_required other) = scalars_required who
named who (threadgroup_memory_required other) = threadgroup_memory_required who
named who (null_buffer other i) = null_buffer who i
named who (null_scalar other i) = null_scalar who i
named who (logical_offset other i offset size) = logical_offset who i offset size
named who e = e

abbrev pub renamed : {A : Type 0} → Text → Result A → Result A
renamed who (ok a) = ok a
renamed who (throw e) = throw (named who e)

pub exception-named : (who : Text) (e : Error) → exception (named who e) ≡ exception e
unfolding exception named
exception-named who (launch_null other) = refl
exception-named who (launch_no_pipeline other) = refl
exception-named who (buffers_required other) = refl
exception-named who (scalars_required other) = refl
exception-named who (threadgroup_memory_required other) = refl
exception-named who (null_buffer other i) = refl
exception-named who (null_scalar other i) = refl
exception-named who (logical_offset other i offset size) = refl
exception-named who _ = refl

-- Two chains whose links differ in the name differ in the name.
renamed->>= :
    {A B : Type 0} (who : Text) (m k : Result A) (f g : A → Result B)
    → m ≡ renamed who k
    → ((a : A) → f a ≡ renamed who (g a))
    → (m >>= f) ≡ renamed who (k >>= g)
renamed->>= who m (ok a) f g first rest = rw first (rest a)
renamed->>= who m (throw e) f g first rest = rw first refl

-- A guard in front of a chain.
guard-named :
    {A : Type 0} (who : Text) (bad : Bool) (e : Error) (k j : Result A)
    → k ≡ renamed who j
    → (throw_if bad (named who e) >> k) ≡ renamed who (throw_if bad e >> j)
guard-named who true e k j h = refl
guard-named who false e k j h = h

at-named : {A : Type 0} (who : Text) (xs : Array A) (i : ℕ) → at xs i ≡ renamed who (at xs i)
unfolding at named
at-named who none i = refl
at-named who (some xs) i = elim (Option-cases (get_elem? xs i)) [
  | inl out ↦ ground arith
  | inr (x, found) ↦ ground arith
]

module _ (other who : Text) where
  abbrev bound_at : ℕ → MrBuffer → Result BufferBinding
  bound_at offset b = ok (record { buffer = b.buffer; offset = offset + b.external_offset })

  bind_at-named :
      (offsets : Array ℕ) (i : ℕ) (b : MrBuffer)
      → bind_at who offsets i b ≡ renamed who (bind_at other offsets i b)
  unfolding bind_at named
  bind_at-named offsets i b = renamed->>= who _ _ _ _ (at-named who offsets i) (λ offset.
      guard-named who
        (leb b.logical_size offset && not (offset == 0 && b.logical_size == 0)
          || ltb (size_max - b.external_offset) offset)
        (logical_offset other i offset b.logical_size) (bound_at offset b) (bound_at offset b) refl)

  bind_entry-named :
      (offsets : Array ℕ) (i : ℕ) (entry : Option MrBuffer)
      → elim entry [ none ↦ throw (null_buffer who i) | some b ↦ bind_at who offsets i b ]
        ≡ renamed who
            (elim entry [ none ↦ throw (null_buffer other i) | some b ↦ bind_at other offsets i b ])
  unfolding named
  bind_entry-named offsets i none = refl
  bind_entry-named offsets i (some b) = bind_at-named offsets i b

  bind_buffers-named :
      (buffers : Array (Option MrBuffer)) (offsets : Array ℕ) (rounds i : ℕ)
      → bind_buffers who buffers offsets rounds i
        ≡ renamed who (bind_buffers other buffers offsets rounds i)
  unfolding bind_buffers bind_buffer
  bind_buffers-named buffers offsets zero i = refl
  bind_buffers-named buffers offsets (suc rounds) i =
      renamed->>= who _ _ _ _
        (renamed->>= who _ _ _ _ (at-named who buffers i) (bind_entry-named offsets i))
        (λ b.
          renamed->>= who _ _ _ _ (bind_buffers-named buffers offsets rounds (i + 1)) (λ bs. refl))

  abbrev sized : Array ℕ → ℕ → ℕ → Result Scalar
  sized sizes i address = at sizes i >>= λ size. ok (record { address = address; size = size })

  bind_scalar_entry-named :
      (sizes : Array ℕ) (i : ℕ) (entry : Option ℕ)
      → elim entry as (λ e. Result Scalar) [
        | none ↦ throw (null_scalar who i)
        | some address ↦ sized sizes i address
      ]
        ≡ renamed {A = Scalar} who (elim entry as (λ e. Result Scalar) [
          | none ↦ throw (null_scalar other i)
          | some address ↦ sized sizes i address
        ])
  unfolding named
  bind_scalar_entry-named sizes i none = refl
  bind_scalar_entry-named sizes i (some a) =
      renamed->>= who _ _ _ _ (at-named who sizes i) (λ size. refl)

  bind_scalars-named :
      (scalars : Array (Option ℕ)) (sizes : Array ℕ) (rounds i : ℕ)
      → bind_scalars who scalars sizes rounds i
        ≡ renamed who (bind_scalars other scalars sizes rounds i)
  unfolding bind_scalars bind_scalar
  bind_scalars-named scalars sizes zero i = refl
  bind_scalars-named scalars sizes (suc rounds) i =
      renamed->>= who _ _ _ _
        (renamed->>= who _ _ _ _ (at-named who scalars i) (bind_scalar_entry-named sizes i))
        (λ s.
          renamed->>= who _ _ _ _ (bind_scalars-named scalars sizes rounds (i + 1)) (λ ss. refl))

  assign-named : (xs : Array ℕ) (n : ℕ) → assign xs n ≡ renamed who (assign xs n)
  unfolding assign named
  assign-named none n = elim (Bool-cases (n == 0)) [ inl a ↦ ground arith | inr b ↦ ground arith ]
  assign-named (some xs) n = elim (Bool-cases (leb n (length xs))) [
    | inl a ↦ ground arith
    | inr b ↦ ground arith
  ]

  lengths-named :
      (d : MrLaunchDesc)
      → (if d.threadgroup_memory_count == 0
          then ok []
          else assign d.threadgroup_memory d.threadgroup_memory_count)
        ≡ renamed who (
            if d.threadgroup_memory_count == 0
            then ok []
            else assign d.threadgroup_memory d.threadgroup_memory_count)
  lengths-named d = elim (Bool-cases (d.threadgroup_memory_count == 0)) [
    | inl a ↦ rw a refl
    | inr b ↦ rw b (assign-named d.threadgroup_memory d.threadgroup_memory_count)
  ]

  abbrev bound_launch : Text → ComputePipeline → MrLaunchDesc → Result Launch
  unfolding bind_buffers bind_scalars assign
  bound_launch who pipeline d = do
    buffers ← bind_buffers who d.buffers d.buffer_offsets d.buffer_count 0
    scalars ← bind_scalars who d.scalars d.scalar_sizes d.scalar_count 0
    lengths ←
        if d.threadgroup_memory_count == 0
        then ok []
        else assign d.threadgroup_memory d.threadgroup_memory_count
    ok (record {
      pipeline = some pipeline;
      buffers = buffers;
      scalars = scalars;
      threadgroup_memory = lengths;
      grid = d.grid;
      threadgroup =
          if d.threadgroup.x == 0 then default_threadgroup pipeline d.grid else d.threadgroup;
      indirect_grid = none;
      indirect_offset = 0;
    })

  bound_launch-named :
      (pipeline : ComputePipeline) (d : MrLaunchDesc)
      → bound_launch who pipeline d ≡ renamed who (bound_launch other pipeline d)
  unfolding bound_launch
  bound_launch-named pipeline d =
      renamed->>= who _ _ _ _ (bind_buffers-named d.buffers d.buffer_offsets d.buffer_count 0)
        (λ bs.
          renamed->>= who _ _ _ _ (bind_scalars-named d.scalars d.scalar_sizes d.scalar_count 0)
            (λ ss. renamed->>= who _ _ _ _ (lengths-named d) (λ ns. refl)))

  build_with-named :
      (pipeline : ComputePipeline) (d : MrLaunchDesc)
      → build_with who pipeline d ≡ renamed who (build_with other pipeline d)
  unfolding build_with bound_launch named
  build_with-named pipeline d =
      let p = throw_if (not (d.threadgroup_memory_count == 0) && is_null d.threadgroup_memory) in
      let q =
        throw_if (not (d.scalar_count == 0) && (is_null d.scalars || is_null d.scalar_sizes)) in
      let third =
        guard-named who (not (d.threadgroup_memory_count == 0) && is_null d.threadgroup_memory)
          (threadgroup_memory_required other) (bound_launch who pipeline d)
          (bound_launch other pipeline d) (bound_launch-named pipeline d) in
      let second =
        guard-named who (not (d.scalar_count == 0) && (is_null d.scalars || is_null d.scalar_sizes))
          (scalars_required other)
          (p (threadgroup_memory_required who) >> bound_launch who pipeline d)
          (p (threadgroup_memory_required other) >> bound_launch other pipeline d) third in
      guard-named who (not (d.buffer_count == 0) && (is_null d.buffers || is_null d.buffer_offsets))
        (buffers_required other)
        (q (scalars_required who)
          >> (p (threadgroup_memory_required who) >> bound_launch who pipeline d))
        (q (scalars_required other)
          >> (p (threadgroup_memory_required other) >> bound_launch other pipeline d))
        second

  -- `build_launch` for another entry point differs in the name alone.
  pub build_launch-named :
      (desc : Option MrLaunchDesc) → build_launch who desc ≡ renamed who (build_launch other desc)
  unfolding build_launch named
  build_launch-named none = refl
  build_launch-named (some d) =
      elim (d.pipeline)
        as (λ p.
          (elim p [ none ↦ throw (launch_no_pipeline who) | some q ↦ build_with who q d ])
          ≡ renamed who (elim p [
            | none ↦ throw (launch_no_pipeline other)
            | some q ↦ build_with other q d
          ])) [ none ↦ refl | some q ↦ build_with-named q d ]
