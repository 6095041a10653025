-- ===== src/PyBatch/Uses.antt =====
-- The buffers that encoded commands use, and their owners.
use metal_runtime.Batch
use metal_runtime.Batch.{
  Command, set_pipeline, set_buffer, set_bytes, set_threadgroup_memory_length, dispatch_threads,
  dispatch_threadgroups, dispatch_threadgroups_indirect, memory_barrier, end_encoding,
  commit_buffer, CommandBatch, set_scalars, set_buffers, set_lengths, dispatch_command, encode,
  send,
}
use metal_runtime.Batch.Methods.{encode-ok}
use metal_runtime.Common.{
  ℕ, ◌+◌, ◌≡◌, ◌⊎◌, inl, inr, refl, subst, arith, Bool, true, ◌||◌, Bool-cases, Option-cases, List,
  [], ◌∷◌, ◌++◌, All, All-append, ◌==◌, ==_iff, if◌then◌else◌,
}
use metal_runtime.Dispatch.{
  ComputePipeline, BufferBinding, Scalar, Launch, validate, rounded_threadgroup_length,
}
use metal_runtime.Errors.{ok, Result-cases}
use metal_runtime.PyBatch.{pin}
use metal_runtime.PyLaunch.{contains}
use metal_runtime.PyLaunch.Pinned.{IsPinned, LaunchIsPinned, contains-cons}

-- The Metal buffers that a command makes the GPU use.
abbrev pub uses : Command → List ℕ
uses (set_buffer handle offset index) = handle ∷ []
uses (dispatch_threadgroups_indirect handle offset threadgroup) = handle ∷ []
uses c = []

contains_emplaced : (o : ℕ) (os : List ℕ) → contains o (if contains o os then os else o ∷ os) ≡ true
contains_emplaced o os = elim (Bool-cases (contains o os)) [
  | inl there ↦ rw there there
  | inr absent ↦ rw absent (ground (arith, (==_iff o o).1 refl))
]

contains-emplaced :
    (o p : ℕ) (os : List ℕ)
    → contains o os ≡ true
    → contains o (if contains p os then os else p ∷ os) ≡ true
contains-emplaced o p os h = elim (Bool-cases (contains p os)) [
  | inl there ↦ rw there h
  | inr absent ↦ rw absent (contains-cons o p os h)
]

-- What was pinned stays pinned, and what is given becomes so.
pub contains-pin :
    (o : ℕ) (os ps : List ℕ)
    → (contains o os ≡ true) ⊎ (contains o ps ≡ true)
    → contains o (pin os ps) ≡ true
unfolding pin
contains-pin o os [] (inl h) = h
contains-pin o os [] (inr h) = cc
contains-pin o os (p ∷ ps) (inl h) =
    contains-pin o (if contains p os then os else p ∷ os) ps (inl (contains-emplaced o p os h))
contains-pin o os (p ∷ ps) (inr h) = elim (Bool-cases (p == o)) [
  | inl same ↦
      let e : p ≡ o = (==_iff p o).0 same in
      contains-pin o (if contains p os then os else p ∷ os) ps (
        inl (
          subst (λ o. contains o (if contains p os then os else p ∷ os) ≡ true) e
            (contains_emplaced p os)))
  | inr other ↦ contains-pin o (if contains p os then os else p ∷ os) ps (inr (ground arith))
]

module _ (owner : ℕ → ℕ) where
  -- The owner of every buffer that a command uses is pinned.
  abbrev pub LogIsPinned : List ℕ → List Command → Type 0
  LogIsPinned os log = All (λ c. All (IsPinned owner os) (uses c)) log

  pub LogIsPinned-mono :
      (os ps : List ℕ) (log : List Command)
      → ((o : ℕ) → contains o os ≡ true → contains o ps ≡ true)
      → LogIsPinned os log
      → LogIsPinned ps log
  LogIsPinned-mono os ps [] sub h = tt
  LogIsPinned-mono os ps (c ∷ log) sub h = (go (uses c) h.0, LogIsPinned-mono os ps log sub h.1)
    where
      go : (hs : List ℕ) → All (IsPinned owner os) hs → All (IsPinned owner ps) hs
      go [] h = tt
      go (x ∷ hs) h = (sub (owner x) h.0, go hs h.1)

  set_scalars-pinned : (os : List ℕ) (i : ℕ) (ss : List Scalar) → LogIsPinned os (set_scalars i ss)
  unfolding set_scalars
  set_scalars-pinned os i [] = tt
  set_scalars-pinned os i (s ∷ ss) = (tt, set_scalars-pinned os (i + 1) ss)

  set_buffers-pinned :
      (os : List ℕ) (i : ℕ) (bs : List BufferBinding) (ss : List Scalar)
      → All (λ (b : BufferBinding). IsPinned owner os b.buffer.handle) bs
      → LogIsPinned os (set_buffers i bs ss)
  unfolding set_buffers
  set_buffers-pinned os i [] ss h = set_scalars-pinned os i ss
  set_buffers-pinned os i (b ∷ bs) ss h = ((h.0, tt), set_buffers-pinned os (i + 1) bs ss h.1)

  set_lengths-pinned : (os : List ℕ) (i : ℕ) (ns : List ℕ) → LogIsPinned os (set_lengths i ns).0
  unfolding set_lengths
  set_lengths-pinned os i [] = tt
  set_lengths-pinned os i (n ∷ ns) = elim (Result-cases (rounded_threadgroup_length n)) [
    | inl (r, e) ↦ rw (e, set_lengths) (tt, set_lengths-pinned os (i + 1) ns)
    | inr (x, e) ↦ rw (e, set_lengths) tt
  ]

  dispatch_command-pinned :
      (os : List ℕ) (l : Launch) (nu : Bool)
      → LaunchIsPinned owner os l
      → LogIsPinned os (dispatch_command l nu ∷ [])
  unfolding dispatch_command
  dispatch_command-pinned os l nu h = elim (Option-cases l.indirect_grid) [
    | inl direct ↦ elim (Bool-cases nu) [
      | inl uneven ↦ rw (direct, dispatch_command, uneven) (tt, tt)
      | inr even ↦ rw (direct, dispatch_command, even) (tt, tt)
    ]
    | inr (b, indirect) ↦ rw (indirect, dispatch_command) ((h.1 b indirect, tt), tt)
  ]

  pub encode-pinned :
      (os : List ℕ) (p : ComputePipeline) (l : Launch) (nu : Bool)
      → LaunchIsPinned owner os l
      → LogIsPinned os (encode p l nu).0
  unfolding encode
  encode-pinned os p l nu h =
      let Uses : Command → Type 0 = λ c. All (IsPinned owner os) (uses c) in
      let bs = set_buffers 0 l.buffers l.scalars in
      let ns = set_lengths 0 l.threadgroup_memory in
      let head =
        All-append Uses bs ns.0 (set_buffers-pinned os 0 l.buffers l.scalars h.0)
          (set_lengths-pinned os 0 l.threadgroup_memory) in
      elim (Result-cases ns.1) [
        | inl (r, e) ↦
            rw (e, encode)
              (
                tt,
                All-append Uses (bs ++ ns.0) (dispatch_command l nu ∷ []) head
                    (dispatch_command-pinned os l nu h),
              )
        | inr (x, e) ↦ rw (e, encode) (tt, head)
      ]

-- `CommandBatch::add` either leaves the batch as it is, or returns and has encoded the launch.
pub add-cases :
    (b : CommandBatch) (l : Launch)
    → ((Batch.add b l).0 ≡ b)
      ⊎ ((p : ComputePipeline) × ((Batch.add b l).0.log ≡ b.log ++ (encode p l b.non_uniform).0)
          × ((Batch.add b l).1 ≡ ok tt))
unfolding Batch.add send
add-cases b l = elim (Bool-cases (b.committed || b.discarded)) [
  | inl over ↦ inl (rw over refl)
  | inr live ↦ elim (Result-cases (validate l b.non_uniform b.max_threadgroup_memory)) [
    | inr (e, refused) ↦ inl (rw (live, refused) refl)
    | inl (u, valid) ↦ elim (Option-cases l.pipeline) [
      | inl missing ↦ inl (rw (live, valid, missing) refl)
      | inr (p, given) ↦ elim (Option-cases b.encoder) [
        | inl closed ↦ inl (rw (live, valid, given, closed) refl)
        | inr (e, opened) ↦ inr (
          p,
          rw (live, valid, given, opened) refl,
          rw (live, valid, given, opened) (encode-ok b l p valid given),
        )
      ]
    ]
  ]
]
