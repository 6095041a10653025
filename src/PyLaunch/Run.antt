-- ===== src/PyLaunch/Run.antt =====
-- A whole `run` from Python.
use metal_runtime.Batch.{
  Command, end_encoding, commit_buffer, CommandBatch, create, encode, Completion, dispatch,
}
use metal_runtime.Batch.Calls.{verdict, dispatch_lem}
use metal_runtime.Batch.Sends.{Sends, encode-Sends}
use metal_runtime.Common.{
  ℕ, ◌≡◌, ◌⊎◌, inl, inr, refl, sym, ap, ◌∙◌, Bool, List, [], ◌∷◌, ◌++◌, Option, some,
}
use metal_runtime.Dispatch.{validate}
use metal_runtime.Errors.{Error, Result, ok, throw, Result-cases, some-injective}
use metal_runtime.PyLaunch.{Arguments, PreparedLaunch, prepare, run}
use metal_runtime.PyLaunch.Laws.{IsPrepared, prepare_iff}

-- What a launch that was prepared does: `validate` refuses it, and the encoding ends unused; or all of
-- its calls are sent, the encoding is ended and committed.
abbrev pub Sent :
    Arguments → PreparedLaunch → Bool → ℕ → Completion → List Command × Result (Unit {0}) → Type 0
Sent a p nu m done r =
    ((x : Error) × (validate p.launch nu m ≡ throw x) × (r ≡ (end_encoding ∷ [], throw x)))
    ⊎ ((validate p.launch nu m ≡ ok tt)
        × (cs : List Command) × Sends a.kernel.pipeline p.launch nu cs
        × (r ≡ (cs ++ end_encoding ∷ commit_buffer ∷ [], verdict done)))

Sent-dispatch :
    (c e : Option ℕ) (nu : Bool) (m : ℕ) (b : CommandBatch) (a : Arguments) (p : PreparedLaunch)
    (done : Completion)
    → create c e nu m ≡ ok b
    → prepare a ≡ ok p
    → Sent a p nu m done (dispatch b p.launch done)
Sent-dispatch c e nu m b a p done made prepares =
    let pipeline = ((prepare_iff a p).0 prepares).pipeline in
    elim (dispatch_lem c e nu m b p.launch done made) [
      | inl (x, refused, sent) ↦ inl (x, refused, sent)
      | inr (k, accepted, found, sent) ↦
          let same : k ≡ a.kernel.pipeline = some-injective (sym found ∙ pipeline) in
          inr (
            accepted,
            (encode a.kernel.pipeline p.launch nu).0,
            encode-Sends a.kernel.pipeline p.launch nu m accepted,
            sent
                ∙ ap
                    (λ k.
                      ((encode k p.launch nu).0 ++ end_encoding ∷ commit_buffer ∷ [], verdict done))
                    same,
          )
    ]

-- A `run` from Python over a fresh batch. If `prepare` refuses its arguments, the batch is not touched
-- and the error is passed on. If `validate` refuses the launch, nothing is encoded, and the encoding is
-- ended. Else the launch has the kernel's pipeline, the buffers at their offsets, the scalars, the
-- threadgroup memory and the extents of the call; and the calls of Metal are exactly: this pipeline, each
-- buffer at its offset at the indices 0, 1, …, each scalar's bytes at the next indices, each length of
-- threadgroup memory as the least multiple of 16 that holds it, and a dispatch of the grid, by whole
-- threadgroups that make it up where the device needs that. Then the encoding is ended and committed,
-- and the call throws exactly when the command buffer failed.
pub run-Sent :
    (c e : Option ℕ) (nu : Bool) (m : ℕ) (b : CommandBatch) (a : Arguments) (done : Completion)
    → create c e nu m ≡ ok b
    → ((x : Error) × (prepare a ≡ throw x) × (run b a done ≡ ([], throw x)))
      ⊎ ((p : PreparedLaunch) × (prepare a ≡ ok p)
          × IsPrepared a p
          × Sent a p nu m done (run b a done))
unfolding run
run-Sent c e nu m b a done made = elim (Result-cases (prepare a)) [
  | inr (x, refused) ↦ inl (x, refused, rw (refused, run) refl)
  | inl (p, prepares) ↦
      let runs : run b a done ≡ dispatch b p.launch done = rw (prepares, run) refl in
      inr (
        p,
        prepares,
        (prepare_iff a p).0 prepares,
        rw runs (Sent-dispatch c e nu m b a p done made prepares),
      )
]

-- A `run` that returns has sent the whole encoding of a launch that `validate` accepts.
pub run-returns :
    (c e : Option ℕ) (nu : Bool) (m : ℕ) (b : CommandBatch) (a : Arguments) (done : Completion)
    → create c e nu m ≡ ok b
    → (run b a done).1 ≡ ok tt
    → (p : PreparedLaunch) × (p.launch.pipeline ≡ some a.kernel.pipeline)
      × (validate p.launch nu m ≡ ok tt)
      × ((run b a done).0
          ≡ (encode a.kernel.pipeline p.launch nu).0 ++ end_encoding ∷ commit_buffer ∷ [])
unfolding run
run-returns c e nu m b a done made returns = elim (Result-cases (prepare a)) [
  | inr (x, refused) ↦
      let runs : run b a done ≡ ([], throw x) = rw (refused, run) refl in
      let bad : throw x ≡ ok tt =
        ap (λ (r : List Command × Result (Unit {0})). r.1) (sym runs) ∙ returns in
      absurd (cc)
  | inl (p, prepares) ↦
      let runs : run b a done ≡ dispatch b p.launch done = rw (prepares, run) refl in
      let pipeline = ((prepare_iff a p).0 prepares).pipeline in
      elim (dispatch_lem c e nu m b p.launch done made) [
        | inl (x, refused, sent) ↦
            let bad : throw x ≡ ok tt =
              ap (λ (r : List Command × Result (Unit {0})). r.1) (sym (runs ∙ sent)) ∙ returns in
            absurd (cc)
        | inr (k, accepted, found, sent) ↦
            let same : k ≡ a.kernel.pipeline = some-injective (sym found ∙ pipeline) in
            (
              p,
              pipeline,
              accepted,
              ap (λ (r : List Command × Result (Unit {0})). r.0) (runs ∙ sent)
                  ∙ ap (λ k. (encode k p.launch nu).0 ++ end_encoding ∷ commit_buffer ∷ []) same,
            )
      ]
]
