-- ===== src/CApi/Handles.antt =====
-- The handles that `mr_compile_library` and `mr_get_pipeline` give out.
use metal_runtime.CApi.Contract.{is_ok, status_of-is_ok}
use metal_runtime.CApi.Answers.{null, holds}
use metal_runtime.CApi.Answers.{
  Slot, Answer, answer, check_pipeline_arguments, get_pipeline, mr_get_pipeline,
}
use metal_runtime.Compile.{MtlDevice}
use metal_runtime.Compile.Laws
use metal_runtime.Specialize.{MtlLibrary}
use metal_runtime.Caches.{build_pipeline, Library, Reach, Others}
use metal_runtime.Caches.Made.{IsBuilt, IsPipeline, IsBuilt-label}
use metal_runtime.Dispatch.{ComputePipeline}
use metal_runtime.Caches.Serve.{pipeline_for-Served}
use metal_runtime.Common.{
  ℕ, ◌≤◌, ◌≡◌, ◌⊎◌, inl, inr, refl, ap, ◌∙◌, Bool, false, [], Option, some, Text, length, take,
}
use metal_runtime.Errors.{Error, exception, Result, ok, throw}
use metal_runtime.Errors.Translate.{mr_ok, Message, mr_guard}
use metal_runtime.Keys.{MathMode, safe, relaxed, fast}
use metal_runtime.Lru.{Cache}

-- Either the status is MR_OK, the caller's message is as it was and the out parameter holds a handle,
-- or the status is an error and the out parameter is null.
abbrev pub IsAnswer : {A : Type 0} → Option Message → (A → Type 0) → Answer A → Type 0
IsAnswer {A} message Good r =
    ((a : A) × Good a × (r ≡ ((mr_ok, message), some (holds a))))
    ⊎ ((is_ok r.0.0 ≡ false) × (r.1 ≡ some null))

answer-ok :
    {A : Type 0} (malloc : Bool) (message : Option Message) (s : Slot A) (a : A)
    → answer malloc message (some s) (ok a) ≡ ((mr_ok, message), some (holds a))
unfolding mr_guard
answer-ok malloc message s a = refl

answer-throw :
    {A : Type 0} (malloc : Bool) (message : Option Message) (s : Slot A) (e : Error)
    → is_ok (answer malloc message (some s) (throw e)).0.0 ≡ false
unfolding mr_guard
answer-throw malloc message s e = status_of-is_ok (exception e)

-- The values of `MRMathMode` in the header.
pub data Numbers : ℕ → MathMode → Type 0 where
  mr_math_mode_safe : Numbers 0 safe
  mr_math_mode_relaxed : Numbers 1 relaxed
  mr_math_mode_fast : Numbers 2 fast

-- The library is compiled from the first `size` bytes of the source with no definitions, under the
-- mode that `math_mode` numbers.
pub record Compiles (rt : Result MtlDevice) (msl_source : Option Text) (size math_mode : ℕ)
    (l : Library) : Type 0 where
  pub device : MtlDevice
  pub runs : rt ≡ ok device
  pub bytes : Text
  pub given : msl_source ≡ some bytes
  pub inside : size ≤ length bytes
  pub mode : MathMode
  pub known : Numbers math_mode mode
  pub compiled :
      Laws.Compiles device (take size bytes) (record { math_mode = mode; defines = [] }) l.library

-- `mr_get_pipeline` of a library in any state that its calls can bring it to ends, whatever other threads
-- do to the library's cache while the pipeline is built, as long as they only call the cache. It answers
-- MR_OK with a pipeline that Metal made of the named function without constants, and leaves the message
-- alone; or an error and a null handle where that pipeline cannot be built. The library is again in such
-- a state.
pub mr_get_pipeline-IsAnswer :
    (Metal : MtlDevice → Type 0) (malloc : Bool) (limit : ℕ) (device : MtlDevice)
    (library : MtlLibrary) (name : Text) (c : Cache Text ComputePipeline) (s : Slot ComputePipeline)
    (message : Option Message) (others : Cache Text ComputePipeline → Cache Text ComputePipeline)
    → Metal device
    → Others (IsPipeline Metal library) limit others
    → Reach (IsPipeline Metal library) limit c
    → (c' : Cache Text ComputePipeline) × (r : Answer ComputePipeline) × (mr_get_pipeline malloc
          device
          (some (library, c))
          (some name)
          (some s)
          message
          others
        ≡ some (some (library, c'), r))
      × Reach (IsPipeline Metal library) limit c'
      × (((p : ComputePipeline) × (r ≡ ((mr_ok, message), some (holds p)))
            × (p.label ≡ name)
            × IsBuilt Metal library name [] p)
          ⊎ ((e : Error) × (build_pipeline device library name [] ≡ throw e)
              × (is_ok r.0.0 ≡ false)
              × (r.1 ≡ some null)))
unfolding mr_get_pipeline get_pipeline check_pipeline_arguments
mr_get_pipeline-IsAnswer Metal malloc limit device library name c s message others metal keep
      reach =
    let (c', r, served, after, kind) =
      pipeline_for-Served Metal limit device library name [] others c metal tt keep reach in
    let shown : (r : Result ComputePipeline) → Answer ComputePipeline =
      λ r. answer malloc message (some s) r in
    (
      c',
      shown r,
      rw (served, mr_get_pipeline, get_pipeline) refl,
      after,
      elim kind [
        | inl (p, made, built, held) ↦ inl (
          p,
          ap shown made ∙ answer-ok malloc message s p,
          IsBuilt-label Metal library name [] p built,
          built,
        )
        | inr (e, failed, refused) ↦ inr (
          e,
          refused,
          ap (λ (r : Result ComputePipeline). is_ok (shown r).0.0) failed
              ∙ answer-throw malloc message s e,
          ap (λ (r : Result ComputePipeline). (shown r).1) failed,
        )
      ],
    )
