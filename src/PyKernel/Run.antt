-- ===== src/PyKernel/Run.antt =====
-- A run of a kernel, from Python to the arguments that its function uses.
use mathlib.Core.List.{Memᴰ}
use metal_runtime.Batch.Encode.{bound, bound-append}
use metal_runtime.Batch.{
  Command, end_encoding, commit_buffer, CommandBatch, create, encode, Completion,
}
use metal_runtime.Common.{
  ℕ, ◌≡◌, sym, ap, ◌∙◌, subst, Bool, true, List, [], ◌∷◌, ◌++◌, Option, some, All,
}
use metal_runtime.Errors.{ok}
use metal_runtime.PyKernel.{PyKernel}
use metal_runtime.Reflection.Origin.{Origin}
use metal_runtime.PyLaunch.{Arguments, run}
use metal_runtime.PyLaunch.Run.{run-returns}
use metal_runtime.Reflection.{Binding, build}
use metal_runtime.Reflection.Bound.{
  BindsUsed, sized_indices, sized_indices-append, encode-BindsUsed,
}
use metal_runtime.Reflection.Used.{is_buffer, is_threadgroup}

Memᴰ-append : (x : ℕ) (xs ys : List ℕ) → Memᴰ x xs → Memᴰ x (xs ++ ys)
Memᴰ-append x [] ys h = elim h [ ]
Memᴰ-append x (y ∷ xs) ys (Memᴰ.head same) = Memᴰ.head same
Memᴰ-append x (y ∷ xs) ys (Memᴰ.tail h) = Memᴰ.tail (Memᴰ-append x xs ys h)

used-append :
    (test : Binding → Bool) (xs ys : List ℕ) (bs : List Binding)
    → All (λ b. (test b ≡ true → Memᴰ b.index xs)) bs
    → All (λ b. (test b ≡ true → Memᴰ b.index (xs ++ ys))) bs
used-append test xs ys [] h = tt
used-append test xs ys (b ∷ bs) h =
    (λ used. Memᴰ-append b.index xs ys (h.0 used), used-append test xs ys bs h.1)

-- Later calls unbind nothing.
BindsUsed-append :
    (bs : List Binding) (xs ys : List Command) → BindsUsed bs xs → BindsUsed bs (xs ++ ys)
BindsUsed-append bs xs ys (buffers, memories) = (
  subst (λ is. All (λ b. (is_buffer b ≡ true → Memᴰ b.index is)) bs) (sym (bound-append xs ys))
      (used-append is_buffer (bound xs) (bound ys) bs buffers),
  subst (λ is. All (λ b. (is_threadgroup b ≡ true → Memᴰ b.index is)) bs)
      (sym (sized_indices-append xs ys))
      (used-append is_threadgroup (sized_indices xs) (sized_indices ys) bs memories),
)

-- A `run` of a kernel over a fresh batch that returns has bound every argument that the kernel's
-- function uses: for the reflection that the kernel's pipeline was built from, the index of each used
-- buffer binding is bound to a buffer or to a scalar's bytes, and the length of each used threadgroup
-- memory is set.
pub run-BindsUsed :
    (k : PyKernel) (o : Origin k.pipeline) (bs : List Binding) (c e : Option ℕ) (nu : Bool) (m : ℕ)
    (b : CommandBatch) (a : Arguments) (done : Completion)
    → o.reflection ≡ some bs
    → a.kernel.pipeline ≡ k.pipeline
    → create c e nu m ≡ ok b
    → (run b a done).1 ≡ ok tt
    → BindsUsed bs (run b a done).0
run-BindsUsed k o bs c e nu m b a done reflects kernel fresh returns =
    let (p, given, accepted, sent) = run-returns c e nu m b a done fresh returns in
    let built : build k.pipeline.label (some o.state) (some bs) ≡ ok k.pipeline =
      subst (λ r. build k.pipeline.label (some o.state) r ≡ ok k.pipeline) reflects o.built in
    let binds =
      encode-BindsUsed k.pipeline.label o.state bs k.pipeline p.launch nu m built
        (given ∙ ap some kernel) accepted in
    let whole =
      BindsUsed-append bs (encode a.kernel.pipeline p.launch nu).0
        (end_encoding ∷ commit_buffer ∷ [])
        (subst (λ q. BindsUsed bs (encode q p.launch nu).0) (sym kernel) binds) in
    subst (BindsUsed bs) (sym sent) whole
