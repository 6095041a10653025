-- ===== src/Reflection/Used.antt =====
-- The one pass over the bindings against a pass for each list.
use metal_runtime.Common.{
  ℕ, ◌≡◌, ◌↔◌, ◌<◌, refl, sym, ap, subst, arith, Bool, true, false, List, [], ◌∷◌, Option, none,
  some, All, Text, if◌then◌else◌,
}
use metal_runtime.Dispatch.{
  BindingInfo, ComputePipeline, check_arguments, check_threadgroup_arguments,
}
use metal_runtime.Dispatch.Bindings.{Below, check_arguments_iff, check_threadgroup_arguments_iff}
use metal_runtime.Errors.{ok, ok-injective}
use metal_runtime.Reflection.{
  Binding, BindingType, buffer_binding, threadgroup_binding, other_binding, PipelineState, reflect,
  reflected, build,
}

abbrev pub is_buffer : Binding → Bool
is_buffer b = elim (b.type) [
  | buffer_binding ↦ b.used
  | threadgroup_binding ↦ false
  | other_binding n ↦ false
]

abbrev pub is_threadgroup : Binding → Bool
is_threadgroup b = elim (b.type) [
  | buffer_binding ↦ false
  | threadgroup_binding ↦ b.used
  | other_binding n ↦ false
]

-- What is known of the bindings that pass a test, in their order.
abbrev pub select : (Binding → Bool) → (Binding → BindingInfo) → List Binding → List BindingInfo
select test info [] = []
select test info (b ∷ bs) = let rest = select test info bs in if test b then info b ∷ rest else rest

-- What a pipeline must know of a used argument: its index, its name, and for a buffer the size of what it
-- points at.
abbrev pub buffer_facts : Binding → BindingInfo
buffer_facts b = record { index = b.index; name = b.name; data_size = b.buffer_data_size }

abbrev pub threadgroup_facts : Binding → BindingInfo
threadgroup_facts b = record { index = b.index; name = b.name; data_size = 0 }

Reflects : List Binding → Type 0
Reflects bs =
    reflect bs ≡ (select is_buffer buffer_facts bs, select is_threadgroup threadgroup_facts bs)

reflect_cons :
    (bs : List Binding) (used : Bool) (index : ℕ) (name : Text) (type : BindingType) (size : ℕ)
    → Reflects bs
    → Reflects (
        record { used = used; index = index; name = name; type = type; buffer_data_size = size }
        ∷ bs)
unfolding reflect Reflects
reflect_cons bs false index name buffer_binding size h = h
reflect_cons bs false index name threadgroup_binding size h = h
reflect_cons bs false index name (other_binding n) size h = h
reflect_cons bs true index name buffer_binding size h = rw h refl
reflect_cons bs true index name threadgroup_binding size h = rw h refl
reflect_cons bs true index name (other_binding n) size h = h

reflect-select : (bs : List Binding) → Reflects bs
unfolding reflect Reflects
reflect-select [] = refl
reflect-select (b ∷ bs) =
    reflect_cons bs b.used b.index b.name b.type b.buffer_data_size (reflect-select bs)

-- The pipeline that a reflection stands for: a pass over the bindings for each list.
abbrev pub described : Text → PipelineState → List Binding → ComputePipeline
described label p bs = record {
  label = label;
  buffer_bindings = select is_buffer buffer_facts bs;
  threadgroup_bindings = select is_threadgroup threadgroup_facts bs;
  max_threads_per_threadgroup = p.max_total_threads_per_threadgroup;
  thread_execution_width = p.thread_execution_width;
  static_threadgroup_memory_length = p.static_threadgroup_memory_length;
}

Below_cons :
    (n : ℕ) (hit : Bool) (x : BindingInfo) (xs : List BindingInfo) (i : ℕ) (Rest : Type 0)
    → x.index ≡ i
    → Below n xs ↔ Rest
    → Below n (if hit then x ∷ xs else xs) ↔ ((hit ≡ true → i < n) × Rest)
Below_cons n true x xs i Rest same rest = (
  λ h. (λ e. subst (λ i. i < n) same h.0, rest.0 h.1),
  λ h. (subst (λ i. i < n) (sym same) (h.0 refl), rest.1 h.1),
)
Below_cons n false x xs i Rest same rest =
    (λ h. (λ e. absurd (ground arith), rest.0 h), λ h. rest.1 h.1)

select-Below :
    (n : ℕ) (test : Binding → Bool) (info : Binding → BindingInfo)
    → ((b : Binding) → (info b).index ≡ b.index)
    → (bs : List Binding)
    → Below n (select test info bs) ↔ All (λ b. (test b ≡ true → b.index < n)) bs
select-Below n test info same [] = (λ h. tt, λ h. tt)
select-Below n test info same (b ∷ bs) =
    Below_cons n (test b) (info b) (select test info bs) b.index
      (All (λ b. (test b ≡ true → b.index < n)) bs) (same b) (select-Below n test info same bs)

-- A pipeline that is built from a reflection has exactly the used buffer bindings, with their sizes, and
-- the used threadgroup bindings, each in the order of the reflection. `validate`'s checks of the bound
-- arguments then pass exactly when the index of every used buffer is below the number of arguments, and
-- that of every used threadgroup memory below the number of its lengths.
pub build-described :
    (label : Text) (p : PipelineState) (bs : List Binding)
    → (build label (some p) (some bs) ≡ ok (described label p bs))
      × ((n : ℕ)
          → (check_arguments n (described label p bs).buffer_bindings ≡ ok tt)
            ↔ All (λ b. (is_buffer b ≡ true → b.index < n)) bs)
      × ((n : ℕ)
          → (check_threadgroup_arguments n (described label p bs).threadgroup_bindings ≡ ok tt)
            ↔ All (λ b. (is_threadgroup b ≡ true → b.index < n)) bs)
unfolding build reflected Reflects
build-described label p bs = (
  rw (reflect-select bs) refl,
  λ n.
      let checked = check_arguments_iff n (select is_buffer buffer_facts bs) in
      let below = select-Below n is_buffer buffer_facts (λ b. refl) bs in
      (λ h. below.0 (checked.0 h), λ h. checked.1 (below.1 h)),
  λ n.
      let checked =
        check_threadgroup_arguments_iff n (select is_threadgroup threadgroup_facts bs) in
      let below = select-Below n is_threadgroup threadgroup_facts (λ b. refl) bs in
      (λ h. below.0 (checked.0 h), λ h. checked.1 (below.1 h)),
)

-- A pipeline is labelled with the name that it was built for.
pub build-label :
    (label : Text) (state : Option PipelineState) (reflection : Option (List Binding))
    (p : ComputePipeline)
    → build label state reflection ≡ ok p
    → p.label ≡ label
unfolding build
build-label label none reflection p h = cc
build-label label (some s) reflection p h =
    sym (ap (λ (q : ComputePipeline). q.label) (ok-injective h))
