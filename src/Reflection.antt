-- ===== src/Reflection.antt =====
-- src/dispatch.cpp: `ComputePipeline`'s constructor, over what Metal reports of the new pipeline state.
pub mod Used
pub mod Origin
pub mod Bound
use metal_runtime.Common.{ℕ, Bool, true, List, [], ◌∷◌, Option, none, some, Text, if◌then◌else◌}
use metal_runtime.Dispatch.{BindingInfo, ComputePipeline}
use metal_runtime.Errors.{Result, ok, throw, pipeline_build}

-- `MTL::BindingType`
pub data BindingType : Type 0 where
  buffer_binding threadgroup_binding : BindingType
  other_binding : ℕ → BindingType

-- `MTL::Binding`; `buffer_data_size` is that of a buffer binding.
pub record Binding : Type 0 where
  pub used : Bool
  pub index : ℕ
  pub name : Text
  pub type : BindingType
  pub buffer_data_size : ℕ

pub record PipelineState : Type 0 where
  pub max_total_threads_per_threadgroup : ℕ
  pub thread_execution_width : ℕ
  pub static_threadgroup_memory_length : ℕ

abbrev pub buffer_info : Binding → BindingInfo
buffer_info b = record { index = b.index; name = b.name; data_size = b.buffer_data_size }

abbrev pub threadgroup_info : Binding → BindingInfo
threadgroup_info b = record { index = b.index; name = b.name; data_size = 0 }

-- The loop over the bindings: the used buffers, and the used threadgroup memory.
unfoldable pub reflect : List Binding → List BindingInfo × List BindingInfo
reflect [] = ([], [])
reflect (b ∷ bs) =
    let rest = reflect bs in
    if b.used
    then elim (b.type) [
      | buffer_binding ↦ (buffer_info b ∷ rest.0, rest.1)
      | threadgroup_binding ↦ (rest.0, threadgroup_info b ∷ rest.1)
      | other_binding n ↦ rest
    ]
    else rest

-- Without a reflection the lists stay empty.
unfoldable pub reflected : Option (List Binding) → List BindingInfo × List BindingInfo
unfolding reflect
reflected none = ([], [])
reflected (some bs) = reflect bs

-- The constructor; a null pipeline state is `none`.
unfoldable pub build : Text → Option PipelineState → Option (List Binding) → Result ComputePipeline
unfolding reflected
build label none reflection = throw pipeline_build
build label (some p) reflection =
    let bindings = reflected reflection in
    ok (record {
      label = label;
      buffer_bindings = bindings.0;
      threadgroup_bindings = bindings.1;
      max_threads_per_threadgroup = p.max_total_threads_per_threadgroup;
      thread_execution_width = p.thread_execution_width;
      static_threadgroup_memory_length = p.static_threadgroup_memory_length;
    })
