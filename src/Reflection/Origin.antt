-- ===== src/Reflection/Origin.antt =====
-- What a pipeline was built from.
use metal_runtime.Common.{◌≡◌, sym, subst, List, Option, none, some, Text}
use metal_runtime.Dispatch.{ComputePipeline}
use metal_runtime.Errors.{ok}
use metal_runtime.Reflection.{PipelineState, Binding, build}
use metal_runtime.Reflection.Used.{build-label}

-- Metal's new pipeline state and reflection, from which the constructor made the pipeline.
pub record Origin (p : ComputePipeline) : Type 0 where
  pub state : PipelineState
  pub reflection : Option (List Binding)
  pub built : build p.label (some state) reflection ≡ ok p

pub build-Origin :
    (label : Text) (state : Option PipelineState) (reflection : Option (List Binding))
    (p : ComputePipeline)
    → build label state reflection ≡ ok p
    → Origin p
unfolding build
build-Origin label none reflection p h = absurd (cc)
build-Origin label (some s) reflection p h =
    let named = build-label label (some s) reflection p h in
    record {
      state = s;
      reflection = reflection;
      built = subst (λ label. build label (some s) reflection ≡ ok p) (sym named) h;
    }
