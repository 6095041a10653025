-- ===== src/Examples/PyLaunch.antt =====
-- A launch with one buffer and a scalar, and an indirect one.
use metal_runtime.Common.{
  ℕ, ◌+◌, ◌≡◌, ◌↔◌, ◌⊎◌, refl, sym, ap, ◌∙◌, [], ◌∷◌, none, some, true, false,
}
use metal_runtime.Errors.{Error, ok, throw, indirect_threadgroup, none_buffer, some-injective}
use metal_runtime.Examples.Dispatch.{kernel}
use metal_runtime.Extent.{line}
use metal_runtime.PyLaunch.{
  BufferObject, host, indirect, plain, at_offset, Arguments, PreparedLaunch, prepare, run,
}
use metal_runtime.PyLaunch.Laws.{IsPrepared, prepare_iff}
use metal_runtime.Batch.{Completion}
use metal_runtime.Examples.Batch.{fresh, fresh_made}
use metal_runtime.PyLaunch.Run.{Sent, run-Sent}
use metal_runtime.PyLaunch.Pinned.{Owns}

abbrev xs : BufferObject
xs = record { object = 107; buffer = record { handle = 7; size = 20000 } }

abbrev pub arguments : Arguments
arguments = record {
  kernel = record { object = 100; pipeline = kernel };
  grid = host (line 5000);
  threadgroup = none;
  buffers = at_offset (some xs) 16 ∷ [];
  scalars =
      record { dtype = record { code = 2; bits = 32; lanes = 1 }; data_address = 9; nbytes = 4 }
      ∷ [];
  threadgroup_memory = 100 ∷ [];
  indirect_offset = 0;
}

abbrev pub ready : PreparedLaunch
ready = record {
  launch = record {
    pipeline = some kernel;
    buffers = record { buffer = record { handle = 7; size = 20000 }; offset = 16 } ∷ [];
    scalars = record { address = 9; size = 4 } ∷ [];
    threadgroup_memory = 100 ∷ [];
    grid = record { x = 5000; y = 1; z = 1 };
    threadgroup = record { x = 1024; y = 1; z = 1 };
    indirect_grid = none;
    indirect_offset = 0;
  };
  keepalive = 100 ∷ 107 ∷ [];
  scalars = arguments.scalars;
}

prepares : prepare arguments ≡ ok ready
unfolding prepare
prepares = refl

-- An indirect grid cannot do without a threadgroup.
no_threadgroup : prepare (record arguments { grid = indirect xs }) ≡ throw indirect_threadgroup
unfolding prepare
no_threadgroup = refl

null_buffer_refused : prepare (record arguments { buffers = plain none ∷ [] }) ≡ throw none_buffer
unfolding prepare
null_buffer_refused = refl

prepare_iff_example : (prepare arguments ≡ ok ready) ↔ IsPrepared arguments ready
prepare_iff_example = prepare_iff arguments ready

-- The objects are numbered from 100, by the handles.
abbrev pub owner : ℕ → ℕ
owner h = 100 + h

pub arguments-Owns : Owns owner arguments
arguments-Owns = (
  tt,
  (
    λ b given.
        let same = some-injective given in
        ap (λ (b : BufferObject). owner b.buffer.handle) (sym same)
        ∙ ap (λ (b : BufferObject). b.object) same,
    tt,
  ),
)

abbrev finished : Completion
finished = record { elapsed = 5; failed = false }

run-Sent_example :
    ((x : Error) × (prepare arguments ≡ throw x) × (run fresh arguments finished ≡ ([], throw x)))
    ⊎ ((p : PreparedLaunch) × (prepare arguments ≡ ok p)
        × IsPrepared arguments p
        × Sent arguments p true 32768 finished (run fresh arguments finished))
run-Sent_example = run-Sent (some 1) (some 2) true 32768 fresh arguments finished fresh_made
