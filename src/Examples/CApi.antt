-- ===== src/Examples/CApi.antt =====
-- A range of 100 bytes behind the first 40 bytes of a page.
use metal_runtime.Buffer
use metal_runtime.Buffer.{Device}
use metal_runtime.Common.{codes, ℕ, ◌≡◌, ◌⊎◌, refl, [], ◌∷◌, map, Option, none, some, true, false}
use metal_runtime.CApi.{MrLaunchDesc, build_launch}
use metal_runtime.CApi.Memory.{Region, Copy, MrBuffer, mr_wrap_buffer, mr_buffer_flush_to}
use metal_runtime.CApi.BuildLaunch.{Describes, mr_wrap_buffer-IsWhole, build_launch-Builds}
use metal_runtime.CApi.Wrap.{
  InPlace, Owned, back, mr_wrap_buffer_covers, mr_buffer_flush_to-mr_wrap_buffer,
}
use metal_runtime.Dispatch.{Launch, check_offsets, default_threadgroup}
use metal_runtime.Errors.{ok}
use metal_runtime.Examples.Dispatch.{kernel, grid}

abbrev device : Device
device = record {
  new_buffer = λ n. some 1;
  wrap_buffer = λ address n. some 2;
  contents = λ handle. 65536;
  page_bits = 4;
}

-- One region, from 32 to 1032.
abbrev vm : ℕ → Option Region
vm address = some (record { start = 32; size = 1000; readable = true; writable = true })

abbrev wrapped : MrBuffer
wrapped = record {
  buffer = record { handle = 2; size = 112 };
  external_ptr = 72;
  external_offset = 8;
  owns_copy = false;
  logical_size = 100;
}

wraps : mr_wrap_buffer device vm 72 100 ≡ ok (wrapped, [])
unfolding mr_wrap_buffer Buffer.wrap
wraps = refl

-- Below the region, a copy is made.
abbrev copied : MrBuffer
copied = record {
  buffer = record { handle = 1; size = 100 };
  external_ptr = 8;
  external_offset = 0;
  owns_copy = true;
  logical_size = 100;
}

abbrev copy : Copy
copy = record { target = 65536; source = 8; size = 100 }

copies : mr_wrap_buffer device vm 8 100 ≡ ok (copied, copy ∷ [])
unfolding mr_wrap_buffer Buffer.allocate
copies = refl

mr_wrap_buffer_covers_example :
    (InPlace device vm 72 100 wrapped [] ⊎ Owned device 72 100 wrapped [])
    × (wrapped.external_ptr ≡ 72)
    × (wrapped.logical_size ≡ 100)
mr_wrap_buffer_covers_example = mr_wrap_buffer_covers device vm 72 100 wrapped [] wraps

mr_buffer_flush_to-mr_wrap_buffer_example :
    mr_buffer_flush_to device (some copied) ≡ ok (map back (copy ∷ []))
mr_buffer_flush_to-mr_wrap_buffer_example =
    mr_buffer_flush_to-mr_wrap_buffer device vm 8 100 copied (copy ∷ []) copies

abbrev description : MrLaunchDesc
description = record {
  pipeline = some kernel;
  buffers = some (some wrapped ∷ []);
  buffer_offsets = some (4 ∷ []);
  buffer_count = 1;
  scalars = some (some 9 ∷ []);
  scalar_sizes = some (4 ∷ []);
  scalar_count = 1;
  threadgroup_memory = none;
  threadgroup_memory_count = 0;
  grid = grid;
  threadgroup = record { x = 0; y = 0; z = 0 };
}

abbrev described : Launch
described = record {
  pipeline = some kernel;
  buffers = record { buffer = wrapped.buffer; offset = 12 } ∷ [];
  scalars = record { address = 9; size = 4 } ∷ [];
  threadgroup_memory = [];
  grid = grid;
  threadgroup = record { x = 1024; y = 1; z = 1 };
  indirect_grid = none;
  indirect_offset = 0;
}

builds : build_launch (codes "mr_dispatch") (some description) ≡ ok described
unfolding build_launch default_threadgroup
builds = refl

build_launch-Builds_example :
    Describes kernel description described × (check_offsets 0 described.buffers ≡ ok tt)
build_launch-Builds_example =
    build_launch-Builds (codes "mr_dispatch") kernel description described refl
      (mr_wrap_buffer-IsWhole device vm 72 100 wrapped [] wraps, tt) builds
