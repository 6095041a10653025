-- ===== src/PyBatch.antt =====
-- src/bindings.cpp: `PyBatch`, and the module's `__exit__`. A method returns the batch that it leaves
-- behind beside its result.
pub mod Uses
pub mod Threads
pub mod Pinned
pub mod Finish
use metal_runtime.Batch
use metal_runtime.Batch.{CommandBatch, Completion}
use metal_runtime.Common.{ℕ, Bool, List, [], ◌∷◌, Option, none, some, if◌then◌else◌}
use metal_runtime.Errors.{Result, ok, throw}
use metal_runtime.PyLaunch.{Arguments, contains, prepare}

-- `keepalive` is the map's keys; each stands for the object that it pins.
pub record PyBatch : Type 0 where
  pub batch : CommandBatch
  pub keepalive : List ℕ

abbrev pub Outcome : Type 0
Outcome = PyBatch × Result (Unit {0})

-- The `try_emplace` loop.
unfoldable pub pin : List ℕ → List ℕ → List ℕ
pin keepalive [] = keepalive
pin keepalive (o ∷ os) = pin (if contains o keepalive then keepalive else o ∷ keepalive) os

unfoldable pub add : PyBatch → Arguments → Outcome
unfolding prepare Batch.add pin
add b a = elim (prepare a) [
  | throw e ↦ (b, throw e)
  | ok p ↦
      let added = Batch.add b.batch p.launch in
      elim (added.1) [
        | throw e ↦ (record b { batch = added.0 }, throw e)
        | ok u ↦ (record { batch = added.0; keepalive = pin b.keepalive p.keepalive }, ok tt)
      ]
]

unfoldable pub barrier : PyBatch → Outcome
unfolding Batch.barrier
barrier b = let r = Batch.barrier b.batch in (record b { batch = r.0 }, r.1)

unfoldable pub commit : PyBatch → Outcome
unfolding Batch.commit
commit b = let r = Batch.commit b.batch in (record b { batch = r.0 }, r.1)

unfoldable pub discard : PyBatch → Outcome
unfolding Batch.discard
discard b = let r = Batch.discard b.batch in (record b { batch = r.0 }, r.1)

-- The end of `wait`: the map is swapped for an empty one.
abbrev pub release : PyBatch → PyBatch
release b = record b { keepalive = [] }

-- `wait` with no other thread in between.
unfoldable pub wait : PyBatch → Completion → Outcome
unfolding Batch.wait
wait b done =
    let r = Batch.wait b.batch done in
    elim (r.1) [
      | throw e ↦ (record b { batch = r.0 }, throw e)
      | ok u ↦ (release (record b { batch = r.0 }), ok tt)
    ]

abbrev pub gpu_time : PyBatch → Option ℕ
gpu_time b = b.batch.gpu_time

-- `__exit__`; `raised` is whether the body of the `with` statement raised.
unfoldable pub exit : PyBatch → Bool → Completion → Outcome
unfolding wait discard
exit b raised done = if raised then discard b else wait b done
