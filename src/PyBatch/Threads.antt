-- ===== src/PyBatch/Threads.antt =====
-- `PyBatch` shared by threads: the critical sections of `CommandBatch`, and the swap that ends
-- `wait`. `add` holds `keepalive_mutex_` from the encoding to the last pin, so it is one step.
use metal_runtime.Batch
use metal_runtime.Batch.Threads as Sections
use metal_runtime.Batch.{CommandBatch, Completion, commit_locked, wait_finish}
use metal_runtime.Common.{ℕ, suc, ◌≡◌, inl, inr, Bool, true, false, [], Option, if◌then◌else◌}
use metal_runtime.Errors.{Error, ok, throw, Result-cases}
use metal_runtime.PyBatch
use metal_runtime.PyBatch.{PyBatch, release, pin}
use metal_runtime.PyLaunch.{Arguments, prepare}
use metal_runtime.PyLaunch.Pinned.{Owns}

-- `waiting` counts the callers of `wait` that block on the GPU, `releasing` those that have come back
-- from it and have yet to swap the map. `completed` says that Metal has reported the end of the
-- command buffer.
pub record System : Type 0 where
  pub py : PyBatch
  pub waiting : ℕ
  pub releasing : ℕ
  pub completed : Bool

abbrev with_batch : System → CommandBatch → System
with_batch s b = record s { py = record s.py { batch = b } }

module _ (owner : ℕ → ℕ) where
  pub data Step (s : System) : System → Type 0 where
    add : (a : Arguments) → Owns owner a → Step s (record s { py = (PyBatch.add s.py a).0 })
    barrier : Step s (record s { py = (PyBatch.barrier s.py).0 })
    commit : Step s (record s { py = (PyBatch.commit s.py).0 })
    discard : Step s (record s { py = (PyBatch.discard s.py).0 })
    wait_fails :
        (e : Error)
        → (commit_locked s.py.batch).1 ≡ throw e
        → Step s (with_batch s (commit_locked s.py.batch).0)
    wait_begins :
        (commit_locked s.py.batch).1 ≡ ok tt
        → Step s (record (with_batch s (commit_locked s.py.batch).0) { waiting = suc s.waiting })
    wait_ends :
        (n : ℕ) (done : Completion)
        → s.waiting ≡ suc n
        → Step s (record {
          py = record s.py { batch = (wait_finish s.py.batch done).0 };
          waiting = n;
          releasing = if done.failed then s.releasing else suc s.releasing;
          completed = true;
        })
    wait_releases :
        (n : ℕ) → s.releasing ≡ suc n → Step s (record s { py = release s.py; releasing = n })

  pub data Reach : System → Type 0 where
    created :
        (c e : Option ℕ) (nu : Bool) (m : ℕ) (b : CommandBatch)
        → Batch.create c e nu m ≡ ok b
        → Reach (record {
          py = record { batch = b; keepalive = [] };
          waiting = 0;
          releasing = 0;
          completed = false;
        })
    later : {s t : System} → Reach s → Step s t → Reach t

  abbrev pub sections : System → Sections.System
  sections s = record { batch = s.py.batch; waiting = s.waiting }

  add-sections :
      (s : System) (a : Arguments)
      → Sections.Reach (sections s)
      → Sections.Reach (sections (record s { py = (PyBatch.add s.py a).0 }))
  unfolding PyBatch.add
  add-sections s a r = elim (Result-cases (prepare a)) [
    | inr (e, refused) ↦ rw (refused, PyBatch.add) r
    | inl (p, prepared) ↦ elim (Result-cases (Batch.add s.py.batch p.launch).1) [
      | inr (e, refused) ↦
          rw (prepared, refused, PyBatch.add) (Sections.later r (Sections.add p.launch))
      | inl (u, added) ↦
          rw (prepared, added, PyBatch.add) (Sections.later r (Sections.add p.launch))
    ]
  ]

  -- Python's steps are steps of the batch.
  Step-sections :
      {s t : System} → Step s t → Sections.Reach (sections s) → Sections.Reach (sections t)
  unfolding PyBatch.barrier PyBatch.commit PyBatch.discard
  Step-sections {s} (add a owns) r = add-sections s a r
  Step-sections barrier r = Sections.later r Sections.barrier
  Step-sections commit r = Sections.later r Sections.commit
  Step-sections discard r = Sections.later r Sections.discard
  Step-sections (wait_fails e h) r = Sections.later r (Sections.wait_fails e h)
  Step-sections (wait_begins h) r = Sections.later r (Sections.wait_begins h)
  Step-sections (wait_ends n done h) r = Sections.later r (Sections.wait_ends n done h)
  Step-sections (wait_releases n h) r = r

  pub Reach-sections : {s : System} → Reach s → Sections.Reach (sections s)
  Reach-sections (created c e nu m b h) = Sections.created c e nu m b h
  Reach-sections (later r st) = Step-sections st (Reach-sections r)
