-- ===== src/PyBatch/Pinned.antt =====
-- Until the command buffer has ended, the owners of all buffers it uses are pinned.
use metal_runtime.Batch
use metal_runtime.Batch.Threads.{
  SystemInv, Reach-Inv, add-committed, barrier-committed, commit_locked-committed,
  discard-committed, wait_finish-committed,
}
use metal_runtime.Batch.{
  Command, memory_barrier, end_encoding, commit_buffer, CommandBatch, Completion, commit_locked,
  wait_finish, encode,
}
use metal_runtime.Common.{
  ℕ, ◌≡◌, ◌⊎◌, inl, inr, refl, sym, ap, ◌∙◌, subst, arith, Bool, true, ◌||◌, Bool-cases,
  Option-cases, List, [], ◌∷◌, Option, none, some, All, All-append,
}
use metal_runtime.Dispatch.{Launch}
use metal_runtime.Errors.{Result, ok, throw, undefined_behaviour, Result-cases}
use metal_runtime.PyBatch
use metal_runtime.PyBatch.Threads.{
  System, Step, Reach, sections, Reach-sections, created, later, add, barrier, commit, discard,
  wait_fails, wait_begins, wait_ends, wait_releases,
}
use metal_runtime.PyBatch.Uses.{
  uses, LogIsPinned, LogIsPinned-mono, contains-pin, add-cases, encode-pinned,
}
use metal_runtime.PyBatch.{PyBatch, pin}
use metal_runtime.PyLaunch.{Arguments, prepare}
use metal_runtime.PyLaunch.Pinned.{IsPinned, Owns, prepare-IsPinned}

module _ (owner : ℕ → ℕ) where
  barrier-pinned :
      (os : List ℕ) (b : CommandBatch)
      → LogIsPinned owner os b.log
      → LogIsPinned owner os (Batch.barrier b).0.log
  unfolding Batch.barrier Batch.send
  barrier-pinned os b h = elim (Bool-cases (b.committed || b.discarded)) [
    | inl over ↦ rw (over, Batch.barrier) h
    | inr live ↦ elim (Option-cases b.encoder) [
      | inl closed ↦ rw (live, closed, Batch.barrier, Batch.send) h
      | inr (e, opened) ↦
          rw (live, opened, Batch.barrier, Batch.send)
            (All-append (λ c. All (IsPinned owner os) (uses c)) b.log (memory_barrier ∷ []) h
              (tt, tt))
    ]
  ]

  send-pinned :
      (os : List ℕ) (b : CommandBatch) (cs : List Command × Result (Unit {0}))
      → LogIsPinned owner os b.log
      → LogIsPinned owner os cs.0
      → LogIsPinned owner os (Batch.send b cs).0.log
  unfolding Batch.send
  send-pinned os b cs h new = elim (Option-cases b.encoder) [
    | inl closed ↦ rw (closed, Batch.send) h
    | inr (e, opened) ↦
        rw (opened, Batch.send)
          (All-append (λ c. All (IsPinned owner os) (uses c)) b.log cs.0 h new)
  ]

  commit_locked-pinned :
      (os : List ℕ) (b : CommandBatch)
      → LogIsPinned owner os b.log
      → LogIsPinned owner os (commit_locked b).0.log
  unfolding commit_locked
  commit_locked-pinned os b h =
      let marked : CommandBatch = record b { committed = true } in
      elim (Bool-cases b.discarded) [
        | inl over ↦ rw (over, commit_locked) h
        | inr live ↦ elim (Bool-cases b.committed) [
          | inl over ↦ rw (live, over, commit_locked) h
          | inr fresh ↦ elim (Option-cases b.command_buffer) [
            | inl gone ↦
                let is : commit_locked b
                    ≡ Batch.send marked (end_encoding ∷ [], throw undefined_behaviour) =
                  ground arith in
                subst (λ (o : Batch.Outcome). LogIsPinned owner os o.0.log) (sym is)
                  (send-pinned os marked (end_encoding ∷ [], throw undefined_behaviour) h (tt, tt))
            | inr (c, held) ↦
                let is : commit_locked b
                    ≡ Batch.send marked (end_encoding ∷ commit_buffer ∷ [], ok tt) =
                  ground arith in
                subst (λ (o : Batch.Outcome). LogIsPinned owner os o.0.log) (sym is)
                  (send-pinned os marked (end_encoding ∷ commit_buffer ∷ [], ok tt) h
                    (tt, (tt, tt)))
          ]
        ]
      ]

  discard-pinned :
      (os : List ℕ) (b : CommandBatch)
      → LogIsPinned owner os b.log
      → LogIsPinned owner os (Batch.discard b).0.log
  unfolding Batch.discard
  discard-pinned os b h = elim (Bool-cases (b.committed || b.discarded)) [
    | inl over ↦ rw (over, Batch.discard) h
    | inr live ↦ elim (Option-cases b.encoder) [
      | inl closed ↦ rw (live, closed, Batch.discard) h
      | inr (e, opened) ↦
          rw (live, opened, Batch.discard)
            (All-append (λ c. All (IsPinned owner os) (uses c)) b.log (end_encoding ∷ []) h
              (tt, tt))
    ]
  ]

  -- `PyBatch::add` pins what it encodes.
  add-pinned :
      (b : PyBatch) (a : Arguments)
      → Owns owner a
      → LogIsPinned owner b.keepalive b.batch.log
      → LogIsPinned owner (PyBatch.add b a).0.keepalive (PyBatch.add b a).0.batch.log
  unfolding PyBatch.add
  add-pinned b a owns h = elim (Result-cases (prepare a)) [
    | inr (e, refused) ↦ rw (refused, PyBatch.add) h
    | inl (p, made) ↦ elim (add-cases b.batch p.launch) [
      | inl same ↦
          let log : (Batch.add b.batch p.launch).0.log ≡ b.batch.log =
            ap (λ (b : CommandBatch). b.log) same in
          elim (Result-cases (Batch.add b.batch p.launch).1) [
            | inr (e, refused) ↦
                rw (made, refused, PyBatch.add) (subst (LogIsPinned owner b.keepalive) (sym log) h)
            | inl (u, added) ↦
                let os : List ℕ = pin b.keepalive p.keepalive in
                let old =
                  LogIsPinned-mono owner b.keepalive os b.batch.log
                    (λ o h. contains-pin o b.keepalive p.keepalive (inl h)) h in
                rw (made, added, PyBatch.add) (subst (LogIsPinned owner os) (sym log) old)
          ]
      | inr (k, log, fine) ↦
          let os : List ℕ = pin b.keepalive p.keepalive in
          let old =
            LogIsPinned-mono owner b.keepalive os b.batch.log
              (λ o h. contains-pin o b.keepalive p.keepalive (inl h)) h in
          let launch = (prepare-IsPinned owner a p owns made).0 in
          let new : LogIsPinned owner os (encode k p.launch b.batch.non_uniform).0 =
            LogIsPinned-mono owner p.keepalive os (encode k p.launch b.batch.non_uniform).0
              (λ o h. contains-pin o b.keepalive p.keepalive (inr h))
              (encode-pinned owner p.keepalive k p.launch b.batch.non_uniform launch) in
          rw (made, fine, PyBatch.add)
            (subst (LogIsPinned owner os) (sym log) (
              All-append (λ c. All (IsPinned owner os) (uses c)) b.batch.log
                (encode k p.launch b.batch.non_uniform).0 old new))
    ]
  ]

  add-committed_py :
      (b : PyBatch) (a : Arguments)
      → b.batch.committed ≡ true
      → (PyBatch.add b a).0.batch.committed ≡ true
  unfolding PyBatch.add
  add-committed_py b a h = elim (Result-cases (prepare a)) [
    | inr (e, refused) ↦ rw (refused, PyBatch.add) h
    | inl (p, made) ↦
        let same : (Batch.add b.batch p.launch).0.committed ≡ true =
          ap (λ (b : CommandBatch). b.committed) (add-committed b.batch p.launch h) ∙ h in
        elim (Result-cases (Batch.add b.batch p.launch).1) [
          | inr (e, refused) ↦ rw (made, refused, PyBatch.add) same
          | inl (u, added) ↦ rw (made, added, PyBatch.add) same
        ]
  ]

  -- Until Metal reports the end of the command buffer nobody releases, and all that it uses is pinned;
  -- from then on the batch is committed.
  abbrev pub IsKept : System → Type 0
  IsKept s =
      ((s.completed ≡ true) × (s.py.batch.committed ≡ true))
      ⊎ ((s.releasing ≡ 0) × LogIsPinned owner s.py.keepalive s.py.batch.log)

  keep :
      (s : System) (b : CommandBatch)
      → IsKept s
      → (s.py.batch.committed ≡ true → b.committed ≡ true)
      → (LogIsPinned owner s.py.keepalive s.py.batch.log → LogIsPinned owner s.py.keepalive b.log)
      → IsKept (record s { py = record s.py { batch = b } })
  keep s b (inl (done, committed)) stays logged = inl (done, stays committed)
  keep s b (inr (idle, pinned)) stays logged = inr (idle, logged pinned)

  create-log :
      (c e : Option ℕ) (nu : Bool) (m : ℕ) (b : CommandBatch)
      → Batch.create c e nu m ≡ ok b
      → b.log ≡ []
  unfolding Batch.create
  create-log none e nu m b h = cc
  create-log (some c) none nu m b h = cc
  create-log (some c) (some e) nu m b h = ground arith

  wait_finish-log : (b : CommandBatch) (done : Completion) → (wait_finish b done).0.log ≡ b.log
  unfolding wait_finish
  wait_finish-log b done = ground arith

  Step-IsKept : {s t : System} → Step owner s t → SystemInv (sections owner s) → IsKept s → IsKept t
  unfolding PyBatch.barrier PyBatch.commit PyBatch.discard Batch.commit
  Step-IsKept {s} (add a owns) v (inl (done, committed)) =
      inl (done, add-committed_py s.py a committed)
  Step-IsKept {s} (add a owns) v (inr (idle, pinned)) = inr (idle, add-pinned s.py a owns pinned)
  Step-IsKept {s} barrier v k =
      let b = s.py.batch in
      keep s (Batch.barrier b).0 k
        (λ h. ap (λ (b : CommandBatch). b.committed) (barrier-committed b h) ∙ h)
        (barrier-pinned s.py.keepalive b)
  Step-IsKept {s} commit v k =
      let b = s.py.batch in
      keep s (commit_locked b).0 k
        (λ h. ap (λ (b : CommandBatch). b.committed) (commit_locked-committed b h) ∙ h)
        (commit_locked-pinned s.py.keepalive b)
  Step-IsKept {s} discard v k =
      let b = s.py.batch in
      keep s (Batch.discard b).0 k
        (λ h. ap (λ (b : CommandBatch). b.committed) (discard-committed b h) ∙ h)
        (discard-pinned s.py.keepalive b)
  Step-IsKept {s} (wait_fails e h) v k =
      let b = s.py.batch in
      keep s (commit_locked b).0 k
        (λ h. ap (λ (b : CommandBatch). b.committed) (commit_locked-committed b h) ∙ h)
        (commit_locked-pinned s.py.keepalive b)
  Step-IsKept {s} (wait_begins h) v k =
      let b = s.py.batch in
      keep s (commit_locked b).0 k
        (λ h. ap (λ (b : CommandBatch). b.committed) (commit_locked-committed b h) ∙ h)
        (commit_locked-pinned s.py.keepalive b)
  Step-IsKept {s} (wait_ends n done h) v k =
      let committed : s.py.batch.committed ≡ true = ground (arith, v.waits) in
      inl (refl, wait_finish-committed s.py.batch done ∙ committed)
  Step-IsKept {s} (wait_releases n h) v (inl k) = inl k
  Step-IsKept {s} (wait_releases n h) v (inr (idle, pinned)) = absurd (omega arith)

  Reach-IsKept : {s : System} → Reach owner s → IsKept s
  Reach-IsKept (created c e nu m b h) =
      inr (refl, subst (LogIsPinned owner []) (sym (create-log c e nu m b h)) tt)
  Reach-IsKept (later r st) = Step-IsKept st (Reach-Inv (Reach-sections owner r)) (Reach-IsKept r)

  -- Whatever threads do with a batch, and whatever the order of their critical sections: until Metal
  -- has reported the end of the command buffer, the owner of every Metal buffer that an encoded command
  -- uses is pinned, where each Python buffer that is passed owns its Metal buffer. From then on the
  -- batch is committed, and encodes nothing more.
  pub Reach-IsPinned :
      {s : System}
      → Reach owner s
      → ((s.completed ≡ true) × ((l : Launch) → (Batch.add s.py.batch l).0 ≡ s.py.batch))
        ⊎ LogIsPinned owner s.py.keepalive s.py.batch.log
  Reach-IsPinned {s} r = elim (Reach-IsKept r) [
    | inl (done, committed) ↦ inl (done, λ l. add-committed s.py.batch l committed)
    | inr (idle, pinned) ↦ inr pinned
  ]
