-- ===== src/Batch/Methods.antt =====
-- The invariant of `CommandBatch`, and that no sequence of calls breaks Metal's rules.
use metal_runtime.Batch.Encode.{encode-encoding, set_lengths-ok}
use metal_runtime.Batch.Protocol.{Phase, encoding, ended, submitted, follow, follow-append}
use metal_runtime.Batch.{
  Command, memory_barrier, end_encoding, commit_buffer, CommandBatch, Outcome, is_some, create,
  encode, send, add, barrier, commit_locked, Completion, wait_finish, wait, discard,
}
use metal_runtime.Common.{
  ℕ, ◌≡◌, inl, inr, refl, ◌∙◌, Bool, true, false, not, ◌||◌, ◌&&◌, Bool-cases, arith, List, [], ◌∷◌,
  ◌++◌, Option, none, some,
}
use metal_runtime.Dispatch.Defined.{IsDefined, validate-IsDefined, validate-ok-lengths}
use metal_runtime.Dispatch.{ComputePipeline, Launch, validate}
use metal_runtime.Errors.{Result, ok, Result-cases}

-- Where the flags say that the command buffer is.
abbrev pub phase_of : Bool → Bool → Phase
phase_of true discarded = submitted
phase_of false true = ended
phase_of false false = encoding

-- A discarded batch has reset both handles; any other holds both.
pub record Inv (b : CommandBatch) : Type 0 where
  pub legal : follow encoding b.log ≡ some (phase_of b.committed b.discarded)
  pub holds_buffer : is_some b.command_buffer ≡ not b.discarded
  pub holds_encoder : is_some b.encoder ≡ not b.discarded
  pub exclusive : (b.committed && b.discarded) ≡ false

pub create-Inv :
    (c e : Option ℕ) (nu : Bool) (m : ℕ) (b : CommandBatch) → create c e nu m ≡ ok b → Inv b
unfolding create
create-Inv none e nu m b h = cc
create-Inv (some c) none nu m b h = cc
create-Inv (some c) (some e) nu m b h = ground arith

-- A live batch holds its encoder, and is encoding unless it is committed.
open_encoder : (b : CommandBatch) → Inv b → b.discarded ≡ false → (e : ℕ) × (b.encoder ≡ some e)
open_encoder b v h = ground (arith, v)

-- The log of a live batch can be followed by what the encoder allows.
append_open :
    (b : CommandBatch) (cs : List Command)
    → Inv b
    → (b.committed || b.discarded) ≡ false
    → follow encoding (b.log ++ cs) ≡ follow encoding cs
append_open b cs v live = follow-append encoding encoding b.log cs (ground (arith, v))

-- What a method leaves behind: the invariant, and no call through a null handle.
abbrev pub IsSafe : Outcome → Type 0
IsSafe o = Inv o.0 × IsDefined o.1

pub encode-ok :
    (b : CommandBatch) (l : Launch) (p : ComputePipeline)
    → validate l b.non_uniform b.max_threadgroup_memory ≡ ok tt
    → l.pipeline ≡ some p
    → (encode p l b.non_uniform).1 ≡ ok tt
unfolding encode
encode-ok b l p h found =
    let (q, t, found', runs) = validate-ok-lengths l b.non_uniform b.max_threadgroup_memory h in
    let rounds =
      set_lengths-ok b.max_threadgroup_memory q.static_threadgroup_memory_length 0
        l.threadgroup_memory {t = t} runs in
    rw (rounds, encode) refl

pub barrier-IsSafe : (b : CommandBatch) → Inv b → IsSafe (barrier b)
unfolding barrier
barrier-IsSafe b v = elim (Bool-cases (b.committed || b.discarded)) [
  | inl over ↦ ground (arith, v)
  | inr live ↦ ground (arith, v, append_open b (memory_barrier ∷ []) v live)
]

pub commit_locked-IsSafe : (b : CommandBatch) → Inv b → IsSafe (commit_locked b)
unfolding commit_locked
commit_locked-IsSafe b v = elim (Bool-cases (b.committed || b.discarded)) [
  | inl over ↦ ground (arith, v)
  | inr live ↦ ground (arith, v, append_open b (end_encoding ∷ commit_buffer ∷ []) v live)
]

pub discard-IsSafe : (b : CommandBatch) → Inv b → IsSafe (discard b)
unfolding discard
discard-IsSafe b v = elim (Bool-cases (b.committed || b.discarded)) [
  | inl over ↦ ground (arith, v)
  | inr live ↦ ground (arith, v, append_open b (end_encoding ∷ []) v live)
]

send-IsSafe :
    (b : CommandBatch) (cs : List Command × Result (Unit {0}))
    → Inv b
    → (b.committed || b.discarded) ≡ false
    → follow encoding cs.0 ≡ some encoding
    → cs.1 ≡ ok tt
    → IsSafe (send b cs)
unfolding send
send-IsSafe b cs v live legal fine = ground (arith, v, append_open b cs.0 v live)

-- A launch that passed `validate` is encoded whole.
add_accepted :
    (b : CommandBatch) (l : Launch) (p : ComputePipeline)
    → (b.committed || b.discarded) ≡ false
    → validate l b.non_uniform b.max_threadgroup_memory ≡ ok tt
    → l.pipeline ≡ some p
    → add b l ≡ send b (encode p l b.non_uniform)
unfolding add
add_accepted b l p live h found = ground arith

pub add-IsSafe : (b : CommandBatch) (l : Launch) → Inv b → IsSafe (add b l)
unfolding add
add-IsSafe b l v = elim (Bool-cases (b.committed || b.discarded)) [
  | inl over ↦ ground (arith, v)
  | inr live ↦ elim (Result-cases (validate l b.non_uniform b.max_threadgroup_memory)) [
    | inr (x, e) ↦ ground (arith, v, validate-IsDefined l b.non_uniform b.max_threadgroup_memory)
    | inl (_, e) ↦
        let (p, t, found, runs) = validate-ok-lengths l b.non_uniform b.max_threadgroup_memory e in
        rw (add_accepted b l p live e found) (
          send-IsSafe b (encode p l b.non_uniform) v live (encode-encoding p l b.non_uniform)
            (encode-ok b l p e found))
  ]
]

pub wait_finish-IsSafe :
    (b : CommandBatch) (done : Completion)
    → Inv b
    → b.discarded ≡ false
    → IsSafe (wait_finish b done)
unfolding wait_finish
wait_finish-IsSafe b done v live = ground (arith, v)

-- A batch that a `commit_locked` returned from has not been discarded.
pub commit_locked-live :
    (b : CommandBatch)
    → (commit_locked b).1 ≡ ok tt
    → Inv b
    → ((commit_locked b).0.committed ≡ true) × ((commit_locked b).0.discarded ≡ false)
unfolding commit_locked
commit_locked-live b h v = ground (arith, v)

pub wait-IsSafe : (b : CommandBatch) (done : Completion) → Inv b → IsSafe (wait b done)
unfolding wait
wait-IsSafe b done v =
    let (inv, defined) = commit_locked-IsSafe b v in
    elim (Result-cases (commit_locked b).1) [
      | inr (x, e) ↦ rw (e, wait) (inv, λ h. defined (e ∙ h))
      | inl (_, e) ↦
          rw (e, wait)
            (wait_finish-IsSafe (commit_locked b).0 done inv (commit_locked-live b e v).1)
    ]
