-- ===== src/CApi/Contract.antt =====
-- What the entry points promise a C caller.
use metal_runtime.Batch
use metal_runtime.Batch.{Command, CommandBatch, Completion, dispatch, destroy}
use metal_runtime.CApi.{MrLaunchDesc, build_launch}
use metal_runtime.CApi.Named.{named, renamed, build_launch-named, exception-named}
use metal_runtime.CApi.Entry.{
  mr_dispatch, add_description, mr_batch_create, mr_batch_add, mr_batch_wait, mr_release_batch,
}
use metal_runtime.CApi.Answers.{stale, holds}
use metal_runtime.CApi.Answers.{Out}
use metal_runtime.Common.{
  ◌≡◌, inl, inr, refl, sym, ap, ◌∙◌, subst, Bool, true, false, List, [], Option, none, some,
  if◌then◌else◌, Text, codes,
}
use metal_runtime.Dispatch.{Launch}
use metal_runtime.Errors.{Exception, Error, exception, Result, ok, throw, Result-cases}
use metal_runtime.Errors.Translate.{MrStatus, mr_ok, Message, mr_guard, status_of}

-- `status == MR_OK`
abbrev pub is_ok : MrStatus → Bool
is_ok mr_ok = true
is_ok s = false

pub status_of-is_ok : (e : Exception) → is_ok (status_of e) ≡ false
unfolding status_of
status_of-is_ok Exception.metal_error = refl
status_of-is_ok _ = refl

-- The handle in an out parameter.
abbrev pub handle : {A : Type 0} → Out A → Option A
handle (some (holds a)) = some a
handle out = none

abbrev pub dispatch_name : Text
dispatch_name = codes "mr_dispatch"

abbrev add_name : Text
add_name = codes "mr_batch_add"

-- A launch by the functions of `MRBatch`: create, add, wait if that went well, release.
abbrev pub dispatch_by_batch :
    Bool
    → Result CommandBatch
    → Option MrLaunchDesc
    → Completion
    → Option Message
    → List Command × (MrStatus × Option Message)
dispatch_by_batch malloc made desc done message =
    let created = mr_batch_create malloc made (some stale) message in
    elim (handle created.1) [
      | none ↦ ([], created.0)
      | some b ↦
          let added = mr_batch_add malloc (some b) desc message in
          let waited = mr_batch_wait malloc added.0 done message in
          if is_ok added.1.0
          then (mr_release_batch waited.0, waited.1)
          else (mr_release_batch added.0, added.1)
    ]

build_launch-ok :
    (desc : Option MrLaunchDesc) (l : Launch)
    → build_launch dispatch_name desc ≡ ok l
    → build_launch add_name desc ≡ ok l
build_launch-ok desc l built =
    build_launch-named dispatch_name add_name desc ∙ ap (renamed add_name) built

build_launch-throw :
    (desc : Option MrLaunchDesc) (e : Error)
    → build_launch dispatch_name desc ≡ throw e
    → build_launch add_name desc ≡ throw (named add_name e)
build_launch-throw desc e failed =
    build_launch-named dispatch_name add_name desc ∙ ap (renamed add_name) failed

status_of-named :
    (who : Text) (e : Error) → status_of (exception e) ≡ status_of (exception (named who e))
status_of-named who e = ap status_of (sym (exception-named who e))

add_description-built :
    (desc : Option MrLaunchDesc) (l : Launch) (b : CommandBatch)
    → build_launch add_name desc ≡ ok l
    → add_description desc b ≡ Batch.add b l
unfolding add_description
add_description-built desc l b built = rw (built, add_description) refl

-- The end of both, over what the addition leaves.
after_add : CommandBatch × Result (Unit {0}) → Completion → List Command × Result (Unit {0})
after_add (b, ok u) done = (destroy (Batch.wait b done).0, (Batch.wait b done).1)
after_add (b, throw e) done = (destroy b, throw e)

-- The calls behind `mr_batch_add`.
by_calls :
    Bool
    → Option Message
    → Completion
    → Option CommandBatch × (MrStatus × Option Message)
    → List Command × (MrStatus × Option Message)
by_calls malloc message done added =
    let waited = mr_batch_wait malloc added.0 done message in
    if is_ok added.1.0
    then (mr_release_batch waited.0, waited.1)
    else (mr_release_batch added.0, added.1)

by_calls-after_add :
    (malloc : Bool) (message : Option Message) (done : Completion)
    (r : CommandBatch × Result (Unit {0}))
    → by_calls malloc message done (some r.0, mr_guard malloc message r.1)
      ≡ ((after_add r done).0, mr_guard malloc message (after_add r done).1)
unfolding by_calls after_add mr_guard mr_batch_wait mr_release_batch
by_calls-after_add malloc message done (b, ok u) = refl
by_calls-after_add malloc message done (b, throw e) = rw (status_of-is_ok (exception e)) refl

dispatch-after_add :
    (b : CommandBatch) (l : Launch) (done : Completion)
    → dispatch b l done ≡ after_add (Batch.add b l) done
unfolding dispatch after_add
dispatch-after_add b l done = elim (Result-cases (Batch.add b l).1) [
  | inr (e, refused) ↦ rw (refused, dispatch, after_add) refl
  | inl (u, added) ↦ rw (added, dispatch, after_add) refl
]

created-by_batch :
    (malloc : Bool) (b : CommandBatch) (desc : Option MrLaunchDesc) (l : Launch) (done : Completion)
    (message : Option Message)
    → build_launch dispatch_name desc ≡ ok l
    → mr_dispatch malloc (ok b) desc done message
      ≡ dispatch_by_batch malloc (ok b) desc done message
unfolding mr_dispatch mr_batch_create mr_batch_add mr_guard by_calls
created-by_batch malloc b desc l done message built =
    let r = Batch.add b l in
    let guarded : CommandBatch × Result (Unit {0}) → List Command × (MrStatus × Option Message) =
      λ r. by_calls malloc message done (some r.0, mr_guard malloc message r.1) in
    let once : mr_dispatch malloc (ok b) desc done message
        ≡ ((dispatch b l done).0, mr_guard malloc message (dispatch b l done).1) =
      rw (built, mr_dispatch) refl in
    once
    ∙ ap (λ (x : List Command × Result (Unit {0})). (x.0, mr_guard malloc message x.1))
        (dispatch-after_add b l done)
    ∙ sym (by_calls-after_add malloc message done r)
    ∙ ap guarded (sym (add_description-built desc l b (build_launch-ok desc l built)))

refused-by_batch :
    (malloc : Bool) (b : CommandBatch) (desc : Option MrLaunchDesc) (e : Error) (done : Completion)
    (message : Option Message)
    → build_launch add_name desc ≡ throw e
    → (dispatch_by_batch malloc (ok b) desc done message).1
      ≡ mr_guard {A = Unit {0}} malloc message (throw e)
unfolding mr_batch_create mr_batch_add mr_batch_wait mr_release_batch add_description mr_guard
refused-by_batch malloc b desc e done message failed =
    rw (failed, mr_batch_add, add_description, mr_guard, status_of-is_ok (exception e)) refl

-- Both calls refuse the description: each answers the error of its own message, which name their entry
-- points and are the same otherwise.
abbrev pub BothRefuse :
    Bool
    → Option Message
    → Error
    → List Command × (MrStatus × Option Message)
    → List Command × (MrStatus × Option Message)
    → Type 0
BothRefuse malloc message e once by_calls =
    (once ≡ ([], mr_guard {A = Unit {0}} malloc message (throw e)))
    × (by_calls.1 ≡ mr_guard {A = Unit {0}} malloc message (throw (named add_name e)))
    × (once.1.0 ≡ by_calls.1.0)

-- `mr_dispatch` does what creating a batch, adding the launch, waiting and releasing do. For a
-- description that makes a launch it calls Metal in the same way and answers the same. For any other
-- it calls nothing; if the batch can be created, both answer the same status, with the same message but
-- for the entry point that it names.
pub mr_dispatch-by_batch :
    (malloc : Bool) (made : Result CommandBatch) (desc : Option MrLaunchDesc) (done : Completion)
    (message : Option Message)
    → ((l : Launch)
        → build_launch dispatch_name desc ≡ ok l
        → mr_dispatch malloc made desc done message
          ≡ dispatch_by_batch malloc made desc done message)
      × ((b : CommandBatch) (e : Error)
          → made ≡ ok b
          → build_launch dispatch_name desc ≡ throw e
          → BothRefuse malloc message e
              (mr_dispatch malloc made desc done message)
              (dispatch_by_batch malloc made desc done message))
unfolding mr_dispatch mr_batch_create mr_guard
mr_dispatch-by_batch malloc made desc done message = (
  λ l built.
      elim made
        as (λ m.
          mr_dispatch malloc m desc done message ≡ dispatch_by_batch malloc m desc done message) [
            | throw e ↦ rw (built, mr_dispatch) refl
            | ok b ↦ created-by_batch malloc b desc l done message built
          ],
  λ b e created failed.
      subst
        (λ made.
          BothRefuse malloc message e (mr_dispatch malloc made desc done message)
            (dispatch_by_batch malloc made desc done message))
        (sym created)
        (let once : mr_dispatch malloc (ok b) desc done message
              ≡ ([], mr_guard {A = Unit {0}} malloc message (throw e)) =
            rw (failed, mr_dispatch) refl in
          let calls =
            refused-by_batch malloc b desc (named add_name e) done message
              (build_launch-throw desc e failed) in
          (
            once,
            calls,
            ap (λ (r : List Command × (MrStatus × Option Message)). r.1.0) once
                ∙ status_of-named add_name e
                ∙ ap (λ (r : MrStatus × Option Message). r.0) (sym calls),
          )),
)
