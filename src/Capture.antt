-- ===== src/Capture.antt =====
-- src/runtime.cpp: `MetalRuntime::start_capture`, `stop_capture` and `is_capturing`. A process has one
-- capture manager, which code outside of the program also calls.
pub mod Stop
use metal_runtime.Common.{
  ◌≡◌, Bool, true, false, not, ◌&&◌, List, [], ◌∷◌, Option, none, some, Text, if◌then◌else◌,
}
use metal_runtime.Errors.{
  Result, ok, throw, ◌>>=◌, empty_capture_path, capture_in_progress, capture_unsupported,
  capture_failed, no_capture_started, capture_stopped_outside,
}

-- Who started the capture that runs. The program cannot see it: it asks only whether one runs.
pub data Owner : Type 0 where
  program outside : Owner

-- `started` is `capture_started_`; `manager` is the process's capture manager.
pub record CaptureState : Type 0 where
  pub started : Bool
  pub manager : Option Owner

-- `isCapturing()`
abbrev pub running : Option Owner → Bool
running none = false
running (some owner) = true

abbrev is_empty : Text → Bool
is_empty [] = true
is_empty (c ∷ cs) = false

-- What the system answers: whether trace documents are supported, what `to_ns_string` makes of the
-- path, and whether the manager starts.
pub record Answers : Type 0 where
  pub supported : Bool
  pub output_path : Result (Unit {0})
  pub starts : Bool

-- Behind the two questions to the manager.
unfoldable pub start_manager : Text → Answers → CaptureState → CaptureState × Result (Unit {0})
start_manager path answers s = elim answers.output_path [
  | throw e ↦ (s, throw e)
  | ok _ ↦
      if not answers.starts
      then (s, throw (capture_failed path))
      else (record { started = true; manager = some program }, ok tt)
]

unfoldable pub start_capture : Text → Answers → CaptureState → CaptureState × Result (Unit {0})
unfolding start_manager
start_capture path answers s =
    if is_empty path
    then (s, throw empty_capture_path)
    else if running s.manager
    then (s, throw capture_in_progress)
    else if not answers.supported
    then (s, throw capture_unsupported)
    else start_manager path answers s

unfoldable pub stop_capture : CaptureState → CaptureState × Result (Unit {0})
stop_capture s =
    if not s.started
    then (s, throw no_capture_started)
    else if not (running s.manager)
    then (record s { started = false }, throw capture_stopped_outside)
    else (record { started = false; manager = none }, ok tt)

unfoldable pub is_capturing : CaptureState → Bool
is_capturing s = running s.manager

-- One call: of the program, or of code outside, which may also stop the program's capture.
pub data Step (s : CaptureState) : CaptureState → Type 0 where
  starts : (path : Text) (answers : Answers) → Step s (start_capture path answers s).0
  stops : Step s (stop_capture s).0
  outside_starts : s.manager ≡ none → Step s (record s { manager = some outside })
  outside_stops : Step s (record s { manager = none })

pub data Reach : CaptureState → Type 0 where
  created : Reach (record { started = false; manager = none })
  later : {s t : CaptureState} → Reach s → Step s t → Reach t
