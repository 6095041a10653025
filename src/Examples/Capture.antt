-- ===== src/Examples/Capture.antt =====
-- A capture of the program, and one of code outside.
use metal_runtime.Capture.{
  program, outside, CaptureState, Answers, start_capture, stop_capture, Step, Reach, created, later,
}
use metal_runtime.Capture.Stop.{stop_capture-Owner}
use metal_runtime.Common.{◌≡◌, ◌⊎◌, refl, true, false, none, some, codes}
use metal_runtime.Errors.{ok, throw, no_capture_started, capture_stopped_outside}

abbrev answers : Answers
answers = record { supported = true; output_path = ok tt; starts = true }

abbrev idle : CaptureState
idle = record { started = false; manager = none }

abbrev capturing : CaptureState
capturing = record { started = true; manager = some program }

starts_capture : start_capture (codes "trace") answers idle ≡ (capturing, ok tt)
unfolding start_capture
starts_capture = refl

capturing-Reach : Reach (start_capture (codes "trace") answers idle).0
capturing-Reach = later created (Step.starts (codes "trace") answers)

-- Code outside ends it and starts its own.
abbrev taken : CaptureState
taken = record { started = true; manager = some outside }

taken-Reach : Reach taken
unfolding start_capture
taken-Reach = later (later capturing-Reach Step.outside_stops) (Step.outside_starts refl)

stop_capture-Owner_example :
    (taken.manager ≡ some program → stop_capture taken ≡ (idle, ok tt))
    × (taken.manager ≡ none
        → ((taken.started ≡ true) × (stop_capture taken ≡ (idle, throw capture_stopped_outside)))
          ⊎ ((taken.started ≡ false) × (stop_capture taken ≡ (taken, throw no_capture_started))))
    × (taken.manager ≡ some outside
        → (taken.started ≡ true) ⊎ (stop_capture taken ≡ (taken, throw no_capture_started)))
    × (stop_capture (stop_capture taken).0 ≡ ((stop_capture taken).0, throw no_capture_started))
stop_capture-Owner_example = stop_capture-Owner taken taken-Reach

-- If code outside ends the program's capture and starts its own, the flag is stale, and the program
-- ends the other's.
stale_flag : stop_capture taken ≡ (idle, ok tt)
unfolding stop_capture
stale_flag = refl
