-- ===== src/Capture/Stop.antt =====
-- Whose capture `stop_capture` ends.
use metal_runtime.Capture.{
  program, outside, CaptureState, Answers, start_manager, start_capture, stop_capture, Step, starts,
  stops, outside_starts, outside_stops, Reach, created, later,
}
use metal_runtime.Common.{◌≡◌, ◌⊎◌, inl, inr, arith, Bool-cases, true, false, none, some, Text}
use metal_runtime.Errors.{ok, throw, no_capture_started, capture_stopped_outside}

-- The flag is set while the program's own capture runs. It may stay set when code outside stops that.
abbrev pub Flagged : CaptureState → Type 0
Flagged s = s.manager ≡ some program → s.started ≡ true

start_capture-Flagged :
    (path : Text) (answers : Answers) (s : CaptureState)
    → Flagged s
    → Flagged (start_capture path answers s).0
unfolding start_capture start_manager
start_capture-Flagged path answers s h = λ own. ground (arith, h)

stop_capture-Flagged : (s : CaptureState) → Flagged s → Flagged (stop_capture s).0
unfolding stop_capture
stop_capture-Flagged s h = λ own. ground (arith, h)

step-Flagged : {s t : CaptureState} → Flagged s → Step s t → Flagged t
step-Flagged {s = s} h (starts path answers) = start_capture-Flagged path answers s h
step-Flagged {s = s} h stops = stop_capture-Flagged s h
step-Flagged {s = s} h (outside_starts e) = λ own. absurd (ground arith)
step-Flagged {s = s} h outside_stops = λ own. absurd (ground arith)

Reach-Flagged : {s : CaptureState} → Reach s → Flagged s
Reach-Flagged created = λ own. absurd (ground arith)
Reach-Flagged (later r step) = step-Flagged (Reach-Flagged r) step

-- After any calls of the program and of code outside, which may also stop the program's capture: while
-- the program's own capture runs, `stop_capture` returns and ends it. While none runs, it throws, and says
-- whether the program's flag was still set. While another's runs, it throws that none was started and
-- changes nothing, unless the flag is still set. In every case a call that follows throws that none was
-- started, and changes nothing.
pub stop_capture-Owner :
    (s : CaptureState)
    → Reach s
    → (s.manager ≡ some program
        → stop_capture s ≡ (record { started = false; manager = none }, ok tt))
      × (s.manager ≡ none
          → ((s.started ≡ true)
              × (stop_capture s
                  ≡ (record { started = false; manager = none }, throw capture_stopped_outside)))
            ⊎ ((s.started ≡ false) × (stop_capture s ≡ (s, throw no_capture_started))))
      × (s.manager ≡ some outside
          → (s.started ≡ true) ⊎ (stop_capture s ≡ (s, throw no_capture_started)))
      × (stop_capture (stop_capture s).0 ≡ ((stop_capture s).0, throw no_capture_started))
unfolding stop_capture
stop_capture-Owner s r =
    let flagged = Reach-Flagged r in
    (
      λ own. let set = flagged own in ground arith,
      λ idle. elim (Bool-cases s.started) [
        | inl set ↦ inl (set, ground arith)
        | inr clear ↦ inr (clear, ground arith)
      ],
      λ other. elim (Bool-cases s.started) [ inl set ↦ inl set | inr clear ↦ inr (ground arith) ],
      elim (Bool-cases s.started) [ inl set ↦ ground arith | inr clear ↦ ground arith ],
    )
