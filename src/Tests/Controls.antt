-- ===== src/Tests/Controls.antt =====
-- The control datagrams, the feedback tracker and the shutdown on small inputs.
use agora_link.Prelude.{
  ◌++◌, ℕ, ◌≡◌, ◌≤◌, ◌↔◌, refl, List, [], ◌∷◌, true, false, some, ok, err, guarded, arith,
}
use agora_link.Bytes.{to_be_bytes, from_be_bytes}
use agora_link.Control.Profile.Change.{ProfileChange, change_bytes, read_change}
use agora_link.Control.Profile.Change as Change
use agora_link.Control.Profile.Change.Codec.{decode_iff_change}
use agora_link.Control.Close.Request.{StreamClose, read_close, close_bytes}
use agora_link.Control.Close.Request as Request
use agora_link.Control.Close.Answer.{ack, matches}
use agora_link.Control.Close.Answer as Answer
use agora_link.Control.Close.Handshake.{answer-matches}
use agora_link.Control.Feedback.{CapabilityFeedback, feedback_bytes, read_feedback}
use agora_link.Control.Feedback as Feedback
use agora_link.Control.Feedback.Codec.{IsCarried, decode_iff_feedback}
use agora_link.Control.Feedback.Tracker.{
  new_tracker, undecoded, observe_feedback, observe_feedback_all, reset_for_session,
}
use agora_link.Control.Feedback.Tracker.Newest.{
  IsNewest, IsRefused, came_after, observe_feedback_all-IsNewest, observe_feedback-error,
}
use agora_link.Shutdown.{duration}
use agora_link.Shutdown.Coordinator.{
  stops, looks, runs, fails, cleans, finishes, new_coordinator, take_turns, token_reason,
}
use agora_link.Shutdown.Coordinator.Once.{begun, begun-once, first_stop, token_reason-first}

-- 1280 by 720 at 60 frames a second and 8 megabits a second.
abbrev pub to_720p : ProfileChange
to_720p = record {
  version = 1;
  old_session_id = 7;
  new_session_id = 8;
  change_sequence = 1;
  profile_generation = 2;
  width = 1280;
  height = 720;
  fps = 60;
  bitrate_mbps = 0x41000000;
  timestamp_us = 1000;
  reason_code = 2;
}

abbrev to_720p_sent : List ℕ
to_720p_sent =
    b'M' ∷ b'P' ∷ b'R' ∷ b'F' ∷ 1 ∷ 0 ∷ 0 ∷ 0 ∷ 0 ∷ 0 ∷ 0 ∷ 0 ∷ 0 ∷ 0 ∷ 0 ∷ 7 ∷ 0 ∷ 0 ∷ 0 ∷ 0 ∷ 0
    ∷ 0 ∷ 0 ∷ 8 ∷ 0 ∷ 0 ∷ 0 ∷ 0 ∷ 0 ∷ 0 ∷ 0 ∷ 1 ∷ 0 ∷ 0 ∷ 0 ∷ 0 ∷ 0 ∷ 0 ∷ 0 ∷ 2 ∷ 0 ∷ 0 ∷ 5 ∷ 0 ∷ 0
    ∷ 0 ∷ 2 ∷ 208 ∷ 0 ∷ 0 ∷ 0 ∷ 60 ∷ 65 ∷ 0 ∷ 0 ∷ 0 ∷ 0 ∷ 0 ∷ 0 ∷ 0 ∷ 0 ∷ 0 ∷ 3 ∷ 232 ∷ 2 ∷ []

to_720p-encode : Change.encode to_720p ≡ ok to_720p_sent
unfolding Change.encode change_bytes guarded to_be_bytes
to_720p-encode = refl

decode_iff_change_example :
    (Change.decode to_720p_sent ≡ ok to_720p)
    ↔ (Change.IsWellTyped to_720p × (Change.encode to_720p ≡ ok to_720p_sent))
decode_iff_change_example = decode_iff_change to_720p_sent to_720p (ground arith)

abbrev feedback_sent : List ℕ
feedback_sent =
    b'M' ∷ b'C' ∷ b'F' ∷ b'B' ∷ 1 ∷ 0 ∷ 0 ∷ 0 ∷ 0 ∷ 0 ∷ 0 ∷ 0 ∷ 0 ∷ 0 ∷ 0 ∷ 7 ∷ 0 ∷ 0 ∷ 0 ∷ 0 ∷ 0
    ∷ 0 ∷ 0 ∷ 9 ∷ 0 ∷ 0 ∷ 0 ∷ 0 ∷ 0 ∷ 0 ∷ 0 ∷ 2 ∷ 0 ∷ 0 ∷ 0 ∷ 60 ∷ 0 ∷ 0 ∷ 0 ∷ 1 ∷ 0 ∷ 0 ∷ 7 ∷ 128
    ∷ 0 ∷ 0 ∷ 4 ∷ 56 ∷ 0 ∷ 0 ∷ 0 ∷ 0 ∷ 0 ∷ 0 ∷ 0 ∷ 0 ∷ 0 ∷ 0 ∷ 0 ∷ 0 ∷ 0 ∷ 0 ∷ 0 ∷ 0 ∷ 0 ∷ 0 ∷ 0 ∷ 0
    ∷ 0 ∷ 0 ∷ 0 ∷ 1 ∷ 0 ∷ 0 ∷ 0 ∷ 0 ∷ 0 ∷ 0 ∷ 0 ∷ 0 ∷ 0 ∷ 0 ∷ 0 ∷ 0 ∷ 0 ∷ 0 ∷ 0 ∷ 0 ∷ 0 ∷ 0 ∷ 0 ∷ 0
    ∷ 0 ∷ 0 ∷ 0 ∷ 0 ∷ 0 ∷ 0 ∷ 0 ∷ 0 ∷ 0 ∷ 0 ∷ 0 ∷ 0 ∷ 0 ∷ 0 ∷ 0 ∷ 0 ∷ 0 ∷ 0 ∷ 0 ∷ 5 ∷ []

abbrev full_hd : CapabilityFeedback
full_hd = record {
  version = 1;
  session_id = 7;
  feedback_sequence = 9;
  display_generation = 2;
  display_refresh_numerator = 60;
  display_refresh_denominator = 1;
  display_width = 1920;
  display_height = 1080;
  present_fps_measured = 0;
  present_interval_p95_ms = 0;
  active_render_fps = 0;
  decoder_input_fps = 0;
  decode_queue_drops_delta = 1;
  render_replacements_delta = 0;
  repair_deadline_missed_delta = 0;
  damaged_gop_delta = 0;
  packets_lost_delta = 0;
  timestamp_us = 5;
  profile_generation = 0;
  state_flags = 0;
  valid_feedback_windows = 0;
  transition_settle_windows = 0;
  transition_settle_duration_ms = 0;
  profile_transition_started_us = 0;
}

full_hd-decode : Feedback.decode feedback_sent ≡ ok full_hd
unfolding Feedback.decode read_feedback guarded from_be_bytes
full_hd-decode = refl

decode_iff_feedback_example : (Feedback.decode feedback_sent ≡ ok full_hd) ↔ (
    Feedback.IsWellTyped full_hd × IsCarried full_hd × (Feedback.encode full_hd ≡ ok feedback_sent))
decode_iff_feedback_example = decode_iff_feedback feedback_sent full_hd (ground arith)

abbrev close_sent : List ℕ
close_sent =
    b'M' ∷ b'C' ∷ b'L' ∷ b'S' ∷ 1 ∷ 1 ∷ 8 ∷ 0 ∷ 0 ∷ 0 ∷ 0 ∷ 0 ∷ 0 ∷ 0 ∷ 0 ∷ 7 ∷ 0 ∷ 0 ∷ 0 ∷ 0 ∷ 0
    ∷ 0 ∷ 0 ∷ 3 ∷ 0 ∷ 0 ∷ 0 ∷ 0 ∷ 0 ∷ 0 ∷ 0 ∷ 5 ∷ 0 ∷ 0 ∷ 0 ∷ 0 ∷ 0 ∷ 0 ∷ 1 ∷ 4 ∷ []

abbrev local_close : StreamClose
local_close = record {
  version = 1;
  stream_id = 1;
  reason_code = 8;
  video_session_id = 7;
  close_id = 3;
  timestamp_us = 5;
  last_frame_id = 260;
}

local_close-decode : Request.decode close_sent ≡ ok local_close
unfolding Request.decode read_close guarded from_be_bytes
local_close-decode = refl

answer-matches_example :
    (answer : List ℕ) × (Answer.encode (ack local_close) ≡ ok answer)
    × (Answer.decode answer ≡ ok (ack local_close))
    × (matches (ack local_close) local_close ≡ true)
answer-matches_example = answer-matches close_sent local_close (ground arith) local_close-decode

observe_feedback_all-IsNewest_example :
    IsNewest
      (observe_feedback_all
        (reset_for_session new_tracker)
        7
        ((feedback_sent, 100) ∷ (close_sent, 200) ∷ (feedback_sent, 300) ∷ [])).latest
      (came_after 7 ((feedback_sent, 100) ∷ (close_sent, 200) ∷ (feedback_sent, 300) ∷ []) [])
observe_feedback_all-IsNewest_example =
    observe_feedback_all-IsNewest new_tracker 7
      ((feedback_sent, 100) ∷ (close_sent, 200) ∷ (feedback_sent, 300) ∷ [])

held : (observe_feedback new_tracker feedback_sent 7 100).0.latest ≡ some (full_hd, 100)
unfolding observe_feedback Feedback.decode read_feedback guarded from_be_bytes
held = refl

refused : (observe_feedback new_tracker close_sent 7 100).1 ≡ err (undecoded Feedback.not_feedback)
unfolding observe_feedback Feedback.decode read_feedback guarded from_be_bytes
refused = refl

observe_feedback-error_example :
    IsRefused new_tracker (observe_feedback new_tracker close_sent 7 100).0
observe_feedback-error_example =
    observe_feedback-error new_tracker close_sent 7 100 (undecoded Feedback.not_feedback) refused

begun-once_example :
    begun new_coordinator (runs ∷ cleans 1 ∷ cleans 1 ∷ fails 1 ∷ finishes true ∷ cleans 3 ∷ []) ≤ 1
begun-once_example =
    begun-once (runs ∷ cleans 1 ∷ cleans 1 ∷ fails 1 ∷ finishes true ∷ cleans 3 ∷ [])

token_reason-first_example :
    (token_reason
      (take_turns new_coordinator (runs ∷ looks false ∷ stops duration ∷ looks true ∷ [])).token
      true).1
    ≡ first_stop ((runs ∷ looks false ∷ stops duration ∷ looks true ∷ []) ++ looks true ∷ [])
token_reason-first_example =
    token_reason-first (runs ∷ looks false ∷ stops duration ∷ looks true ∷ []) true
