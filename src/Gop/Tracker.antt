-- ===== src/Gop/Tracker.antt =====
-- `DamagedGopTracker`: after a damaged frame, nothing is decoded before a key frame that can be.
use agora_link.Prelude.{
  ℕ, ◌+◌, ◌-◌, ◌%◌, ◌^◌, max, List, Bool, true, false, not, ◌&&◌, ◌||◌, if◌then◌else◌, Option, none,
  some, Result, ok, err,
}
use agora_link.Reassembly.{EncodedFrame, inc}
use agora_link.Gop.AnnexB.{
  AnnexBParameterSets, AnnexBNalSummary, no_parameter_sets, summarize_nals, update_from,
  prepend_missing_to_keyframe, KeyframeError,
}

-- The counters but for the two floating point numbers.
pub record DamagedGopStats : Type 0 where
  pub damaged_gop_count : ℕ
  pub frames_discarded_damaged_gop : ℕ
  pub frames_discarded_waiting_keyframe : ℕ
  pub recovery_completed : ℕ
  pub recovery_wait_frames_total : ℕ
  pub recovery_wait_frames_max : ℕ
  pub waiting_keyframe_entries : ℕ
  pub waiting_keyframe_exits : ℕ
  pub idr_frames_received : ℕ
  pub idr_frames_used_for_recovery : ℕ
  pub non_idr_frames_discarded_waiting : ℕ

pub record DamagedGopTracker : Type 0 where
  pub enabled : Bool
  pub waiting_keyframe : Bool
  pub recovery_started_at : Option ℕ
  pub recovery_started_frame_id : Option ℕ
  pub parameter_sets : AnnexBParameterSets
  pub stats : DamagedGopStats

abbrev pub new_gop_tracker : Bool → DamagedGopTracker
new_gop_tracker enabled = record {
  enabled = enabled;
  waiting_keyframe = false;
  recovery_started_at = none;
  recovery_started_frame_id = none;
  parameter_sets = no_parameter_sets;
  stats = record {
    damaged_gop_count = 0;
    frames_discarded_damaged_gop = 0;
    frames_discarded_waiting_keyframe = 0;
    recovery_completed = 0;
    recovery_wait_frames_total = 0;
    recovery_wait_frames_max = 0;
    waiting_keyframe_entries = 0;
    waiting_keyframe_exits = 0;
    idr_frames_received = 0;
    idr_frames_used_for_recovery = 0;
    non_idr_frames_discarded_waiting = 0;
  };
}

unfoldable pub mark_damaged : DamagedGopTracker → ℕ → Option ℕ → DamagedGopTracker × Bool
mark_damaged t now damaged_frame_id = if not t.enabled || t.waiting_keyframe then (t, false) else (
  record t {
    waiting_keyframe = true;
    recovery_started_at = some now;
    recovery_started_frame_id = damaged_frame_id;
    stats = record t.stats {
      damaged_gop_count = inc t.stats.damaged_gop_count;
      waiting_keyframe_entries = inc t.stats.waiting_keyframe_entries;
    };
  },
  true,
)

-- The parameter sets are cached and a key frame is counted, whatever happens to the frame.
abbrev pub note_nals : DamagedGopTracker → List ℕ → DamagedGopTracker
note_nals t bytes = record t {
  parameter_sets = update_from t.parameter_sets bytes;
  stats =
      if (summarize_nals bytes).has_idr_slice
      then record t.stats { idr_frames_received = inc t.stats.idr_frames_received }
      else t.stats;
}

abbrev with_bytes : EncodedFrame → List ℕ → EncodedFrame
with_bytes frame bytes = record frame { bytes = bytes }

abbrev repaired_or : EncodedFrame → Result KeyframeError (List ℕ) → EncodedFrame
repaired_or frame (ok bytes) = with_bytes frame bytes
repaired_or frame (err e) = frame

-- A frame while nothing is damaged; a key frame without parameter sets gets the cached ones.
abbrev pass_frame : AnnexBParameterSets → AnnexBNalSummary → EncodedFrame → EncodedFrame
pass_frame sets summary frame =
    if summary.has_idr_slice && (not summary.has_sps || not summary.has_pps)
    then repaired_or frame (prepend_missing_to_keyframe sets frame.bytes)
    else frame

abbrev discard : DamagedGopTracker → DamagedGopTracker
discard t = record t {
  stats = record t.stats {
    frames_discarded_damaged_gop = inc t.stats.frames_discarded_damaged_gop;
    frames_discarded_waiting_keyframe = inc t.stats.frames_discarded_waiting_keyframe;
  };
}

abbrev discard_non_idr : DamagedGopTracker → DamagedGopTracker
discard_non_idr t =
    let d = discard t in
    record d {
      stats = record d.stats {
        non_idr_frames_discarded_waiting = inc d.stats.non_idr_frames_discarded_waiting;
      };
    }

abbrev count_completed : Option ℕ → DamagedGopStats → DamagedGopStats
count_completed none t = t
count_completed (some started_at) t = record t { recovery_completed = inc t.recovery_completed }

abbrev count_wait : Option ℕ → ℕ → DamagedGopStats → DamagedGopStats
count_wait none frame_id t = t
count_wait (some started) frame_id t = record t {
  recovery_wait_frames_total = (t.recovery_wait_frames_total + (frame_id - started)) % 2 ^ 64;
  recovery_wait_frames_max = max t.recovery_wait_frames_max (frame_id - started);
}

abbrev count_exit : DamagedGopStats → DamagedGopStats
count_exit t = record t {
  waiting_keyframe_exits = inc t.waiting_keyframe_exits;
  idr_frames_used_for_recovery = inc t.idr_frames_used_for_recovery;
}

abbrev resume : DamagedGopTracker → ℕ → DamagedGopTracker
resume t frame_id = record t {
  waiting_keyframe = false;
  recovery_started_at = none;
  recovery_started_frame_id = none;
  stats = count_exit (
      count_wait t.recovery_started_frame_id frame_id
        (count_completed t.recovery_started_at t.stats));
}

abbrev pub resume_with :
    Result KeyframeError (List ℕ)
    → DamagedGopTracker
    → EncodedFrame
    → DamagedGopTracker × Option EncodedFrame
resume_with (ok bytes) t frame = (resume t frame.frame_id, some (with_bytes frame bytes))
resume_with (err e) t frame = (discard t, none)

abbrev pub prepare_noted :
    DamagedGopTracker → AnnexBNalSummary → EncodedFrame → DamagedGopTracker × Option EncodedFrame
prepare_noted t summary frame =
    if not t.enabled || not t.waiting_keyframe
    then (t, some (pass_frame t.parameter_sets summary frame))
    else if not summary.has_idr_slice
    then (discard_non_idr t, none)
    else resume_with (prepend_missing_to_keyframe t.parameter_sets frame.bytes) t frame

-- The time of the call only goes into the floating point counters.
unfoldable pub prepare_frame :
    DamagedGopTracker → EncodedFrame → DamagedGopTracker × Option EncodedFrame
prepare_frame t frame = prepare_noted (note_nals t frame.bytes) (summarize_nals frame.bytes) frame

unfoldable discard_queued_frames : DamagedGopTracker → ℕ → DamagedGopTracker
discard_queued_frames t count =
    if t.enabled && t.waiting_keyframe
    then record t {
      stats = record t.stats {
        frames_discarded_damaged_gop = (t.stats.frames_discarded_damaged_gop + count) % 2 ^ 64;
        frames_discarded_waiting_keyframe =
            (t.stats.frames_discarded_waiting_keyframe + count) % 2 ^ 64;
      };
    }
    else t

unfoldable reset_for_profile_change : DamagedGopTracker → DamagedGopTracker
reset_for_profile_change t = record t {
  waiting_keyframe = false;
  recovery_started_at = none;
  recovery_started_frame_id = none;
  parameter_sets = no_parameter_sets;
}
