-- ===== src/Playout.antt =====
-- The playout buffer of rust-native/agoralink_media/src/playout_buffer.rs: complete frames wait for the
-- time at which they are shown. Instants are nanoseconds; adding to one does not overflow.
pub mod Release
use agora_link.Prelude.{
  ℕ, ◌+◌, ◌-◌, ◌*◌, ◌^◌, ◌%◌, max, List, [], ◌∷◌, ◌++◌, length, Bool, leb, ltb, if◌then◌else◌,
  Option, none, some, Result, ok, err,
}
use agora_link.Reassembly.{EncodedFrame}

abbrev max_playout_delay_ms : ℕ
max_playout_delay_ms = 500

-- Five milliseconds.
abbrev late_tolerance : ℕ
late_tolerance = 5000000

-- `Duration::from_millis`
abbrev pub from_millis : ℕ → ℕ
from_millis ms = ms * 1000000

-- The counters but for the two floating point numbers.
pub record PlayoutStats : Type 0 where
  pub buffer_peak_frames : ℕ
  pub late_frames : ℕ
  pub dropped_late_frames : ℕ
  pub dropped_discontinuity_frames : ℕ
  pub released_frames : ℕ

pub record BufferedFrame : Type 0 where
  pub frame : EncodedFrame
  pub completed_at : ℕ
  pub target_playout_at : ℕ

pub record PlayoutBuffer : Type 0 where
  pub delay : ℕ
  pub frames : List BufferedFrame
  pub first_timestamp_ms : Option ℕ
  pub first_target_at : Option ℕ
  pub last_target_at : Option ℕ
  pub stats : PlayoutStats

pub data PlayoutError : Type 0 where
  delay_too_long : PlayoutError

unfoldable pub new_buffer : ℕ → Result PlayoutError PlayoutBuffer
new_buffer playout_delay_ms =
    if ltb max_playout_delay_ms playout_delay_ms
    then err delay_too_long
    else ok (record {
      delay = from_millis playout_delay_ms;
      frames = [];
      first_timestamp_ms = none;
      first_target_at = none;
      last_target_at = none;
      stats = record {
        buffer_peak_frames = 0;
        late_frames = 0;
        dropped_late_frames = 0;
        dropped_discontinuity_frames = 0;
        released_frames = 0;
      };
    })

-- `*optional.get_or_insert(value)`
abbrev get_or_insert : Option ℕ → ℕ → ℕ
get_or_insert none value = value
get_or_insert (some old) value = old

-- `map_or(target, |last| target.max(last))`
abbrev pub not_before : Option ℕ → ℕ → ℕ
not_before none target = target
not_before (some last) target = max target last

-- The time of a frame on the line of the first one, unless it is older than that one.
abbrev on_line : ℕ → ℕ → ℕ → ℕ → ℕ
on_line timestamp_ms first_timestamp_ms first_target_at fallback =
    if leb first_timestamp_ms timestamp_ms
    then first_target_at + from_millis (timestamp_ms - first_timestamp_ms)
    else fallback

unfoldable pub target_playout_at : PlayoutBuffer → ℕ → ℕ → ℕ
target_playout_at b timestamp_ms completed_at =
    let fallback = completed_at + b.delay in
    not_before b.last_target_at (
      on_line timestamp_ms (get_or_insert b.first_timestamp_ms timestamp_ms)
        (get_or_insert b.first_target_at fallback) fallback)

abbrev pub push_frame : PlayoutBuffer → EncodedFrame → ℕ → PlayoutBuffer
push_frame b frame completed_at =
    let target = target_playout_at b frame.timestamp_ms completed_at in
    record b {
      first_timestamp_ms = some (get_or_insert b.first_timestamp_ms frame.timestamp_ms);
      first_target_at = some (get_or_insert b.first_target_at (completed_at + b.delay));
      last_target_at = some target;
      frames =
          b.frames
          ++ record { frame = frame; completed_at = completed_at; target_playout_at = target } ∷ [];
    }

abbrev pub push_loop : PlayoutBuffer → List EncodedFrame → ℕ → PlayoutBuffer
push_loop b [] completed_at = b
push_loop b (frame ∷ frames) completed_at =
    push_loop (push_frame b frame completed_at) frames completed_at

abbrev note_peak : PlayoutBuffer → PlayoutBuffer
note_peak b = record b {
  stats = record b.stats { buffer_peak_frames = max b.stats.buffer_peak_frames (length b.frames) };
}

unfoldable pub push_frames : PlayoutBuffer → List EncodedFrame → ℕ → PlayoutBuffer
push_frames b frames completed_at = note_peak (push_loop b frames completed_at)

-- A frame that is shown more than the tolerance after its time is late; a `u64` counter wraps.
abbrev pub count_release : PlayoutStats → BufferedFrame → ℕ → PlayoutStats
count_release t buffered now = record t {
  late_frames =
      if ltb late_tolerance (now - buffered.target_playout_at)
      then (t.late_frames + 1) % 2 ^ 64
      else t.late_frames;
  released_frames = (t.released_frames + 1) % 2 ^ 64;
}

-- The frames that are due from the front on, those that stay, and the counters.
abbrev pub pop_loop :
    List BufferedFrame → PlayoutStats → ℕ → List BufferedFrame × List BufferedFrame × PlayoutStats
pop_loop [] t now = ([], [], t)
pop_loop (buffered ∷ frames) t now =
    let rest = pop_loop frames (count_release t buffered now) now in
    if leb buffered.target_playout_at now
    then (buffered ∷ rest.0, rest.1, rest.2)
    else ([], buffered ∷ frames, t)

abbrev pub popped : PlayoutBuffer → ℕ → List BufferedFrame × List BufferedFrame × PlayoutStats
popped b now = pop_loop b.frames b.stats now

abbrev pub bare_frames : List BufferedFrame → List EncodedFrame
bare_frames [] = []
bare_frames (buffered ∷ frames) = buffered.frame ∷ bare_frames frames

unfoldable pub pop_due : PlayoutBuffer → ℕ → PlayoutBuffer × List EncodedFrame
pop_due b now =
    (record b { frames = (popped b now).1; stats = (popped b now).2 }, bare_frames (popped b now).0)

unfoldable pub clear_for_discontinuity : PlayoutBuffer → PlayoutBuffer
clear_for_discontinuity b = record b {
  stats = record b.stats {
    dropped_discontinuity_frames =
        (b.stats.dropped_discontinuity_frames + length b.frames) % 2 ^ 64;
  };
  frames = [];
  first_timestamp_ms = none;
  first_target_at = none;
  last_target_at = none;
}
