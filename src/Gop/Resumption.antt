-- ===== src/Gop/Resumption.antt =====
-- After damage, decoding resumes with a key frame.
use agora_link.Prelude.{◌≡◌, List, [], ◌∷◌, ◌++◌, true, false, Option, none, some, ok}
use agora_link.Reassembly.{EncodedFrame}
use agora_link.Gop.AnnexB.{
  AnnexBParameterSets, update_from, summarize_nals, prepend_missing_to_keyframe,
}
use agora_link.Gop.Tracker.{DamagedGopTracker, prepare_frame}

-- The frames that go on to the decoder.
abbrev output_of : Option EncodedFrame → List EncodedFrame → List EncodedFrame
output_of none frames = frames
output_of (some frame) frames = frame ∷ frames

abbrev pub prepare_all :
    DamagedGopTracker → List EncodedFrame → DamagedGopTracker × List EncodedFrame
prepare_all t [] = (t, [])
prepare_all t (frame ∷ frames) =
    let prepared = prepare_frame t frame in
    let rest = prepare_all prepared.0 frames in (rest.0, output_of prepared.1 rest.1)

-- The tracker waits for a key frame.
abbrev pub IsWaiting : DamagedGopTracker → Type 0
IsWaiting t = (t.enabled ≡ true) × (t.waiting_keyframe ≡ true)

-- A frame that is made decodable: a key frame, with those of the parameter sets that it lacks put
-- before it.
abbrev IsCompleted : AnnexBParameterSets → EncodedFrame → EncodedFrame → Type 0
IsCompleted sets frame out =
    ((summarize_nals frame.bytes).has_idr_slice ≡ true)
    × (out.frame_id ≡ frame.frame_id)
    × (out.timestamp_ms ≡ frame.timestamp_ms)
    × (prepend_missing_to_keyframe sets frame.bytes ≡ ok out.bytes)

-- A waiting tracker either goes on waiting with the sets in its cache, or puts out a key frame completed
-- from them and waits no more.
abbrev Resumes :
    AnnexBParameterSets → EncodedFrame → DamagedGopTracker × Option EncodedFrame → Type 0
Resumes sets frame (t, none) = IsWaiting t × (t.parameter_sets ≡ sets)
Resumes sets frame (t, some out) = IsCompleted sets frame out × (t.waiting_keyframe ≡ false)

-- The cache after a row of frames: each frame brings it up to date with the sets that it carries.
abbrev sets_after : AnnexBParameterSets → List EncodedFrame → AnnexBParameterSets
sets_after sets [] = sets
sets_after sets (frame ∷ frames) = sets_after (update_from sets frame.bytes) frames

-- What comes out of a row of frames begins with a key frame of the row, completed from the cache as it
-- is after that frame and those before it.
abbrev pub BeginsAnew : AnnexBParameterSets → List EncodedFrame → List EncodedFrame → Type 0
BeginsAnew sets frames [] = Unit
BeginsAnew sets frames (out ∷ outs) =
    (before : List EncodedFrame) × (frame : EncodedFrame) × (after : List EncodedFrame) × (frames
      ≡ before ++ frame ∷ after)
    × IsCompleted (sets_after sets (before ++ frame ∷ [])) frame out
