-- ===== src/Tests/Recoveries.antt =====
-- The recovery after a damaged frame on small frames.
use agora_link.Prelude.{ℕ, ◌≡◌, refl, List, [], ◌∷◌, ◌++◌, true, some}
use agora_link.Reassembly.{EncodedFrame}
use agora_link.Gop.AnnexB.{scan_nals, summarize_nals, update_from, prepend_missing_to_keyframe}
use agora_link.Gop.Tracker.{DamagedGopTracker, new_gop_tracker, mark_damaged, prepare_frame}
use agora_link.Gop.Resumption.{prepare_all}

abbrev frame_of : ℕ → List ℕ → EncodedFrame
frame_of id bytes = record { frame_id = id; flags = 0; timestamp_ms = id; bytes = bytes }

-- A slice, a key frame without its sets, and one with both; the types of their units are 1, 5, 7 and 8.
abbrev slice_bytes : List ℕ
slice_bytes = 0 ∷ 0 ∷ 1 ∷ 65 ∷ 9 ∷ []

abbrev bare_key : List ℕ
bare_key = 0 ∷ 0 ∷ 0 ∷ 1 ∷ 101 ∷ 9 ∷ []

abbrev sets_bytes : List ℕ
sets_bytes = 0 ∷ 0 ∷ 0 ∷ 1 ∷ 103 ∷ 7 ∷ 0 ∷ 0 ∷ 0 ∷ 1 ∷ 104 ∷ 8 ∷ []

abbrev waiting_tracker : DamagedGopTracker
waiting_tracker = (mark_damaged (new_gop_tracker true) 5 (some 3)).0

-- The slice and the key frame without cached sets are held back, the whole key frame goes on.
resumed :
    (prepare_all waiting_tracker (
      frame_of 4 slice_bytes
      ∷ frame_of 5 bare_key
      ∷ frame_of 6 (sets_bytes ++ bare_key)
      ∷ frame_of 7 slice_bytes
      ∷ [])).1
    ≡ frame_of 6 (sets_bytes ++ bare_key) ∷ frame_of 7 slice_bytes ∷ []
unfolding prepare_frame mark_damaged summarize_nals update_from prepend_missing_to_keyframe
    scan_nals
resumed = refl
