-- ===== src/Reassembly/Nacks/Wanted.antt =====
-- What the receiver asks for belongs to a frame in flight, and no frame is asked for too much.
use agora_link.Prelude.{
  ℕ, ◌≤◌, ◌≡◌, refl, ap, List, [], ◌∷◌, length, ◌++◌, get_elem?, All, Bool, true, false, ◌||◌, leb,
  ◌==◌, if_cases, Option, none, some, arith,
}
use mathlib.Core.Path.{subst}
use agora_link.Map.{Map}
use agora_link.Wire.Nack.{PacketKey}
use agora_link.Reassembly.{H264Reassembler, FrameAssembly, inc}
use agora_link.Reassembly.Nacks.{
  note_detection, report_detection, collect_candidate, collect_frame, collect_loop, nack_deadline,
  query_of, collect_nack_items, unchanged, request_noted, count_first_round, age_of_frame,
  is_progressing, detects_gap, count_suppressed,
}
use agora_link.Reassembly.Requests.{
  NackQuery, NackCollectionStats, no_collection_stats, Collected, Scan, asked_within, scan_packets,
  end_scan, request_frame,
}
use agora_link.Reassembly.Nacks.Missing.{IsMissing, scan_packets-IsScan}

-- What a frame gives.
abbrev IsFair : NackQuery → ℕ → FrameAssembly → List PacketKey → Type 0
IsFair q frame_id frame items =
    All (IsMissing q frame_id frame.packets frame.nack_requested_at) items
    × (length items ≤ q.max_items_per_frame)

module _ (q : NackQuery) (frame_id : ℕ) where
  end_scan-items :
      (frame : FrameAssembly) (scan : Scan) → (end_scan q frame scan).items ≡ scan.items
  end_scan-items frame scan =
      if_cases (λ (c : Collected). c.items ≡ scan.items) (scan.count == 0) _ _ (λ _. refl)
        (λ _. refl)

  request_frame-IsFair :
      (frame : FrameAssembly) (t : NackCollectionStats)
      → IsFair q frame_id frame (request_frame q frame_id frame t).items
  request_frame-IsFair frame t =
      if_cases (λ (c : Collected). IsFair q frame_id frame c.items)
        (asked_within frame.last_nack_at q.now q.repeat) _ _ (λ _. (tt, omega arith))
        (λ _.
          let from : Scan = record {
            requested = frame.nack_requested_at;
            items = [];
            count = 0;
            stats = t;
          } in
          let scan : Scan = scan_packets q frame_id frame.packets 0 from in
          let (_, h) =
            scan_packets-IsScan q frame_id frame.packets frame.nack_requested_at frame.packets 0
              from (λ j. ap (get_elem? frame.packets) (omega arith))
              (record {
                later = λ j le. refl;
                missing = tt;
                counted = refl;
                limited = omega arith;
              }) in
          rw (end_scan-items frame scan) (h.missing, omega (arith, h.counted, h.limited)))

  -- Noting and reporting a gap leaves the packets and the requests.
  abbrev SamePackets : FrameAssembly → FrameAssembly → Type 0
  SamePackets frame noted =
      (noted.packets ≡ frame.packets) × (noted.nack_requested_at ≡ frame.nack_requested_at)

  note_detection-same :
      (detects : Bool) (frame : FrameAssembly) → SamePackets frame (note_detection detects q frame)
  note_detection-same true frame = (refl, refl)
  note_detection-same false frame = (refl, refl)

  report_detection-same :
      (at : Option ℕ) (deadline : ℕ) (frame : FrameAssembly) (t : NackCollectionStats)
      → SamePackets frame (report_detection at deadline frame t).0
  report_detection-same none deadline frame t = (refl, refl)
  report_detection-same (some detected_at) deadline frame t =
      if_cases (λ (r : FrameAssembly × NackCollectionStats). SamePackets frame r.0)
        frame.missing_detection_reported _ _ (λ _. (refl, refl)) (λ _. (refl, refl))

  moved-IsFair :
      (frame noted : FrameAssembly) (items : List PacketKey)
      → SamePackets frame noted
      → IsFair q frame_id noted items
      → IsFair q frame_id frame items
  moved-IsFair frame noted items (p, r) h = (
    subst (λ packets. All (IsMissing q frame_id packets frame.nack_requested_at) items) p
        (subst (λ requested. All (IsMissing q frame_id noted.packets requested) items) r h.0),
    h.1,
  )

  request_noted-IsFair :
      (deadline : ℕ) (detects : Bool) (frame : FrameAssembly) (t : NackCollectionStats)
      → IsFair q frame_id frame (request_noted q deadline frame_id detects frame t).items
  request_noted-IsFair deadline detects frame t =
      let noted : FrameAssembly = note_detection detects q frame in
      let reported : FrameAssembly × NackCollectionStats =
        report_detection noted.missing_first_detected_at deadline noted t in
      moved-IsFair frame noted _ (note_detection-same detects frame) (
        moved-IsFair noted reported.0 _
          (report_detection-same noted.missing_first_detected_at deadline noted t)
          (request_frame-IsFair reported.0 (count_first_round reported.0 reported.1)))

  -- `IsFair` of what was collected, as a predicate that the conditional can be read from.
  Fair : FrameAssembly → Collected → Type 0
  Fair frame c = IsFair q frame_id frame c.items

  unchanged-Fair :
      (frame : FrameAssembly) (t : NackCollectionStats) → Fair frame (unchanged frame t)
  unfolding Fair
  unchanged-Fair frame t = (tt, omega arith)

  noted-Fair :
      (deadline : ℕ) (detects : Bool) (frame : FrameAssembly) (t : NackCollectionStats)
      → Fair frame (request_noted q deadline frame_id detects frame t)
  unfolding Fair
  noted-Fair deadline detects frame t = request_noted-IsFair deadline detects frame t

  collect_candidate-Fair :
      (deadline : ℕ) (frame : FrameAssembly) (t : NackCollectionStats)
      → Fair frame (collect_candidate q deadline frame_id frame t)
  collect_candidate-Fair deadline frame t =
      if_cases (Fair frame) (leb deadline (age_of_frame q frame)) _ _ (λ _. unchanged-Fair frame t)
        (λ _.
          if_cases (Fair frame) (is_progressing q deadline frame_id frame) _ _
            (λ _. unchanged-Fair frame (count_suppressed q frame t))
            (λ _. noted-Fair deadline (detects_gap q deadline frame_id frame) frame t))

  collect_frame-IsFair :
      (deadline : ℕ) (frame : FrameAssembly) (t : NackCollectionStats)
      → IsFair q frame_id frame (collect_frame q deadline frame_id frame t).items
  unfolding collect_frame Fair
  collect_frame-IsFair deadline frame t =
      if_cases (Fair frame) (frame.missing_count == 0 || leb q.max_rounds frame.nack_rounds)
        (unchanged frame t)
        (collect_candidate q deadline frame_id frame
          (record t { candidate_frames = inc t.candidate_frames }))
        (λ _. unchanged-Fair frame t)
        (λ _.
          collect_candidate-Fair deadline frame
            (record t { candidate_frames = inc t.candidate_frames }))

-- The keys that are asked for are a row for each frame in flight, in their order, each row a fair one
-- for its frame.
abbrev pub AreWanted : NackQuery → Map ℕ FrameAssembly → List PacketKey → Type 0
AreWanted q [] items = items ≡ []
AreWanted q ((frame_id, frame) ∷ frames) items =
    (own others : List PacketKey) × (items ≡ own ++ others)
    × IsFair q frame_id frame own
    × AreWanted q frames others

collect_loop-AreWanted :
    (q : NackQuery) (deadline : ℕ) (frames : Map ℕ FrameAssembly) (t : NackCollectionStats)
    → AreWanted q frames (collect_loop q deadline frames t).1
collect_loop-AreWanted q deadline [] t = refl
collect_loop-AreWanted q deadline ((frame_id, frame) ∷ frames) t =
    let collected : Collected = collect_frame q deadline frame_id frame t in
    (
      collected.items,
      (collect_loop q deadline frames collected.stats).1,
      refl,
      collect_frame-IsFair q frame_id deadline frame t,
      collect_loop-AreWanted q deadline frames collected.stats,
    )

-- What the receiver asks for is a row of packets for each frame in flight, in the order of the frames:
-- every packet of a frame's row belongs to that frame, has not arrived, and was not asked for within the
-- repeat time; and no row is longer than the limit of packets for a frame, which is at least one.
pub collect_nack_items-IsWanted :
    (s : H264Reassembler) (now delay repeat max_rounds repair_window max_items : ℕ)
    → AreWanted
        (query_of s now delay repeat max_rounds repair_window max_items)
        s.inflight
        (collect_nack_items s now delay repeat max_rounds repair_window max_items).1
unfolding collect_nack_items
collect_nack_items-IsWanted s now delay repeat max_rounds repair_window max_items =
    collect_loop-AreWanted (query_of s now delay repeat max_rounds repair_window max_items)
      (nack_deadline s.config.frame_timeout repair_window) s.inflight no_collection_stats
