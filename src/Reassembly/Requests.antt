-- ===== src/Reassembly/Requests.antt =====
-- The packets of one frame that the receiver asks for again, within `collect_nack_items`.
use agora_link.Prelude.{
  ℕ, ◌+◌, ◌-◌, ◌%◌, ◌^◌, max, List, [], ◌∷◌, ◌++◌, get_or, set, Bool, true, false, leb, ltb, ◌==◌,
  if◌then◌else◌, Option, none, some,
}
use agora_link.Map.{nat_eq}
use agora_link.Wire.Nack.{PacketKey}
use agora_link.Reassembly.{FrameAssembly, inc}

-- Durations in nanoseconds.
abbrev pub nack_playout_deadline_guard : ℕ
nack_playout_deadline_guard = 100000000

abbrev pub nack_confirmed_gap_debounce : ℕ
nack_confirmed_gap_debounce = 12000000

pub record NackCollectionStats : Type 0 where
  pub candidate_frames : ℕ
  pub suppressed_progressing_frames : ℕ
  pub suppressed_too_early : ℕ
  pub suppressed_already_requested : ℕ
  pub suppressed_item_limit : ℕ
  pub items_deduped : ℕ
  pub requested_frames : ℕ
  pub items_per_requested_frame_total : ℕ
  pub items_per_requested_frame_max : ℕ
  pub candidates_first_round : ℕ
  pub candidates_late_discovery : ℕ

abbrev pub no_collection_stats : NackCollectionStats
no_collection_stats = record {
  candidate_frames = 0;
  suppressed_progressing_frames = 0;
  suppressed_too_early = 0;
  suppressed_already_requested = 0;
  suppressed_item_limit = 0;
  items_deduped = 0;
  requested_frames = 0;
  items_per_requested_frame_total = 0;
  items_per_requested_frame_max = 0;
  candidates_first_round = 0;
  candidates_late_discovery = 0;
}

-- The arguments of the call, the limit of items at least one, and what it reads of the state once.
pub record NackQuery : Type 0 where
  pub now : ℕ
  pub delay : ℕ
  pub repeat : ℕ
  pub max_rounds : ℕ
  pub repair_window : ℕ
  pub max_items_per_frame : ℕ
  pub highest_complete_frame : Option ℕ
  pub highest_seen_frame : Option ℕ

-- A frame, the keys that are asked for so far, and the counters.
pub record Collected : Type 0 where
  pub frame : FrameAssembly
  pub items : List PacketKey
  pub stats : NackCollectionStats

-- `is_some_and(|last| now.saturating_duration_since(last) < repeat)`
abbrev pub asked_within : Option ℕ → ℕ → ℕ → Bool
asked_within none now repeat = false
asked_within (some last) now repeat = ltb (now - last) repeat

abbrev pub is_above : Option ℕ → ℕ → Bool
is_above none frame_id = false
is_above (some highest) frame_id = ltb frame_id highest

abbrev pub is_unset : Option ℕ → Bool
is_unset none = true
is_unset (some n) = false

-- The loop over the packets of a frame.
pub record Scan : Type 0 where
  pub requested : List (Option ℕ)
  pub items : List PacketKey
  pub count : ℕ
  pub stats : NackCollectionStats

abbrev count_asked : NackCollectionStats → NackCollectionStats
count_asked t = record t {
  suppressed_already_requested = inc t.suppressed_already_requested;
  items_deduped = inc t.items_deduped;
}

abbrev pub ask_missing : NackQuery → ℕ → ℕ → Scan → Scan
ask_missing q frame_id i scan =
    if asked_within (get_or scan.requested i none) q.now q.repeat
    then record scan { stats = count_asked scan.stats }
    else if leb q.max_items_per_frame scan.count
    then record scan {
      stats = record scan.stats { suppressed_item_limit = inc scan.stats.suppressed_item_limit };
    }
    else record scan {
      requested = set scan.requested i (some q.now);
      items = scan.items ++ record { frame_id = frame_id; packet_index = i % 2 ^ 16 } ∷ [];
      count = scan.count + 1;
    }

abbrev pub scan_packets : NackQuery → ℕ → List (Option (List ℕ)) → ℕ → Scan → Scan
scan_packets q frame_id [] i scan = scan
scan_packets q frame_id (some payload ∷ packets) i scan =
    scan_packets q frame_id packets (i + 1) scan
scan_packets q frame_id (none ∷ packets) i scan =
    scan_packets q frame_id packets (i + 1) (ask_missing q frame_id i scan)

abbrev count_request : NackCollectionStats → ℕ → NackCollectionStats
count_request t count = record t {
  requested_frames = inc t.requested_frames;
  items_per_requested_frame_total = (t.items_per_requested_frame_total + count) % 2 ^ 64;
  items_per_requested_frame_max = max t.items_per_requested_frame_max count;
}

abbrev first_asked : Option ℕ → ℕ → Option ℕ
first_asked none now = some now
first_asked (some at) now = some at

-- The round that the scan makes, if it asks for anything; the rounds are a `u8`.
abbrev pub end_scan : NackQuery → FrameAssembly → Scan → Collected
end_scan q frame scan =
    let scanned = record frame { nack_requested_at = scan.requested } in
    if scan.count == 0
    then record { frame = scanned; items = scan.items; stats = scan.stats }
    else record {
      frame = record scanned {
        last_nack_at = some q.now;
        first_nack_at = first_asked frame.first_nack_at q.now;
        nack_rounds = (frame.nack_rounds + 1) % 2 ^ 8;
      };
      items = scan.items;
      stats = count_request scan.stats scan.count;
    }

-- The frame is scanned unless all of it was asked for a short while ago.
abbrev pub request_frame : NackQuery → ℕ → FrameAssembly → NackCollectionStats → Collected
request_frame q frame_id frame t =
    if asked_within frame.last_nack_at q.now q.repeat
    then record {
      frame = frame;
      items = [];
      stats = record t {
        suppressed_already_requested =
            (t.suppressed_already_requested + frame.missing_count) % 2 ^ 64;
        items_deduped = (t.items_deduped + frame.missing_count) % 2 ^ 64;
      };
    }
    else end_scan q frame (
        scan_packets q frame_id frame.packets 0
          (record { requested = frame.nack_requested_at; items = []; count = 0; stats = t }))
