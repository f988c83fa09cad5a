-- ===== src/Reassembly/Arrival.antt =====
-- The arrival of a datagram: `accept_datagram` up to the release of frames, `accept_packet`,
-- `accept_data_packet` and `accept_fec_packet`.
use Prim.Native.Nat.{bit_and, bit_or}
use agora_link.Prelude.{
  ℕ, ◌+◌, ◌-◌, ◌^◌, Bool, true, false, not, ltb, leb, ◌==◌, Option, none, some, length,
  if◌then◌else◌, Result, ok, err,
}
use agora_link.Map.{lookup, nat_eq}
use agora_link.Wire.Media.{MediaPacket, stream_video, max_video_frame_bytes}
use agora_link.Wire.Fec.{FecParity, FecError, decode_owned}
use agora_link.Fec.{flag_fec, flag_fec_protected}
use agora_link.Reassembly.{H264Reassembler, FrameAssembly, FloatTiming, inc}
use agora_link.Reassembly.Frames.{ensure_inflight_frame}
use agora_link.Reassembly.Completion.{put_frame, try_complete_frame}
use agora_link.Reassembly.Intake.{
  has_flag, is_some, count_invalid, note_gap, count_packet, accepted_packet, reject_oversize,
  count_received, other_session, note_packet, is_before,
}

module _ (float : FloatTiming) where
  unfoldable pub store_packet : H264Reassembler → FrameAssembly → MediaPacket → ℕ → H264Reassembler
  unfolding note_gap count_packet
  store_packet s entry packet now =
      try_complete_frame float
        (put_frame (count_packet s entry packet now) packet.frame_id
          (accepted_packet entry packet now))
        packet.frame_id

  -- `accept_data_packet` once the frame is in flight.
  unfoldable pub place_data_packet :
      H264Reassembler → FrameAssembly → MediaPacket → ℕ → H264Reassembler
  unfolding reject_oversize store_packet
  place_data_packet s entry packet now =
      if ltb max_video_frame_bytes (entry.received_bytes + length packet.payload)
      then reject_oversize s packet.frame_id
      else if not (entry.packet_count == packet.packet_count)
      then count_invalid s
      else if leb (length entry.packets) packet.packet_index
      then count_invalid s
      else store_packet s entry packet now

  -- The frame is there when it is ensured: the `expect` of the source never fails.
  abbrev pub place_found :
      H264Reassembler → Option FrameAssembly → MediaPacket → ℕ → H264Reassembler
  place_found s none packet now = s
  place_found s (some entry) packet now = place_data_packet s entry packet now

  abbrev pub place_ensured : H264Reassembler × Bool → MediaPacket → ℕ → H264Reassembler
  place_ensured (s, true) packet now = place_found s (lookup packet.frame_id s.inflight) packet now
  place_ensured (s, false) packet now = s

  unfoldable pub accept_data_packet : H264Reassembler → MediaPacket → ℕ → H264Reassembler
  unfolding place_data_packet
  accept_data_packet s packet now =
      place_ensured
        (ensure_inflight_frame s packet.frame_id packet.packet_count now packet.timestamp_ms
          (has_flag packet.flags flag_fec_protected))
        packet now

  abbrev pub with_parity : FrameAssembly → FecParity → ℕ → ℕ → FrameAssembly
  with_parity entry parity flags now = record entry {
    flags = bit_or entry.flags (bit_and flags (2 ^ 16 - 1 - flag_fec));
    last_packet_arrival_time = now;
    fec_parity = some parity;
    fec_expected = true;
  }

  abbrev pub count_bad_parity : H264Reassembler → H264Reassembler
  count_bad_parity s = record s {
    stats = record s.stats {
      fec_recovery_failed_invalid = inc s.stats.fec_recovery_failed_invalid;
    };
  }

  abbrev pub count_parity : H264Reassembler → FrameAssembly → H264Reassembler
  count_parity s entry =
      let fresh = not (is_some entry.fec_parity) in
      record s {
        stats = record s.stats {
          reassembly_packets_active =
              if fresh
              then inc s.stats.reassembly_packets_active
              else s.stats.reassembly_packets_active;
          reassembly_allocations_estimate =
              if fresh
              then inc s.stats.reassembly_allocations_estimate
              else s.stats.reassembly_allocations_estimate;
        };
      }

  unfoldable pub place_parity :
      H264Reassembler → FrameAssembly → MediaPacket → FecParity → ℕ → H264Reassembler
  place_parity s entry packet parity now =
      if not (entry.packet_count == parity.data_packet_count)
      then count_bad_parity s
      else try_complete_frame float
          (put_frame (count_parity s entry) packet.frame_id
            (with_parity entry parity packet.flags now))
          packet.frame_id

  -- A parity payload that does not decode, or that is for another count of packets.
  abbrev pub mark_invalid : H264Reassembler → ℕ → Option FrameAssembly → H264Reassembler
  mark_invalid s frame_id none = s
  mark_invalid s frame_id (some frame) = put_frame s frame_id (record frame { fec_invalid = true })

  unfoldable pub reject_parity : H264Reassembler → ℕ → H264Reassembler
  reject_parity s frame_id = mark_invalid (count_bad_parity s) frame_id (lookup frame_id s.inflight)

  abbrev pub parity_found :
      H264Reassembler → Option FrameAssembly → MediaPacket → FecParity → ℕ → H264Reassembler
  parity_found s none packet parity now = s
  parity_found s (some entry) packet parity now = place_parity s entry packet parity now

  abbrev pub parity_ensured : H264Reassembler × Bool → MediaPacket → FecParity → ℕ → H264Reassembler
  parity_ensured (s, true) packet parity now =
      parity_found s (lookup packet.frame_id s.inflight) packet parity now
  parity_ensured (s, false) packet parity now = s

  unfoldable pub accept_parity : H264Reassembler → MediaPacket → FecParity → ℕ → H264Reassembler
  unfolding place_parity
  accept_parity s packet parity now =
      parity_ensured
        (ensure_inflight_frame s packet.frame_id parity.data_packet_count now packet.timestamp_ms
          true)
        packet parity now

  abbrev pub fec_decoded :
      H264Reassembler → MediaPacket → ℕ → Result FecError FecParity → H264Reassembler
  fec_decoded s packet now (err e) = reject_parity s packet.frame_id
  fec_decoded s packet now (ok parity) =
      if parity.data_packet_count == packet.packet_count
      then accept_parity s packet parity now
      else reject_parity s packet.frame_id

  unfoldable pub accept_fec_packet : H264Reassembler → MediaPacket → ℕ → H264Reassembler
  unfolding reject_parity accept_parity
  accept_fec_packet s packet now = fec_decoded s packet now (decode_owned packet.payload)

  unfoldable pub route_packet : H264Reassembler → MediaPacket → ℕ → H264Reassembler
  unfolding accept_fec_packet accept_data_packet
  route_packet s packet now =
      if is_before packet.frame_id s.next_frame
      then s
      else if has_flag packet.flags flag_fec
      then accept_fec_packet s packet now
      else accept_data_packet s packet now

  unfoldable pub accept_packet : H264Reassembler → MediaPacket → ℕ → H264Reassembler
  unfolding note_packet route_packet
  accept_packet s packet now =
      let s' = count_received s in
      if not (packet.stream_id == stream_video)
      then count_invalid s'
      else if other_session s'.session_id packet.session_id
      then count_invalid s'
      else route_packet (note_packet s' packet) packet now
