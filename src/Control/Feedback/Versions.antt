-- ===== src/Control/Feedback/Versions.antt =====
-- What each version of a feedback writes is read back.
use agora_link.Prelude.{
  ℕ, ◌≡◌, refl, sym, ap, ◌∙◌, List, [], ◌∷◌, ◌++◌, append-nil, length, get_or, list_eq, list_eq→eq,
  not-false, true, All, AllPass, arith,
}
use agora_link.Bytes.{IsByte, to_be_bytes, from_be_bytes-to_be_bytes, slice}
use agora_link.Control.Fields.{
  push_fields, read_all, field-lt, rejoin, byte_of_slice, or-false, push_fields-append,
}
use agora_link.Control.Feedback.{
  CapabilityFeedback, IsWellTyped, HasZeros, capability_magic, feedback_bytes, read_feedback,
  opening_tests,
}

module _ (p : CapabilityFeedback) (t : IsWellTyped p) where
  pub read_feedback-bytes_first :
      p.version ≡ 1 → HasZeros p → read_feedback 1 (feedback_bytes 1 p) ≡ p
  unfolding read_feedback feedback_bytes to_be_bytes
  read_feedback-bytes_first v z = λ i. record {
    version = sym v i;
    session_id = from_be_bytes-to_be_bytes 8 p.session_id t.session_id_w i;
    feedback_sequence = from_be_bytes-to_be_bytes 8 p.feedback_sequence t.feedback_sequence_w i;
    display_generation = from_be_bytes-to_be_bytes 8 p.display_generation t.display_generation_w i;
    display_refresh_numerator =
        from_be_bytes-to_be_bytes 4 p.display_refresh_numerator t.display_refresh_numerator_w i;
    display_refresh_denominator =
        from_be_bytes-to_be_bytes 4 p.display_refresh_denominator t.display_refresh_denominator_w i;
    display_width = from_be_bytes-to_be_bytes 4 p.display_width t.display_width_w i;
    display_height = from_be_bytes-to_be_bytes 4 p.display_height t.display_height_w i;
    present_fps_measured =
        from_be_bytes-to_be_bytes 4 p.present_fps_measured t.present_fps_measured_w i;
    present_interval_p95_ms =
        from_be_bytes-to_be_bytes 4 p.present_interval_p95_ms t.present_interval_p95_ms_w i;
    active_render_fps = from_be_bytes-to_be_bytes 4 p.active_render_fps t.active_render_fps_w i;
    decoder_input_fps = from_be_bytes-to_be_bytes 4 p.decoder_input_fps t.decoder_input_fps_w i;
    decode_queue_drops_delta =
        from_be_bytes-to_be_bytes 8 p.decode_queue_drops_delta t.decode_queue_drops_delta_w i;
    render_replacements_delta =
        from_be_bytes-to_be_bytes 8 p.render_replacements_delta t.render_replacements_delta_w i;
    repair_deadline_missed_delta =
        from_be_bytes-to_be_bytes 8 p.repair_deadline_missed_delta t.repair_deadline_missed_delta_w
          i;
    damaged_gop_delta = from_be_bytes-to_be_bytes 8 p.damaged_gop_delta t.damaged_gop_delta_w i;
    packets_lost_delta = from_be_bytes-to_be_bytes 8 p.packets_lost_delta t.packets_lost_delta_w i;
    timestamp_us = from_be_bytes-to_be_bytes 8 p.timestamp_us t.timestamp_us_w i;
    profile_generation = sym z.profile_generation_zero i;
    state_flags = sym z.state_flags_zero i;
    valid_feedback_windows = sym z.valid_feedback_windows_zero i;
    transition_settle_windows = sym z.transition_settle_windows_zero i;
    transition_settle_duration_ms = sym z.transition_settle_duration_ms_zero i;
    profile_transition_started_us = sym z.profile_transition_started_us_zero i;
  }

  pub read_feedback-bytes_second : p.version ≡ 2 → read_feedback 2 (feedback_bytes 2 p) ≡ p
  unfolding read_feedback feedback_bytes to_be_bytes
  read_feedback-bytes_second v = λ i. record {
    version = sym v i;
    session_id = from_be_bytes-to_be_bytes 8 p.session_id t.session_id_w i;
    feedback_sequence = from_be_bytes-to_be_bytes 8 p.feedback_sequence t.feedback_sequence_w i;
    display_generation = from_be_bytes-to_be_bytes 8 p.display_generation t.display_generation_w i;
    display_refresh_numerator =
        from_be_bytes-to_be_bytes 4 p.display_refresh_numerator t.display_refresh_numerator_w i;
    display_refresh_denominator =
        from_be_bytes-to_be_bytes 4 p.display_refresh_denominator t.display_refresh_denominator_w i;
    display_width = from_be_bytes-to_be_bytes 4 p.display_width t.display_width_w i;
    display_height = from_be_bytes-to_be_bytes 4 p.display_height t.display_height_w i;
    present_fps_measured =
        from_be_bytes-to_be_bytes 4 p.present_fps_measured t.present_fps_measured_w i;
    present_interval_p95_ms =
        from_be_bytes-to_be_bytes 4 p.present_interval_p95_ms t.present_interval_p95_ms_w i;
    active_render_fps = from_be_bytes-to_be_bytes 4 p.active_render_fps t.active_render_fps_w i;
    decoder_input_fps = from_be_bytes-to_be_bytes 4 p.decoder_input_fps t.decoder_input_fps_w i;
    decode_queue_drops_delta =
        from_be_bytes-to_be_bytes 8 p.decode_queue_drops_delta t.decode_queue_drops_delta_w i;
    render_replacements_delta =
        from_be_bytes-to_be_bytes 8 p.render_replacements_delta t.render_replacements_delta_w i;
    repair_deadline_missed_delta =
        from_be_bytes-to_be_bytes 8 p.repair_deadline_missed_delta t.repair_deadline_missed_delta_w
          i;
    damaged_gop_delta = from_be_bytes-to_be_bytes 8 p.damaged_gop_delta t.damaged_gop_delta_w i;
    packets_lost_delta = from_be_bytes-to_be_bytes 8 p.packets_lost_delta t.packets_lost_delta_w i;
    timestamp_us = from_be_bytes-to_be_bytes 8 p.timestamp_us t.timestamp_us_w i;
    profile_generation = from_be_bytes-to_be_bytes 8 p.profile_generation t.profile_generation_w i;
    state_flags = from_be_bytes-to_be_bytes 4 p.state_flags t.state_flags_w i;
    valid_feedback_windows =
        from_be_bytes-to_be_bytes 4 p.valid_feedback_windows t.valid_feedback_windows_w i;
    transition_settle_windows =
        from_be_bytes-to_be_bytes 4 p.transition_settle_windows t.transition_settle_windows_w i;
    transition_settle_duration_ms =
        from_be_bytes-to_be_bytes 4 p.transition_settle_duration_ms
          t.transition_settle_duration_ms_w i;
    profile_transition_started_us =
        from_be_bytes-to_be_bytes 8 p.profile_transition_started_us
          t.profile_transition_started_us_w i;
  }

pub header-bytes_first : (p : CapabilityFeedback) → AllPass (opening_tests (feedback_bytes 1 p))
unfolding feedback_bytes to_be_bytes
header-bytes_first p = (refl, (refl, (refl, (refl, tt))))

pub header-bytes_second : (p : CapabilityFeedback) → AllPass (opening_tests (feedback_bytes 2 p))
unfolding feedback_bytes to_be_bytes
header-bytes_second p = (refl, (refl, (refl, (refl, tt))))

module _ (bytes : List ℕ) (h : All IsByte bytes) where
  pub read_first-IsWellTyped : length bytes ≡ 112 → IsWellTyped (read_feedback 1 bytes)
  unfolding read_feedback
  read_first-IsWellTyped long = record {
    version_u8 = omega arith;
    session_id_w = field-lt 8 8 bytes h (omega arith);
    feedback_sequence_w = field-lt 8 16 bytes h (omega arith);
    display_generation_w = field-lt 8 24 bytes h (omega arith);
    display_refresh_numerator_w = field-lt 4 32 bytes h (omega arith);
    display_refresh_denominator_w = field-lt 4 36 bytes h (omega arith);
    display_width_w = field-lt 4 40 bytes h (omega arith);
    display_height_w = field-lt 4 44 bytes h (omega arith);
    present_fps_measured_w = field-lt 4 48 bytes h (omega arith);
    present_interval_p95_ms_w = field-lt 4 52 bytes h (omega arith);
    active_render_fps_w = field-lt 4 56 bytes h (omega arith);
    decoder_input_fps_w = field-lt 4 60 bytes h (omega arith);
    decode_queue_drops_delta_w = field-lt 8 64 bytes h (omega arith);
    render_replacements_delta_w = field-lt 8 72 bytes h (omega arith);
    repair_deadline_missed_delta_w = field-lt 8 80 bytes h (omega arith);
    damaged_gop_delta_w = field-lt 8 88 bytes h (omega arith);
    packets_lost_delta_w = field-lt 8 96 bytes h (omega arith);
    timestamp_us_w = field-lt 8 104 bytes h (omega arith);
    profile_generation_w = omega arith;
    state_flags_w = omega arith;
    valid_feedback_windows_w = omega arith;
    transition_settle_windows_w = omega arith;
    transition_settle_duration_ms_w = omega arith;
    profile_transition_started_us_w = omega arith;
  }

  pub read_second-IsWellTyped : length bytes ≡ 144 → IsWellTyped (read_feedback 2 bytes)
  unfolding read_feedback
  read_second-IsWellTyped long = record {
    version_u8 = omega arith;
    session_id_w = field-lt 8 8 bytes h (omega arith);
    feedback_sequence_w = field-lt 8 16 bytes h (omega arith);
    display_generation_w = field-lt 8 24 bytes h (omega arith);
    display_refresh_numerator_w = field-lt 4 32 bytes h (omega arith);
    display_refresh_denominator_w = field-lt 4 36 bytes h (omega arith);
    display_width_w = field-lt 4 40 bytes h (omega arith);
    display_height_w = field-lt 4 44 bytes h (omega arith);
    present_fps_measured_w = field-lt 4 48 bytes h (omega arith);
    present_interval_p95_ms_w = field-lt 4 52 bytes h (omega arith);
    active_render_fps_w = field-lt 4 56 bytes h (omega arith);
    decoder_input_fps_w = field-lt 4 60 bytes h (omega arith);
    decode_queue_drops_delta_w = field-lt 8 64 bytes h (omega arith);
    render_replacements_delta_w = field-lt 8 72 bytes h (omega arith);
    repair_deadline_missed_delta_w = field-lt 8 80 bytes h (omega arith);
    damaged_gop_delta_w = field-lt 8 88 bytes h (omega arith);
    packets_lost_delta_w = field-lt 8 96 bytes h (omega arith);
    timestamp_us_w = field-lt 8 104 bytes h (omega arith);
    profile_generation_w = field-lt 8 112 bytes h (omega arith);
    state_flags_w = field-lt 4 120 bytes h (omega arith);
    valid_feedback_windows_w = field-lt 4 124 bytes h (omega arith);
    transition_settle_windows_w = field-lt 4 128 bytes h (omega arith);
    transition_settle_duration_ms_w = field-lt 4 132 bytes h (omega arith);
    profile_transition_started_us_w = field-lt 8 136 bytes h (omega arith);
  }

  pub read_first-HasZeros : HasZeros (read_feedback 1 bytes)
  unfolding read_feedback
  read_first-HasZeros = record {
    profile_generation_zero = refl;
    state_flags_zero = refl;
    valid_feedback_windows_zero = refl;
    transition_settle_windows_zero = refl;
    transition_settle_duration_ms_zero = refl;
    profile_transition_started_us_zero = refl;
  }

  pub feedback_bytes-read_first :
      AllPass (opening_tests bytes)
      → get_or bytes 4 0 ≡ 1
      → length bytes ≡ 112
      → feedback_bytes 1 (read_feedback 1 bytes) ≡ bytes
  unfolding feedback_bytes read_feedback
  feedback_bytes-read_first (first, (_, (_, (fourth, _)))) v long =
      let zeros : list_eq (slice bytes 5 3) (0 ∷ 0 ∷ 0 ∷ []) ≡ true = not-false _ fourth in
      ap (λ xs. capability_magic ++ 1 ∷ 0 ∷ 0 ∷ 0 ∷ xs)
        (append-nil (
          push_fields (
            read_all (8 ∷ 8 ∷ 8 ∷ 4 ∷ 4 ∷ 4 ∷ 4 ∷ 4 ∷ 4 ∷ 4 ∷ 4 ∷ 8 ∷ 8 ∷ 8 ∷ 8 ∷ 8 ∷ 8 ∷ []) bytes
              8)))
      ∙ rejoin capability_magic 1 0 0 0
          (8 ∷ 8 ∷ 8 ∷ 4 ∷ 4 ∷ 4 ∷ 4 ∷ 4 ∷ 4 ∷ 4 ∷ 4 ∷ 8 ∷ 8 ∷ 8 ∷ 8 ∷ 8 ∷ 8 ∷ []) bytes h
          (omega arith)
          (list_eq→eq (slice bytes 0 4) capability_magic (not-false _ (or-false _ _ first).1)) v
          (byte_of_slice bytes 5 3 0 (0 ∷ 0 ∷ 0 ∷ []) (omega arith) zeros)
          (byte_of_slice bytes 5 3 1 (0 ∷ 0 ∷ 0 ∷ []) (omega arith) zeros)
          (byte_of_slice bytes 5 3 2 (0 ∷ 0 ∷ 0 ∷ []) (omega arith) zeros)

  pub feedback_bytes-read_second :
      AllPass (opening_tests bytes)
      → get_or bytes 4 0 ≡ 2
      → length bytes ≡ 144
      → feedback_bytes 2 (read_feedback 2 bytes) ≡ bytes
  unfolding feedback_bytes read_feedback
  feedback_bytes-read_second (first, (_, (_, (fourth, _)))) v long =
      let zeros : list_eq (slice bytes 5 3) (0 ∷ 0 ∷ 0 ∷ []) ≡ true = not-false _ fourth in
      ap (λ xs. capability_magic ++ 2 ∷ 0 ∷ 0 ∷ 0 ∷ xs)
        (sym (
          push_fields-append
            (read_all (8 ∷ 8 ∷ 8 ∷ 4 ∷ 4 ∷ 4 ∷ 4 ∷ 4 ∷ 4 ∷ 4 ∷ 4 ∷ 8 ∷ 8 ∷ 8 ∷ 8 ∷ 8 ∷ 8 ∷ []) bytes
              8)
            (read_all (8 ∷ 4 ∷ 4 ∷ 4 ∷ 4 ∷ 8 ∷ []) bytes 112)))
      ∙ rejoin capability_magic 2 0 0 0
          (8 ∷ 8 ∷ 8 ∷ 4 ∷ 4 ∷ 4 ∷ 4 ∷ 4 ∷ 4 ∷ 4 ∷ 4 ∷ 8 ∷ 8 ∷ 8 ∷ 8 ∷ 8 ∷ 8 ∷ 8 ∷ 4 ∷ 4 ∷ 4 ∷ 4 ∷ 8
            ∷ [])
          bytes h (omega arith)
          (list_eq→eq (slice bytes 0 4) capability_magic (not-false _ (or-false _ _ first).1)) v
          (byte_of_slice bytes 5 3 0 (0 ∷ 0 ∷ 0 ∷ []) (omega arith) zeros)
          (byte_of_slice bytes 5 3 1 (0 ∷ 0 ∷ 0 ∷ []) (omega arith) zeros)
          (byte_of_slice bytes 5 3 2 (0 ∷ 0 ∷ 0 ∷ []) (omega arith) zeros)
