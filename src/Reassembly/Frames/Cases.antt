-- ===== src/Reassembly/Frames/Cases.antt =====
-- What `expire_inflight_frame` and `ensure_inflight_frame` return in each case.
use agora_link.Prelude.{ℕ, ◌≡◌, refl, ap, none, some, Bool, true, false}
use agora_link.Map.{lookup, contains_key, nat_eq}
use agora_link.Reassembly.{H264Reassembler, FrameAssembly}
use agora_link.Reassembly.Frames.{
  frame_payload_reservation, reject_new_frame_for_budget, release_frame, remove_inflight_frame,
  skip_frame, skip_removed, expire_inflight_frame, fits_budget, reserve_frame,
  ensure_inflight_frame,
}

module _ (s : H264Reassembler) (k : ℕ) where
  pub remove_absent : lookup k s.inflight ≡ none → remove_inflight_frame s k ≡ (s, none)
  unfolding remove_inflight_frame
  remove_absent p = rw (remove_inflight_frame, p) refl

  pub remove_found :
      (f : FrameAssembly)
      → lookup k s.inflight ≡ some f
      → remove_inflight_frame s k ≡ (release_frame s k f, some f)
  unfolding remove_inflight_frame
  remove_found f p = rw (remove_inflight_frame, p) refl

  pub expire_absent : lookup k s.inflight ≡ none → expire_inflight_frame s k ≡ s
  unfolding expire_inflight_frame skip_removed
  expire_absent p = ap (skip_removed k) (remove_absent p)

  pub expire_found :
      (f : FrameAssembly)
      → lookup k s.inflight ≡ some f
      → expire_inflight_frame s k ≡ skip_frame (release_frame s k f) k f
  unfolding expire_inflight_frame skip_removed
  expire_found f p = ap (skip_removed k) (remove_found f p)

  module _ (n now t : ℕ) (fec : Bool) where
    pub ensure_present :
        (f : FrameAssembly)
        → lookup k s.inflight ≡ some f
        → ensure_inflight_frame s k n now t fec ≡ (s, true)
    unfolding ensure_inflight_frame contains_key
    ensure_present f p = rw (ensure_inflight_frame, contains_key, p) refl

    pub ensure_invalid :
        lookup k s.inflight ≡ none
        → frame_payload_reservation n ≡ none
        → ensure_inflight_frame s k n now t fec ≡ (reject_new_frame_for_budget s k n, false)
    unfolding ensure_inflight_frame contains_key
    ensure_invalid p q = rw (ensure_inflight_frame, contains_key, p, q) refl

    pub ensure_reserved :
        (r : ℕ)
        → lookup k s.inflight ≡ none
        → frame_payload_reservation n ≡ some r
        → fits_budget s n r ≡ true
        → ensure_inflight_frame s k n now t fec ≡ (reserve_frame s k n r now t fec, true)
    unfolding ensure_inflight_frame contains_key
    ensure_reserved r p q e = rw (ensure_inflight_frame, contains_key, p, q, e) refl

    pub ensure_refused :
        (r : ℕ)
        → lookup k s.inflight ≡ none
        → frame_payload_reservation n ≡ some r
        → fits_budget s n r ≡ false
        → ensure_inflight_frame s k n now t fec ≡ (reject_new_frame_for_budget s k n, false)
    unfolding ensure_inflight_frame contains_key
    ensure_refused r p q e = rw (ensure_inflight_frame, contains_key, p, q, e) refl
