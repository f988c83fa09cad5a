-- ===== src/Control/Close/Handshake.antt =====
-- The close request and its answer, end to end.
use agora_link.Prelude.{
  ℕ, ◌≡◌, refl, List, Bool, true, false, ◌||◌, ◌==◌, not, eq→==, All, AllPass, ok, guarded-passed,
  guarded_pass, arith,
}
use agora_link.Bytes.{IsByte}
use agora_link.Control.Close.Request.{StreamClose, close_tests, no_reason}
use agora_link.Shutdown.{reason_from_code}
use agora_link.Control.Close.Request
use agora_link.Control.Close.Request.Codec.{decode_iff_close}
use agora_link.Control.Close.Answer.{
  StreamCloseAck, ack, matches, close_ack_tests, close_ack_bytes, encode, decode,
}
use agora_link.Control.Close.Answer
use agora_link.Control.Close.Answer.Codec.{decode-encode_close_ack}

three_false : (a b c d : Bool) → a || b || c || d ≡ false → b || d ≡ false
three_false false false false false h = refl
three_false true b c d h = cc
three_false false true c d h = cc
three_false false false true d h = cc
three_false false false false true h = cc

answer_valid : (c : StreamClose) → AllPass (close_tests c) → AllPass (close_ack_tests (ack c))
unfolding ack
answer_valid c (h, _) = (
  three_false (not (c.version == 1)) (c.stream_id == 0) (no_reason (reason_from_code c.reason_code))
      (c.close_id == 0) h,
  tt,
)

answer-IsWellTyped : (c : StreamClose) → Request.IsWellTyped c → Answer.IsWellTyped (ack c)
unfolding ack
answer-IsWellTyped c t = record {
  version_u8 = omega arith;
  stream_id_u8 = t.stream_id_u8;
  video_session_id_u64 = t.video_session_id_u64;
  close_id_u64 = t.close_id_u64;
}

ack-matches : (c : StreamClose) → matches (ack c) c ≡ true
unfolding ack
ack-matches c =
    rw (eq→== c.stream_id c.stream_id refl, eq→== c.video_session_id c.video_session_id refl)
      (eq→== c.close_id c.close_id refl)

-- A close request that decodes has an answer which encodes, and whose datagram decodes to an answer
-- that matches the request.
pub answer-matches :
    (bytes : List ℕ) (c : StreamClose)
    → All IsByte bytes
    → Request.decode bytes ≡ ok c
    → (answer : List ℕ) × (encode (ack c) ≡ ok answer)
      × (decode answer ≡ ok (ack c))
      × (matches (ack c) c ≡ true)
unfolding Request.encode encode
answer-matches bytes c b e =
    let (t, written) = (decode_iff_close bytes c b).0 e in
    let (valid, _) = guarded-passed (close_tests c) _ written in
    let sent : encode (ack c) ≡ ok (close_ack_bytes (ack c)) =
      guarded_pass _ _ (answer_valid c valid) in
    (
      close_ack_bytes (ack c),
      sent,
      decode-encode_close_ack (close_ack_bytes (ack c)) (ack c) (answer-IsWellTyped c t) sent,
      ack-matches c,
    )
