-- ===== src/Gop/AnnexB.antt =====
-- The Annex B byte stream: its NAL units, their summary, and the cached parameter sets.
use agora_link.Prelude.{
  ℕ, zero, suc, ◌+◌, ◌-◌, ◌%◌, List, [], ◌∷◌, ◌++◌, length, get_or, take, list_eq, Bool, true,
  false, ◌||◌, leb, ◌==◌, if◌then◌else◌, Option, none, some, Result, ok, err, ◌>>=◌,
}
use agora_link.Bytes.{slice}

pub record NalUnit : Type 0 where
  pub start : ℕ
  pub payload_start : ℕ
  pub end : ℕ
  pub nal_type : ℕ

-- The length of the start code that the bytes begin with, or zero.
abbrev prefix_len : List ℕ → ℕ
prefix_len bytes =
    if list_eq (take 4 bytes) (0 ∷ 0 ∷ 0 ∷ 1 ∷ [])
    then 4
    else if list_eq (take 3 bytes) (0 ∷ 0 ∷ 1 ∷ [])
    then 3
    else 0

-- The start codes and what follows them, from the rest of the data at an index on; `skip` bytes of it
-- belong to a start code.
abbrev scan_starts : List ℕ → ℕ → ℕ → List (ℕ × ℕ)
scan_starts [] index skip = []
scan_starts (b ∷ bytes) index (suc skip) = scan_starts bytes (index + 1) skip
scan_starts (b ∷ bytes) index zero =
    let prefix = prefix_len (b ∷ bytes) in
    let rest = scan_starts bytes (index + 1) (prefix - 1) in
    if prefix == 0 || leb (length (b ∷ bytes)) 3 || leb (length (b ∷ bytes)) prefix
    then rest
    else (index, index + prefix) ∷ rest

abbrev next_start : List (ℕ × ℕ) → ℕ → ℕ
next_start [] len = len
next_start ((start, payload) ∷ starts) len = start

abbrev units_of : List ℕ → List (ℕ × ℕ) → List NalUnit
units_of input [] = []
units_of input ((start, payload) ∷ starts) =
    record {
      start = start;
      payload_start = payload;
      end = next_start starts (length input);
      nal_type = get_or input payload 0 % 32;
    }
    ∷ units_of input starts

unfoldable pub scan_nals : List ℕ → List NalUnit
scan_nals input = units_of input (scan_starts input 0 0)

pub record AnnexBNalSummary : Type 0 where
  pub has_sps : Bool
  pub has_pps : Bool
  pub has_idr_slice : Bool
  pub has_non_idr_slice : Bool
  pub has_aud : Bool

-- Whether a unit of the type is among them.
abbrev has_type : ℕ → List NalUnit → Bool
has_type type [] = false
has_type type (nal ∷ nals) = nal.nal_type == type || has_type type nals

unfoldable pub summarize_nals : List ℕ → AnnexBNalSummary
summarize_nals input =
    let nals = scan_nals input in
    record {
      has_sps = has_type 7 nals;
      has_pps = has_type 8 nals;
      has_idr_slice = has_type 5 nals;
      has_non_idr_slice = has_type 1 nals;
      has_aud = has_type 9 nals;
    }

pub record AnnexBParameterSets : Type 0 where
  pub sps : Option (List ℕ)
  pub pps : Option (List ℕ)

abbrev pub no_parameter_sets : AnnexBParameterSets
no_parameter_sets = record { sps = none; pps = none }

abbrev kept_unit : ℕ → List ℕ → NalUnit → Option (List ℕ) → Option (List ℕ)
kept_unit type input nal old =
    if nal.nal_type == type then some (slice input nal.start (nal.end - nal.start)) else old

abbrev keep_units : List ℕ → List NalUnit → AnnexBParameterSets → AnnexBParameterSets
keep_units input [] sets = sets
keep_units input (nal ∷ nals) sets =
    keep_units input nals
      (record { sps = kept_unit 7 input nal sets.sps; pps = kept_unit 8 input nal sets.pps })

unfoldable pub update_from : AnnexBParameterSets → List ℕ → AnnexBParameterSets
update_from sets input = keep_units input (scan_nals input) sets

pub data KeyframeError : Type 0 where
  missing_sps missing_pps : KeyframeError

-- A set that the data has is not put before it; one that it lacks must be cached.
abbrev set_before : Bool → Option (List ℕ) → KeyframeError → Result KeyframeError (List ℕ)
set_before true cached e = ok []
set_before false none e = err e
set_before false (some bytes) e = ok bytes

unfoldable pub prepend_missing_to_keyframe :
    AnnexBParameterSets → List ℕ → Result KeyframeError (List ℕ)
prepend_missing_to_keyframe sets input =
    let summary = summarize_nals input in
    set_before summary.has_sps sets.sps missing_sps >>= λ sps.
    set_before summary.has_pps sets.pps missing_pps >>= λ pps. ok (sps ++ pps ++ input)
