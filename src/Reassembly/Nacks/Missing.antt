-- ===== src/Reassembly/Nacks/Missing.antt =====
-- What is asked for of one frame is missing, and was not asked for a short while ago.
use agora_link.Prelude.{
  ℕ, zero, suc, ◌+◌, ◌%◌, ◌^◌, ◌≤◌, ◌<◌, ◌≡◌, refl, sym, ap, ◌∙◌, List, [], ◌∷◌, length,
  length-append, get_elem?, get_or, set, All, false, leb, leb_false→lt, if_cases, Option, none,
  some, arith,
}
use mathlib.Core.Path.{subst}
use agora_link.Bytes.{All-append}
use agora_link.Wire.Nack.{PacketKey}
use agora_link.Reassembly.Requests.{NackQuery, Scan, asked_within, ask_missing, scan_packets}

-- A key that may be asked for: its packet is missing, and was not asked for within the repeat time.
abbrev pub IsMissing : NackQuery → ℕ → List (Option (List ℕ)) → List (Option ℕ) → PacketKey → Type 0
IsMissing q frame_id packets requested k =
    (i : ℕ) × (k ≡ record { frame_id = frame_id; packet_index = i % 2 ^ 16 })
    × (get_elem? packets i ≡ some none)
    × (asked_within (get_or requested i none) q.now q.repeat ≡ false)

get_or-set_other :
    (xs : List (Option ℕ)) (i j : ℕ) (v : Option ℕ)
    → i < j
    → get_or (set xs i v) j none ≡ get_or xs j none
get_or-set_other [] i j v h = refl
get_or-set_other (x ∷ xs) zero zero v h = absurd (omega arith)
get_or-set_other (x ∷ xs) zero (suc j) v h = refl
get_or-set_other (x ∷ xs) (suc i) zero v h = absurd (omega arith)
get_or-set_other (x ∷ xs) (suc i) (suc j) v h = get_or-set_other xs i j v (omega arith)

module _ (q : NackQuery) (frame_id : ℕ) (packets : List (Option (List ℕ)))
    (requested : List (Option ℕ)) where
  -- What holds of the scan before index `i`.
  pub record IsScan (i : ℕ) (scan : Scan) : Type 0 where
    pub later : (j : ℕ) → i ≤ j → get_or scan.requested j none ≡ get_or requested j none
    pub missing : All (IsMissing q frame_id packets requested) scan.items
    pub counted : length scan.items ≡ scan.count
    pub limited : scan.count ≤ q.max_items_per_frame

  passed-IsScan : (i : ℕ) (scan : Scan) → IsScan i scan → IsScan (i + 1) scan
  passed-IsScan i scan h = record {
    later = λ j le. h.later j (omega arith);
    missing = h.missing;
    counted = h.counted;
    limited = h.limited;
  }

  ask_missing-IsScan :
      (i : ℕ) (scan : Scan)
      → get_elem? packets i ≡ some none
      → IsScan i scan
      → IsScan (i + 1) (ask_missing q frame_id i scan)
  ask_missing-IsScan i scan absent h =
      if_cases (IsScan (i + 1)) (asked_within (get_or scan.requested i none) q.now q.repeat) _ _
        (λ _.
          let k : IsScan (i + 1) scan = passed-IsScan i scan h in
          record { later = k.later; missing = k.missing; counted = k.counted; limited = k.limited })
        (λ fresh.
          if_cases (IsScan (i + 1)) (leb q.max_items_per_frame scan.count) _ _
            (λ _.
              let k : IsScan (i + 1) scan = passed-IsScan i scan h in
              record {
                later = k.later;
                missing = k.missing;
                counted = k.counted;
                limited = k.limited;
              })
            (λ room.
              let asked : asked_within (get_or requested i none) q.now q.repeat ≡ false =
                subst (λ o. asked_within o q.now q.repeat ≡ false) (h.later i (omega arith))
                  fresh in
              let key : PacketKey = record { frame_id = frame_id; packet_index = i % 2 ^ 16 } in
              let less : scan.count < q.max_items_per_frame =
                leb_false→lt q.max_items_per_frame scan.count room in
              record {
                later = λ j le.
                    get_or-set_other scan.requested i j (some q.now) (omega arith)
                    ∙ h.later j (omega arith);
                missing =
                    All-append (IsMissing q frame_id packets requested) scan.items (key ∷ [])
                      h.missing ((i, refl, absent, asked), tt);
                counted = length-append scan.items (key ∷ []) ∙ ap (λ n. n + 1) h.counted;
                limited = omega arith;
              }))

  pub scan_packets-IsScan :
      (rest : List (Option (List ℕ))) (i : ℕ) (scan : Scan)
      → ((j : ℕ) → get_elem? rest j ≡ get_elem? packets (i + j))
      → IsScan i scan
      → (n : ℕ) × IsScan n (scan_packets q frame_id rest i scan)
  scan_packets-IsScan [] i scan same h = (i, h)
  scan_packets-IsScan (some payload ∷ rest) i scan same h =
      scan_packets-IsScan rest (i + 1) scan
        (λ j. same (suc j) ∙ ap (get_elem? packets) (omega arith)) (passed-IsScan i scan h)
  scan_packets-IsScan (none ∷ rest) i scan same h =
      scan_packets-IsScan rest (i + 1) (ask_missing q frame_id i scan)
        (λ j. same (suc j) ∙ ap (get_elem? packets) (omega arith))
        (ask_missing-IsScan i scan (ap (get_elem? packets) (omega arith) ∙ sym (same 0)) h)
