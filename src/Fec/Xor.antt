-- ===== src/Fec/Xor.antt =====
-- Exclusive or of byte lists: the order of the lists does not matter, and twice is nothing.
use Prim.Native.Nat.{bit_xor}
use agora_link.Prelude.{
  ℕ, zero, suc, ◌≤◌, ◌≡◌, refl, sym, ap, ap₂, ◌∙◌, List, [], ◌∷◌, ◌++◌, arith, length, take,
  replicate, ◌≡⟨◌⟩◌, ◌∎,
}
use agora_link.Bits.{xor_comm, xor_assoc, xor_self, xor-zero, zero-xor}
use agora_link.Fec.{xor_into, xor_all, max_len}

swap_last : (a b c : ℕ) → bit_xor (bit_xor a b) c ≡ bit_xor (bit_xor a c) b
swap_last a b c = xor_assoc a b c ∙ ap (bit_xor a) (xor_comm b c) ∙ sym (xor_assoc a c b)

xor_into_comm : (p a b : List ℕ) → xor_into (xor_into p a) b ≡ xor_into (xor_into p b) a
unfolding xor_into
xor_into_comm [] a b = refl
xor_into_comm (x ∷ p) [] [] = refl
xor_into_comm (x ∷ p) [] (b ∷ bs) = refl
xor_into_comm (x ∷ p) (a ∷ as_) [] = refl
xor_into_comm (x ∷ p) (a ∷ as_) (b ∷ bs) = ap₂ ◌∷◌ (swap_last x a b) (xor_into_comm p as_ bs)

xor_into_twice : (p a : List ℕ) → xor_into (xor_into p a) a ≡ p
unfolding xor_into
xor_into_twice [] a = refl
xor_into_twice (x ∷ p) [] = refl
xor_into_twice (x ∷ p) (a ∷ as_) =
    ap₂ ◌∷◌ (xor_assoc x a a ∙ ap (bit_xor x) (xor_self a) ∙ xor-zero x) (xor_into_twice p as_)

pub length-xor_into : (p a : List ℕ) → length (xor_into p a) ≡ length p
unfolding xor_into
length-xor_into [] a = refl
length-xor_into (x ∷ p) [] = refl
length-xor_into (x ∷ p) (a ∷ as_) = ap suc (length-xor_into p as_)

pub length-xor_all : (cs : List (List ℕ)) (p : List ℕ) → length (xor_all p cs) ≡ length p
unfolding xor_all
length-xor_all [] p = refl
length-xor_all (c ∷ cs) p = length-xor_all cs (xor_into p c) ∙ length-xor_into p c

-- A chunk can be taken in first or last.
xor_all-xor_into :
    (cs : List (List ℕ)) (p a : List ℕ) → xor_all (xor_into p a) cs ≡ xor_into (xor_all p cs) a
unfolding xor_all
xor_all-xor_into [] p a = refl
xor_all-xor_into (c ∷ cs) p a =
    ap (λ q. xor_all q cs) (xor_into_comm p a c) ∙ xor_all-xor_into cs (xor_into p c) a

xor_all_twice : (cs : List (List ℕ)) (p : List ℕ) → xor_all (xor_all p cs) cs ≡ p
unfolding xor_all
xor_all_twice [] p = refl
xor_all_twice (c ∷ cs) p =
    xor_all (xor_into (xor_all (xor_into p c) cs) c) cs
    ≡⟨ ap (λ q. xor_all q cs) (sym (xor_all-xor_into cs (xor_into p c) c)) ⟩
      xor_all (xor_all (xor_into (xor_into p c) c) cs) cs
    ≡⟨ ap (λ q. xor_all (xor_all q cs) cs) (xor_into_twice p c) ⟩ xor_all (xor_all p cs) cs
    ≡⟨ xor_all_twice cs p ⟩ p ∎

xor_all-append :
    (cs ds : List (List ℕ)) (p : List ℕ) → xor_all p (cs ++ ds) ≡ xor_all (xor_all p cs) ds
unfolding xor_all
xor_all-append [] ds p = refl
xor_all-append (c ∷ cs) ds p = xor_all-append cs ds (xor_into p c)

-- Into zeros, a chunk is written as it is.
take-xor_into :
    (n : ℕ) (c : List ℕ) → length c ≤ n → take (length c) (xor_into (replicate n 0) c) ≡ c
unfolding xor_into
take-xor_into n [] h = refl
take-xor_into zero (b ∷ bs) h = absurd (omega arith)
take-xor_into (suc n) (b ∷ bs) h = ap₂ ◌∷◌ (zero-xor b) (take-xor_into n bs (omega arith))

-- The parity of the whole, with all chunks but one taken out again, is that one chunk.
pub xor_all-missing :
    (pre post : List (List ℕ)) (c : List ℕ) (n : ℕ)
    → length c ≤ n
    → take (length c) (xor_all (xor_all (replicate n 0) (pre ++ c ∷ post)) (pre ++ post)) ≡ c
unfolding xor_all
xor_all-missing pre post c n h =
    ap (take (length c)) (ap (λ q. xor_all q (pre ++ post)) whole ∙ xor_all_twice (pre ++ post) _)
    ∙ take-xor_into n c h
  where
    zeros : List ℕ
    zeros = replicate n 0

    whole : xor_all zeros (pre ++ c ∷ post) ≡ xor_all (xor_into zeros c) (pre ++ post)
    whole =
        xor_all-append pre (c ∷ post) zeros
        ∙ ap (λ q. xor_all q post) (sym (xor_all-xor_into pre zeros c))
        ∙ sym (xor_all-append pre post (xor_into zeros c))

pub length-le-max_len :
    (pre post : List (List ℕ)) (c : List ℕ) → length c ≤ max_len (pre ++ c ∷ post)
unfolding max_len
length-le-max_len [] post c = omega arith
length-le-max_len (d ∷ pre) post c = omega (arith, length-le-max_len pre post c)
