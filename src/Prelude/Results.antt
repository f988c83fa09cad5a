-- ===== src/Prelude/Results.antt =====
-- Rust's `Result<T, E>`, with `?` as bind.
use mathlib.Core.Path.{◌≡◌, refl}
use mathlib.Core.Bool.{Bool, true, false}
use mathlib.Core.List.{List, [], ◌∷◌}
use agora_link.Prelude.Tests.{if◌then◌else◌}

pub data Result {ℓ} (E A : Type ℓ) : Type ℓ where
  ok : A → Result E A
  err : E → Result E A

module _ {ℓ} {E : Type ℓ} where
  infixl 5 ◌>>=◌ ◌>>◌
  abbrev pub ◌>>=◌ : {A B : Type ℓ} → Result E A → (A → Result E B) → Result E B
  ok a >>= f = f a
  err e >>= f = err e

  abbrev pub ◌>>◌ : {A B : Type ℓ} → Result E A → Result E B → Result E B
  m >> k = m >>= λ _. k

abbrev pub AllPass {ℓ} : {E : Type ℓ} → List (Bool × E) → Type 0
AllPass [] = Unit
AllPass ((b, e) ∷ tests) = (b ≡ false) × AllPass tests

-- A row of early returns, `if b1 { return Err(e1) } if b2 { return Err(e2) } ... rest`: the first
-- test that holds decides the error.
module _ {ℓ} {E A : Type ℓ} where
  unfoldable pub guarded : List (Bool × E) → Result E A → Result E A
  guarded [] rest = rest
  guarded ((b, e) ∷ tests) rest = if b then err e else guarded tests rest

  pub guarded-passed :
      (tests : List (Bool × E)) (rest : Result E A) {a : A}
      → guarded tests rest ≡ ok a
      → AllPass tests × (rest ≡ ok a)
  unfolding guarded
  guarded-passed [] rest h = (tt, h)
  guarded-passed ((true, e) ∷ tests) rest h = cc
  guarded-passed ((false, e) ∷ tests) rest h =
      let (p, q) = guarded-passed tests rest h in ((refl, p), q)

  pub guarded_pass :
      (tests : List (Bool × E)) (rest : Result E A) → AllPass tests → guarded tests rest ≡ rest
  unfolding guarded
  guarded_pass [] rest h = refl
  guarded_pass ((b, e) ∷ tests) rest h = rw h.0 (guarded_pass tests rest h.1)

pub >>=-passed {ℓ} :
    {E A B : Type ℓ} (m : Result E A) (f : A → Result E B) {b : B}
    → (m >>= f) ≡ ok b
    → (a : A) × (m ≡ ok a) × (f a ≡ ok b)
>>=-passed (ok a) f h = (a, refl, h)
>>=-passed (err e) f h = cc

pub ok-injective {ℓ} : {E A : Type ℓ} {a b : A} → ◌≡◌ {A = Result E A} (ok a) (ok b) → a ≡ b
ok-injective h = cc

abbrev pub is_err {ℓ} : {E A : Type ℓ} → Result E A → Bool
is_err (ok a) = false
is_err (err e) = true
