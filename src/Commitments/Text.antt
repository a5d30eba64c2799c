-- ===== src/Commitments/Text.antt =====
-- The hashed text determines the amount and the nonce: hexadecimal digits are no colons.
use auctionhaus.Prelude.{
  ℕ, zero, suc, ◌+◌, ◌-◌, ◌*◌, ◌/◌, ◌%◌, ◌<◌, ◌≡◌, ◌∙◌, ap, sym, refl, true, false, List, [], ◌∷◌,
  ltb, ◌==◌, if◌then◌else◌, inl, inr, Bool-cases, arith,
}
use auctionhaus.Commitments.{hex_digit, colon, hex_before, opening_text, same_text}

abbrev digit_value : ℕ → ℕ
digit_value c = if ltb c 58 then c - 48 else c - 87

-- A text is read up to the colon.
unfoldable read_opening : ℕ → List ℕ → ℕ × List ℕ
read_opening v [] = (v, [])
read_opening v (c ∷ cs) =
    let rest = read_opening (v * 16 + digit_value c) cs in if c == colon then (v, cs) else rest

hex_digit-value :
    (d : ℕ) → d < 16 → ((hex_digit d == colon) ≡ false) × (digit_value (hex_digit d) ≡ d)
unfolding hex_digit
hex_digit-value d small = (ground arith, ground arith)

read_opening-digit :
    (v d : ℕ) (cs : List ℕ)
    → d < 16
    → read_opening v (hex_digit d ∷ cs) ≡ read_opening (v * 16 + d) cs
unfolding read_opening
read_opening-digit v d cs small =
    let (no_colon, value) = hex_digit-value d small in rw (no_colon, value) refl

digits_of : (n : ℕ) → (n / 16 * 16 + n % 16 ≡ n) × (n % 16 < 16)
digits_of n = (omega arith, omega arith)

-- Reading gives back the number, where the fuel is larger than it.
read_opening-hex_before :
    (fuel n : ℕ) (tail : List ℕ)
    → n < fuel
    → read_opening 0 (hex_before fuel n tail) ≡ read_opening n tail
unfolding hex_before
read_opening-hex_before zero n tail h = absurd (omega arith)
read_opening-hex_before (suc fuel) n tail h = elim (Bool-cases (ltb n 16)) [
  | inl last ↦
      let e : 0 * 16 + n ≡ n = omega arith in
      rw last (read_opening-digit 0 n tail (ground arith) ∙ ap (λ m. read_opening m tail) e)
  | inr more ↦
      let rest = read_opening-hex_before fuel (n / 16) (hex_digit (n % 16) ∷ tail) (ground arith) in
      let digit = read_opening-digit (n / 16) (n % 16) tail (digits_of n).1 in
      rw (more, rest, digit, (digits_of n).0) refl
]

read_opening-text :
    (cents : ℕ) (nonce : List ℕ) → read_opening 0 (opening_text cents nonce) ≡ (cents, nonce)
unfolding opening_text read_opening
read_opening-text cents nonce =
    read_opening-hex_before (suc cents) cents (colon ∷ nonce) (omega arith)

-- Two openings with one text are the same opening.
pub opening_text-injective :
    (cents other : ℕ) (nonce other_nonce : List ℕ)
    → opening_text cents nonce ≡ opening_text other other_nonce
    → (cents ≡ other) × (nonce ≡ other_nonce)
opening_text-injective cents other nonce other_nonce e =
    let same : (cents, nonce) ≡ (other, other_nonce) =
      sym (read_opening-text cents nonce)
      ∙ ap (read_opening 0) e
      ∙ read_opening-text other other_nonce in
    (ap (λ p. p.0) same, ap (λ p. p.1) same)

pub same_text→eq : (xs ys : List ℕ) → same_text xs ys ≡ true → xs ≡ ys
unfolding same_text
same_text→eq [] [] h = refl
same_text→eq [] (y ∷ ys) h = cc
same_text→eq (x ∷ xs) [] h = cc
same_text→eq (x ∷ xs) (y ∷ ys) h = ground (arith, same_text→eq xs ys)

pub same_text_refl : (xs : List ℕ) → same_text xs xs ≡ true
unfolding same_text
same_text_refl [] = refl
same_text_refl (x ∷ xs) = ground (arith, same_text_refl xs)
