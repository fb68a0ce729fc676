-- ===== src/Client/Numbers.antt =====
-- `std::stoul` of what `std::to_string` writes.
use axn_chat_app.Prelude.{
  ℕ, zero, suc, ◌+◌, ◌-◌, ◌*◌, ◌/◌, ◌%◌, ◌^◌, ◌<◌, ◌≡◌, ◌≢◌, refl, true, false, some, [], ◌∷◌,
  Bytes, All, ltb, Bool-cases, inl, inr, arith,
}
use axn_chat_app.Prelude.Decimal.{digits, to_string}
use axn_chat_app.Client.Strings.{is_digit, skip_spaces, read_digits, magnitude, stoul}

-- Every byte written is a digit.
digits-All :
    {P : ℕ → Type 0}
    → ((b : ℕ) → is_digit b ≡ true → P b)
    → (fuel n : ℕ) (behind : Bytes) → All P behind
    → All P (digits fuel n behind)
unfolding digits
digits-All h zero n behind all = all
digits-All {P} h (suc fuel) n behind all = elim (Bool-cases (ltb n 10)) [
  | inl one ↦ rw one (h (b'0' + n) (ground arith), all)
  | inr more ↦ rw more (
      digits-All {P = P} h fuel (n / 10) ((b'0' + n % 10) ∷ behind)
        (h (b'0' + n % 10) (ground arith), all))
]

-- A number has a digit at its front.
digits-front :
    (fuel n : ℕ) (behind : Bytes)
    → n < fuel
    → (b : ℕ) × (bs : Bytes) × (digits fuel n behind ≡ b ∷ bs) × (is_digit b ≡ true)
unfolding digits
digits-front zero n behind h = elim h [ ]
digits-front (suc fuel) n behind h = elim (Bool-cases (ltb n 10)) [
  | inl one ↦ (b'0' + n, behind, rw one refl, ground arith)
  | inr more ↦
      let (b, bs, e, d) = digits-front fuel (n / 10) ((b'0' + n % 10) ∷ behind) (ground arith) in
      (b, bs, rw more e, d)
]

read_digits-digits :
    (fuel n : ℕ) (behind : Bytes)
    → n < fuel
    → read_digits 0 (digits fuel n behind) ≡ read_digits n behind
unfolding read_digits digits
read_digits-digits zero n behind h = elim h [ ]
read_digits-digits (suc fuel) n behind h = elim (Bool-cases (ltb n 10)) [
  | inl one ↦
      let is : is_digit (b'0' + n) ≡ true = ground arith in
      let value : 0 * 10 + (b'0' + n - b'0') ≡ n = omega arith in rw (one, is, value) refl
  | inr more ↦
      let is : is_digit (b'0' + n % 10) ≡ true = ground arith in
      let value : n / 10 * 10 + (b'0' + n % 10 - b'0') ≡ n = omega arith in
      rw
        (
          more,
          read_digits-digits fuel (n / 10) ((b'0' + n % 10) ∷ behind) (ground arith),
          is,
          value,
        )
        refl
]

stoul-digits :
    (n b : ℕ) (bs : Bytes)
    → is_digit b ≡ true
    → read_digits 0 (b ∷ bs) ≡ n
    → n < 2 ^ 64
    → stoul (b ∷ bs) ≡ some n
unfolding stoul skip_spaces magnitude
stoul-digits n b bs d value fits = ground (arith, value)

-- A decimal number begins with a digit, and reads as the number.
pub to_string_front :
    (n : ℕ)
    → (b : ℕ) × (bs : Bytes) × (to_string n ≡ b ∷ bs)
      × (is_digit b ≡ true)
      × (read_digits 0 (b ∷ bs) ≡ n)
unfolding to_string read_digits
to_string_front n =
    let (b, bs, e, d) = digits-front (suc n) n [] (omega arith) in
    (b, bs, e, d, rw e at (read_digits-digits (suc n) n [] (omega arith)))

pub stoul-to_string : (n : ℕ) → n < 2 ^ 64 → stoul (to_string n) ≡ some n
stoul-to_string n fits =
    let (b, bs, e, d, value) = to_string_front n in rw e (stoul-digits n b bs d value fits)

-- So a number has no byte that is not a digit.
pub to_string-without : (c n : ℕ) → is_digit c ≡ false → All (λ b. b ≢ c) (to_string n)
unfolding to_string
to_string-without c n h = digits-All {P = λ b. b ≢ c} (λ b d e. ground arith) (suc n) n [] tt
