-- ===== src/Client/Strings.antt =====
-- The parts of `std::string` that the client uses: `find`, `substr` and `std::stoul`. No call of
-- `substr` in the client starts behind the end of its string.
use axn_chat_app.Prelude.{
  ℕ, suc, ◌+◌, ◌-◌, ◌*◌, ◌%◌, ◌^◌, Bool, ◌&&◌, ◌||◌, Option, none, some, [], ◌∷◌, Bytes, take, drop,
  leb, ltb, ◌==◌, if◌then◌else◌,
}

abbrev pub option_map {ℓ κ} : {A : Type ℓ} {B : Type κ} → (A → B) → Option A → Option B
option_map f none = none
option_map f (some a) = some (f a)

-- `find(c)`, with `none` for `npos`
unfoldable pub find : ℕ → Bytes → Option ℕ
find c [] = none
find c (b ∷ bs) = let behind = find c bs in if b == c then some 0 else option_map suc behind

-- `find(c, pos)`
abbrev pub find_from : ℕ → Bytes → ℕ → Option ℕ
find_from c s pos = option_map (λ k. pos + k) (find c (drop pos s))

-- `substr(pos, n)`
abbrev pub substr : Bytes → ℕ → ℕ → Bytes
substr s pos n = take n (drop pos s)

abbrev pub is_digit : ℕ → Bool
is_digit b = leb b'0' b && leb b b'9'

abbrev pub is_space : ℕ → Bool
is_space b = b == 32 || (leb 9 b && leb b 13)

unfoldable pub skip_spaces : Bytes → Bytes
skip_spaces [] = []
skip_spaces (b ∷ bs) = let rest = skip_spaces bs in if is_space b then rest else b ∷ bs

-- Digits up to the first byte that is none.
unfoldable pub read_digits : ℕ → Bytes → ℕ
read_digits n [] = n
read_digits n (b ∷ bs) =
    let more = read_digits (n * 10 + (b - b'0')) bs in if is_digit b then more else n

-- No digit is `invalid_argument`, and too large a number is `out_of_range`: either throws.
unfoldable pub magnitude : Bytes → Option ℕ
unfolding read_digits
magnitude [] = none
magnitude (b ∷ bs) =
    let n = read_digits 0 (b ∷ bs) in if is_digit b && ltb n (2 ^ 64) then some n else none

abbrev signed_magnitude : Bytes → Option ℕ
signed_magnitude [] = none
signed_magnitude (b ∷ bs) =
    if b == b'-'
    then option_map (λ n. (2 ^ 64 - n) % 2 ^ 64) (magnitude bs)
    else if b == b'+'
    then magnitude bs
    else magnitude (b ∷ bs)

-- `std::stoul`, where `unsigned long` has 64 bits; `none` is a thrown exception.
unfoldable pub stoul : Bytes → Option ℕ
unfolding magnitude skip_spaces
stoul s = signed_magnitude (skip_spaces s)
