-- ===== src/Main.antt =====
-- The programs' entry points, server/src/main.cpp and client/src/main.cpp, and the part of the
-- standard library that both use: `std::stoi`.
pub mod Server
pub mod Client
pub mod Ports
use axn_chat_app.Prelude.{
  ℕ, zero, suc, ◌^◌, Bool, true, false, [], ◌∷◌, Bytes, ltb, leb, ◌==◌, if◌then◌else◌,
}
use axn_chat_app.Client.Strings.{is_digit, skip_spaces, read_digits}

pub data ℤ : Type 0 where
  pos negsuc : ℕ → ℤ

abbrev pub negate : ℕ → ℤ
negate zero = pos zero
negate (suc n) = negsuc n

pub data Stoi : Type 0 where
  value : ℤ → Stoi
  invalid_argument out_of_range : Stoi

-- A number with its sign, where an `int` holds it.
abbrev pub within_int : Bool → ℕ → Stoi
within_int true n = if leb n (2 ^ 31) then value (negate n) else out_of_range
within_int false n = if ltb n (2 ^ 31) then value (pos n) else out_of_range

-- A digit must come first; what stands behind the digits is not looked at.
unfoldable pub stoi_digits : Bool → Bytes → Stoi
stoi_digits negative [] = invalid_argument
stoi_digits negative (b ∷ bs) =
    if is_digit b then within_int negative (read_digits 0 (b ∷ bs)) else invalid_argument

abbrev pub stoi_signed : Bytes → Stoi
stoi_signed [] = invalid_argument
stoi_signed (b ∷ bs) =
    if b == b'-'
    then stoi_digits true bs
    else if b == b'+'
    then stoi_digits false bs
    else stoi_digits false (b ∷ bs)

-- `std::stoi`, where `int` has 32 bits.
unfoldable pub stoi : Bytes → Stoi
unfolding stoi_digits
stoi s = stoi_signed (skip_spaces s)
