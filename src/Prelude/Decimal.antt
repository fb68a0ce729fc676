-- ===== src/Prelude/Decimal.antt =====
-- `std::to_string` of an unsigned number.
use Prim.Native.Nat.{ℕ, zero, suc, ◌+◌, ◌/◌, ◌%◌}
use mathlib.Core.List.{[], ◌∷◌}
use axn_chat_app.Prelude.Tests.{ltb, if◌then◌else◌}
use axn_chat_app.Prelude.Text.{Bytes}

-- The digits of `n`, the last in front of `behind`; a number has at most `n + 1` digits.
unfoldable pub digits : ℕ → ℕ → Bytes → Bytes
digits zero n behind = behind
digits (suc fuel) n behind =
    let more = digits fuel (n / 10) ((b'0' + n % 10) ∷ behind) in
    if ltb n 10 then (b'0' + n) ∷ behind else more

unfoldable pub to_string : ℕ → Bytes
unfolding digits
to_string n = digits (suc n) n []
