-- ===== src/Protocol/Types.antt =====
-- The casts between `MessageType` and its byte.
use axn_chat_app.Prelude.{ℕ, ◌<◌, ◌≡◌, refl, arith}
use axn_chat_app.Protocol.{MessageType, other, to_byte, of_byte}

-- A value of the enumeration's type: `other` only at a byte that no enumerator has.
abbrev pub IsType : MessageType → Type 0
IsType (other b) = (b < 256) × (of_byte b ≡ other b)
IsType _ = Unit {0}

pub of_byte-to_byte : (t : MessageType) → IsType t → of_byte (to_byte t) ≡ t
unfolding of_byte to_byte
of_byte-to_byte (other b) h = h.1
of_byte-to_byte _ h = refl

pub to_byte-of_byte : (b : ℕ) → to_byte (of_byte b) ≡ b
unfolding of_byte to_byte
to_byte-of_byte b = ground arith

pub to_byte-lt : (t : MessageType) → IsType t → to_byte t < 256
unfolding to_byte
to_byte-lt (other b) h = h.0
to_byte-lt MessageType.c2s_join h = omega arith
to_byte-lt _ h = omega arith

pub of_byte-IsType : (b : ℕ) → b < 256 → IsType (of_byte b)
unfolding of_byte
of_byte-IsType b h = ground arith
