-- ===== src/Protocol/Words.antt =====
-- A `uint32_t` in memory and on the wire: `htonl`, `ntohl` and the `memcpy` of four bytes, as
-- common/src/protocol.cpp combines them, on a host of either byte order.
use axn_chat_app.Prelude.{
  ℕ, ◌+◌, ◌*◌, ◌/◌, ◌%◌, ◌^◌, ◌<◌, ◌≡◌, refl, [], ◌∷◌, ◌++◌, All, Bytes, arith,
}

pub data Endian : Type 0 where
  little big : Endian

-- `std::memcpy` from a `uint32_t`: its four bytes in the host's order.
unfoldable pub store_u32 : Endian → ℕ → Bytes
store_u32 little n = n % 256 ∷ n / 256 % 256 ∷ n / 65536 % 256 ∷ n / 16777216 % 256 ∷ []
store_u32 big n = n / 16777216 % 256 ∷ n / 65536 % 256 ∷ n / 256 % 256 ∷ n % 256 ∷ []

-- `std::memcpy` into a `uint32_t` from the front of a buffer. The code reads four bytes only where
-- the buffer has them; 0 stands for the read past its end.
unfoldable pub load_u32 : Endian → Bytes → ℕ
load_u32 little (a ∷ b ∷ c ∷ d ∷ rest) = a + b * 256 + c * 65536 + d * 16777216
load_u32 big (a ∷ b ∷ c ∷ d ∷ rest) = a * 16777216 + b * 65536 + c * 256 + d
load_u32 _ _ = 0

-- The bytes of a word in reverse order.
unfoldable pub swap_u32 : ℕ → ℕ
swap_u32 n = n % 256 * 16777216 + n / 256 % 256 * 65536 + n / 65536 % 256 * 256 + n / 16777216 % 256

-- `htonl`, and `ntohl`, which is the same function.
unfoldable pub htonl : Endian → ℕ → ℕ
unfolding swap_u32
htonl little n = swap_u32 n
htonl big n = n

unfoldable pub ntohl : Endian → ℕ → ℕ
unfolding htonl
ntohl host n = htonl host n

-- The four bytes of a word, the highest first.
abbrev pub network_bytes : ℕ → Bytes
network_bytes n = n / 16777216 % 256 ∷ n / 65536 % 256 ∷ n / 256 % 256 ∷ n % 256 ∷ []

abbrev pub IsByte : ℕ → Type 0
IsByte b = b < 256

-- Stored after `htonl`, a word has the same bytes whatever the host.
pub store_u32-htonl : (host : Endian) (n : ℕ) → store_u32 host (htonl host n) ≡ network_bytes n
unfolding store_u32 htonl
store_u32-htonl little n = ground arith
store_u32-htonl big n = refl

-- Loaded and passed through `ntohl`, four bytes are read the highest first.
pub ntohl-load_u32 :
    (host : Endian) (a b c d : ℕ) (rest : Bytes)
    → a < 256
    → b < 256
    → c < 256
    → d < 256
    → ntohl host (load_u32 host (a ∷ b ∷ c ∷ d ∷ rest)) ≡ a * 16777216 + b * 65536 + c * 256 + d
unfolding load_u32 ntohl
ntohl-load_u32 little a b c d rest ha hb hc hd = omega arith
ntohl-load_u32 big a b c d rest ha hb hc hd = refl

-- The bytes of a word give it back.
pub network_bytes_value :
    (n : ℕ)
    → n < 2 ^ 32
    → n / 16777216 % 256 * 16777216 + n / 65536 % 256 * 65536 + n / 256 % 256 * 256 + n % 256 ≡ n
network_bytes_value n h = omega arith

-- And a value made of four bytes has those bytes.
pub network_bytes-value :
    (a b c d : ℕ)
    → a < 256
    → b < 256
    → c < 256
    → d < 256
    → network_bytes (a * 16777216 + b * 65536 + c * 256 + d) ≡ a ∷ b ∷ c ∷ d ∷ []
network_bytes-value a b c d ha hb hc hd = ground arith

pub front-IsByte : (xs ys : Bytes) → All IsByte (xs ++ ys) → All IsByte xs
front-IsByte [] ys h = tt
front-IsByte (x ∷ xs) ys h = (h.0, front-IsByte xs ys h.1)

pub behind-IsByte : (xs ys : Bytes) → All IsByte (xs ++ ys) → All IsByte ys
behind-IsByte [] ys h = h
behind-IsByte (x ∷ xs) ys h = behind-IsByte xs ys h.1

pub both-IsByte : (xs ys : Bytes) → All IsByte xs → All IsByte ys → All IsByte (xs ++ ys)
both-IsByte [] ys h k = k
both-IsByte (x ∷ xs) ys h k = (h.0, both-IsByte xs ys h.1 k)
