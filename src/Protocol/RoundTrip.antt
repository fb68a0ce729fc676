-- ===== src/Protocol/RoundTrip.antt =====
-- `serialize_message` and `deserialize_message` of common/src/protocol.cpp against each other, and
-- against a buffer that holds less or more than one message.
use axn_chat_app.Prelude.{
  ℕ, ◌+◌, ◌≤◌, ◌<◌, ◌≡◌, ◌↔◌, inl, inr, ap, sym, ◌∙◌, none, some, [], ◌∷◌, ◌++◌, Bytes, All, length,
  take, arith, length-append, take-length_append, append_assoc, append-nil,
}
use axn_chat_app.Protocol.Words.{Endian, IsByte}
use axn_chat_app.Protocol.{Message, serialize_message, deserialize_message}
use axn_chat_app.Protocol.Wire.{
  wire, IsMessage, serialize-wire, deserialize-wire, length-wire, some-pair, some-none, wire_unique,
}
use axn_chat_app.Protocol.Buffer.{deserialize-cases}

-- What one host serializes of a well-formed message, another reads back, whatever the byte orders
-- of the two and whatever bytes follow: the same message, and exactly its bytes are consumed.
pub deserialize-serialize :
    (sender receiver : Endian) (m : Message) (bytes rest : Bytes)
    → IsMessage m
    → serialize_message sender m ≡ some bytes
    → deserialize_message receiver (bytes ++ rest) ≡ (some m, length bytes)
deserialize-serialize sender receiver m bytes rest v e =
    let same : wire m ≡ bytes = cc (serialize-wire sender m v.size) in
    rw (← same, length-wire m) (deserialize-wire receiver m rest v)

take-length-wire :
    (m : Message) (rest : Bytes) → take (13 + length m.payload) (wire m ++ rest) ≡ wire m
take-length-wire m rest = rw (← length-wire m) (take-length_append (wire m) rest)

-- Every message that is read from a buffer of bytes is well formed, lies whole within the buffer,
-- and serializes to exactly the bytes that were consumed.
pub serialize-deserialize :
    (host other : Endian) (b : Bytes) (m : Message) (n : ℕ)
    → All IsByte b
    → deserialize_message host b ≡ (some m, n)
    → IsMessage m × (n ≤ length b) × (serialize_message other m ≡ some (take n b))
serialize-deserialize host other b m n h e = elim (deserialize-cases host b h) [
  | inl p ↦ absurd (some-none (sym e ∙ p))
  | inr (m', rest, split, v, p) ↦
      let (same, size) = some-pair (sym e ∙ p) in
      rw (same, size, split)
        (
          v,
          omega (arith, length-append (wire m') rest, length-wire m'),
          rw take-length-wire (serialize-wire other m' v.size),
        )
]

-- A buffer of bytes that holds less than the whole of a well-formed message gives no message and
-- consumes nothing.
pub deserialize_incomplete :
    (host : Endian) (m : Message) (b missing : Bytes)
    → IsMessage m
    → wire m ≡ b ++ missing
    → 0 < length missing
    → All IsByte b
    → deserialize_message host b ≡ (none, 0)
deserialize_incomplete host m b missing v split short h = elim (deserialize-cases host b h) [
  | inl p ↦ p
  | inr (m', rest, split', v', p) ↦
      let twice : wire m ++ [] ≡ wire m' ++ (rest ++ missing) =
        append-nil (wire m)
        ∙ split
        ∙ ap (λ t. t ++ missing) split'
        ∙ append_assoc (wire m') rest missing in
      absurd (
        omega (
          arith,
          ap length (wire_unique m m' [] (rest ++ missing) v v' twice).1,
          length-append rest missing,
        ))
]

-- Serializing reads out of bounds exactly when the header's size is more than one byte past the
-- payload's.
pub serialize_out_of_bounds :
    (host : Endian) (m : Message)
    → (serialize_message host m ≡ none) ↔ (length m.payload + 1 < m.header.payload_size)
unfolding serialize_message
serialize_out_of_bounds host m = (
  λ e. ground (arith, length-append m.payload (0 ∷ [])),
  λ h. ground (arith, length-append m.payload (0 ∷ [])),
)
