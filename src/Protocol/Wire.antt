-- ===== src/Protocol/Wire.antt =====
-- The bytes of a message, written down directly, and `serialize_message` and `deserialize_message`
-- against them.
use axn_chat_app.Prelude.{
  ℕ, zero, suc, ◌≤◌, ◌+◌, ◌^◌, ◌<◌, ◌≡◌, refl, ap, sym, ◌∙◌, append-nil, Option, none, some, [],
  ◌∷◌, ◌++◌, Bytes, length, take, take-length, ltb, if◌then◌else◌, arith, length-append,
  take-append_le, take-length_append,
}
use axn_chat_app.Protocol.Words.{
  Endian, network_bytes, load_u32, ntohl, store_u32-htonl, ntohl-load_u32, network_bytes_value,
}
use axn_chat_app.Protocol.{
  Message, MessageType, to_byte, new_message, copy_payload, serialize_message, deserialize_message,
  append_payload,
}
use axn_chat_app.Protocol.Types.{IsType, of_byte-to_byte}

-- The thirteen bytes of a header, in front of what follows it.
abbrev pub header_bytes : Message → Bytes → Bytes
header_bytes m rest =
    to_byte m.header.type
    ∷ (network_bytes m.header.sender_id
        ++ (network_bytes m.header.receiver_id ++ (network_bytes m.header.payload_size ++ rest)))

-- The wire format: the type, three words with the highest byte first, the payload.
unfoldable pub wire : Message → Bytes
wire m = header_bytes m m.payload

-- The fields fit their widths, and the size is the payload's.
pub record IsMessage (m : Message) : Type 0 where
  pub type : IsType m.header.type
  pub sender : m.header.sender_id < 2 ^ 32
  pub receiver : m.header.receiver_id < 2 ^ 32
  pub size : m.header.payload_size ≡ length m.payload
  pub fits : length m.payload < 2 ^ 32

pub new_message-IsMessage :
    (t : MessageType) (s r : ℕ) (p : Bytes)
    → IsType t
    → s < 2 ^ 32
    → r < 2 ^ 32
    → length p < 2 ^ 32
    → IsMessage (new_message t s r p)
unfolding new_message
new_message-IsMessage t s r p ht hs hr hp = record {
  type = ht;
  sender = hs;
  receiver = hr;
  size = omega arith;
  fits = hp;
}

payload_part :
    (h p : Bytes) (n : ℕ)
    → n ≤ length p
    → (if ltb 0 n then append_payload h (copy_payload n p) else some h) ≡ some (h ++ take n p)
unfolding copy_payload
payload_part h p zero le = ap some (sym (append-nil h))
payload_part h p (suc n) le =
    ground (arith, length-append p (0 ∷ []), take-append_le (suc n) p (0 ∷ []))

-- What is sent of a message whose header claims no more than the payload holds.
unfoldable pub packet : Message → Bytes
packet m = header_bytes m (take m.header.payload_size m.payload)

-- Serializing such a message does not fault, and its bytes do not depend on the host.
pub serialize-packet :
    (host : Endian) (m : Message)
    → m.header.payload_size ≤ length m.payload
    → serialize_message host m ≡ some (packet m)
unfolding serialize_message packet
serialize-packet host m size =
    rw
      (
        store_u32-htonl host m.header.sender_id,
        store_u32-htonl host m.header.receiver_id,
        store_u32-htonl host m.header.payload_size,
      )
      (payload_part (header_bytes m []) m.payload m.header.payload_size size)

pub packet-wire : (m : Message) → m.header.payload_size ≡ length m.payload → packet m ≡ wire m
unfolding packet wire
packet-wire m size =
    let whole : take m.header.payload_size m.payload ≡ m.payload =
      ap (λ n. take n m.payload) size ∙ take-length m.payload in
    ap (header_bytes m) whole

-- A message whose size is its payload's is written in the wire format, on every host.
pub serialize-wire :
    (host : Endian) (m : Message)
    → m.header.payload_size ≡ length m.payload
    → serialize_message host m ≡ some (wire m)
serialize-wire host m size =
    serialize-packet host m (omega (arith, size)) ∙ ap some (packet-wire m size)

pub length-wire : (m : Message) → length (wire m) ≡ 13 + length m.payload
unfolding wire
length-wire m = omega arith

read_word :
    (host : Endian) (n : ℕ) (rest : Bytes)
    → n < 2 ^ 32
    → ntohl host (load_u32 host (network_bytes n ++ rest)) ≡ n
read_word host n rest h =
    ntohl-load_u32 host _ _ _ _ rest (omega arith) (omega arith) (omega arith) (omega arith)
    ∙ network_bytes_value n h

payload_read :
    (p rest : Bytes) (n : ℕ) → n ≡ length p → (if ltb 0 n then take n (p ++ rest) else []) ≡ p
payload_read [] rest n e = rw e
payload_read (x ∷ xs) rest n e = rw e (ground (arith, take-length_append (x ∷ xs) rest))

-- A buffer that begins with a whole message, in the wire format, is read as that message on every
-- host, whatever follows it.
pub deserialize-wire :
    (host : Endian) (m : Message) (rest : Bytes)
    → IsMessage m
    → deserialize_message host (wire m ++ rest) ≡ (some m, 13 + length m.payload)
unfolding deserialize_message wire
deserialize-wire host m rest v =
    rw
      (
        read_word host m.header.payload_size (m.payload ++ rest) (omega arith),
        read_word host m.header.sender_id
            (network_bytes m.header.receiver_id
              ++ (network_bytes m.header.payload_size ++ (m.payload ++ rest)))
            v.sender,
        read_word host m.header.receiver_id
            (network_bytes m.header.payload_size ++ (m.payload ++ rest)) v.receiver,
        of_byte-to_byte m.header.type v.type,
      )
      (ground (
        arith,
        v.size,
        length-append m.payload rest,
        payload_read m.payload rest m.header.payload_size v.size,
      ))

pub some-pair :
    {m m' : Message} {n n' : ℕ}
    → ◌≡◌ {A = Option Message × ℕ} (some m, n) (some m', n')
    → (m ≡ m') × (n ≡ n')
some-pair e = (ground arith, ground arith)

-- No bytes, no message.
pub nothing_read : (host : Endian) → deserialize_message host [] ≡ (none, 0)
unfolding deserialize_message
nothing_read host = refl

append-cancel : (xs ys zs : Bytes) → xs ++ ys ≡ xs ++ zs → ys ≡ zs
append-cancel [] ys zs e = e
append-cancel (x ∷ xs) ys zs e = append-cancel xs ys zs (cc)

-- A buffer begins with one message at most, and so has one rest behind it.
pub wire_unique :
    (m m' : Message) (rest rest' : Bytes)
    → IsMessage m
    → IsMessage m'
    → wire m ++ rest ≡ wire m' ++ rest'
    → (m ≡ m') × (rest ≡ rest')
wire_unique m m' rest rest' v v' e =
    let read =
      sym (deserialize-wire Endian.big m rest v)
      ∙ ap (deserialize_message Endian.big) e
      ∙ deserialize-wire Endian.big m' rest' v' in
    let same = (some-pair read).0 in
    (same, append-cancel (wire m) rest rest' (e ∙ ap (λ t. wire t ++ rest') (sym same)))

pub some-none : {m : Message} {n k : ℕ} → ¬ (◌≡◌ {A = Option Message × ℕ} (some m, n) (none, k))
some-none e = ground arith

-- The constructor's size never claims more than the payload holds.
pub new_message-fits :
    (t : MessageType) (s r : ℕ) (p : Bytes)
    → (new_message t s r p).header.payload_size ≤ length (new_message t s r p).payload
unfolding new_message
new_message-fits t s r p = omega arith
