-- ===== src/Protocol/Buffer.antt =====
-- `deserialize_message` of common/src/protocol.cpp, byte by byte: every answer accounted for.
use axn_chat_app.Prelude.{
  ℕ, zero, suc, ◌+◌, ◌*◌, ◌≤◌, ◌≡◌, ◌⊎◌, inl, inr, refl, sym, none, some, [], ◌∷◌, ◌++◌, Bytes, All,
  length, take, drop, ltb, Bool-cases, if◌then◌else◌, arith, length-take, take-append-drop,
}
use axn_chat_app.Protocol.Words.{Endian, ntohl-load_u32, network_bytes-value, IsByte}
use axn_chat_app.Protocol.{Message, of_byte, deserialize_message}
use axn_chat_app.Protocol.Types.{to_byte-of_byte, of_byte-IsType}
use axn_chat_app.Protocol.Wire.{wire, IsMessage}

abbrev pub word : ℕ → ℕ → ℕ → ℕ → ℕ
word a b c d = a * 16777216 + b * 65536 + c * 256 + d

-- The two outcomes at a buffer of bytes: nothing consumed, or a message split off its front.
abbrev pub Outcome : Endian → Bytes → Type 0
Outcome host b =
    (deserialize_message host b ≡ (none, 0))
    ⊎ ((m : Message) × (rest : Bytes) × (b ≡ wire m ++ rest)
        × IsMessage m
        × (deserialize_message host b ≡ (some m, 13 + length m.payload)))

-- A buffer that holds a whole header, byte by byte, and what follows it.
module _ (t s3 s2 s1 s0 r3 r2 r1 r0 n3 n2 n1 n0 : ℕ) (tail : Bytes)
    (bytes : All IsByte
      (t ∷ s3 ∷ s2 ∷ s1 ∷ s0 ∷ r3 ∷ r2 ∷ r1 ∷ r0 ∷ n3 ∷ n2 ∷ n1 ∷ n0 ∷ tail)) where
  abbrev pub buffer : Bytes
  buffer = t ∷ s3 ∷ s2 ∷ s1 ∷ s0 ∷ r3 ∷ r2 ∷ r1 ∷ r0 ∷ n3 ∷ n2 ∷ n1 ∷ n0 ∷ tail

  abbrev pub size : ℕ
  size = word n3 n2 n1 n0

  abbrev pub held : Message
  held = record {
    header = record {
      type = of_byte t;
      sender_id = word s3 s2 s1 s0;
      receiver_id = word r3 r2 r1 r0;
      payload_size = size;
    };
    payload = take size tail;
  }

  payload_take : (n : ℕ) → (if ltb 0 n then take n tail else []) ≡ take n tail
  payload_take zero = refl
  payload_take (suc n) = ground arith

  pub deserialize-buffer :
      (host : Endian)
      → deserialize_message host buffer
        ≡ (if ltb (length tail) size then (none, 0) else (some held, 13 + size))
  unfolding deserialize_message
  deserialize-buffer host =
      rw
        (
          ntohl-load_u32 host n3 n2 n1 n0 tail (omega arith) (omega arith) (omega arith)
              (omega arith),
          ntohl-load_u32 host s3 s2 s1 s0 (r3 ∷ r2 ∷ r1 ∷ r0 ∷ n3 ∷ n2 ∷ n1 ∷ n0 ∷ tail)
              (omega arith) (omega arith) (omega arith) (omega arith),
          ntohl-load_u32 host r3 r2 r1 r0 (n3 ∷ n2 ∷ n1 ∷ n0 ∷ tail) (omega arith) (omega arith)
              (omega arith) (omega arith),
        )
        (ground (arith, payload_take size))

  pub held-IsMessage : size ≤ length tail → IsMessage held
  held-IsMessage h = record {
    type = of_byte-IsType t bytes.0;
    sender = omega arith;
    receiver = omega arith;
    size = sym (length-take size tail h);
    fits = omega (arith, length-take size tail h);
  }

  pub wire-held : wire held ++ drop size tail ≡ buffer
  unfolding wire
  wire-held = ground (
    arith,
    to_byte-of_byte t,
    network_bytes-value s3 s2 s1 s0 (omega arith) (omega arith) (omega arith) (omega arith),
    network_bytes-value r3 r2 r1 r0 (omega arith) (omega arith) (omega arith) (omega arith),
    network_bytes-value n3 n2 n1 n0 (omega arith) (omega arith) (omega arith) (omega arith),
    take-append-drop size tail,
  )

  buffer-Outcome : (host : Endian) → Outcome host buffer
  buffer-Outcome host = elim (Bool-cases (ltb (length tail) size)) [
    | inl short ↦ inl (rw (deserialize-buffer host, short))
    | inr whole ↦ inr (
      held,
      drop size tail,
      sym wire-held,
      held-IsMessage (ground arith),
      rw (deserialize-buffer host, whole) (ground (arith, length-take size tail)),
    )
  ]

pub deserialize-cases : (host : Endian) (b : Bytes) → All IsByte b → Outcome host b
unfolding deserialize_message
deserialize-cases host (t ∷ s3 ∷ s2 ∷ s1 ∷ s0 ∷ r3 ∷ r2 ∷ r1 ∷ r0 ∷ n3 ∷ n2 ∷ n1 ∷ n0 ∷ tail) h =
    buffer-Outcome t s3 s2 s1 s0 r3 r2 r1 r0 n3 n2 n1 n0 tail h host
deserialize-cases host _ h = inl refl
