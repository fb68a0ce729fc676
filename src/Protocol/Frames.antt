-- ===== src/Protocol/Frames.antt =====
-- A byte stream as a sequence of messages. This is what the two read loops are compared with.
use axn_chat_app.Prelude.{
  ℕ, zero, suc, ◌<◌, ◌≤◌, ◌≡◌, inl, inr, refl, ap, sym, ◌∙◌, none, List, [], ◌∷◌, ◌++◌, Bytes, All,
  append_assoc, length, arith, length-append,
}
use axn_chat_app.Protocol.Words.{Endian, IsByte, behind-IsByte}
use axn_chat_app.Protocol.{Message, deserialize_message}
use axn_chat_app.Protocol.Wire.{
  wire, IsMessage, deserialize-wire, length-wire, wire_unique, some-none,
}
use axn_chat_app.Protocol.Buffer.{deserialize-cases}

-- The bytes of several messages in a row.
abbrev pub wires : List Message → Bytes
wires [] = []
wires (m ∷ ms) = wire m ++ wires ms

-- A buffer is the bytes of some messages and a rest that holds no whole message.
pub record Framed (host : Endian) (buffer : Bytes) (ms : List Message) (rest : Bytes) : Type 0 where
  pub split : buffer ≡ wires ms ++ rest
  pub valid : All IsMessage ms
  pub incomplete : deserialize_message host rest ≡ (none, 0)

wires-append : (xs ys : List Message) → wires (xs ++ ys) ≡ wires xs ++ wires ys
wires-append [] ys = refl
wires-append (x ∷ xs) ys =
    ap (λ t. wire x ++ t) (wires-append xs ys) ∙ sym (append_assoc (wire x) (wires xs) (wires ys))

All-append : (xs ys : List Message) → All IsMessage xs → All IsMessage ys → All IsMessage (xs ++ ys)
All-append [] ys hx hy = hy
All-append (x ∷ xs) ys hx hy = (hx.0, All-append xs ys hx.1 hy)

-- However a stream is cut in two, the messages of the first part, and then those of its rest with
-- the second part behind it, are the messages of the whole.
pub Framed-append :
    (host : Endian) (c : Bytes) {b rest rest' : Bytes} {ms ms' : List Message}
    → Framed host b ms rest
    → Framed host (rest ++ c) ms' rest'
    → Framed host (b ++ c) (ms ++ ms') rest'
Framed-append host c {b} {rest} {rest'} {ms} {ms'} f g = record {
  split =
      ap (λ t. t ++ c) f.split
      ∙ append_assoc (wires ms) rest c
      ∙ ap (λ t. wires ms ++ t) g.split
      ∙ sym (append_assoc (wires ms) (wires ms') rest')
      ∙ ap (λ t. t ++ rest') (sym (wires-append ms ms'));
  valid = All-append ms ms' f.valid g.valid;
  incomplete = g.incomplete;
}

frames_within :
    (host : Endian) (fuel : ℕ) (b : Bytes)
    → length b < fuel
    → All IsByte b
    → (ms : List Message) × (rest : Bytes) × Framed host b ms rest
frames_within host zero b h v = elim h [ ]
frames_within host (suc fuel) b h v = elim (deserialize-cases host b v) [
  | inl p ↦ ([], b, record { split = refl; valid = tt; incomplete = p })
  | inr (m, rest, split, valid, p) ↦
      let shorter : length rest < fuel =
        omega (arith, ap length split, length-append (wire m) rest, length-wire m) in
      let behind = behind-IsByte (wire m) rest (rw split at v) in
      let (ms, rest', f) = frames_within host fuel rest shorter behind in
      (
        m ∷ ms,
        rest',
        record {
          split =
              split ∙ ap (λ t. wire m ++ t) f.split ∙ sym (append_assoc (wire m) (wires ms) rest');
          valid = (valid, f.valid);
          incomplete = f.incomplete;
        },
      )
]

-- Every buffer of bytes is the bytes of some well-formed messages and a rest that holds no whole
-- message.
pub frames_exist :
    (host : Endian) (b : Bytes)
    → All IsByte b
    → (ms : List Message) × (rest : Bytes) × Framed host b ms rest
frames_exist host b v = frames_within host (suc (length b)) b (omega arith) v

stuck :
    (host : Endian) (m : Message) (ms : List Message) (rest b : Bytes)
    → b ≡ (wire m ++ wires ms) ++ rest
    → IsMessage m
    → deserialize_message host b ≡ (none, 0)
    → ⊥
stuck host m ms rest b split v e = some-none (
    sym (deserialize-wire host m (wires ms ++ rest) v)
    ∙ ap (deserialize_message host) (sym (append_assoc (wire m) (wires ms) rest) ∙ sym split)
    ∙ e)

-- A buffer frames one sequence of messages and one rest only.
pub Framed-unique :
    (host : Endian) (ms ms' : List Message) {b rest rest' : Bytes}
    → Framed host b ms rest
    → Framed host b ms' rest'
    → (ms ≡ ms') × (rest ≡ rest')
Framed-unique host [] [] f g = (refl, sym f.split ∙ g.split)
Framed-unique host [] (m ∷ ms') {rest = rest} {rest' = rest'} f g =
    absurd (stuck host m ms' rest' rest (sym f.split ∙ g.split) g.valid.0 f.incomplete)
Framed-unique host (m ∷ ms) [] {rest = rest} {rest' = rest'} f g =
    absurd (stuck host m ms rest rest' (sym g.split ∙ f.split) f.valid.0 g.incomplete)
Framed-unique host (m ∷ ms) (m' ∷ ms') {b} {rest} {rest'} f g =
    let heads = wire_unique m m' (wires ms ++ rest) (wires ms' ++ rest') f.valid.0 g.valid.0 (
      sym (append_assoc (wire m) (wires ms) rest)
      ∙ sym f.split
      ∙ g.split
      ∙ append_assoc (wire m') (wires ms') rest') in
    let tails =
      Framed-unique host ms ms' {b = wires ms ++ rest} {rest = rest} {rest' = rest'}
        (record { split = refl; valid = f.valid.1; incomplete = f.incomplete })
        (record { split = heads.1; valid = g.valid.1; incomplete = g.incomplete }) in
    (cc, tails.1)

length-wires : (ms : List Message) (rest : Bytes) → length ms ≤ length (wires ms ++ rest)
length-wires [] rest = omega arith
length-wires (m ∷ ms) rest = omega (
  arith,
  length-wires ms rest,
  length-wire m,
  ap length (append_assoc (wire m) (wires ms) rest),
  length-append (wire m) (wires ms ++ rest),
)

-- A buffer has more bytes than it holds messages, or as many.
pub Framed-length :
    (host : Endian) {b rest : Bytes} (ms : List Message)
    → Framed host b ms rest
    → length ms < suc (length b)
Framed-length host {b} {rest} ms f = omega (arith, ap length f.split, length-wires ms rest)
