-- ===== src/Protocol.antt =====
-- common/include/common/protocol.h and common/src/protocol.cpp: the message types, the header, and
-- the two conversions between a message and its bytes.
pub mod Words
pub mod Types
pub mod Wire
pub mod Buffer
pub mod RoundTrip
pub mod Frames
use Words.{Endian, store_u32, load_u32, htonl, ntohl}
use axn_chat_app.Prelude.{
  ℕ, ◌+◌, ◌%◌, ◌^◌, Bool, Option, none, some, List, [], ◌∷◌, ◌++◌, Bytes, length, take, drop, ltb,
  leb, ◌==◌, if◌then◌else◌,
}

abbrev pub server_id : ℕ
server_id = 0

abbrev pub broadcast_id : ℕ
broadcast_id = 0

abbrev pub invalid_id : ℕ
invalid_id = 0xFFFF_FFFF

-- `enum class MessageType : uint8_t`. The underlying type is fixed, so a cast from any byte is a
-- value: `other` has the bytes that name no enumerator.
pub data MessageType : Type 0 where
  c2s_join c2s_broadcast c2s_private c2s_leave c2s_user_joined_list : MessageType
  s2c_join_success s2c_join_failure s2c_broadcast s2c_private : MessageType
  s2c_user_joined s2c_user_left s2c_user_joined_list s2c_server_shutdown s2c_error : MessageType
  other : ℕ → MessageType

-- `static_cast<uint8_t>`
unfoldable pub to_byte : MessageType → ℕ
to_byte c2s_join = 0x01
to_byte c2s_broadcast = 0x02
to_byte c2s_private = 0x03
to_byte c2s_leave = 0x04
to_byte c2s_user_joined_list = 0x05
to_byte s2c_join_success = 0x10
to_byte s2c_join_failure = 0x11
to_byte s2c_broadcast = 0x12
to_byte s2c_private = 0x13
to_byte s2c_user_joined = 0x14
to_byte s2c_user_left = 0x15
to_byte s2c_user_joined_list = 0x16
to_byte s2c_server_shutdown = 0x17
to_byte s2c_error = 0xFF
to_byte (other b) = b

-- `static_cast<MessageType>`
unfoldable pub of_byte : ℕ → MessageType
of_byte b =
    if b == 0x01
    then c2s_join
    else if b == 0x02
    then c2s_broadcast
    else if b == 0x03
    then c2s_private
    else if b == 0x04
    then c2s_leave
    else if b == 0x05
    then c2s_user_joined_list
    else if b == 0x10
    then s2c_join_success
    else if b == 0x11
    then s2c_join_failure
    else if b == 0x12
    then s2c_broadcast
    else if b == 0x13
    then s2c_private
    else if b == 0x14
    then s2c_user_joined
    else if b == 0x15
    then s2c_user_left
    else if b == 0x16
    then s2c_user_joined_list
    else if b == 0x17
    then s2c_server_shutdown
    else if b == 0xFF
    then s2c_error
    else other b

pub record MessageHeader : Type 0 where
  pub type : MessageType
  pub sender_id : ℕ
  pub receiver_id : ℕ
  pub payload_size : ℕ

-- sizeof(uint8_t) + sizeof(uint32_t) * 3
abbrev pub header_size : ℕ
header_size = 13

pub record Message : Type 0 where
  pub header : MessageHeader
  pub payload : Bytes

-- `Message()`
abbrev pub default_message : Message
default_message = record {
  header = record {
    type = s2c_error;
    sender_id = invalid_id;
    receiver_id = invalid_id;
    payload_size = 0;
  };
  payload = [];
}

-- `Message(type, sender, receiver, payload)`, with its `static_cast<uint32_t>(payload.size())`
unfoldable pub new_message : MessageType → ℕ → ℕ → Bytes → Message
new_message type sender receiver payload = record {
  header = record {
    type = type;
    sender_id = sender;
    receiver_id = receiver;
    payload_size = length payload % 2 ^ 32;
  };
  payload = payload;
}

-- `std::memcpy(ptr, payload.data(), n)`. The string's bytes are followed by a NUL; `none` is a read
-- past that.
unfoldable pub copy_payload : ℕ → Bytes → Option Bytes
copy_payload n payload =
    let memory = payload ++ 0 ∷ [] in if leb n (length memory) then some (take n memory) else none

abbrev append_payload : Bytes → Option Bytes → Option Bytes
append_payload buffer none = none
append_payload buffer (some p) = some (buffer ++ p)

-- `none` where the copy reads out of bounds.
unfoldable pub serialize_message : Endian → Message → Option Bytes
unfolding copy_payload to_byte
serialize_message host msg =
    let buffer =
      to_byte msg.header.type
      ∷ (store_u32 host (htonl host msg.header.sender_id)
          ++ (store_u32 host (htonl host msg.header.receiver_id)
              ++ store_u32 host (htonl host msg.header.payload_size))) in
    if ltb 0 msg.header.payload_size
    then append_payload buffer (copy_payload msg.header.payload_size msg.payload)
    else some buffer

-- The byte at the front of a buffer; the code has checked that there is one.
abbrev pub first_byte : Bytes → ℕ
first_byte [] = 0
first_byte (b ∷ rest) = b

-- The message, if the buffer holds a whole one, and the number of bytes consumed.
unfoldable pub deserialize_message : Endian → Bytes → Option Message × ℕ
unfolding of_byte
deserialize_message host buffer =
    if ltb (length buffer) header_size
    then (none, 0)
    else let payload_size = ntohl host (load_u32 host (drop 9 buffer)) in
      let total_message_size = header_size + payload_size in
      if ltb (length buffer) total_message_size then (none, 0) else (
        some (record {
          header = record {
            type = of_byte (first_byte buffer);
            sender_id = ntohl host (load_u32 host (drop 1 buffer));
            receiver_id = ntohl host (load_u32 host (drop 5 buffer));
            payload_size = payload_size;
          };
          payload =
              if ltb 0 payload_size
              then take payload_size (drop header_size buffer)
              else default_message.payload;
        }),
        total_message_size,
      )
