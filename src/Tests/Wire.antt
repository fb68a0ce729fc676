-- ===== src/Tests/Wire.antt =====
-- Messages and their bytes.
use axn_chat_app.Prelude.{
  ◌+◌, ◌<◌, ◌≤◌, ◌≡◌, ◌↔◌, refl, none, some, [], ◌∷◌, ◌++◌, Bytes, codes, length, take, All, arith,
}
use axn_chat_app.Protocol.Words.{little, big, IsByte, store_u32, htonl, load_u32, ntohl}
use axn_chat_app.Protocol.{
  Message, new_message, serialize_message, deserialize_message, c2s_broadcast, to_byte, of_byte,
}
use axn_chat_app.Protocol.Wire.{wire, IsMessage, new_message-IsMessage}
use axn_chat_app.Protocol.RoundTrip.{
  deserialize-serialize, serialize-deserialize, serialize_out_of_bounds,
}
use axn_chat_app.Protocol.Frames.{Framed}
use axn_chat_app.ReadBuffer.{receive_failed, receive_failed-same}
use axn_chat_app.Tests.World.{from_client}

abbrev hi : Message
hi = from_client c2s_broadcast 0 (codes "hi")

abbrev hi_bytes : Bytes
hi_bytes = 2 ∷ 0 ∷ 0 ∷ 0 ∷ 7 ∷ 0 ∷ 0 ∷ 0 ∷ 0 ∷ 0 ∷ 0 ∷ 0 ∷ 2 ∷ 104 ∷ 105 ∷ []

hi-IsMessage : IsMessage hi
hi-IsMessage =
    new_message-IsMessage c2s_broadcast 7 0 (codes "hi") tt (omega arith) (omega arith)
      (omega arith)

hi_serialized : serialize_message little hi ≡ some hi_bytes
unfolding new_message serialize_message store_u32 htonl
hi_serialized = refl

deserialize-serialize_example : deserialize_message big (hi_bytes ++ (1 ∷ 2 ∷ [])) ≡ (some hi, 15)
deserialize-serialize_example =
    deserialize-serialize little big hi hi_bytes (1 ∷ 2 ∷ []) hi-IsMessage hi_serialized

hi-All : All IsByte hi_bytes
hi-All = ground arith

hi_read : deserialize_message little hi_bytes ≡ (some hi, 15)
unfolding deserialize_message new_message load_u32 ntohl of_byte
hi_read = refl

serialize-deserialize_example :
    IsMessage hi × (15 ≤ length hi_bytes) × (serialize_message big hi ≡ some (take 15 hi_bytes))
serialize-deserialize_example = serialize-deserialize little big hi_bytes hi 15 hi-All hi_read

serialize_out_of_bounds_example :
    (serialize_message little hi ≡ none) ↔ (length hi.payload + 1 < hi.header.payload_size)
serialize_out_of_bounds_example = serialize_out_of_bounds little hi

hi-Framed : Framed little hi_bytes (hi ∷ []) []
unfolding wire new_message to_byte deserialize_message
hi-Framed = record { split = refl; valid = (hi-IsMessage, tt); incomplete = refl }

unread_stays : receive_failed 4 (1 ∷ 2 ∷ []) ≡ 1 ∷ 2 ∷ []
unread_stays = receive_failed-same 4 (1 ∷ 2 ∷ [])
