-- ===== src/Tests/Chat.antt =====
-- A line from one client to another.
use axn_chat_app.Prelude.{
  ℕ, ◌≡◌, ◌==◌, ==_iff, refl, some, List, [], ◌∷◌, ◌++◌, map, Bytes, codes, arith,
}
use axn_chat_app.Prelude.Map.{lookup}
use axn_chat_app.Protocol.Words.{little, big, store_u32, htonl, swap_u32}
use axn_chat_app.Protocol.{new_message, to_byte, copy_payload, serialize_message}
use axn_chat_app.Protocol.Wire.{packet}
use axn_chat_app.Socket.{Reads, chunk, blocked, closed}
use axn_chat_app.Server.State.{ok, ClientManager}
use axn_chat_app.Server.Reading.{handle_client_message}
use axn_chat_app.Server.Broadcast.{sent_to, once_if}
use axn_chat_app.Server.Reachable.{Reach-Inv}
use axn_chat_app.Server.ReadLoop.{received_bytes}
use axn_chat_app.Client.State.{ChatClient, new_client, send, request, show}
use axn_chat_app.Client.Input.{handle_line}
use axn_chat_app.Client.Connection.{received, failed, receiver_loop}
use axn_chat_app.Client.Stream.{shows_end, concat}
use axn_chat_app.Chat.{spoken, asked, whispered, IsPublic}
use axn_chat_app.Chat.Whisper.{whisper_heard}
use axn_chat_app.Tests.Reached.{
  joined, three, three_reached, newcomer, joined_still-Connected, newcomer-Connected,
}

abbrev line : Bytes
line = codes "hi"

line-IsPublic : IsPublic line
line-IsPublic = record {
  first = 104;
  others = 105 ∷ [];
  split = refl;
  public = λ e. omega (arith, e);
  bytes = (omega arith, (omega arith, tt));
  fits = omega arith;
}

-- Clients of "al", who speaks, and of "bo", who knows the name.
abbrev speaker : ChatClient
speaker = record (new_client (codes "al")) { user_id = 1 }

abbrev hearer : ChatClient
hearer = record (new_client (codes "bo")) { user_map = (1, codes "al") ∷ [] }

abbrev line_bytes : Bytes
line_bytes = 2 ∷ 0 ∷ 0 ∷ 0 ∷ 1 ∷ 0 ∷ 0 ∷ 0 ∷ 0 ∷ 0 ∷ 0 ∷ 0 ∷ 2 ∷ 104 ∷ 105 ∷ []

serialized : serialize_message little (spoken speaker line) ≡ some line_bytes
unfolding serialize_message new_message store_u32 htonl swap_u32 to_byte copy_payload
serialized = refl

-- In two reads at the server.
abbrev reads : Reads
reads =
    chunk (2 ∷ 0 ∷ 0 ∷ []) (chunk (0 ∷ 1 ∷ 0 ∷ 0 ∷ 0 ∷ 0 ∷ 0 ∷ 0 ∷ 0 ∷ 2 ∷ 104 ∷ 105 ∷ []) blocked)

-- And in two at the client.
abbrev pieces : List Bytes
pieces = (18 ∷ 0 ∷ 0 ∷ 0 ∷ 1 ∷ []) ∷ (0 ∷ 0 ∷ 0 ∷ 0 ∷ 0 ∷ 0 ∷ 0 ∷ 2 ∷ 104 ∷ 105 ∷ []) ∷ []

known : lookup 1 hearer.user_map ≡ some (codes "al")
unfolding lookup
known = refl

-- "al" knows the other as "bo".
abbrev whisperer : ChatClient
whisperer = record speaker { user_map = (2, codes "bo") ∷ [] }

abbrev asked_bytes : Bytes
asked_bytes = 3 ∷ 0 ∷ 0 ∷ 0 ∷ 1 ∷ 0 ∷ 0 ∷ 0 ∷ 2 ∷ 0 ∷ 0 ∷ 0 ∷ 2 ∷ 104 ∷ 105 ∷ []

asked_serialized : serialize_message big (asked whisperer 2 line) ≡ some asked_bytes
unfolding serialize_message new_message store_u32 htonl swap_u32 to_byte copy_payload
asked_serialized = refl

asked_arrives : received_bytes (chunk asked_bytes blocked) ≡ asked_bytes
unfolding received_bytes
asked_arrives = refl

abbrev whispered_bytes : Bytes
whispered_bytes = 19 ∷ 0 ∷ 0 ∷ 0 ∷ 1 ∷ 0 ∷ 0 ∷ 0 ∷ 2 ∷ 0 ∷ 0 ∷ 0 ∷ 2 ∷ 104 ∷ 105 ∷ []

whispered_cut : concat (whispered_bytes ∷ []) ≡ packet (whispered joined 2 line)
unfolding concat packet new_message to_byte
whispered_cut = refl

bo_known : lookup 2 whisperer.user_map ≡ some (codes "bo")
unfolding lookup
bo_known = refl

bo_alone : (j : ℕ) → lookup j whisperer.user_map ≡ some (codes "bo") → j ≡ 2
unfolding lookup
bo_alone j h = ground (arith, ==_iff 2 j)

whisper_heard_example :
    (handle_line whisperer (b'@' ∷ codes "bo" ++ b' ' ∷ line)
      ≡ request whisperer (send (asked whisperer 2 line)))
    × ((final : ClientManager) × (handle_client_message little three 10 (chunk asked_bytes blocked)
          ≡ ok final)
        × ((j : ℕ)
            → sent_to j final.calls
              ≡ sent_to j three.calls ++ once_if (11 == j) (packet (whispered joined 2 line))))
    × (receiver_loop little (map received (whispered_bytes ∷ []) ++ failed closed ∷ []) [] hearer
        ≡ shows_end (show hearer (codes "@" ++ (codes "al" ++ (codes "> " ++ line)))))
unfolding lookup
whisper_heard_example =
    whisper_heard little big little three 10 0 11 1 joined newcomer (chunk asked_bytes blocked)
      whisperer hearer (codes "bo") line asked_bytes (codes "al") (whispered_bytes ∷ [])
      (failed closed) (Reach-Inv little three_reached) joined_still-Connected newcomer-Connected
      refl refl (omega arith) (omega arith) (omega arith)
      ((λ e. omega (arith, e)), ((λ e. omega (arith, e)), tt)) (refl, tt) bo_known bo_alone
      line-IsPublic.bytes (omega arith) asked_serialized (omega arith, tt) asked_arrives known
      whispered_cut (omega arith, tt) tt
