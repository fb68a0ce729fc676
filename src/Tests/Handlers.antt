-- ===== src/Tests/Handlers.antt =====
-- The handlers of `Server` and the operations of `ClientManager` on three clients.
use axn_chat_app.Prelude.{ℕ, ◌≡◌, List, Bytes, codes, arith}
use axn_chat_app.Protocol.Words.{little}
use axn_chat_app.Protocol.{Message, new_message, c2s_join, s2c_broadcast}
use axn_chat_app.Protocol.Wire.{packet}
use axn_chat_app.Server.State.{ok, Call}
use axn_chat_app.Server.Manager.{broadcast_message}
use axn_chat_app.Server.Watch.{IsQuiet}
use axn_chat_app.Server.Broadcast.{session_at, sent_to, hears, once_if, told, broadcast_audience}
use axn_chat_app.Tests.World.{world, world-IsValid, from_client}

abbrev hello : Message
hello = new_message s2c_broadcast 1 0 (codes "hi")

broadcast_audience_example :
    (cs : List Call) × (broadcast_message little world hello 1 ≡ ok (told world cs))
    × ((fd : ℕ) → sent_to fd cs ≡ once_if (hears 1 (session_at world fd)) (packet hello))
    × IsQuiet cs
unfolding new_message
broadcast_audience_example = broadcast_audience little world hello 1 world-IsValid (omega arith)

abbrev joins : Bytes → Message
joins name = from_client c2s_join 0 name
