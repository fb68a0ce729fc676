-- ===== src/Socket/Lifetime.antt =====
-- The life of a `PosixSocket`: its descriptor is closed once, however the socket is used.
use axn_chat_app.Prelude.{
  ℕ, ◌≡◌, refl, ap, Bool, true, false, Option, none, some, List, [], ◌∷◌, ◌++◌,
}
use axn_chat_app.Socket.{SocketResult}
use axn_chat_app.Socket.Posix.{
  SysCall, returned, adopted, destroyed, close_socket, send_data, receive_data, create_connector,
}

pub data Use : Type 0 where
  sends receives : SysCall → Use
  closes : Use

-- What a use leaves of the socket, the descriptors that it closes, and its result, where it has one.
unfoldable pub used : Option ℕ → Use → Option ℕ × (List ℕ × Option SocketResult)
used socket (sends sent) = (socket, ([], some (send_data socket sent)))
used socket (receives received) = (socket, ([], some (receive_data socket received)))
used socket closes = ((close_socket socket).0, ((close_socket socket).1, none))

-- The descriptors that are closed over these uses and at the end of the socket's life.
unfoldable pub closed_in_life : Option ℕ → List Use → List ℕ
unfolding used
closed_in_life socket [] = destroyed socket
closed_in_life socket (use_ ∷ uses) =
    (used socket use_).1.0 ++ closed_in_life (used socket use_).0 uses

closed_life : (uses : List Use) → closed_in_life none uses ≡ []
unfolding closed_in_life used
closed_life [] = refl
closed_life (sends sent ∷ uses) = closed_life uses
closed_life (receives received ∷ uses) = closed_life uses
closed_life (closes ∷ uses) = closed_life uses

-- A
pub closed_once : (fd : ℕ) (uses : List Use) → closed_in_life (adopted fd) uses ≡ fd ∷ []
unfolding closed_in_life used
closed_once fd [] = refl
closed_once fd (sends sent ∷ uses) = closed_once fd uses
closed_once fd (receives received ∷ uses) = closed_once fd uses
closed_once fd (closes ∷ uses) = ap (λ t. fd ∷ t) (closed_life uses)

-- A descriptor that `create_connector` opens is closed exactly once, by it or by the socket it
-- returns, whether the address and the connection are good or not and whatever is then done with
-- the socket until it is destroyed.
pub connector_owned :
    (fd : ℕ) (address_valid connected : Bool) (uses : List Use)
    → let (socket, closed_already) = create_connector (returned fd) address_valid connected in
      closed_already ++ closed_in_life socket uses ≡ fd ∷ []
unfolding create_connector
connector_owned fd true true uses = closed_once fd uses
connector_owned fd true false uses = ap (λ t. fd ∷ t) (closed_life uses)
connector_owned fd false connected uses = ap (λ t. fd ∷ t) (closed_life uses)
