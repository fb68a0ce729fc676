-- ===== src/Server/Watch.antt =====
-- Which descriptors the recorded calls leave on the interest list of epoll, if they succeed: those
-- added and neither removed nor closed since. The kernel takes a closed descriptor off the list.
use axn_chat_app.Prelude.{
  ℕ, ◌≡◌, refl, Bool, true, false, Option, none, some, List, [], ◌∷◌, ◌++◌, ◌==◌, if◌then◌else◌,
}
use axn_chat_app.Server.State.{
  ClientSession, ClientManager, Call, send, set_non_blocking, epoll_add, epoll_remove, close,
}

-- The calls one after the other, from whether the descriptor is watched before them.
unfoldable pub watched_from : ℕ → Bool → List Call → Bool
watched_from k b [] = b
watched_from k b (send fd bytes ∷ cs) = watched_from k b cs
watched_from k b (set_non_blocking fd ∷ cs) = watched_from k b cs
watched_from k b (epoll_add fd ∷ cs) = watched_from k (if fd == k then true else b) cs
watched_from k b (epoll_remove fd ∷ cs) = watched_from k (if fd == k then false else b) cs
watched_from k b (close fd ∷ cs) = watched_from k (if fd == k then false else b) cs

abbrev pub watched : ℕ → ClientManager → Bool
watched k m = watched_from k false m.calls

pub watched_from-append :
    (k : ℕ) (b : Bool) (xs ys : List Call)
    → watched_from k b (xs ++ ys) ≡ watched_from k (watched_from k b xs) ys
unfolding watched_from
watched_from-append k b [] ys = refl
watched_from-append k b (send fd bytes ∷ xs) ys = watched_from-append k b xs ys
watched_from-append k b (set_non_blocking fd ∷ xs) ys = watched_from-append k b xs ys
watched_from-append k b (epoll_add fd ∷ xs) ys =
    watched_from-append k (if fd == k then true else b) xs ys
watched_from-append k b (epoll_remove fd ∷ xs) ys =
    watched_from-append k (if fd == k then false else b) xs ys
watched_from-append k b (close fd ∷ xs) ys =
    watched_from-append k (if fd == k then false else b) xs ys

-- Calls that leave the list as it is.
abbrev pub IsQuiet : List Call → Type 0
IsQuiet cs = (k : ℕ) (b : Bool) → watched_from k b cs ≡ b

-- Whether a descriptor is watched after its session has been `before` and is `after`: one whose
-- session has gone is not, and any other is as it was.
abbrev pub still : Option ClientSession → Option ClientSession → Bool → Bool
still none after w = w
still (some s) none w = false
still (some s) (some t) w = w

abbrev pub is_client : Option ClientSession → Bool
is_client none = false
is_client (some s) = true

pub still-is_client :
    (before after : Option ClientSession)
    → (before ≡ none → after ≡ none)
    → still before after (is_client before) ≡ is_client after
still-is_client none none h = refl
still-is_client none (some t) h = cc (h refl)
still-is_client (some s) none h = refl
still-is_client (some s) (some t) h = refl

pub still_same : (o : Option ClientSession) (w : Bool) → still o o w ≡ w
still_same none w = refl
still_same (some s) w = refl

pub still_stays : (o : Option ClientSession) (t : ClientSession) (w : Bool) → still o (some t) w ≡ w
still_stays none t w = refl
still_stays (some s) t w = refl
