-- ===== src/Tests/Programs.antt =====
-- The entry points, the logger, the epoll manager and the sockets at concrete inputs.
use axn_chat_app.Prelude.{
  ℕ, zero, suc, replicate, ◌≡◌, ◌≢◌, ◌↔◌, ◌≤◌, ◌==◌, refl, true, false, Bool, Option, none, some,
  List, [], ◌∷◌, ◌++◌, Bytes, codes, length, take, All, arith, leb, if◌then◌else◌,
}
use axn_chat_app.Logger.{warning, rank, new_logger, log, find_placeholder}
use axn_chat_app.Logger.Format.{format_of, print, line, log-line}
use axn_chat_app.Main.{pos, value, stoi}
use axn_chat_app.Main.Server
use axn_chat_app.Main.Client.{returned}
use axn_chat_app.Main.Ports.{served_port}
use axn_chat_app.Server.Epoll.{
  Ctl, epoll_ctl_add, epoll_ctl_mod, epoll_ctl_del, EpollEvent, Kernel, EpollManager, wait,
  get_events, new_epoll_manager, add_fd, modify_fd, remove_fd,
}
use axn_chat_app.Server.Epoll.Laws.{Registered, is_on, expects, entry_of, IsRegistered, IsEpoll}
use axn_chat_app.Server.Epoll.Interest.{
  Operation, adds, modifies, removes, waits, registered, Worked, operate, operate_all, ArePossible,
  operate_all-interest,
}
use axn_chat_app.Server.Epoll.Reports.{wait-reported}
use axn_chat_app.Socket.Posix.{returned, create_connector}
use axn_chat_app.Socket.Lifetime.{sends, closes, closed_in_life, connector_owned}

abbrev pieces : List Bytes
pieces = codes " failed: " ∷ codes "!" ∷ []

abbrev arguments : List Bytes
arguments = codes "{}" ∷ codes "EPERM" ∷ []

log-line_example :
    log new_logger (codes "now") warning (codes "Server") (format_of (codes "fd ") pieces) arguments
    ≡ (if leb (rank new_logger.level) (rank warning)
        then print new_logger warning
            (line (codes "now") warning (codes "Server") (codes "fd ") pieces arguments)
        else new_logger)
unfolding find_placeholder
log-line_example =
    log-line new_logger (codes "now") warning (codes "Server") (codes "fd ") pieces arguments refl
      (refl, (refl, tt))

-- A kernel with one epoll instance, which reports what is registered for the descriptor 7.
abbrev ctl : Registered → Ctl → ℕ → Option EpollEvent → Option EpollEvent → Registered × Bool
ctl list epoll_ctl_add fd event none = (λ j. if fd == j then event else list j, true)
ctl list epoll_ctl_mod fd event (some old) = (λ j. if fd == j then event else list j, true)
ctl list epoll_ctl_del fd event (some old) = (λ j. if fd == j then none else list j, true)
ctl list op fd event found = (list, false)

abbrev ctl_on : Registered → Option ℕ → Ctl → ℕ → Option EpollEvent → Registered × Bool
ctl_on list none op fd event = (list, false)
ctl_on list (some epfd) op fd event = ctl list op fd event (list fd)

abbrev reported : ℕ → Option EpollEvent → List EpollEvent
reported zero found = []
reported (suc room) none = []
reported (suc room) (some event) = event ∷ []

abbrev kernel : Kernel Registered
kernel = record {
  epoll_create1 = λ list. (λ j. none, some 5);
  epoll_ctl = ctl_on;
  epoll_wait = λ list epfd room timeout. (list, some (reported room (list 7)));
  close = λ list fd. list;
}

ctl-true :
    (list : Registered) (op : Ctl) (fd : ℕ) (event found : Option EpollEvent)
    → (ctl list op fd event found).1 ≡ true
    → (is_on found ≡ expects op)
      × ((j : ℕ)
          → (ctl list op fd event found).0 j ≡ (if fd == j then entry_of op event else list j))
ctl-true list epoll_ctl_add fd event none h = (refl, λ j. refl)
ctl-true list epoll_ctl_mod fd event (some old) h = (refl, λ j. refl)
ctl-true list epoll_ctl_del fd event (some old) h = (refl, λ j. refl)
ctl-true list epoll_ctl_add fd event (some old) h = cc
ctl-true list epoll_ctl_mod fd event none h = cc
ctl-true list epoll_ctl_del fd event none h = cc

ctl-false :
    (list : Registered) (op : Ctl) (fd : ℕ) (event found : Option EpollEvent)
    → (ctl list op fd event found).1 ≡ false
    → (j : ℕ) → (ctl list op fd event found).0 j ≡ list j
ctl-false list epoll_ctl_add fd event (some old) h j = refl
ctl-false list epoll_ctl_mod fd event none h j = refl
ctl-false list epoll_ctl_del fd event none h j = refl
ctl-false list epoll_ctl_add fd event none h j = cc
ctl-false list epoll_ctl_mod fd event (some old) h j = cc
ctl-false list epoll_ctl_del fd event (some old) h j = cc

reported-All :
    (list : Registered) (room : ℕ) (found : Option EpollEvent)
    → list 7 ≡ found
    → (length (reported room found) ≤ room) × All (IsRegistered list) (reported room found)
reported-All list zero found e = (omega arith, tt)
reported-All list (suc room) none e = (omega arith, tt)
reported-All list (suc room) (some event) e = (omega arith, ((7, event, e, refl), tt))

kernel-IsEpoll : IsEpoll kernel
kernel-IsEpoll = record {
  interest = λ list epfd. list;
  creates = λ list epfd e j. refl;
  expected = λ list epfd op fd event h. (ctl-true list op fd event (list fd) h).0;
  succeeds = λ list epfd op fd event h. (ctl-true list op fd event (list fd) h).1;
  fails = λ list epfd op fd event. ctl-false list op fd event (list fd);
  waits = λ list epfd room timeout j. refl;
  reports = λ list epfd room timeout ready h.
      let same : reported room (list 7) ≡ ready = cc in
      rw same at (reported-All list room (list 7) refl);
}

-- The second addition fails, and so does the change of 9.
abbrev operations : List Operation
operations = adds 7 1 ∷ adds 7 4 ∷ adds 8 1 ∷ waits 0 ∷ modifies 8 4 ∷ modifies 9 4 ∷ removes 8 ∷ []

abbrev nothing_on : Registered
nothing_on j = none

abbrev manager : EpollManager
manager = (new_epoll_manager kernel nothing_on 2).1

operate_all-interest_example :
    ArePossible kernel nothing_on manager (λ _. none) operations
    × ((j : ℕ)
        → kernel-IsEpoll.interest
            (operate_all kernel nothing_on manager (λ _. none) operations).state
            5
            j
          ≡ registered (operate_all kernel nothing_on manager (λ _. none) operations).watch j)
unfolding kernel-IsEpoll
operate_all-interest_example =
    operate_all-interest kernel kernel-IsEpoll 5 nothing_on manager (λ _. none) operations refl
      (λ j. refl)

abbrev done : Worked Registered
done = operate_all kernel nothing_on manager (λ _. none) operations

wait-reported_example :
    (1 ≤ 2)
    × (length (get_events (wait kernel done.state done.manager 0).1.0) ≡ 2)
    × All
        (λ event. done.watch event.data_fd ≢ none)
        (take 1 (get_events (wait kernel done.state done.manager 0).1.0))
unfolding operate_all operate wait add_fd modify_fd remove_fd replicate
wait-reported_example = wait-reported kernel kernel-IsEpoll nothing_on 2 5 operations 0 1 refl refl

connector_owned_example :
    (create_connector (returned 3) true false).1
      ++ closed_in_life
          (create_connector (returned 3) true false).0
          (sends (returned 2) ∷ closes ∷ closes ∷ [])
    ≡ 3 ∷ []
connector_owned_example = connector_owned 3 true false (sends (returned 2) ∷ closes ∷ closes ∷ [])

served_port_example :
    ((Server.main (λ _. codes "stoi") (codes "server" ∷ codes " 80abc" ∷ [])).served ≡ some 80)
    ↔ ((stoi (codes " 80abc") ≡ value (pos 80)) × (1 ≤ 80) × (80 ≤ 65535))
served_port_example = served_port (λ _. codes "stoi") (codes "server") (codes " 80abc") 80
