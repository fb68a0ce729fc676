-- ===== src/Server/Epoll.antt =====
-- `EpollManager`: server/src/epoll_manager.cpp. What the kernel's calls do and return is a
-- parameter; -1 for a descriptor is `none`.
pub mod Laws
pub mod Interest
pub mod Reports
use axn_chat_app.Prelude.{
  ℕ, Bool, true, false, Option, none, some, List, [], ◌∷◌, ◌++◌, length, drop, replicate,
}

pub data Ctl : Type 0 where
  epoll_ctl_add epoll_ctl_mod epoll_ctl_del : Ctl

-- `epoll_event`, with `data.fd`, which the kernel hands back as it is and looks at no further.
pub record EpollEvent : Type 0 where
  pub data_fd : ℕ
  pub events : ℕ

-- The system calls, on a state of the kernel. The event of epoll_ctl may be a null pointer.
pub record Kernel (K : Type 0) : Type 0 where
  pub epoll_create1 : K → K × Option ℕ
  pub epoll_ctl : K → Option ℕ → Ctl → ℕ → Option EpollEvent → K × Bool
  pub epoll_wait : K → Option ℕ → ℕ → ℕ → K × Option (List EpollEvent)
  pub close : K → ℕ → K

pub record EpollManager : Type 0 where
  pub epoll_fd : Option ℕ
  pub events : List EpollEvent

module _ {K : Type 0} (kernel : Kernel K) where
  -- `EpollManager::EpollManager`
  abbrev pub new_epoll_manager : K → ℕ → K × EpollManager
  new_epoll_manager k max_events =
      let (created, fd) = kernel.epoll_create1 k in
      (
        created,
        record {
          epoll_fd = fd;
          events = replicate max_events (record { data_fd = 0; events = 0 });
        },
      )

  abbrev close_fd : K → Option ℕ → K
  close_fd k none = k
  close_fd k (some fd) = kernel.close k fd

  -- `EpollManager::~EpollManager`
  abbrev pub destroy_epoll_manager : K → EpollManager → K
  destroy_epoll_manager k m = close_fd k m.epoll_fd

  unfoldable pub add_fd : K → EpollManager → ℕ → ℕ → K × Bool
  add_fd k m fd events =
      kernel.epoll_ctl k m.epoll_fd epoll_ctl_add fd
        (some (record { data_fd = fd; events = events }))

  unfoldable pub modify_fd : K → EpollManager → ℕ → ℕ → K × Bool
  modify_fd k m fd events =
      kernel.epoll_ctl k m.epoll_fd epoll_ctl_mod fd
        (some (record { data_fd = fd; events = events }))

  unfoldable pub remove_fd : K → EpollManager → ℕ → K × Bool
  remove_fd k m fd = kernel.epoll_ctl k m.epoll_fd epoll_ctl_del fd none

  -- The events that are reported stand at the front of `events_`; `none` is -1.
  abbrev pub store_events : EpollManager → Option (List EpollEvent) → EpollManager × Option ℕ
  store_events m none = (m, none)
  store_events m (some ready) =
      (record m { events = ready ++ drop (length ready) m.events }, some (length ready))

  unfoldable pub wait : K → EpollManager → ℕ → K × (EpollManager × Option ℕ)
  wait k m timeout =
      let (waited, reported) = kernel.epoll_wait k m.epoll_fd (length m.events) timeout in
      (waited, store_events m reported)

abbrev pub get_events : EpollManager → List EpollEvent
get_events m = m.events
