-- ===== src/Server/Epoll/Laws.antt =====
-- The kernel's part: what epoll_create1(2), epoll_ctl(2) and epoll_wait(2) say of the interest list.
use axn_chat_app.Prelude.{
  ℕ, ◌≤◌, ◌≡◌, Bool, true, false, Option, none, some, List, length, All, ◌==◌, if◌then◌else◌,
}
use axn_chat_app.Server.Epoll.{Ctl, epoll_ctl_add, epoll_ctl_mod, epoll_ctl_del, EpollEvent, Kernel}

-- The events that are registered, by descriptor.
abbrev pub Registered : Type 0
Registered = ℕ → Option EpollEvent

abbrev pub is_on : {A : Type 0} → Option A → Bool
is_on none = false
is_on (some a) = true

-- EEXIST and ENOENT: an addition is for a descriptor that is not on the list, the others for one on it.
abbrev pub expects : Ctl → Bool
expects epoll_ctl_add = false
expects epoll_ctl_mod = true
expects epoll_ctl_del = true

abbrev pub entry_of : Ctl → Option EpollEvent → Option EpollEvent
entry_of epoll_ctl_add event = event
entry_of epoll_ctl_mod event = event
entry_of epoll_ctl_del event = none

abbrev pub IsRegistered : Registered → EpollEvent → Type 0
IsRegistered registered event =
    (fd : ℕ) × (entry : EpollEvent) × (registered fd ≡ some entry) × (event.data_fd ≡ entry.data_fd)

-- `interest k epfd` is the interest list of an epoll instance in a state of the kernel, empty when the
-- instance is new. A call of epoll_ctl that succeeds changes it for its descriptor alone, one that
-- fails does not, and neither does a wait. No more events are reported than there is room for, each
-- with the data registered for some descriptor on the list.
pub record IsEpoll {K : Type 0} (kernel : Kernel K) : Type 0 where
  pub interest : K → ℕ → Registered
  pub creates :
      (k : K) (epfd : ℕ)
      → (kernel.epoll_create1 k).1 ≡ some epfd
      → (j : ℕ) → interest (kernel.epoll_create1 k).0 epfd j ≡ none
  pub expected :
      (k : K) (epfd : ℕ) (op : Ctl) (fd : ℕ) (event : Option EpollEvent)
      → (kernel.epoll_ctl k (some epfd) op fd event).1 ≡ true
      → is_on (interest k epfd fd) ≡ expects op
  pub succeeds :
      (k : K) (epfd : ℕ) (op : Ctl) (fd : ℕ) (event : Option EpollEvent)
      → (kernel.epoll_ctl k (some epfd) op fd event).1 ≡ true
      → (j : ℕ)
      → interest (kernel.epoll_ctl k (some epfd) op fd event).0 epfd j
        ≡ (if fd == j then entry_of op event else interest k epfd j)
  pub fails :
      (k : K) (epfd : ℕ) (op : Ctl) (fd : ℕ) (event : Option EpollEvent)
      → (kernel.epoll_ctl k (some epfd) op fd event).1 ≡ false
      → (j : ℕ) → interest (kernel.epoll_ctl k (some epfd) op fd event).0 epfd j ≡ interest k epfd j
  pub waits :
      (k : K) (epfd room timeout j : ℕ)
      → interest (kernel.epoll_wait k (some epfd) room timeout).0 epfd j ≡ interest k epfd j
  pub reports :
      (k : K) (epfd room timeout : ℕ) (ready : List EpollEvent)
      → (kernel.epoll_wait k (some epfd) room timeout).1 ≡ some ready
      → (length ready ≤ room) × All (IsRegistered (interest k epfd)) ready
