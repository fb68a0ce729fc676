-- ===== src/Server/Epoll/Interest.antt =====
-- `EpollManager` on a kernel that keeps the laws: the interest list after any calls of its operations.
use axn_chat_app.Prelude.{
  ℕ, ◌≤◌, ◌≡◌, refl, ap, sym, ◌∙◌, Bool, true, false, Option, none, some, List, [], ◌∷◌, length,
  drop, length-append, length-drop_add, ◌==◌, if◌then◌else◌, Bool-cases, ==_iff, inl, inr, arith,
}
use axn_chat_app.Server.Epoll.{
  Ctl, epoll_ctl_add, epoll_ctl_mod, epoll_ctl_del, EpollEvent, Kernel, EpollManager, add_fd,
  modify_fd, remove_fd, wait, store_events,
}
use axn_chat_app.Server.Epoll.Laws.{Registered, is_on, expects, entry_of, IsEpoll}

-- What a caller knows: the masks of the descriptors that it has added.
abbrev pub Watch : Type 0
Watch = ℕ → Option ℕ

abbrev pub with_mask : Watch → ℕ → Option ℕ → Watch
with_mask watch fd mask k = if fd == k then mask else watch k

abbrev pub event_for : ℕ → Option ℕ → Option EpollEvent
event_for fd none = none
event_for fd (some mask) = some (record { data_fd = fd; events = mask })

-- Each descriptor is registered with its mask, and with itself as the data.
abbrev pub registered : Watch → Registered
registered watch fd = event_for fd (watch fd)

pub data Operation : Type 0 where
  adds modifies : ℕ → ℕ → Operation
  removes waits : ℕ → Operation

-- What an operation that returns `true` does to the list, and one that returns `false`.
abbrev pub after : Operation → Bool → Watch → Watch
after (adds fd events) true watch = with_mask watch fd (some events)
after (modifies fd events) true watch = with_mask watch fd (some events)
after (removes fd) true watch = with_mask watch fd none
after operation _ watch = watch

-- An operation that returns `true` found its descriptor on the list, and an addition did not.
abbrev pub IsPossible : Operation → Bool → Watch → Type 0
IsPossible (adds fd events) true watch = is_on (watch fd) ≡ false
IsPossible (modifies fd events) true watch = is_on (watch fd) ≡ true
IsPossible (removes fd) true watch = is_on (watch fd) ≡ true
IsPossible operation _ watch = Unit {0}

pub record Operated (K : Type 0) : Type 0 where
  pub state : K
  pub manager : EpollManager
  pub success : Bool

pub record Worked (K : Type 0) : Type 0 where
  pub state : K
  pub manager : EpollManager
  pub watch : Watch

module _ {K : Type 0} (kernel : Kernel K) where
  unfoldable pub operate : K → EpollManager → Operation → Operated K
  unfolding add_fd modify_fd remove_fd wait
  operate k m (adds fd events) =
      let done = add_fd kernel k m fd events in
      record { state = done.0; manager = m; success = done.1 }
  operate k m (modifies fd events) =
      let done = modify_fd kernel k m fd events in
      record { state = done.0; manager = m; success = done.1 }
  operate k m (removes fd) =
      let done = remove_fd kernel k m fd in record { state = done.0; manager = m; success = done.1 }
  operate k m (waits timeout) =
      let done = wait kernel k m timeout in
      record { state = done.0; manager = done.1.0; success = true }

  -- The operations one after the other, and the list that their results leave of `watch`.
  unfoldable pub operate_all : K → EpollManager → Watch → List Operation → Worked K
  unfolding operate
  operate_all k m watch [] = record { state = k; manager = m; watch = watch }
  operate_all k m watch (operation ∷ rest) =
      let done = operate k m operation in
      operate_all done.state done.manager (after operation done.success watch) rest

  -- Each result is possible on the list that those before it leave.
  unfoldable pub ArePossible : K → EpollManager → Watch → List Operation → Type 0
  unfolding operate
  ArePossible k m watch [] = Unit {0}
  ArePossible k m watch (operation ∷ rest) =
      let done = operate k m operation in
      IsPossible operation done.success watch
      × ArePossible done.state done.manager (after operation done.success watch) rest

is_on-event_for : (fd : ℕ) (mask : Option ℕ) → is_on (event_for fd mask) ≡ is_on mask
is_on-event_for fd none = refl
is_on-event_for fd (some mask) = refl

registered-with_mask :
    (watch : Watch) (fd : ℕ) (mask : Option ℕ) (j : ℕ)
    → (if fd == j then event_for fd mask else registered watch j)
      ≡ registered (with_mask watch fd mask) j
registered-with_mask watch fd mask j = elim (Bool-cases (fd == j)) [
  | inl here ↦ rw here (ap (λ i. event_for i mask) ((==_iff fd j).0 here))
  | inr there ↦ rw there refl
]

module _ {K : Type 0} (kernel : Kernel K) (e : IsEpoll kernel) (epfd : ℕ) where
  abbrev Tracks : K → Watch → Type 0
  Tracks k watch = (j : ℕ) → e.interest k epfd j ≡ registered watch j

  module _ (k : K) (watch : Watch) (h : Tracks k watch) (op : Ctl) (fd : ℕ)
      (event : Option EpollEvent) where
    abbrev called : K × Bool
    called = kernel.epoll_ctl k (some epfd) op fd event

    ctl_succeeds :
        (mask : Option ℕ)
        → entry_of op event ≡ event_for fd mask
        → called.1 ≡ true
        → (is_on (watch fd) ≡ expects op) × Tracks called.0 (with_mask watch fd mask)
    ctl_succeeds mask same succeeded = (
      sym (ap is_on (h fd) ∙ is_on-event_for fd (watch fd))
          ∙ e.expected k epfd op fd event succeeded,
      λ j.
          e.succeeds k epfd op fd event succeeded j
          ∙ rw (same, h j) refl
          ∙ registered-with_mask watch fd mask j,
    )

    ctl_fails : called.1 ≡ false → Tracks called.0 watch
    ctl_fails failed j = e.fails k epfd op fd event failed j ∙ h j

  operate-Tracks :
      (k : K) (m : EpollManager) (watch : Watch) (operation : Operation)
      → m.epoll_fd ≡ some epfd
      → Tracks k watch
      → let done = operate kernel k m operation in
        IsPossible operation done.success watch
        × Tracks done.state (after operation done.success watch)
  unfolding operate add_fd modify_fd remove_fd wait
  operate-Tracks k m watch (adds fd events) opened h =
      let event : Option EpollEvent = some (record { data_fd = fd; events = events }) in
      elim (Bool-cases (kernel.epoll_ctl k (some epfd) epoll_ctl_add fd event).1) [
        | inl succeeded ↦
            rw (opened, succeeded)
              (ctl_succeeds k watch h epoll_ctl_add fd event (some events) refl succeeded)
        | inr failed ↦ rw (opened, failed) (tt, ctl_fails k watch h epoll_ctl_add fd event failed)
      ]
  operate-Tracks k m watch (modifies fd events) opened h =
      let event : Option EpollEvent = some (record { data_fd = fd; events = events }) in
      elim (Bool-cases (kernel.epoll_ctl k (some epfd) epoll_ctl_mod fd event).1) [
        | inl succeeded ↦
            rw (opened, succeeded)
              (ctl_succeeds k watch h epoll_ctl_mod fd event (some events) refl succeeded)
        | inr failed ↦ rw (opened, failed) (tt, ctl_fails k watch h epoll_ctl_mod fd event failed)
      ]
  operate-Tracks k m watch (removes fd) opened h =
      elim (Bool-cases (kernel.epoll_ctl k (some epfd) epoll_ctl_del fd none).1) [
        | inl succeeded ↦
            rw (opened, succeeded)
              (ctl_succeeds k watch h epoll_ctl_del fd none none refl succeeded)
        | inr failed ↦ rw (opened, failed) (tt, ctl_fails k watch h epoll_ctl_del fd none failed)
      ]
  operate-Tracks k m watch (waits timeout) opened h =
      rw opened (tt, λ j. e.waits k epfd (length m.events) timeout j ∙ h j)

  pub stored :
      (m : EpollManager) (reported : Option (List EpollEvent))
      → ((ready : List EpollEvent) → reported ≡ some ready → length ready ≤ length m.events)
      → ((store_events kernel m reported).0.epoll_fd ≡ m.epoll_fd)
        × (length (store_events kernel m reported).0.events ≡ length m.events)
  stored m none within = (refl, refl)
  stored m (some ready) within = (
    refl,
    omega (
      arith,
      length-append ready (drop (length ready) m.events),
      length-drop_add (length ready) m.events (within ready refl),
    ),
  )

  -- The instance and the room for events stay.
  operate-kept :
      (k : K) (m : EpollManager) (operation : Operation)
      → m.epoll_fd ≡ some epfd
      → ((operate kernel k m operation).manager.epoll_fd ≡ some epfd)
        × (length (operate kernel k m operation).manager.events ≡ length m.events)
  unfolding operate wait
  operate-kept k m (adds fd events) opened = (opened, refl)
  operate-kept k m (modifies fd events) opened = (opened, refl)
  operate-kept k m (removes fd) opened = (opened, refl)
  operate-kept k m (waits timeout) opened =
      let (same, room) =
        stored m (kernel.epoll_wait k m.epoll_fd (length m.events) timeout).1 (λ ready r.
          (e.reports k epfd (length m.events) timeout ready
            (ap (λ d. (kernel.epoll_wait k d (length m.events) timeout).1) (sym opened) ∙ r)).0) in
      (same ∙ opened, room)

  pub operate_all-kept :
      (k : K) (m : EpollManager) (watch : Watch) (operations : List Operation)
      → m.epoll_fd ≡ some epfd
      → ((operate_all kernel k m watch operations).manager.epoll_fd ≡ some epfd)
        × (length (operate_all kernel k m watch operations).manager.events ≡ length m.events)
  unfolding operate_all
  operate_all-kept k m watch [] opened = (opened, refl)
  operate_all-kept k m watch (operation ∷ rest) opened =
      let done = operate kernel k m operation in
      let (kept, room) = operate-kept k m operation opened in
      let (same, size) =
        operate_all-kept done.state done.manager (after operation done.success watch) rest kept in
      (same, size ∙ room)

  -- On a kernel with the documented interest list of epoll, after any sequence of additions,
  -- changes, removals and waits of a manager that has an instance, the list has each descriptor
  -- with the mask that the operations which returned true leave it, and with itself as the data
  -- of the event; and every addition that returned true was of a descriptor that those before it
  -- left off the list, every change and removal of one that they left on it.
  pub operate_all-interest :
      (k : K) (m : EpollManager) (watch : Watch) (operations : List Operation)
      → m.epoll_fd ≡ some epfd
      → ((j : ℕ) → e.interest k epfd j ≡ registered watch j)
      → ArePossible kernel k m watch operations
        × ((j : ℕ)
            → e.interest (operate_all kernel k m watch operations).state epfd j
              ≡ registered (operate_all kernel k m watch operations).watch j)
  unfolding operate_all ArePossible
  operate_all-interest k m watch [] opened h = (tt, h)
  operate_all-interest k m watch (operation ∷ rest) opened h =
      let done = operate kernel k m operation in
      let (possible, tracks) = operate-Tracks k m watch operation opened h in
      let (others, final) =
        operate_all-interest done.state done.manager (after operation done.success watch) rest
          (operate-kept k m operation opened).0 tracks in
      ((possible, others), final)
