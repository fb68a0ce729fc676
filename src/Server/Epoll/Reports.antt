-- ===== src/Server/Epoll/Reports.antt =====
-- `EpollManager::wait` on a kernel that keeps the laws: the events that it hands over.
use axn_chat_app.Prelude.{
  ℕ, ◌≤◌, ◌≡◌, ◌≢◌, refl, ap, sym, ◌∙◌, Option, none, some, List, [], ◌∷◌, length, length-replicate,
  take, drop, All, take-length_append, Option-cases, inl, inr, arith,
}
use axn_chat_app.Server.Epoll.{
  EpollEvent, Kernel, EpollManager, new_epoll_manager, wait, get_events, store_events,
}
use axn_chat_app.Server.Epoll.Laws.{Registered, IsRegistered, IsEpoll}
use axn_chat_app.Server.Epoll.Interest.{
  Watch, registered, Operation, Worked, operate_all, stored, operate_all-kept, operate_all-interest,
}

module _ {K : Type 0} (kernel : Kernel K) (e : IsEpoll kernel) (epfd : ℕ) where
  IsRegistered-watched :
      (watch : Watch) (event : EpollEvent)
      → IsRegistered (registered watch) event
      → watch event.data_fd ≢ none
  IsRegistered-watched watch event (fd, entry, found, same) gone = elim (Option-cases (watch fd)) [
    | inl absent ↦ cc (rw absent at found)
    | inr (mask, there) ↦
        let at : some (record { data_fd = fd; events = mask }) ≡ some entry = rw there at found in
        let handed : fd ≡ entry.data_fd = cc at in
        let here : watch fd ≡ none = ap watch (handed ∙ sym same) ∙ gone in cc (here, there)
  ]

  All-watched :
      (interest : Registered) (watch : Watch) (ready : List EpollEvent)
      → ((j : ℕ) → interest j ≡ registered watch j)
      → All (IsRegistered interest) ready
      → All (λ event. watch event.data_fd ≢ none) ready
  All-watched interest watch [] tracks h = tt
  All-watched interest watch (event ∷ ready) tracks ((fd, entry, found, same), rest) = (
    IsRegistered-watched watch event (fd, entry, sym (tracks fd) ∙ found, same),
    All-watched interest watch ready tracks rest,
  )

  stored_events :
      (m : EpollManager) (watch : Watch) (n : ℕ) (reported : Option (List EpollEvent))
      → ((ready : List EpollEvent)
          → reported ≡ some ready
          → (length ready ≤ length m.events) × All (λ event. watch event.data_fd ≢ none) ready)
      → (store_events kernel m reported).1 ≡ some n
      → (n ≤ length m.events)
        × (length (get_events (store_events kernel m reported).0) ≡ length m.events)
        × All
            (λ event. watch event.data_fd ≢ none)
            (take n (get_events (store_events kernel m reported).0))
  stored_events m watch n none reports h = cc
  stored_events m watch n (some ready) reports h =
      let (within, watched) = reports ready refl in
      let same : length ready ≡ n = cc in
      rw (← same) (
        within,
        (stored kernel e epfd m (some ready) (λ r e. (reports r e).0)).1,
        rw (take-length_append ready (drop (length ready) m.events)) watched,
      )

module _ {K : Type 0} (kernel : Kernel K) (e : IsEpoll kernel) (k : K) (max_events epfd : ℕ)
    (operations : List Operation) where
  abbrev created : K × EpollManager
  created = new_epoll_manager kernel k max_events

  abbrev pub worked : Worked K
  worked = operate_all kernel created.0 created.1 (λ _. none) operations

  -- On a kernel with the documented interest list of epoll, where a new manager has an instance
  -- and has done any additions, changes, removals and waits: a wait that returns a number leaves
  -- as many places as the manager was made with, the number is no more than they, and the
  -- `data.fd` of that many events at the front is a descriptor that the operations which returned
  -- true have left on the list.
  pub wait-reported :
      (timeout n : ℕ)
      → (new_epoll_manager kernel k max_events).1.epoll_fd ≡ some epfd
      → (wait kernel worked.state worked.manager timeout).1.1 ≡ some n
      → let waited = (wait kernel worked.state worked.manager timeout).1.0 in
        (n ≤ max_events)
        × (length (get_events waited) ≡ max_events)
        × All (λ event. worked.watch event.data_fd ≢ none) (take n (get_events waited))
  unfolding wait
  wait-reported timeout n opened arrived =
      let m = worked.manager in
      let (kept, room) =
        operate_all-kept kernel e epfd created.0 created.1 (λ _. none) operations opened in
      let size : length m.events ≡ max_events = room ∙ length-replicate max_events _ in
      let tracks =
        (operate_all-interest kernel e epfd created.0 created.1 (λ _. none) operations opened
          (e.creates k epfd opened)).1 in
      let (within, same, watched) =
        stored_events kernel e epfd m worked.watch n
          (kernel.epoll_wait worked.state m.epoll_fd (length m.events) timeout).1
          (λ ready r.
            let (fits, found) = e.reports worked.state epfd (length m.events) timeout ready (
              ap (λ d. (kernel.epoll_wait worked.state d (length m.events) timeout).1) (sym kept)
              ∙ r) in
            (
              fits,
              All-watched kernel e epfd (e.interest worked.state epfd) worked.watch ready tracks
                  found,
            ))
          arrived in
      (omega (arith, within, size), same ∙ size, watched)
