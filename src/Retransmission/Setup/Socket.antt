-- ===== src/Retransmission/Setup/Socket.antt =====
-- The calls of the retransmission `configure_socket`.
use nasdaq_moldudp64_feed_si.Prelude.{ℕ, ◌≡◌, refl, sym, ap, ◌∙◌, subst, List, [], ◌∷◌, ◌++◌}
use nasdaq_moldudp64_feed_si.Prelude.Int.{ℤ}
use nasdaq_moldudp64_feed_si.Exception.{ok}
use nasdaq_moldudp64_feed_si.BinaryIo.{byteswap}
use nasdaq_moldudp64_feed_si.System.{
  SocketAddress, Call, set_option, parse_address, reuse_address, reuse_port, bind_socket, epoll_add,
  EpollEvent, epollin, Kernel, State, Action, ◌>>=◌, ◌>>◌, check, address_of,
}
use nasdaq_moldudp64_feed_si.System.Attempt.{
  attempt-all, Follows, check-Follows, address_of-Follows, address_of-value, bind-Follows, is_ok,
}
use nasdaq_moldudp64_feed_si.Retransmission.Setup.{Config, configure_socket}

-- An event for input, with the descriptor as its data.
abbrev pub readable : ℤ → EpollEvent
readable fd = record { events = epollin; fd = fd }

-- The calls that the configuration asks for, where its text is the address `address`.
abbrev pub required : Config → ℤ → ℤ → ℤ → ℕ → List Call
required cfg fd epoll_fd shutdown_fd address =
    set_option fd reuse_address 1
    ∷ set_option fd reuse_port 1
    ∷ parse_address cfg.address
    ∷ bind_socket fd (record { sin_port = byteswap 2 cfg.port; sin_addr = address })
    ∷ epoll_add epoll_fd fd (readable fd)
    ∷ epoll_add epoll_fd shutdown_fd (readable shutdown_fd)
    ∷ []

module _ (kernel : Kernel) (cfg : Config) (fd epoll_fd shutdown_fd : ℤ) (s : State) where
  after_options : State
  after_options =
      (check kernel (set_option fd reuse_port 1)
        (check kernel (set_option fd reuse_address 1) s).1).1

  -- What `inet_pton` makes of the configured text.
  parsed : ℕ
  unfolding after_options
  parsed = (kernel after_options.calls (parse_address cfg.address)).address

  pub configure_socket-Follows :
      (address : ℕ) × Follows kernel s
        (configure_socket kernel cfg fd epoll_fd shutdown_fd)
        (required cfg fd epoll_fd shutdown_fd address)
  unfolding configure_socket parsed
  configure_socket-Follows = (
    parsed,
    bind-Follows kernel (λ _. from_port) (check-Follows kernel s (set_option fd reuse_address 1) tt)
        λ _ _.
          bind-Follows kernel (λ _. from_address)
            (check-Follows kernel _ (set_option fd reuse_port 1) tt)
            λ _ _.
              bind-Follows kernel from_bind (address_of-Follows kernel after_options cfg.address)
                λ address e.
                  subst
                    (λ a.
                      Follows kernel (address_of kernel cfg.address after_options).1 (from_bind a)
                        (rest parsed))
                    (sym (address_of-value kernel after_options cfg.address e))
                    (bind-Follows kernel (λ _. from_epoll)
                      (check-Follows kernel _ (bind_socket fd (local_address parsed)) tt)
                      λ _ _.
                        bind-Follows kernel (λ _. from_shutdown)
                          (check-Follows kernel _ (epoll_add epoll_fd fd (readable fd)) tt)
                          λ _ _.
                            check-Follows kernel _
                              (epoll_add epoll_fd shutdown_fd (readable shutdown_fd)) tt),
  )
    where
      local_address : ℕ → SocketAddress
      local_address address = record { sin_port = byteswap 2 cfg.port; sin_addr = address }

      rest : ℕ → List Call
      rest address =
          bind_socket fd (local_address address)
          ∷ epoll_add epoll_fd fd (readable fd)
          ∷ epoll_add epoll_fd shutdown_fd (readable shutdown_fd)
          ∷ []

      from_shutdown : Action (Unit {0})
      from_shutdown = check kernel (epoll_add epoll_fd shutdown_fd (readable shutdown_fd))

      from_epoll : Action (Unit {0})
      from_epoll = check kernel (epoll_add epoll_fd fd (readable fd)) >> from_shutdown

      from_bind : ℕ → Action (Unit {0})
      from_bind address = check kernel (bind_socket fd (local_address address)) >> from_epoll

      from_address : Action (Unit {0})
      from_address = address_of kernel cfg.address >>= from_bind

      from_port : Action (Unit {0})
      from_port = check kernel (set_option fd reuse_port 1) >> from_address

-- The descriptors that calls which succeed add to an epoll, each with its epoll and its event.
abbrev pub watched : List Call → List (ℤ × ℤ × EpollEvent)
watched [] = []
watched (epoll_add epoll_fd fd event ∷ cs) = (epoll_fd, fd, event) ∷ watched cs
watched (_ ∷ cs) = watched cs

-- When `configure_socket` returns, the epoll watches the socket and the shutdown descriptor, in this
-- order, each for input and with itself as the data of its events, and nothing else was added to an
-- epoll.
pub configure_socket-watches :
    (kernel : Kernel) (cfg : Config) (fd epoll_fd shutdown_fd : ℤ) (s : State)
    → (configure_socket kernel cfg fd epoll_fd shutdown_fd s).0 ≡ ok tt
    → (new : List Call) × ((configure_socket kernel cfg fd epoll_fd shutdown_fd s).1.calls
        ≡ s.calls ++ new)
      × (watched new
          ≡ (epoll_fd, fd, readable fd) ∷ (epoll_fd, shutdown_fd, readable shutdown_fd) ∷ [])
configure_socket-watches kernel cfg fd epoll_fd shutdown_fd s returned =
    let (address, h) = configure_socket-Follows kernel cfg fd epoll_fd shutdown_fd s in
    (
      required cfg fd epoll_fd shutdown_fd address,
      ap (λ (t : State). t.calls) h.made
          ∙ attempt-all kernel (required cfg fd epoll_fd shutdown_fd address) s.calls
              (sym h.returns ∙ ap is_ok returned),
      refl,
    )
