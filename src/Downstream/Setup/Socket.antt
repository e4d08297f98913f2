-- ===== src/Downstream/Setup/Socket.antt =====
-- The calls of the downstream `configure_socket`.
use nasdaq_moldudp64_feed_si.Prelude.{
  ℕ, ◌≡◌, refl, sym, ap, ◌∙◌, Bool, true, false, not, ◌||◌, ◌==◌, Bool-cases, inl, inr, List, [],
  ◌∷◌, ◌++◌, if◌then◌else◌,
}
use nasdaq_moldudp64_feed_si.Prelude.Int.{ℤ}
use nasdaq_moldudp64_feed_si.BinaryIo.{Endian, byteswap}
use nasdaq_moldudp64_feed_si.Exception.{ok}
use nasdaq_moldudp64_feed_si.System.{
  SocketAddress, Call, set_option, parse_address, reuse_address, multicast_ttl, multicast_loop,
  multicast_interface, Kernel, State, Action, pure, ◌>>=◌, ◌>>◌, check, address_of,
}
use nasdaq_moldudp64_feed_si.System.Attempt.{
  attempt-all, Follows, check-Follows, address_of-Follows, bind-Follows, pure-Follows, is_ok,
}
use nasdaq_moldudp64_feed_si.Downstream.Setup.{Config, configure_socket}

-- The calls that the configuration asks for.
abbrev pub required : Config → ℤ → List Call
required cfg fd =
    set_option fd reuse_address 1
    ∷ set_option fd multicast_ttl cfg.ttl
    ∷ parse_address cfg.mcast_group
    ∷ ((if cfg.loopback then set_option fd multicast_loop 1 ∷ [] else [])
        ++ (set_option fd multicast_interface cfg.egress_interface ∷ []))

module _ (host : Endian) (kernel : Kernel) (cfg : Config) (fd : ℤ) (s : State) where
  loop-Follows :
      (b : Bool) (t : State)
      → Follows kernel t
          (if b then check kernel (set_option fd multicast_loop 1) else pure tt)
          (if b then set_option fd multicast_loop 1 ∷ [] else [])
  loop-Follows true t = check-Follows kernel t (set_option fd multicast_loop 1) tt
  loop-Follows false t = pure-Follows kernel t tt

  -- `configure_socket` makes the calls that the configuration asks for, in order, up to the first that
  -- fails, and throws exactly if one fails.
  pub configure_socket-Follows :
      Follows kernel s (configure_socket host kernel cfg fd) (required cfg fd)
  unfolding configure_socket
  configure_socket-Follows =
      bind-Follows kernel (λ _. from_ttl)
        (check-Follows kernel s (set_option fd reuse_address 1) tt)
        λ _ _.
          bind-Follows kernel (λ _. from_address)
            (check-Follows kernel _ (set_option fd multicast_ttl cfg.ttl) tt)
            λ _ _.
              bind-Follows kernel from_loop (address_of-Follows kernel _ cfg.mcast_group)
                λ address _.
                  bind-Follows kernel (λ _. from_interface address) (loop-Follows cfg.loopback _)
                    λ _ _.
                      bind-Follows kernel (λ _. pure (group address))
                        (check-Follows kernel _
                          (set_option fd multicast_interface cfg.egress_interface) tt)
                        λ _ _. pure-Follows kernel _ (group address)
    where
      group : ℕ → SocketAddress
      group address = record { sin_port = byteswap 2 cfg.port; sin_addr = address }

      from_interface : ℕ → Action SocketAddress
      from_interface address =
          check kernel (set_option fd multicast_interface cfg.egress_interface)
          >> pure (group address)

      from_loop : ℕ → Action SocketAddress
      from_loop address =
          (if cfg.loopback then check kernel (set_option fd multicast_loop 1) else pure tt)
          >> from_interface address

      from_address : Action SocketAddress
      from_address = address_of kernel cfg.mcast_group >>= from_loop

      from_ttl : Action SocketAddress
      from_ttl = check kernel (set_option fd multicast_ttl cfg.ttl) >> from_address

-- Whether what the socket sends is looped back to the host, after a call and after calls that succeed.
abbrev pub after_call : Bool → Call → Bool
after_call loops (set_option fd multicast_loop value) = not (value == 0)
after_call loops c = loops

abbrev loops_back : Bool → List Call → Bool
loops_back loops [] = loops
loops_back loops (c ∷ cs) = loops_back (after_call loops c) cs

required-loops_back :
    (cfg : Config) (fd : ℤ) (initial : Bool)
    → loops_back initial (required cfg fd) ≡ (cfg.loopback || initial)
required-loops_back cfg fd initial = elim (Bool-cases cfg.loopback) [
  | inl on ↦ rw on refl
  | inr off ↦ rw off refl
]

-- When `configure_socket` returns, it has made the calls that the configuration asks for. They turn the
-- loopback of multicasts on if the configuration asks for it; if it does not, they leave it as it was
-- on a new socket.
configure_socket-loopback :
    (host : Endian) (kernel : Kernel) (cfg : Config) (fd : ℤ) (s : State) (initial : Bool)
    {group : SocketAddress}
    → (configure_socket host kernel cfg fd s).0 ≡ ok group
    → (new : List Call) × ((configure_socket host kernel cfg fd s).1.calls ≡ s.calls ++ new)
      × (loops_back initial new ≡ (cfg.loopback || initial))
configure_socket-loopback host kernel cfg fd s initial returned =
    let h = configure_socket-Follows host kernel cfg fd s in
    (
      required cfg fd,
      ap (λ (t : State). t.calls) h.made
          ∙ attempt-all kernel (required cfg fd) s.calls (sym h.returns ∙ ap is_ok returned),
      required-loops_back cfg fd initial,
    )
