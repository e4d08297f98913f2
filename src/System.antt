-- ===== src/System.antt =====
-- The system calls that the constructors of the feeds make, and what they throw.
-- `Kernel` stands for the operating system: it answers a call by what was called before. An action
-- makes calls in order, constructs and destroys descriptors, and returns or throws.
pub mod Attempt
pub mod Guard
pub mod Compose
use nasdaq_moldudp64_feed_si.Prelude.{
  ℕ, Bool, List, [], ◌∷◌, ◌++◌, length, get_elem?, Option, some, none, ◌==◌, if◌then◌else◌,
}
use nasdaq_moldudp64_feed_si.Prelude.Int.{ℤ, pos, negsuc, ltb_ℤ}
use nasdaq_moldudp64_feed_si.Exception.{
  Exception, Result, ok, throws, undefined, system_error, invalid_address,
}
use nasdaq_moldudp64_feed_si.FileDescriptor
use nasdaq_moldudp64_feed_si.FileDescriptor.{World}

pub data SocketOption : Type 0 where
  reuse_address reuse_port multicast_ttl multicast_loop multicast_interface : SocketOption

-- A `sockaddr_in`: `sin_port` and `sin_addr`, as the integers that they are on the host.
pub record SocketAddress : Type 0 where
  pub sin_port : ℕ
  pub sin_addr : ℕ

-- An `epoll_event`: `events`, and `data.fd`.
pub record EpollEvent : Type 0 where
  pub events : ℕ
  pub fd : ℤ

-- EPOLLIN on Linux.
abbrev pub epollin : ℕ
epollin = 1

pub data Call : Type 0 where
  open_socket create_epoll create_event : Call
  set_option : ℤ → SocketOption → ℕ → Call
  parse_address : List ℕ → Call
  bind_socket : ℤ → SocketAddress → Call
  epoll_add : ℤ → ℤ → EpollEvent → Call

-- What a call returns, the errno, and the address that `inet_pton` writes.
pub record Reply : Type 0 where
  pub result : ℤ
  pub errno : ℕ
  pub address : ℕ

abbrev pub Kernel : Type 0
Kernel = List Call → Call → Reply

pub record State : Type 0 where
  pub calls : List Call
  pub world : World

abbrev pub Action : Type 0 → Type 0
Action A = State → Result A × State

abbrev pub pure : {A : Type 0} → A → Action A
pure a s = (ok a, s)

abbrev pub raise : {A : Type 0} → Exception → Action A
raise e s = (throws e, s)

-- A call that may throw but makes no system call.
abbrev pub lift : {A : Type 0} → Result A → Action A
lift r s = (r, s)

infixl 5 ◌>>=◌ ◌>>◌
abbrev pub ◌>>=◌ : {A B : Type 0} → Action A → (A → Action B) → Action B
◌>>=◌ m f s =
    let (r, s') = m s in
    elim r [ ok a ↦ f a s' | throws e ↦ (throws e, s') | undefined ↦ (undefined, s') ]

abbrev pub ◌>>◌ : {A B : Type 0} → Action A → Action B → Action B
m >> k = m >>= λ _. k

-- A local variable or a member that holds a descriptor: the object at index `object` is destroyed
-- when an exception leaves `m`.
unwound : {A : Type 0} → Exception → State → Result World → Result A × State
unwound e s (ok world) = (throws e, record s { world = world })
unwound e s _ = (undefined, s)

pub unwind : {A : Type 0} → ℕ → Result A × State → Result A × State
unfolding unwound
unwind object (throws e, s) = unwound e s (FileDescriptor.destroy object s.world)
unwind object (r, s) = (r, s)

unfoldable pub guarded : {A : Type 0} → ℕ → Action A → Action A
unfolding unwind
guarded object m s = unwind object (m s)

-- The descriptor of an object.
abbrev pub descriptor : ℕ → Action ℤ
descriptor object s = (ok (FileDescriptor.get (get_elem? s.world.objects object)), s)

adopted : World → Result World → Action ℕ
adopted before (ok world) s = (ok (length before.objects), record s { world = world })
adopted before (throws e) s = (throws e, s)
adopted before undefined s = (undefined, s)

module _ (kernel : Kernel) where
  abbrev pub call : Call → Action Reply
  call c s = (ok (kernel s.calls c), record s { calls = s.calls ++ (c ∷ []) })

  -- `if (call < 0) throw std::system_error(errno, ...)`
  unfoldable pub check : Call → Action (Unit {0})
  check c = do
    reply ← call c
    if ltb_ℤ reply.result (pos 0) then raise (system_error reply.errno) else pure tt

  -- `inet_pton` returns 0 for a text that is no address.
  unfoldable pub address_of : List ℕ → Action ℕ
  address_of text = do
    reply ← call (parse_address text)
    if ltb_ℤ reply.result (pos 0)
        then raise (system_error reply.errno)
        else if ltb_ℤ (pos 0) reply.result
        then pure reply.address
        else raise invalid_address

  -- A `FileDescriptor` constructed from a call: the index of the object.
  unfoldable pub open_descriptor : Call → Action ℕ
  unfolding adopted
  open_descriptor c s =
      let reply = kernel s.calls c in
      adopted s.world (FileDescriptor.of_syscall reply.result reply.errno s.world)
        (record s { calls = s.calls ++ (c ∷ []) })
