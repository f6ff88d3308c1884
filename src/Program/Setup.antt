-- ===== src/Program/Setup.antt =====
-- `tcp_setup`, `udp_setup`, `get_comm` and the clean-up, on what the process holds of the system.
use ipk_chat_client.Base.{
  ℕ, ◌+◌, ◌-◌, ◌*◌, ◌/◌, ◌%◌, Bool, not, Option, none, some, List, [], ◌∷◌, ◌==◌, if◌then◌else◌,
}
use ipk_chat_client.Args.{Parameters}
use ipk_chat_client.Prompt.{Timeval}

-- The open descriptors, the address lists of `getaddrinfo` that are not freed, and the receive
-- timeout that was set last.
pub record Kernel : Type 0 where
  pub descriptors : List ℕ
  pub addresses : ℕ
  pub receive_timeout : Timeval

-- The answers: the descriptor of `socket`, none for -1, and which of the calls after it succeed.
pub record SetUp : Type 0 where
  pub socket : Option ℕ
  pub option_set : Bool
  pub resolved : Bool
  pub connected : Bool

abbrev pub remove : ℕ → List ℕ → List ℕ
remove fd [] = []
remove fd (x ∷ xs) = if x == fd then xs else x ∷ remove fd xs

abbrev pub close : ℕ → Kernel → Kernel
close fd k = record k { descriptors = remove fd k.descriptors }

abbrev pub freeaddrinfo : Kernel → Kernel
freeaddrinfo k = record k { addresses = k.addresses - 1 }

abbrev pub opened : ℕ → Kernel → Kernel
opened fd k = record k { descriptors = fd ∷ k.descriptors }

abbrev pub resolved : Kernel → Kernel
resolved k = record k { addresses = k.addresses + 1 }

-- The descriptor 0 counts as a failure too.
unfoldable pub tcp_setup : SetUp → Kernel → Option ℕ × Kernel
tcp_setup a k = elim a.socket [
  | none ↦ (none, k)
  | some fd ↦
      let k1 = opened fd k in
      if fd == 0
      then (none, k1)
      else if not a.resolved
      then (none, close fd k1)
      else if not a.connected
      then (none, freeaddrinfo (close fd (resolved k1)))
      else (some fd, resolved k1)
]

-- The milliseconds of the parameter as a `timeval`.
unfoldable pub timeout_of : ℕ → Timeval
timeout_of ms = record { tv_sec = ms / 1000; tv_usec = ms % 1000 * 1000 }

unfoldable pub udp_setup : Parameters → SetUp → Kernel → Option ℕ × Kernel
unfolding timeout_of
udp_setup p a k = elim a.socket [
  | none ↦ (none, k)
  | some fd ↦
      let k1 = opened fd k in
      let k2 = record k1 { receive_timeout = timeout_of p.timeout } in
      if fd == 0
      then (none, k1)
      else if not a.option_set
      then (none, close fd k1)
      else if not a.resolved
      then (none, close fd k2)
      else (some fd, resolved k2)
]

-- The socket that the interface gets, or NULL.
unfoldable pub get_comm : Parameters → SetUp → Kernel → Option ℕ × Kernel
unfolding tcp_setup udp_setup
get_comm p a k = if p.tcp then tcp_setup a k else udp_setup p a k

-- What `clean_up_comm` gives back to the system; `shutdown` closes nothing.
unfoldable pub release_socket : ℕ → Kernel → Kernel
release_socket fd k = close fd (freeaddrinfo k)
