-- ===== src/Program/Laws.antt =====
-- What a run of the program gives back and keeps.
use ipk_chat_client.Base.{
  ℕ, ◌+◌, ◌*◌, ◌≡◌, ◌≢◌, inl, inr, Bool, Option, none, some, List, ◌∷◌, arith, Option-cases,
  Bool-cases,
}
use ipk_chat_client.Common.{Exit, exit_failure}
use ipk_chat_client.Args.{Opt, Parameters, process_args, Processed-cases}
use ipk_chat_client.Prompt.Deadline.{micro, IsProper}
use ipk_chat_client.Comm.{Comm}
use ipk_chat_client.Session as Loop
use ipk_chat_client.Session.{Answers, Result-cases}
use ipk_chat_client.Program.Setup.{
  Kernel, SetUp, tcp_setup, timeout_of, udp_setup, get_comm, release_socket,
}
use ipk_chat_client.Program.{
  exited, fsm, Given, session, main, tcp_globals, udp_globals, tcp_destroy, udp_destroy,
}
use ipk_chat_client.Comm.Variants.{udp_comm, tcp_comm}

-- The same descriptors and address lists are held.
abbrev pub Same : Kernel → Kernel → Type 0
Same k k' = (k'.descriptors ≡ k.descriptors) × (k'.addresses ≡ k.addresses)

-- What `get_comm` leaves: nothing more on a failure, and the socket and one address list on
-- success.
abbrev pub Holds : Kernel → Option ℕ × Kernel → Type 0
Holds k (none, k') = Same k k'
Holds k (some fd, k') = (k'.descriptors ≡ fd ∷ k.descriptors) × (k'.addresses ≡ k.addresses + 1)

tcp_setup-Holds : (a : SetUp) (k : Kernel) → a.socket ≢ some 0 → Holds k (tcp_setup a k)
unfolding tcp_setup
tcp_setup-Holds a k nonzero = elim (Option-cases a.socket) [
  | inl off ↦ ground (arith, off)
  | inr (fd, got) ↦ ground (arith, got, nonzero)
]

udp_setup-Holds :
    (p : Parameters) (a : SetUp) (k : Kernel) → a.socket ≢ some 0 → Holds k (udp_setup p a k)
unfolding udp_setup
udp_setup-Holds p a k nonzero = elim (Option-cases a.socket) [
  | inl off ↦ ground (arith, off)
  | inr (fd, got) ↦ ground (arith, got, nonzero)
]

-- If `socket` does not answer with the descriptor 0, set-up of either variant that fails at any of
-- its calls leaves no socket open and no address list, and one that succeeds leaves exactly the
-- socket that it returns and one list.
pub get_comm-Holds :
    (p : Parameters) (a : SetUp) (k : Kernel) → a.socket ≢ some 0 → Holds k (get_comm p a k)
unfolding get_comm
get_comm-Holds p a k nonzero =
    ground (arith, tcp_setup-Holds a k nonzero, udp_setup-Holds p a k nonzero)

-- What is held after `get_comm` is given back at the end of the session.
module _ {S A R : Type 0} (comm : Comm S A R) (destroy : S → Option S) where
  fsm-Same :
      (fd : ℕ) (k k' : Kernel) (w : S) (xs : List (Answers A R)) (e : Exit) (last : Kernel)
      → (k'.descriptors ≡ fd ∷ k.descriptors) × (k'.addresses ≡ k.addresses + 1)
      → fsm comm destroy fd k' w xs ≡ exited e last
      → Same k last
  unfolding fsm release_socket
  fsm-Same fd k k' w xs e last held h = elim (Result-cases (Loop.fsm comm w xs)) [
    | inl (r, s, got) ↦ elim (Option-cases (destroy s.world)) [
      | inl lost ↦ absurd (ground (arith, got, lost))
      | inr (w', freed) ↦ ground (arith, got, freed)
    ]
    | inr (inl (s, got)) ↦ absurd (ground (arith, got))
    | inr (inr got) ↦ absurd (ground (arith, got))
  ]

session-Same :
    (p : Parameters) (fd : ℕ) (k k' : Kernel) (g : Given) (e : Exit) (last : Kernel)
    → (k'.descriptors ≡ fd ∷ k.descriptors) × (k'.addresses ≡ k.addresses + 1)
    → session p fd k' g ≡ exited e last
    → Same k last
unfolding session
session-Same p fd k k' g e last held h = elim (Bool-cases p.tcp) [
  | inl tcp ↦
      fsm-Same (tcp_comm fd) tcp_destroy fd k k' tcp_globals g.tcp e last held
        (ground (arith, tcp, h))
  | inr udp ↦
      fsm-Same (udp_comm fd p.retransmissions) udp_destroy fd k k' udp_globals g.udp e last held
        (ground (arith, udp, h))
]

started-Same :
    (p : Parameters) (k : Kernel) (g : Given) (r : Option ℕ × Kernel) (e : Exit) (last : Kernel)
    → Holds k r
    → elim r.0 [ none ↦ exited exit_failure r.1 | some fd ↦ session p fd r.1 g ] ≡ exited e last
    → Same k last
started-Same p k g (none, k') e last held h = ground (arith, held, h)
started-Same p k g (some fd, k') e last held h = session-Same p fd k k' g e last held h

-- If `socket` does not answer with the descriptor 0, a run of the program that ends, with whatever
-- options, variant, answers and result, has closed every socket and freed every address list that
-- it got.
pub main_releases :
    (os : List Opt) (extra : Bool) (g : Given) (k : Kernel) (e : Exit) (last : Kernel)
    → g.set_up.socket ≢ some 0
    → main os extra g k ≡ exited e last
    → Same k last
unfolding main
main_releases os extra g k e last nonzero h = elim (Processed-cases (process_args os extra)) [
  | inl help ↦ ground (arith, help, h)
  | inr (inl refused) ↦ ground (arith, refused, h)
  | inr (inr (p, ok)) ↦
      started-Same p k g (get_comm p g.set_up k) e last (get_comm-Holds p g.set_up k nonzero)
        (ground (arith, ok, h))
]

-- The receive timeout that set-up over UDP asks for is exactly the milliseconds of the parameter,
-- as a proper time.
pub udp_setup-timeout :
    (p : Parameters) (a : SetUp) (k : Kernel) (fd : ℕ) (k' : Kernel)
    → udp_setup p a k ≡ (some fd, k')
    → (micro k'.receive_timeout ≡ 1000 * p.timeout) × IsProper k'.receive_timeout
unfolding udp_setup timeout_of
udp_setup-timeout p a k fd k' h = elim (Option-cases a.socket) [
  | inl off ↦ ground (arith, off)
  | inr (fd, got) ↦ ground (arith, got, h)
]
