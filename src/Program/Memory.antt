-- ===== src/Program/Memory.antt =====
-- A whole run of the program over UDP, the clean-up with it, never leaves its memory.
use ipk_chat_client.Base.{
  ℕ, ◌≡◌, ◌≢◌, ◌+◌, ◌<◌, refl, inl, inr, ap, Bool, false, some, List, arith, All, Option-cases,
}
use ipk_chat_client.MsgIdList.{list_destroy}
use ipk_chat_client.MsgIdList.Laws as Ids
use ipk_chat_client.Queue.Laws as Queue
use ipk_chat_client.Queue.Laws.{contents, queue_destroy_lem}
use ipk_chat_client.CommUdp.State.{Udp, Round}
use ipk_chat_client.CommUdp.Reading.{IsSafe, IsReceivable}
use ipk_chat_client.Args.{Opt, Parameters, accepted, process_args}
use ipk_chat_client.Comm.{fd_setsize}
use ipk_chat_client.Comm.Variants.{UdpSending, udp_comm}
use ipk_chat_client.Comm.UdpNoFault.{GoodSending}
use ipk_chat_client.Comm.WireKeeps.{IsKept, udp_comm-queue}
use ipk_chat_client.Session as Loop
use ipk_chat_client.Session.{Answers, Result-cases, reached}
use ipk_chat_client.Session.Keeps.{fsm-keeps, unknown_name}
use ipk_chat_client.Session.NoFault.{GoodAnswers}
use ipk_chat_client.Session.Memory.{udp_session_no_fault}
use ipk_chat_client.Program.Setup.{Kernel, SetUp, get_comm, tcp_setup, udp_setup}
use ipk_chat_client.Program.{crashed, fsm, Given, session, main, udp_globals, udp_destroy}

-- The globals of the program's start.
udp_globals-IsSafe : IsSafe udp_globals
unfolding contents
udp_globals-IsSafe = record {
  ids = Ids.empty-IsValid;
  queue = record { valid = Queue.empty-IsValid; blocks = tt };
}

started-IsKept : (fd limit : ℕ) → IsKept (Loop.start (udp_comm fd limit) udp_globals).world
unfolding Loop.start udp_comm
started-IsKept fd limit = (
  record {
    username = record { fits = omega arith; chars = tt };
    channel_id = record { fits = omega arith; chars = tt };
    secret = record { fits = omega arith; chars = tt };
    display_name = unknown_name;
    msg_content = record { fits = omega arith; chars = tt };
  },
  Queue.empty-IsValid,
)

udp_destroy_ends : (s : Udp) → Queue.IsValid s.queue → (s' : Udp) × (udp_destroy s ≡ some s')
unfolding udp_destroy
udp_destroy_ends s v =
    let (q, ends, valid, rest) = queue_destroy_lem (s.queue.size + 1) s.queue v (omega arith) in
    (record s { ids = list_destroy s.ids; queue = q }, rw ends refl)

-- The clean-up finds a valid queue, however the session has ended.
udp_fsm_no_crash :
    (limit fd : ℕ) (k : Kernel) (xs : List (Answers UdpSending Round))
    → fd < fd_setsize
    → All (GoodAnswers GoodSending IsReceivable) xs
    → fsm (udp_comm fd limit) udp_destroy fd k udp_globals xs ≢ crashed
unfolding fsm
udp_fsm_no_crash limit fd k xs small good h =
    elim (Result-cases (Loop.fsm (udp_comm fd limit) udp_globals xs)) [
      | inl (e, s, got) ↦
          let kept =
            fsm-keeps (udp_comm fd limit) IsKept (udp_comm-queue fd limit) udp_globals xs s
              (started-IsKept fd limit) (ap reached got) in
          let (s', freed) = udp_destroy_ends s.world kept.1 in ground (arith, got, freed, h)
      | inr (inl (s, got)) ↦ ground (arith, got, h)
      | inr (inr got) ↦
          udp_session_no_fault fd limit udp_globals xs small udp_globals-IsSafe good got
    ]

-- The interface gets the descriptor that `socket` answered.
get_comm-socket :
    (p : Parameters) (a : SetUp) (k : Kernel) (fd : ℕ)
    → (get_comm p a k).0 ≡ some fd
    → a.socket ≡ some fd
unfolding get_comm tcp_setup udp_setup
get_comm-socket p a k fd h = elim (Option-cases a.socket) [
  | inl off ↦ absurd (ground (arith, off, h))
  | inr (d, got) ↦ ground (arith, got, h)
]

-- A run of the program with options that are accepted for UDP never reads or writes outside a block,
-- the slots of the queue or the set of descriptors, the clean-up included, whichever calls of the
-- set-up and of the network fail, whatever the user types, and whatever memory `malloc` refuses:
-- where `socket` answers with a descriptor below FD_SETSIZE, if any; `strdup` finds memory for every
-- line that is typed; every datagram that comes while a CONFIRM is awaited has at most three bytes
-- or a NUL at its end, and the buffer holds it; and every datagram that is received otherwise is
-- shorter than the buffer and `realloc` finds memory for its id.
pub udp_main_no_crash :
    (os : List Opt) (extra : Bool) (g : Given) (k : Kernel) (p : Parameters)
    → process_args os extra ≡ accepted p
    → p.tcp ≡ false
    → ((fd : ℕ) → g.set_up.socket ≡ some fd → fd < fd_setsize)
    → All (GoodAnswers GoodSending IsReceivable) g.udp
    → main os extra g k ≢ crashed
unfolding main session
udp_main_no_crash os extra g k p ok udp small good h =
    elim (Option-cases (get_comm p g.set_up k).0) [
      | inl off ↦ ground (arith, ok, off, h)
      | inr (fd, got) ↦
          udp_fsm_no_crash p.retransmissions fd (get_comm p g.set_up k).1 g.udp
            (small fd (get_comm-socket p g.set_up k fd got)) good (ground (arith, ok, udp, got, h))
    ]
