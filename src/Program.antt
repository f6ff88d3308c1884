-- ===== src/Program.antt =====
-- src/main.c with the set-up and clean-up of src/comm.c, src/comm_tcp.c and src/comm_udp.c: from
-- the command line to the end of the session, over the descriptors and address lists that the
-- process holds.
pub mod Setup
pub mod Laws
pub mod Memory
use ipk_chat_client.Base.{
  ℕ, ◌+◌, Bool, true, false, Option, none, some, List, [], ◌∷◌, if◌then◌else◌, ◌>>=◌,
}
use ipk_chat_client.Common.{Exit, exit_success, exit_failure, Client}
use ipk_chat_client.MsgIdList as Ids
use ipk_chat_client.MsgIdList.{list_destroy}
use ipk_chat_client.Queue as Queue
use ipk_chat_client.Queue.{queue_destroy}
use ipk_chat_client.Buffer as Buffer
use ipk_chat_client.Buffer.{buffer_destroy}
use ipk_chat_client.CommUdp.State.{Udp, Round}
use ipk_chat_client.TcpMsg.Process.{Tcp}
use ipk_chat_client.Args.{
  Opt, Parameters, Processed, help_shown, exit_failed, accepted, process_args,
}
use ipk_chat_client.Comm.{Comm}
use ipk_chat_client.Comm.Variants.{UdpSending, udp_comm, TcpSending, TcpReceiving, tcp_comm}
use ipk_chat_client.Session as Loop
use ipk_chat_client.Session.{Session, Answers, Result, next, blocked, broken}
use ipk_chat_client.Program.Setup.{Kernel, SetUp, get_comm, release_socket}

-- `client_t client = {0}`.
abbrev pub no_client : Client
no_client = record {
  msg_id = 0;
  username = [];
  channel_id = [];
  secret = [];
  display_name = [];
  msg_content = [];
}

abbrev pub udp_globals : Udp
udp_globals = record {
  client = no_client;
  ids = Ids.empty;
  queue = Queue.empty;
  sent = [];
  out = [];
}

abbrev pub tcp_globals : Tcp
tcp_globals = record { client = no_client; buffer = Buffer.empty; sent = []; out = [] }

-- The list and the queue, which a session over TCP leaves as they were.
unfoldable pub udp_destroy : Udp → Option Udp
udp_destroy s = queue_destroy (s.queue.size + 1) s.queue >>= λ q.
    some (record s { ids = list_destroy s.ids; queue = q })

-- The stream buffer, which a session over UDP leaves as it was.
unfoldable pub tcp_destroy : Tcp → Option Tcp
tcp_destroy s = some (record s { buffer = buffer_destroy s.buffer })

-- The end of the process; or it waits still; or it has left a block.
pub data Ending : Type 0 where
  exited : Exit → Kernel → Ending
  running : Kernel → Ending
  crashed : Ending

module _ {S A R : Type 0} (comm : Comm S A R) (destroy : S → Option S) where
  -- `fsm()` with `clean_up_comm` behind the loop.
  unfoldable pub fsm : ℕ → Kernel → S → List (Answers A R) → Ending
  unfolding release_socket
  fsm fd k w xs = elim (Loop.fsm comm w xs) [
    | next e s ↦ elim (destroy s.world) [
      | none ↦ crashed
      | some w' ↦ exited e (release_socket fd k)
    ]
    | blocked s ↦ running k
    | broken ↦ crashed
  ]

-- What the system answers to a whole run: to the set-up, and to a session over TCP or over UDP.
pub record Given : Type 0 where
  pub set_up : SetUp
  pub tcp : List (Answers TcpSending TcpReceiving)
  pub udp : List (Answers UdpSending Round)

-- The call of `fsm` with the interface that `get_comm` chose.
unfoldable pub session : Parameters → ℕ → Kernel → Given → Ending
unfolding fsm
session p fd k g =
    if p.tcp
    then fsm (tcp_comm fd) tcp_destroy fd k tcp_globals g.tcp
    else fsm (udp_comm fd p.retransmissions) udp_destroy fd k udp_globals g.udp

unfoldable pub main : List Opt → Bool → Given → Kernel → Ending
unfolding session get_comm
main os extra g k = elim (process_args os extra) [
  | help_shown ↦ exited exit_success k
  | exit_failed ↦ exited exit_failure k
  | accepted p ↦
      let (fd, k') = get_comm p g.set_up k in
      elim fd [ none ↦ exited exit_failure k' | some fd ↦ session p fd k' g ]
]
