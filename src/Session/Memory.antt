-- ===== src/Session/Memory.antt =====
-- No session over UDP leaves its memory, where the datagrams that come can be read.
use ipk_chat_client.Base.{◌<◌, ℕ, ◌≢◌, List, All}
use ipk_chat_client.CommUdp.State.{Udp, Round}
use ipk_chat_client.CommUdp.Reading.{IsSafe, IsReceivable}
use ipk_chat_client.Comm.{fd_setsize}
use ipk_chat_client.Comm.Variants.{UdpSending, udp_comm}
use ipk_chat_client.Comm.UdpNoFault.{GoodSending, udp_comm-NoFault}
use ipk_chat_client.Session.{Answers, broken, fsm}
use ipk_chat_client.Session.NoFault.{GoodAnswers, fsm_fine}

-- A whole session over UDP never reads or writes outside a block or the set of descriptors, whatever
-- the user types, whatever memory `malloc` refuses, and however the system calls fail, from globals
-- with a valid id list and a valid queue of readable blocks: where the socket is below FD_SETSIZE,
-- `strdup` finds memory for every line, every datagram that comes while a CONFIRM is awaited has
-- at most three bytes or a NUL at its end, and the buffer holds it, and every datagram that is
-- received otherwise is shorter than the buffer and finds memory for its id.
pub udp_session_no_fault :
    (fd retransmissions : ℕ) (w : Udp) (xs : List (Answers UdpSending Round))
    → fd < fd_setsize
    → IsSafe w
    → All (GoodAnswers GoodSending IsReceivable) xs
    → fsm (udp_comm fd retransmissions) w xs ≢ broken
udp_session_no_fault fd n w xs small safe good =
    fsm_fine (udp_comm fd n) IsSafe GoodSending IsReceivable (udp_comm-NoFault fd n small) w xs good
      safe
