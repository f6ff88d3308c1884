-- ===== src/Comm/UdpNoFault.antt =====
-- The calls of the UDP variant stay inside their memory, where the network's datagrams can be read.
use mathlib.Core.Path.{subst}
use ipk_chat_client.Base.{ℕ, ◌≡◌, ◌≢◌, ◌<◌, arith, All, All-mono}
use ipk_chat_client.Common.{exit_success, exit_failure, MsgType}
use ipk_chat_client.CommUdp.State.{Udp}
use ipk_chat_client.CommUdp.Send.{Outcome, done, waiting, fault, udp_send_msg}
use ipk_chat_client.CommUdp.Valid.{IsValid, Fits}
use ipk_chat_client.CommUdp.Safety.{Left, udp_send_msg-Left}
use ipk_chat_client.CommUdp.Queued.{IsGood}
use ipk_chat_client.CommUdp.Reading.{
  IsSafe, IsReceivable, udp_recv_msg-Comes, udp_check_previous-Comes,
}
use ipk_chat_client.CommUdp.NoFault.{Holding, udp_send_msg-Holding}
use ipk_chat_client.Comm as Comm
use ipk_chat_client.Comm.{Called, fd_setsize, returned}
use ipk_chat_client.Comm.NoFault.{NoFault}
use ipk_chat_client.Comm.Variants.{UdpSending, called, udp_comm}

-- Each datagram that comes during a `udp_send_msg` can be read from a block of its own.
abbrev pub GoodSending : UdpSending → Type 0
GoodSending a = All IsGood a.rounds

called_ends : (o : Outcome) → Left o → called o ≢ Comm.fault
unfolding called
called_ends (done exit_success s) left e = ground arith
called_ends (done exit_failure s) left e = ground arith
called_ends (waiting s) left e = ground arith
called_ends fault left e = left

called_success :
    (o : Outcome) (s : Udp) → Left o → Holding o → called o ≡ returned exit_success s → IsSafe s
unfolding called
called_success (done exit_success s') s left holds e =
    let same : s' ≡ s = ground (arith, e) in
    subst IsSafe same (record { ids = left.ids; queue = holds })
called_success (done exit_failure s') s left holds e = absurd (ground (arith, e))
called_success (waiting s') s left holds e = absurd (ground (arith, e))
called_success fault s left holds e = absurd left

IsValid-of_safe : (s : Udp) → IsSafe s → IsValid s
IsValid-of_safe s h = record { ids = h.ids; queue = h.queue.valid }

-- What was sent, from the two laws of `udp_send_msg`.
safe-Left :
    (limit : ℕ) (a : UdpSending) (type : MsgType) (s : Udp)
    → GoodSending a
    → IsSafe s
    → Left (udp_send_msg limit a.allocated type s a.rounds)
safe-Left limit a type s g h =
    udp_send_msg-Left limit a.allocated type s a.rounds (IsValid-of_safe s h)
      (All-mono IsGood Fits a.rounds (λ r k. k.fits) g)

-- No call of the UDP variant leaves its memory: from a valid id list and a valid queue of readable
-- blocks, with a descriptor below FD_SETSIZE, where the datagrams that come can be read and the list can grow when one is received.
pub udp_comm-NoFault :
    (fd limit : ℕ) → fd < fd_setsize → NoFault (udp_comm fd limit) IsSafe GoodSending IsReceivable
unfolding udp_comm
udp_comm-NoFault fd limit small = record {
  socket = small;
  send_ends = λ a type s g h e.
      called_ends (udp_send_msg limit a.allocated type s a.rounds) (safe-Left limit a type s g h) e;
  send = λ a type s s' g h e.
      called_success (udp_send_msg limit a.allocated type s a.rounds) s'
        (safe-Left limit a type s g h)
        (udp_send_msg-Holding limit a.allocated type s a.rounds g h.queue) e;
  recv = λ r s g h. udp_recv_msg-Comes r s g h;
  previous = λ memory s h. udp_check_previous-Comes s h;
  sets = λ c s h. record { ids = h.ids; queue = h.queue };
  prints = λ out s h. record { ids = h.ids; queue = h.queue };
}
