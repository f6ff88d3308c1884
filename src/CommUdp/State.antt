-- ===== src/CommUdp/State.antt =====
-- What the UDP functions share: the globals that they change, and the answers of the network.
use ipk_chat_client.Base.{
  ℕ, ◌-◌, Bool, none, some, List, [], ◌∷◌, ◌++◌, if◌then◌else◌, length, replicate,
}
use ipk_chat_client.Common.{buffer_size, Exit, exit_success, exit_failure, confirm, Out, Client}
use ipk_chat_client.MsgIdList.{MsgIdList}
use ipk_chat_client.Queue.{MsgQueue}
use ipk_chat_client.UdpMsg.Build.{build_header}

-- `client`, `msg_id_list`, `msg_queue`, the datagrams handed to `sendto` so far that were sent
-- whole, and the lines printed so far.
pub record Udp : Type 0 where
  pub client : Client
  pub ids : MsgIdList
  pub queue : MsgQueue
  pub sent : List (List ℕ)
  pub out : List Out

-- The answers that the code gets while it handles one call of `recvfrom`: whether the `sendto`
-- before it sends the whole frame; the bytes received, none where `recvfrom` returns 0 or -1;
-- whether `errno` is then EAGAIN or EWOULDBLOCK; whether the CONFIRM block is allocated and sent;
-- whether the copy for the queue is allocated; and whether the id list can grow.
pub record Round : Type 0 where
  pub frame_sent : Bool
  pub datagram : List ℕ
  pub errno_again : Bool
  pub confirm_allocated : Bool
  pub confirm_sent : Bool
  pub copy_allocated : Bool
  pub list_grown : Bool

-- `char buffer[BUFFER_SIZE] = {first}` after `recvfrom` wrote the datagram to its front.
unfoldable pub recv_buffer : ℕ → List ℕ → List ℕ
recv_buffer first [] = first ∷ replicate (buffer_size - 1) 0
recv_buffer first (c ∷ d) = (c ∷ d) ++ replicate (buffer_size - length (c ∷ d)) 0

unfoldable pub send_confirm : Round → ℕ → Udp → Exit × Udp
send_confirm r msg_id s = elim (build_header r.confirm_allocated confirm msg_id 0) [
  | none ↦ (exit_failure, s)
  | some block ↦
      if r.confirm_sent
      then (exit_success, record s { sent = s.sent ++ block ∷ [] })
      else (exit_failure, s)
]
