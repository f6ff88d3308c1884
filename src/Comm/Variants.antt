-- ===== src/Comm/Variants.antt =====
-- `get_comm` of src/comm.c: the two variants of the protocol as instances of the interface.
use ipk_chat_client.Base.{ℕ, Bool, true, List, ◌++◌}
use ipk_chat_client.Buffer.{buffer_is_empty}
use ipk_chat_client.CommUdp.State.{Udp, Round}
use ipk_chat_client.CommUdp.Process.{udp_recv_msg, udp_check_previous}
use ipk_chat_client.CommUdp.Send.{Outcome, udp_send_msg}
use ipk_chat_client.TcpMsg.Process.{Tcp, Received, tcp_send_msg, tcp_recv_msg, tcp_check_previous}
use ipk_chat_client.Comm.{Comm, Called, returned, waiting, fault}

-- The answers during a `udp_send_msg`: whether the block is allocated, and the rounds of the
-- network.
pub record UdpSending : Type 0 where
  pub allocated : Bool
  pub rounds : List Round

unfoldable pub called : Outcome → Called Udp
called (Outcome.done e s) = returned e s
called (Outcome.waiting s) = waiting s
called Outcome.fault = fault

-- `buffer_is_empty` reads the stream buffer, which this variant never fills.
unfoldable pub udp_comm : ℕ → ℕ → Comm Udp UdpSending Round
unfolding called
udp_comm socket retransmissions = record {
  socket = socket;
  send_msg = λ a type s. called (udp_send_msg retransmissions a.allocated type s a.rounds);
  recv_msg = λ r s. udp_recv_msg r s;
  check_previous_msg = λ memory s. udp_check_previous s;
  buffer_is_empty = λ s. true;
  client = λ s. s.client;
  with_client = λ c s. record s { client = c };
  print = λ out s. record s { out = s.out ++ out };
}

-- The answers during a `tcp_send_msg`: whether the block is allocated, and whether `send` takes all
-- of it.
pub record TcpSending : Type 0 where
  pub allocated : Bool
  pub whole : Bool

-- The answers during a `tcp_recv_msg`: whether the buffer can grow, whether the line is allocated,
-- and what `recv` gives.
pub record TcpReceiving : Type 0 where
  pub grown : Bool
  pub allocated : Bool
  pub received : Received

unfoldable pub tcp_comm : ℕ → Comm Tcp TcpSending TcpReceiving
tcp_comm socket = record {
  socket = socket;
  send_msg = λ a type s. let r = tcp_send_msg a.allocated a.whole type s in returned r.0 r.1;
  recv_msg = λ r s. tcp_recv_msg r.grown r.allocated r.received s;
  check_previous_msg = λ memory s. tcp_check_previous memory s;
  buffer_is_empty = λ s. buffer_is_empty s.buffer;
  client = λ s. s.client;
  with_client = λ c s. record s { client = c };
  print = λ out s. record s { out = s.out ++ out };
}
