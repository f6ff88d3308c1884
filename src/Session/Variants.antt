-- ===== src/Session/Variants.antt =====
-- Sessions over the two variants of the protocol.
use mathlib.Core.Path.{subst}
use ipk_chat_client.Base.{ℕ, ◌≡◌, sym, some, List, [], All, All-mono}
use ipk_chat_client.Input.Laws.{IsValid}
use ipk_chat_client.CommUdp.State.{Udp, Round}
use ipk_chat_client.TcpMsg.Process.{Tcp}
use ipk_chat_client.MsgIdList.Recorded.{IsRecorded}
use ipk_chat_client.Comm.Variants.{UdpSending, udp_comm, TcpSending, TcpReceiving, tcp_comm}
use ipk_chat_client.Comm.Wire.{IsDatagram, IsLine}
use ipk_chat_client.Comm.Framing.{EndsOnce, IsLine-EndsOnce}
use ipk_chat_client.Comm.WireKeeps.{
  HasIds, udp_comm-ids, IsFine, udp_comm-Keeps, IsGood, tcp_comm-Keeps,
}
use ipk_chat_client.Session.{Session, Answers, reached, fsm, start}
use ipk_chat_client.Session.Keeps.{fsm-keeps}

-- Every datagram that a session over UDP sends, to its end or as far as it has come, whatever was
-- typed, received and refused, is the header of a message that the client may send, a CONFIRM among
-- them, with its texts and their NULs, where each text is not empty and within the length and the
-- characters that the protocol allows in its place. The client's data are valid, or empty, when the
-- session has set its first display name, and nothing was sent before.
pub udp_session_sends :
    (fd retransmissions : ℕ) (w : Udp) (xs : List (Answers UdpSending Round)) (s : Session Udp)
    → IsValid (start (udp_comm fd retransmissions) w).world.client
    → w.sent ≡ []
    → reached (fsm (udp_comm fd retransmissions) w xs) ≡ some s
    → All IsDatagram s.world.sent
unfolding start udp_comm
udp_session_sends fd n w xs s v none_yet h =
    (fsm-keeps (udp_comm fd n) IsFine (udp_comm-Keeps fd n) w xs s
      (v, subst (All IsDatagram) (sym none_yet) tt) h).1

-- Whatever a session over UDP receives, at any time and of any type, and whatever of the system
-- fails meanwhile, the ids that its list holds are of 16 bits and all different, until a `realloc`
-- that fails loses the list, and their count is never above 65536: where the client's data are
-- valid, or empty, when the session has set its first display name, and the list was such a list
-- before.
pub udp_session-IsRecorded :
    (fd retransmissions : ℕ) (w : Udp) (xs : List (Answers UdpSending Round)) (s : Session Udp)
    → IsValid (start (udp_comm fd retransmissions) w).world.client
    → IsRecorded w.ids
    → reached (fsm (udp_comm fd retransmissions) w xs) ≡ some s
    → IsRecorded s.world.ids
unfolding start udp_comm
udp_session-IsRecorded fd n w xs s v recorded h =
    (fsm-keeps (udp_comm fd n) HasIds (udp_comm-ids fd n) w xs s (v, recorded) h).1

-- Every line that a session over TCP sends, to its end or as far as it has come, whatever was
-- typed, received and refused, is the line of a message that the client may send, where each text
-- is not empty and within the length and the characters that the protocol allows in its place, and
-- its only carriage return is the one of the CR LF at its end. The client's data are valid, or
-- empty, when the session has set its first display name, and nothing was sent before.
pub tcp_session_sends :
    (fd : ℕ) (w : Tcp) (xs : List (Answers TcpSending TcpReceiving)) (s : Session Tcp)
    → IsValid (start (tcp_comm fd) w).world.client
    → w.sent ≡ []
    → reached (fsm (tcp_comm fd) w xs) ≡ some s
    → All (λ l. IsLine l × EndsOnce l) s.world.sent
unfolding start tcp_comm
tcp_session_sends fd w xs s v none_yet h =
    let good =
      fsm-keeps (tcp_comm fd) IsGood (tcp_comm-Keeps fd) w xs s
        (v, subst (All IsLine) (sym none_yet) tt) h in
    All-mono IsLine (λ l. IsLine l × EndsOnce l) s.world.sent (λ l k. (k, IsLine-EndsOnce l k))
      good.1
