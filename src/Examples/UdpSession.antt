-- ===== src/Examples/UdpSession.antt =====
-- A session over UDP.
use ipk_chat_client.Base.{codes, ◌++◌, refl, ◌∷◌, [], List, All, true, false, none, write}
use ipk_chat_client.MsgIdList.{list_contains, list_append}
use ipk_chat_client.MsgIdList.Laws as Ids
use ipk_chat_client.MsgIdList.Recorded.{IsRecorded, bounded-IsRecorded}
use ipk_chat_client.Queue.{queue_add}
use ipk_chat_client.UdpMsg.Build.{udp_build_msg, build_bye, build_header}
use ipk_chat_client.UdpMsg.Parse.{to_uint16}
use ipk_chat_client.CommUdp.State.{Udp, Round, recv_buffer, send_confirm}
use ipk_chat_client.CommUdp.Send as Send
use ipk_chat_client.CommUdp.Send.{
  udp_send_msg, send_loop, receive, take_datagram, keep_datagram, put_aside,
}
use ipk_chat_client.Comm.Variants.{UdpSending, udp_comm}
use ipk_chat_client.Comm.Wire.{IsDatagram}
use ipk_chat_client.Session.{Session, Answers, Result, next, fsm, start, run_from, turn, call, send}
use ipk_chat_client.Session.Variants.{udp_session_sends, udp_session-IsRecorded}
use ipk_chat_client.Program.{udp_globals}
use ipk_chat_client.Examples.Data.{confirming}
use ipk_chat_client.Examples.Sessions.{noon, unknown_client-IsValid}

-- Over UDP the user interrupts at once; a message comes, and then the BYE is confirmed.
abbrev leaving : List (Answers UdpSending Round)
leaving =
    record {
      signal = true;
      memory = true;
      start = noon;
      wakeups = [];
      sending = record {
        allocated = true;
        rounds =
            record confirming { datagram = 4 ∷ 0 ∷ 5 ∷ codes "Bo" ++ (0 ∷ codes "hi" ++ (0 ∷ [])) }
            ∷ record confirming { datagram = 0 ∷ 0 ∷ 0 ∷ [] }
            ∷ [];
      };
    }
    ∷ []

abbrev left_with : Result Udp → Session Udp → Session Udp
left_with (next e s) d = s
left_with r d = d

abbrev left : Session Udp
left = left_with (fsm (udp_comm 3 3) udp_globals leaving) (record {
  state = none;
  processing = false;
  interrupt = false;
  world = udp_globals;
  sent = [];
  heard = [];
})

udp_session_sends_example : All IsDatagram left.world.sent
unfolding start fsm run_from turn call send udp_comm udp_send_msg udp_build_msg build_bye
    build_header write send_loop Send.turn receive take_datagram recv_buffer to_uint16 keep_datagram
    put_aside list_contains list_append queue_add send_confirm
udp_session_sends_example =
    udp_session_sends 3 3 udp_globals leaving left unknown_client-IsValid refl refl

-- The session has stored an id.
udp_session-IsRecorded_example : IsRecorded left.world.ids
unfolding start fsm run_from turn call send udp_comm udp_send_msg udp_build_msg build_bye
    build_header write send_loop Send.turn receive take_datagram recv_buffer to_uint16 keep_datagram
    put_aside list_contains list_append queue_add send_confirm
udp_session-IsRecorded_example =
    udp_session-IsRecorded 3 3 udp_globals leaving left unknown_client-IsValid
      (bounded-IsRecorded _ Ids.empty-IsValid (tt, tt)) refl
