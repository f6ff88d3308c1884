-- ===== src/Examples/Udp.antt =====
-- Sending and receiving over UDP.
use ipk_chat_client.Base.{
  ℕ, ◌+◌, ◌≤◌, ◌≡◌, refl, ◌∷◌, [], ◌++◌, List, codes, arith, true, none, length, replicate,
}
use ipk_chat_client.Common.{exit_failure, msg}
use ipk_chat_client.Queue as Queue
use ipk_chat_client.Queue.Laws.{contents}
use ipk_chat_client.UdpMsg.Frames.{frame}
use ipk_chat_client.CommUdp.State.{Udp}
use ipk_chat_client.CommUdp.Send.{send_loop, udp_send_msg, done}
use ipk_chat_client.CommUdp.Process.{udp_check_previous}
use ipk_chat_client.CommUdp.Safety.{Left, udp_send_msg-Left}
use ipk_chat_client.CommUdp.Retransmit.{Confirmed, send_loop-Confirmed}
use ipk_chat_client.CommUdp.Bound.{
  requests, requests_of, requests-udp_send_msg, udp_send_msg_silent,
}
use ipk_chat_client.CommUdp.Overread.{udp_check_previous-overread}
use ipk_chat_client.UdpMsg.Frames.{udp_build_msg_lem}
use ipk_chat_client.Examples.Data.{alice, globals, globals-IsValid, confirming, silent, greeting}

udp_send_msg-Left_example :
    Left (udp_send_msg 3 true msg globals (greeting ∷ silent ∷ confirming ∷ []))
udp_send_msg-Left_example =
    udp_send_msg-Left 3 true msg globals (greeting ∷ silent ∷ confirming ∷ []) globals-IsValid
      (omega arith, (omega arith, (omega arith, tt)))

send_loop-Confirmed_example :
    Confirmed alice
      (silent ∷ confirming ∷ [])
      (send_loop 3 (frame msg 7 []) 0 true globals (silent ∷ confirming ∷ []))
send_loop-Confirmed_example =
    send_loop-Confirmed 3 (frame msg 7 []) 0 true globals (silent ∷ confirming ∷ [])

requests-udp_send_msg_example :
    requests_of (udp_send_msg 3 true msg globals (silent ∷ greeting ∷ confirming ∷ []))
    ≤ requests [] + (3 + 1)
requests-udp_send_msg_example =
    requests-udp_send_msg 3 true msg globals (silent ∷ greeting ∷ confirming ∷ [])

abbrev texts : List (List ℕ)
texts = codes "Al" ∷ codes "hi there" ∷ []

udp_send_msg_silent_example :
    udp_send_msg 1 true msg globals (silent ∷ silent ∷ [])
    ≡ done exit_failure (record globals { sent = [] ++ replicate (1 + 1) (frame msg 7 texts) })
udp_send_msg_silent_example =
    udp_send_msg_silent 1 msg globals (silent ∷ silent ∷ []) (frame msg 7 texts)
      (length (frame msg 7 texts)) (udp_build_msg_lem msg alice) (omega arith)
      ((refl, refl, refl), ((refl, refl, refl), tt))

abbrev queued : List ℕ
queued = 4 ∷ 0 ∷ 5 ∷ codes "Bo"

abbrev held : Udp
held = record globals {
  queue = record {
    msgs = record { msg = queued; msg_len = 5 } ∷ replicate 15 Queue.no_msg;
    front = 0;
    end = 1;
    size = 1;
  };
}

udp_check_previous-overread_example : udp_check_previous held ≡ none
unfolding contents
udp_check_previous-overread_example =
    udp_check_previous-overread 0 5 (codes "Bo") held []
      (record { slots = refl; front_in = omega arith; end_at = refl; size_in = omega arith }) refl
      (omega arith, (omega arith, tt)) (omega arith)
