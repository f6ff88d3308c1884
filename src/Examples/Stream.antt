-- ===== src/Examples/Stream.antt =====
-- Lines out of the TCP stream.
use ipk_chat_client.Base.{ℕ, ◌≡◌, refl, [], ◌∷◌, ◌++◌, List, codes, arith, some, replicate}
use ipk_chat_client.TcpMsg.Process.{Tcp, process_block, tcp_check_previous, tcp_recv_msg}
use ipk_chat_client.TcpMsg.Calls.{received, checked, types, IsRead, tcp_call}
use ipk_chat_client.Base.{write, c_string}
use ipk_chat_client.Common.{copy, strncpy}
use ipk_chat_client.Buffer.{buffer_append, grow, fill, buffer_get_msg, crlf, extract}
use ipk_chat_client.TcpMsg.Runs.{tcp_calls, FitAll, tcp_calls-lines}
use ipk_chat_client.Examples.Data.{alice}

abbrev bye_line : List ℕ
bye_line = codes "BYE FROM Bo\r\n"

-- A whole line and the start of the next.
abbrev two_waiting : Tcp
two_waiting = record {
  client = alice;
  buffer = record { msg = bye_line ++ (codes "MS" ++ replicate 8 0); msg_len = 15; size = 23 };
  sent = [];
  out = [];
}

-- The start of a line.
abbrev started : Tcp
started = record two_waiting {
  buffer = record { msg = codes "BYE FR" ++ replicate 10 0; msg_len = 6; size = 16 };
}

tcp_calls-lines_example :
    (s : Tcp) × (ls : List (List ℕ)) × (tcp_calls
        (received (codes "OM Bo\r\nB") ∷ checked ∷ received (codes "YE FROM C\r") ∷ [])
        started
      ≡ some (types ls, s))
    × IsRead started s (codes "OM Bo\r\nBYE FROM C\r") ls
unfolding FitAll tcp_call tcp_recv_msg tcp_check_previous buffer_append grow fill copy strncpy write
    buffer_get_msg crlf extract process_block c_string
tcp_calls-lines_example =
    tcp_calls-lines (received (codes "OM Bo\r\nB") ∷ checked ∷ received (codes "YE FROM C\r") ∷ [])
      started (record { block = refl; within = omega arith }) (ground arith) (ground arith)
