-- ===== src/Examples/Grammar.antt =====
-- Lines of TCP, well formed and not.
use ipk_chat_client.Base.{ℕ, ◌≡◌, ◌≢◌, ◌↔◌, [], ◌∷◌, codes, arith, List}
use ipk_chat_client.Common.{MsgType, Out, msg, err, bye, error, message, error_from}
use ipk_chat_client.TcpMsg.Process.{tcp_process_msg}
use ipk_chat_client.TcpMsg.Grammar.{Line}
use ipk_chat_client.TcpMsg.Sound.{Read}
use ipk_chat_client.TcpMsg.Accept.{tcp_process_msg_iff}
use ipk_chat_client.TcpMsg.Roundtrip.{ReadsBack, tcp_process-build}
use ipk_chat_client.Examples.Data.{alice}

-- Three spaces where a name should be.
abbrev nameless : List ℕ
nameless = codes "msg from    IS hi\r\n"

abbrev taken : MsgType × List Out
taken = (msg, message (codes "IS") (codes "hi") ∷ [])

tcp_process_msg_iff_example :
    ((tcp_process_msg nameless ≡ taken) × (taken.0 ≢ error)) ↔ Line Read nameless taken
tcp_process_msg_iff_example = tcp_process_msg_iff nameless taken

tcp_process-build_example :
    ReadsBack msg alice (msg, message (codes "Al") (codes "hi there") ∷ [])
    × ReadsBack err alice (err, error_from (codes "Al") (codes "hi there") ∷ [])
    × ReadsBack bye alice (bye, [])
tcp_process-build_example =
    tcp_process-build alice
      (record { nonempty = omega arith; fits = omega arith; chars = ground arith })
      (record { nonempty = omega arith; fits = omega arith; chars = ground arith })
