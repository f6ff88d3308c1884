-- ===== src/Examples/Sessions.antt =====
-- Whole sessions and runs of the program.
use ipk_chat_client.Base.{ℕ, ◌≡◌, refl, ap, ◌∷◌, [], List, codes, arith, true, false, none, some}
use ipk_chat_client.Common.{exit_success}
use ipk_chat_client.Input.{Line, line, failed}
use ipk_chat_client.TcpMsg.Process.{Tcp, data_of, Received}
use ipk_chat_client.Prompt.{Timeval, Selected, ready, Wakeup}
use ipk_chat_client.Comm.Variants.{TcpSending, TcpReceiving, tcp_comm}
use ipk_chat_client.Session.{Session, Answers, Result, reached, next, fsm}
use ipk_chat_client.Args.{
  Opt, t_option, s_option, process_args, check_optarg_and_redef, set_protocol,
}
use ipk_chat_client.Program as Program
use ipk_chat_client.Program.Setup.{Kernel, release_socket, get_comm, tcp_setup}
use ipk_chat_client.Program.Laws.{Same, main_releases}
use ipk_chat_client.Program.{
  udp_globals, Given, exited, main, session, tcp_destroy, tcp_globals, no_client,
}
use ipk_chat_client.Session.{
  start, run_from, turn, call, start_prompt, auth_prompt, open_prompt, send, with_prompt,
}
use ipk_chat_client.Prompt.{
  await, wait_set, wait, read_user, select, calculate_remaining_time, elapsed,
}
use ipk_chat_client.TcpMsg.Process.{
  tcp_send_msg, tcp_build_msg, find_temp, temp_args, tcp_recv_msg, tcp_check_previous,
  process_block, tcp_process_msg, process_with,
}
use ipk_chat_client.Input.{
  parse_user_input, parse_words, parse_copy, parse_auth, run_command, parse_text, command, strtok,
  fields, strip_newline,
}
use ipk_chat_client.Common.{
  is_valid_alphanum_underscore, is_valid_printable, is_valid_msg_content, copy, type_code, strncpy,
}
use ipk_chat_client.Buffer.{
  buffer_append, grow, fill, buffer_get_msg, crlf, extract, buffer_destroy,
}
use ipk_chat_client.Base.{c_string, ◌-ℤ◌, ◌+ℤ◌, write}
use ipk_chat_client.TcpMsg.{
  msg_temp, strncasecmp_eq, parse_reply, match, content, read_till_delimiter, before_crlf,
}
use ipk_chat_client.Fsm.Machine.{state_auth}
use ipk_chat_client.Fsm.Speech.{any_chat}
use ipk_chat_client.Input.Laws.{IsValid}
use ipk_chat_client.Session.Variants.{tcp_session_sends}
use ipk_chat_client.Comm.Wire.{IsLine}
use ipk_chat_client.Comm.Framing.{EndsOnce}
use ipk_chat_client.Base.{All}
use ipk_chat_client.Session.Runs.{any_positive}
use ipk_chat_client.Session.Parting.{HasParted, fsm-HasParted}
use ipk_chat_client.Session.Speech.{session_chat_needs_reply}

abbrev pub noon : Timeval
noon = record { tv_sec = 100; tv_usec = 0 }

abbrev wakeup : Selected → Line → Received → Wakeup TcpReceiving
wakeup a typed r = record {
  now = noon;
  selected = a;
  received = record { grown = true; allocated = true; received = r };
  typed = typed;
}

abbrev typing : List ℕ → Wakeup TcpReceiving
typing l = wakeup (ready false true) (line l) (data_of [])

abbrev arriving : List ℕ → Wakeup TcpReceiving
arriving d = wakeup (ready true false) failed (data_of d)

abbrev answers : List (Wakeup TcpReceiving) → Answers TcpSending TcpReceiving
answers ws = record {
  signal = false;
  memory = true;
  start = noon;
  wakeups = ws;
  sending = record { allocated = true; whole = true };
}

-- The user logs in, says something, and interrupts.
abbrev chatting : List (Answers TcpSending TcpReceiving)
chatting =
    answers (typing (codes "/auth bob key Bo\n") ∷ [])
    ∷ answers (arriving (codes "REPLY OK IS fine\r\n") ∷ [])
    ∷ answers (typing (codes "hello\n") ∷ [])
    ∷ record (answers []) { signal = true }
    ∷ []

abbrev chatted : Result Tcp
chatted = fsm (tcp_comm 3) tcp_globals chatting

abbrev ended_with : Result Tcp → Session Tcp → Session Tcp
ended_with (next e s) d = s
ended_with r d = d

abbrev idle : Session Tcp
idle = record {
  state = none;
  processing = false;
  interrupt = false;
  world = tcp_globals;
  sent = [];
  heard = [];
}

abbrev last : Session Tcp
last = ended_with chatted idle

-- The session ends well, and the client has spoken in it.
chatted_ends : (chatted ≡ next exit_success last) × (any_chat last.sent ≡ true)
unfolding fsm start run_from turn call start_prompt auth_prompt open_prompt send with_prompt await
    wait_set wait read_user select calculate_remaining_time elapsed tcp_comm tcp_send_msg
    tcp_build_msg find_temp temp_args tcp_recv_msg tcp_check_previous process_block tcp_process_msg
    process_with parse_user_input parse_words parse_copy parse_auth run_command parse_text command
    is_valid_alphanum_underscore is_valid_printable is_valid_msg_content buffer_append grow fill
    copy buffer_get_msg crlf extract c_string type_code strtok fields strip_newline msg_temp ◌-ℤ◌
    ◌+ℤ◌ strncpy write strncasecmp_eq parse_reply match content read_till_delimiter before_crlf
chatted_ends = (refl, refl)

session_chat_needs_reply_example : any_positive last.heard ≡ true
session_chat_needs_reply_example =
    session_chat_needs_reply (tcp_comm 3) tcp_globals chatting last (ap reached chatted_ends.0)
      chatted_ends.1

fsm-HasParted_example : (last.state ≡ none) × HasParted last
fsm-HasParted_example = fsm-HasParted (tcp_comm 3) tcp_globals chatting last chatted_ends.0

-- The user interrupts while the answer to the authentication is awaited; the server lets the client
-- in, and the client leaves.
abbrev waiting : Session Tcp
waiting = record idle {
  state = some state_auth;
  processing = true;
  world = record tcp_globals { client = record no_client { display_name = codes "Bo" } };
}

abbrev welcomed : List (Answers TcpSending TcpReceiving)
welcomed =
    record (answers (arriving (codes "REPLY OK IS fine\r\n") ∷ [])) { signal = true }
    ∷ record (answers []) { start = noon }
    ∷ []

abbrev gone : Session Tcp
gone = ended_with (run_from (tcp_comm 3) exit_success waiting welcomed) idle

pub unknown_client-IsValid : IsValid (record no_client { display_name = codes "unknown" })
unknown_client-IsValid = record {
  username = record { fits = omega arith; chars = tt };
  channel_id = record { fits = omega arith; chars = tt };
  secret = record { fits = omega arith; chars = tt };
  display_name = record { nonempty = omega arith; fits = omega arith; chars = ground arith };
  msg_content = record { fits = omega arith; chars = tt };
}

tcp_session_sends_example : All (λ l. IsLine l × EndsOnce l) last.world.sent
unfolding start tcp_comm
tcp_session_sends_example =
    tcp_session_sends 3 tcp_globals chatting last unknown_client-IsValid refl
      (ap reached chatted_ends.0)

abbrev tcp_options : List Opt
tcp_options = t_option (some (codes "tcp")) ∷ s_option (some (codes "host")) ∷ []

-- Standard input, output and errors are open before.
abbrev pub before : Kernel
before = record {
  descriptors = 0 ∷ 1 ∷ 2 ∷ [];
  addresses = 0;
  receive_timeout = record { tv_sec = 0; tv_usec = 0 };
}

abbrev all_well : Given
all_well = record {
  set_up = record { socket = some 3; option_set = true; resolved = true; connected = true };
  tcp = chatting;
  udp = [];
}

session_ends :
    Program.fsm
      (tcp_comm 3)
      tcp_destroy
      3
      (record before { descriptors = 3 ∷ 0 ∷ 1 ∷ 2 ∷ []; addresses = 1 })
      tcp_globals
      chatting
    ≡ exited exit_success before
unfolding Program.fsm tcp_destroy release_socket buffer_destroy
session_ends = rw (Program.fsm, chatted_ends.0) refl

program_ends : main tcp_options false all_well before ≡ exited exit_success before
unfolding main session get_comm tcp_setup process_args check_optarg_and_redef set_protocol
program_ends = session_ends

main_releases_example : Same before before
main_releases_example =
    main_releases tcp_options false all_well before exit_success before (λ h. ground arith)
      program_ends
