-- ===== src/Examples/Memory.antt =====
-- A run over UDP in which a message is put aside and read from the queue.
use ipk_chat_client.Base.{
  ℕ, ◌≢◌, refl, inl, inr, some, ◌∷◌, [], ◌++◌, List, All, true, false, codes, arith,
}
use ipk_chat_client.Input.{line, failed}
use ipk_chat_client.Prompt.{ready}
use ipk_chat_client.CommUdp.State.{Round}
use ipk_chat_client.CommUdp.Reading.{IsReceivable}
use ipk_chat_client.Comm.Variants.{UdpSending}
use ipk_chat_client.Comm.UdpNoFault.{GoodSending}
use ipk_chat_client.Session.{Answers}
use ipk_chat_client.Session.NoFault.{GoodAnswers}
use ipk_chat_client.Args.{
  Opt, t_option, s_option, Parameters, process_args, check_optarg_and_redef, set_protocol,
}
use ipk_chat_client.Program.{crashed, Given, main}
use ipk_chat_client.Program.Memory.{udp_main_no_crash}
use ipk_chat_client.Examples.Data.{confirming}
use ipk_chat_client.Examples.Sessions.{noon, before}

-- A whole MSG of the server.
abbrev hello : List ℕ
hello = 4 ∷ 0 ∷ 5 ∷ codes "Bo" ++ (0 ∷ codes "hi" ++ (0 ∷ []))

-- The user authenticates; a message comes before the CONFIRM. Then a datagram without a NUL comes.
abbrev meeting : List (Answers UdpSending Round)
meeting =
    record {
      signal = false;
      memory = true;
      start = noon;
      wakeups =
          record {
            now = noon;
            selected = ready false true;
            received = confirming;
            typed = line (codes "/auth al pass Al\n");
          }
          ∷ [];
      sending = record {
        allocated = true;
        rounds =
            record confirming { datagram = hello }
            ∷ record confirming { datagram = 0 ∷ 0 ∷ 0 ∷ [] }
            ∷ [];
      };
    }
    ∷ record {
      signal = false;
      memory = true;
      start = noon;
      wakeups =
          record {
            now = noon;
            selected = ready true false;
            received = record confirming { datagram = 4 ∷ 0 ∷ 6 ∷ codes "Bo" };
            typed = failed;
          }
          ∷ [];
      sending = record { allocated = true; rounds = [] };
    }
    ∷ []

meeting-GoodAnswers : All (GoodAnswers GoodSending IsReceivable) meeting
meeting-GoodAnswers = (
  record {
    sending = (
      record {
        fits = omega arith;
        terminated = inr (4 ∷ 0 ∷ 5 ∷ codes "Bo" ++ (0 ∷ codes "hi"), refl);
      },
      (record { fits = omega arith; terminated = inl (omega arith) }, tt),
    );
    wakeups =
        (record { received = record { fits = omega arith; memory = refl }; copied = refl }, tt);
  },
  (
    record {
      sending = tt;
      wakeups =
          (record { received = record { fits = omega arith; memory = refl }; copied = refl }, tt);
    },
    tt,
  ),
)

abbrev udp_parameters : Parameters
udp_parameters = record {
  tcp = false;
  ip_or_domain = some (codes "host");
  port = codes "4567";
  timeout = 250;
  retransmissions = 3;
}

abbrev udp_options : List Opt
udp_options = t_option (some (codes "udp")) ∷ s_option (some (codes "host")) ∷ []

abbrev given : Given
given = record {
  set_up = record { socket = some 3; option_set = true; resolved = true; connected = true };
  tcp = [];
  udp = meeting;
}

udp_main_no_crash_example : main udp_options false given before ≢ crashed
unfolding process_args check_optarg_and_redef set_protocol
udp_main_no_crash_example =
    udp_main_no_crash udp_options false given before udp_parameters refl refl (λ fd h. ground arith)
      meeting-GoodAnswers
