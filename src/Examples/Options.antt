-- ===== src/Examples/Options.antt =====
-- The command line, and runs of the program.
use ipk_chat_client.Base.{◌≡◌, refl, ◌∷◌, [], List, codes, arith, true, false, some, skip_spaces}
use mathlib.Core.List.Perm as Perm
use ipk_chat_client.Args.{
  Opt, t_option, s_option, d_option, Args, accepted, process_opts, process_args, no_args, parse_int,
  check_optarg_and_redef, set_protocol, strtol,
}
use ipk_chat_client.Args.Laws.{process_args_lem}
use ipk_chat_client.Args.Chosen.{Chosen}
use ipk_chat_client.Args.Numbers.{parse_int_lem}
use ipk_chat_client.Args.Order.{process_args-perm}

-- `-t udp -s host -d 100`
abbrev options : List Opt
options =
    t_option (some (codes "udp"))
    ∷ s_option (some (codes "host"))
    ∷ d_option (some (codes "100"))
    ∷ []

abbrev swapped : List Opt
swapped =
    s_option (some (codes "host"))
    ∷ t_option (some (codes "udp"))
    ∷ d_option (some (codes "100"))
    ∷ []

abbrev taken : Args
taken = record {
  parameters = record {
    tcp = false;
    ip_or_domain = some (codes "host");
    port = codes "4567";
    timeout = 100;
    retransmissions = 3;
  };
  protocol_set = true;
  timeout_set = true;
  retransmissions_set = false;
  help_set = false;
  only_opt = false;
  port_set = false;
}

process_args_lem_example : process_args options false ≡ accepted taken.parameters
unfolding process_opts check_optarg_and_redef no_args set_protocol parse_int strtol skip_spaces
process_args_lem_example = process_args_lem options false taken refl

process_args-perm_example : process_args options false ≡ process_args swapped false
process_args-perm_example = process_args-perm false (Perm.swap _ _ _)

parse_int_lem_example : parse_int 65535 (codes "100") ≡ some 100
parse_int_lem_example = parse_int_lem 65535 b'1' (codes "00") [] refl refl refl (omega arith)
