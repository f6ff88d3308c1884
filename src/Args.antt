-- ===== src/Args.antt =====
-- lib/args.h and src/args.c: the options of the command line, as `getopt` reports them one after
-- another.
pub mod Laws
pub mod Chosen
pub mod Numbers
pub mod Order
use ipk_chat_client.Base.{
  ◌≡◌, refl, ◌⊎◌, inl, inr, ℕ, ◌+◌, ◌-◌, ◌*◌, ◌%◌, Bool, true, false, ◌&&◌, ◌||◌, not, Option, none,
  some, List, [], ◌∷◌, leb, ltb, ◌==◌, if◌then◌else◌, codes, ◌>>=◌, isdigit, skip_spaces, strcmp_eq,
}

-- `parameters_t`; a NULL pointer is `none`.
pub record Parameters : Type 0 where
  pub tcp : Bool
  pub ip_or_domain : Option (List ℕ)
  pub port : List ℕ
  pub timeout : ℕ
  pub retransmissions : ℕ

-- The globals of `process_args` with its local flags.
pub record Args : Type 0 where
  pub parameters : Parameters
  pub protocol_set : Bool
  pub timeout_set : Bool
  pub retransmissions_set : Bool
  pub help_set : Bool
  pub only_opt : Bool
  pub port_set : Bool

-- Whether a pointer is not NULL.
abbrev pub is_set : Option (List ℕ) → Bool
is_set none = false
is_set (some a) = true

-- A result of `getopt` with the string ":t:s:p:d:r:h", and `optarg` then. `colon` is a missing
-- argument and `other` an unknown option.
pub data Opt : Type 0 where
  t_option s_option p_option d_option r_option : Option (List ℕ) → Opt
  h_option colon other : Opt

-- `parameters_setup`, on the parameters before it.
unfoldable pub parameters_setup : Parameters → Parameters
parameters_setup before = record before { port = codes "4567"; timeout = 250; retransmissions = 3 }

-- The macro `CHECK_OPTARG_AND_REDEF`: the argument where it lets the code go on.
unfoldable pub check_optarg_and_redef : Option (List ℕ) → Bool → Option (List ℕ)
check_optarg_and_redef none condition = none
check_optarg_and_redef (some []) condition = if condition then none else some []
check_optarg_and_redef (some (c ∷ a)) condition =
    if c == b'-' then none else if condition then none else some (c ∷ a)

unfoldable pub set_protocol : List ℕ → Option Bool
set_protocol optarg =
    if strcmp_eq optarg (codes "tcp")
    then some true
    else if strcmp_eq optarg (codes "udp")
    then some false
    else none

-- The digits at the front read on from the value `acc`, and what is behind them.
unfoldable pub digits : ℕ → List ℕ → ℕ × List ℕ
digits acc [] = (acc, [])
digits acc (c ∷ s) =
    let rest = digits (acc * 10 + (c - b'0')) s in if isdigit c then rest else (acc, c ∷ s)

-- What `strtol` in base 10 answers: a sign, a magnitude, and the text at `endptr`.
pub record Strtol : Type 0 where
  pub negative : Bool
  pub magnitude : ℕ
  pub endptr : List ℕ

-- The number at `s`, of the text `whole`: with no digit there, nothing is converted.
unfoldable pub number : Bool → List ℕ → List ℕ → Strtol
unfolding digits
number negative whole [] = record { negative = false; magnitude = 0; endptr = whole }
number negative whole (c ∷ s) =
    let found = digits 0 (c ∷ s) in
    if isdigit c
    then record { negative = negative; magnitude = found.0; endptr = found.1 }
    else record { negative = false; magnitude = 0; endptr = whole }

unfoldable pub signed : List ℕ → List ℕ → Strtol
unfolding number
signed whole [] = number false whole []
signed whole (c ∷ s) =
    if c == b'-'
    then number true whole s
    else if c == b'+'
    then number false whole s
    else number false whole (c ∷ s)

unfoldable pub strtol : List ℕ → Strtol
unfolding signed
strtol s = signed s (skip_spaces s)

-- LONG_MAX of a 64-bit long.
abbrev pub long_max : ℕ
long_max = 9223372036854775807

-- The test on what `strtol` answered. `errno`, 0 before, is set where the value does not fit a
-- long.
unfoldable pub in_range : ℕ → Strtol → Option ℕ
in_range max val =
    let overflow = ltb (if val.negative then long_max + 1 else long_max) val.magnitude in
    elim val.endptr [
      | [] ↦
          if overflow || ((val.negative && not (val.magnitude == 0)) || ltb max val.magnitude)
          then none
          else some val.magnitude
      | _ ∷ _ ↦ none
    ]

unfoldable pub parse_int : ℕ → List ℕ → Option ℕ
unfolding in_range
parse_int max optarg = in_range max (strtol optarg)

abbrev pub uint16_max : ℕ
uint16_max = 65535

abbrev pub uint8_max : ℕ
uint8_max = 255

-- One turn of the loop; `none` is `return EXIT_FAILURE`. The casts keep the values, which are in
-- range.
unfoldable pub process_opt : Opt → Args → Option Args
process_opt (t_option optarg) a = check_optarg_and_redef optarg a.protocol_set >>= λ arg.
    set_protocol arg >>= λ tcp. some (record a {
      parameters = record a.parameters { tcp = tcp };
      protocol_set = true;
      only_opt = false;
    })
process_opt (s_option optarg) a =
    check_optarg_and_redef optarg (is_set a.parameters.ip_or_domain) >>= λ arg.
    some
      (record a { parameters = record a.parameters { ip_or_domain = some arg }; only_opt = false })
process_opt (p_option optarg) a = check_optarg_and_redef optarg a.port_set >>= λ arg.
    parse_int uint16_max arg >>= λ _. some (record a {
      parameters = record a.parameters { port = arg };
      port_set = true;
      only_opt = false;
    })
process_opt (d_option optarg) a = check_optarg_and_redef optarg a.timeout_set >>= λ arg.
    parse_int uint16_max arg >>= λ result. some (record a {
      parameters = record a.parameters { timeout = result % 65536 };
      timeout_set = true;
      only_opt = false;
    })
process_opt (r_option optarg) a = check_optarg_and_redef optarg a.retransmissions_set >>= λ arg.
    parse_int uint8_max arg >>= λ result. some (record a {
      parameters = record a.parameters { retransmissions = result % 256 };
      retransmissions_set = true;
      only_opt = false;
    })
process_opt h_option a = if a.help_set then none else some (record a { help_set = true })
process_opt colon a = none
process_opt other a = none

unfoldable pub process_opts : List Opt → Args → Option Args
unfolding process_opt
process_opts [] a = some a
process_opts (o ∷ os) a = process_opt o a >>= λ a'. process_opts os a'

-- How `process_args` ends: `exit(0)` after the help, or a return with the parameters.
pub data Processed : Type 0 where
  help_shown : Processed
  exit_failed : Processed
  accepted : Parameters → Processed

pub Processed-cases :
    (r : Processed) → (r ≡ help_shown) ⊎ ((r ≡ exit_failed) ⊎ ((p : Parameters) × (r ≡ accepted p)))
Processed-cases help_shown = inl refl
Processed-cases exit_failed = inr (inl refl)
Processed-cases (accepted p) = inr (inr (p, refl))

-- The checks after the loop; `extra` says that `optind != argc`.
unfoldable pub check_args : Bool → Args → Processed
check_args extra a =
    if a.only_opt && a.help_set
    then help_shown
    else if a.help_set
    then exit_failed
    else if not a.protocol_set || not (is_set a.parameters.ip_or_domain)
    then exit_failed
    else if extra
    then exit_failed
    else accepted a.parameters

-- The parameters are zero before: `parameters_t parameters = {0}`.
abbrev pub no_parameters : Parameters
no_parameters = record {
  tcp = false;
  ip_or_domain = none;
  port = [];
  timeout = 0;
  retransmissions = 0;
}

unfoldable pub no_args : Args
unfolding parameters_setup
no_args = record {
  parameters = parameters_setup no_parameters;
  protocol_set = false;
  timeout_set = false;
  retransmissions_set = false;
  help_set = false;
  only_opt = true;
  port_set = false;
}

unfoldable pub process_args : List Opt → Bool → Processed
unfolding process_opts check_args no_args
process_args os extra = elim (process_opts os no_args) [
  | none ↦ exit_failed
  | some a ↦ check_args extra a
]
