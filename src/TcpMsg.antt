-- ===== src/TcpMsg.antt =====
-- src/tcp_msg.c and the message table of src/comm_tcp.c: the lines of the TCP variant, built and
-- parsed. A message is the string that its block holds, without the NUL.
pub mod Roundtrip
pub mod Process
pub mod Stream
pub mod Grammar
pub mod Sound
pub mod Accept
pub mod Name
pub mod Content
pub mod Lines
pub mod Calls
pub mod Runs
use ipk_chat_client.Base.{
  ℕ, zero, suc, ◌+◌, Bool, true, false, ◌&&◌, ◌||◌, not, Option, none, some, List, [], ◌∷◌, ◌++◌,
  ltb, leb, ◌==◌, if◌then◌else◌, length, take, drop, codes, ◌>>=◌, isspace, skip_spaces,
}
use mathlib.Core.Option
use ipk_chat_client.Common.{
  MsgType, reply, auth, join, msg, nreply, error, err, bye, Out, action_success, action_failure,
  message, error_from, error_line, invalid_message, Client, max_name_size, max_msg_size, zero_byte,
  buffer_size, is_valid_printable, is_valid_msg_content,
}
use Prim.Native.String.{String}

abbrev pub tolower : ℕ → ℕ
tolower c = if leb b'A' c && leb c b'Z' then c + 32 else c

-- `strncasecmp(s, t, n) == 0`.
unfoldable pub strncasecmp_eq : List ℕ → List ℕ → ℕ → Bool
strncasecmp_eq s t zero = true
strncasecmp_eq [] [] (suc n) = true
strncasecmp_eq (c ∷ s) (d ∷ t) (suc n) = tolower c == tolower d && strncasecmp_eq s t n
strncasecmp_eq s t (suc n) = false

-- The new `*buffer_ptr`, where the pattern is there and something follows it.
unfoldable pub match : List ℕ → List ℕ → ℕ → Option (List ℕ)
match buffer pattern offset =
    let at = drop offset buffer in
    let rest = drop (length pattern) at in
    if strncasecmp_eq at pattern (length pattern) && ltb 0 (length rest) then some rest else none

-- The text before the first CRLF: up to `strstr(buffer, "\r\n")`.
unfoldable pub before_crlf : List ℕ → Option (List ℕ)
before_crlf [] = none
before_crlf (c ∷ []) = none
before_crlf (c ∷ d ∷ s) =
    let rest = before_crlf (d ∷ s) in
    if c == 13 && d == 10 then some [] else Option.map (λ t. c ∷ t) rest

-- What `dest`, of `size + 1` cells, holds then.
unfoldable pub read_till_delimiter : List ℕ → ℕ → Option (List ℕ)
read_till_delimiter buffer size =
    before_crlf buffer >>= λ t. some (if leb size (length t) then take size t else t)

-- Bytes that are not white space, `n` at most.
unfoldable pub scan_word : ℕ → List ℕ → List ℕ
scan_word zero s = []
scan_word (suc n) [] = []
scan_word (suc n) (c ∷ s) = let w = scan_word n s in if isspace c then [] else c ∷ w

-- `sscanf(buffer, "%20s", display_name) == 1`, and the name then.
unfoldable pub sscanf_name : List ℕ → Option (List ℕ)
sscanf_name buffer =
    let w = scan_word 20 (skip_spaces buffer) in if ltb 0 (length w) then some w else none

abbrev first : List (List ℕ) → List ℕ
first [] = []
first (a ∷ args) = a

abbrev others : List (List ℕ) → List (List ℕ)
others [] = []
others (a ∷ args) = args

-- The text `snprintf` writes for a template whose only conversions are `%s`.
unfoldable pub snprintf : List ℕ → List (List ℕ) → List ℕ
snprintf [] args = []
snprintf (c ∷ []) args = c ∷ []
snprintf (c ∷ d ∷ f) args = elim (c == b'%' && d == b's') [
  | true ↦ first args ++ snprintf f (others args)
  | false ↦ c ∷ snprintf (d ∷ f) args
]

abbrev pub Parsed : Type 0
Parsed = MsgType × List Out

abbrev pub refuse : String → Parsed
refuse text = (error, error_line text ∷ [])

-- The end of a parser: a text up to the delimiter, of valid content.
unfoldable pub content : List ℕ → Option (List ℕ)
content buffer = read_till_delimiter buffer buffer_size >>= λ t.
    if is_valid_msg_content t max_msg_size then some t else none

abbrev pub parsed : Option Parsed → String → Parsed
parsed none text = refuse text
parsed (some p) text = p

unfoldable pub parse_reply : List ℕ → Parsed
parse_reply buffer =
    parsed
      (match buffer (codes "REPLY OK IS ") 0 >>= λ b.
        content b >>= λ t. some (reply, action_success t ∷ []))
      "ERROR: Received invalid REPLY"

unfoldable pub parse_nreply : List ℕ → Parsed
parse_nreply buffer =
    parsed
      (match buffer (codes "REPLY NOK IS ") 0 >>= λ b.
        content b >>= λ t. some (nreply, action_failure t ∷ []))
      "ERROR: Received invalid REPLY"

unfoldable pub parse_unexpected : List ℕ → Parsed
parse_unexpected buffer = (error, invalid_message buffer ∷ [])

-- A name, ` IS ` and a content.
unfoldable pub name_content : List ℕ → Option (List ℕ × List ℕ)
name_content b = sscanf_name b >>= λ name.
    if is_valid_printable name max_name_size
    then (match b (codes " IS ") (length name) >>= λ b'. content b' >>= λ t. some (name, t))
    else none

unfoldable pub parse_msg : List ℕ → Parsed
parse_msg buffer =
    parsed
      (match buffer (codes "MSG FROM ") 0 >>= λ b.
        name_content b >>= λ p. some (msg, message p.0 p.1 ∷ []))
      "ERROR: Received invalid MSG"

unfoldable pub parse_err : List ℕ → Parsed
parse_err buffer =
    parsed
      (match buffer (codes "ERR FROM ") 0 >>= λ b.
        name_content b >>= λ p. some (err, error_from p.0 p.1 ∷ []))
      "ERROR: Received invalid ERR"

unfoldable pub parse_bye : List ℕ → Parsed
parse_bye buffer =
    parsed
      (match buffer (codes "BYE FROM ") 0 >>= λ b.
        read_till_delimiter b (max_name_size + zero_byte) >>= λ name.
        if is_valid_printable name max_name_size then some (bye, []) else none)
      "ERROR: Received invalid BYE"

pub record TcpMsgTemp : Type 0 where
  pub type : MsgType
  pub temp : List ℕ
  pub len : ℕ
  pub parse_func : List ℕ → Parsed

unfoldable pub msg_temp : List TcpMsgTemp
msg_temp =
    record { type = reply; temp = codes "REPLY OK IS %s\r\n"; len = 7; parse_func = parse_reply }
    ∷ record {
      type = nreply;
      temp = codes "REPLY NOK IS %s\r\n";
      len = 7;
      parse_func = parse_nreply;
    }
    ∷ record {
      type = auth;
      temp = codes "AUTH %s AS %s USING %s\r\n";
      len = 4;
      parse_func = parse_unexpected;
    }
    ∷ record {
      type = join;
      temp = codes "JOIN %s AS %s\r\n";
      len = 4;
      parse_func = parse_unexpected;
    }
    ∷ record { type = msg; temp = codes "MSG FROM %s IS %s\r\n"; len = 3; parse_func = parse_msg }
    ∷ record { type = err; temp = codes "ERR FROM %s IS %s\r\n"; len = 3; parse_func = parse_err }
    ∷ record { type = bye; temp = codes "BYE FROM %s\r\n"; len = 3; parse_func = parse_bye }
    ∷ []
