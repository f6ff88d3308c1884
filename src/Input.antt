-- ===== src/Input.antt =====
-- src/input.c: a line of stdin is cut into words, and run as a command or taken as a chat message.
pub mod Words
pub mod Laws
pub mod Commands
use ipk_chat_client.Base.{
  strcmp_eq, ℕ, zero, suc, ◌+◌, ◌-◌, ◌<◌, ◌≡◌, Bool, true, false, ◌&&◌, ◌||◌, not, Option, none,
  some, List, [], ◌∷◌, ◌++◌, ltb, leb, ◌==◌, if◌then◌else◌, length, take, codes,
}
use ipk_chat_client.Common.{
  MsgType, confirm, reply, auth, join, msg, nreply, error, local, ping, err, bye, Out, error_line,
  help, Client, max_name_size, max_secret_size, max_msg_size, zero_byte, buffer_size, copy_string,
  is_valid_alphanum_underscore, is_valid_printable, is_valid_msg_content,
}
use Prim.Native.String.{String}

-- What `getline` answers: the bytes of a line, the end of the file, or an error.
pub data Line : Type 0 where
  line uncopied : List ℕ → Line
  end_of_file : Line
  failed : Line

-- The result of a parser, the client after it, what it printed, and whether it set the flag
-- `interrupt`.
pub record Parsed : Type 0 where
  pub type : MsgType
  pub client : Client
  pub out : List Out
  pub interrupt : Bool

-- A parser of a command: its words after the first, up to the NULL, at most four.
abbrev pub Parser : Type 0
Parser = List (List ℕ) → Client → Parsed

abbrev pub done : MsgType → Client → Parsed
done type client = record { type = type; client = client; out = []; interrupt = false }

abbrev pub invalid : String → Client → Parsed
invalid text client = record {
  type = local;
  client = client;
  out = error_line text ∷ [];
  interrupt = false;
}

unfoldable pub print_client_help : Out
print_client_help =
    help
      "Client Commands:\n  /auth {Username} {Secret} {DisplayName}\n      Authenticate with the server using the provided credentials.\n\n  /join {ChannelID}\n      Join the specified chat channel.\n\n  /rename {DisplayName}\n      Change your local display name (used when sending messages).\n\n  /help\n      Show this help message.\n"

unfoldable pub parse_auth : Parser
parse_auth (u ∷ s ∷ d ∷ []) client =
    if not (is_valid_alphanum_underscore u max_name_size)
      || (not (is_valid_alphanum_underscore s max_secret_size) || not (is_valid_printable d 20))
    then invalid "ERROR: Invalid /auth" client
    else done auth (record client {
      username = copy_string u (max_name_size + zero_byte);
      secret = copy_string s (max_secret_size + zero_byte);
      display_name = copy_string d (max_name_size + zero_byte);
    })
parse_auth args client = invalid "ERROR: Invalid /auth" client

unfoldable pub parse_join : Parser
parse_join (c ∷ []) client =
    if not (is_valid_alphanum_underscore c max_name_size)
    then invalid "ERROR: Invalid /join" client
    else done join (record client { channel_id = copy_string c (max_name_size + zero_byte) })
parse_join args client = invalid "ERROR: Invalid /join" client

unfoldable pub parse_rename : Parser
parse_rename (d ∷ []) client =
    if not (is_valid_printable d max_name_size)
    then invalid "ERROR: Invalid /rename" client
    else done local (record client { display_name = copy_string d (max_name_size + zero_byte) })
parse_rename args client = invalid "ERROR: Invalid /rename" client

unfoldable pub parse_help : Parser
parse_help [] client = record {
  type = local;
  client = client;
  out = print_client_help ∷ [];
  interrupt = false;
}
parse_help args client = invalid "ERROR: Invalid /help" client

-- The bytes before the first line feed or NUL: `line[strcspn(line, "\n")] = '\0'`.
unfoldable pub strip_newline : List ℕ → List ℕ
strip_newline [] = []
strip_newline (c ∷ s) = let rest = strip_newline s in if c == 0 || c == 10 then [] else c ∷ rest

-- A word that has ended: `strtok` skips the empty ones.
abbrev pub add_word : List ℕ → List (List ℕ) → List (List ℕ)
add_word [] ws = ws
add_word (c ∷ w) ws = (c ∷ w) ∷ ws

-- The text before the first space, and the words after it.
unfoldable pub fields : List ℕ → List ℕ × List (List ℕ)
fields [] = ([], [])
fields (c ∷ s) = let (w, ws) = fields s in if c == b' ' then ([], add_word w ws) else (c ∷ w, ws)

-- All the words that calls of `strtok` with a space give.
unfoldable pub strtok : List ℕ → List (List ℕ)
strtok s = add_word (fields s).0 (fields s).1

-- A command's name, and the function that parses its words.
pub record Command : Type 0 where
  pub cmd : List ℕ
  pub parse : Parser

unfoldable pub command : List Command
command =
    record { cmd = codes "/auth"; parse = parse_auth }
    ∷ record { cmd = codes "/join"; parse = parse_join }
    ∷ record { cmd = codes "/rename"; parse = parse_rename }
    ∷ record { cmd = codes "/help"; parse = parse_help }
    ∷ []

-- The loop over the table from an entry on.
unfoldable pub run_command : List Command → List ℕ → Parser
run_command [] name args client = invalid "ERROR: Invalid command" client
run_command (c ∷ cs) name args client =
    let rest = run_command cs name args client in
    if strcmp_eq name c.cmd then c.parse args client else rest

-- A line that is not a command.
unfoldable pub parse_text : List ℕ → Client → Parsed
parse_text orig_line client =
    if not (is_valid_msg_content orig_line buffer_size)
    then invalid "ERROR: Invalid message" client
    else if ltb max_msg_size (length orig_line)
    then record {
      type = msg;
      client = record client {
        msg_content = copy_string (take max_msg_size orig_line) (max_msg_size + zero_byte);
      };
      out = error_line "ERROR: Truncated message sent" ∷ [];
      interrupt = false;
    }
    else done msg (record client { msg_content = copy_string orig_line (max_msg_size + zero_byte) })

-- The text path on `orig_line`, the copy of `strdup`: where that is NULL, `strlen` reads through it,
-- a fault.
unfoldable pub parse_copy : Option (List ℕ) → Client → Option Parsed
parse_copy none client = none
parse_copy (some orig_line) client = some (parse_text orig_line client)

-- The dispatch on the words of the line, with its copy; only a line that is no command reads that.
unfoldable pub parse_words : List (List ℕ) → Option (List ℕ) → Client → Option Parsed
unfolding command parse_copy
parse_words [] orig_line client = parse_copy orig_line client
parse_words ([] ∷ args) orig_line client = parse_copy orig_line client
parse_words ((c ∷ w) ∷ args) orig_line client =
    if c == b'/'
    then some (run_command command (c ∷ w) args client)
    else parse_copy orig_line client

-- `none` is a read through NULL.
unfoldable pub parse_user_input : Line → Client → Option Parsed
parse_user_input end_of_file client =
    some (record { type = local; client = client; out = []; interrupt = true })
parse_user_input failed client = some (done error client)
parse_user_input (line bytes) client =
    let s = strip_newline bytes in parse_words (take 5 (strtok s)) (some s) client
parse_user_input (uncopied bytes) client =
    parse_words (take 5 (strtok (strip_newline bytes))) none client

-- `strdup` finds memory, where it is called.
abbrev pub is_copied : Line → Bool
is_copied (uncopied bytes) = false
is_copied l = true
