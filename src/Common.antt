-- ===== src/Common.antt =====
-- lib/common.h and src/common.c: the message types, the client's data, the validators and `copy`.
-- A byte is a number below 256. Plain `char` is signed, so a byte from 128 on is negative there.
pub mod Laws
pub mod Copy
use ipk_chat_client.Base.{
  ℕ, zero, suc, ◌+◌, ◌-◌, ◌<◌, ◌≡◌, Bool, true, false, ◌&&◌, ◌||◌, not, Option, none, some, List,
  [], ◌∷◌, ◌++◌, ltb, leb, ◌==◌, if◌then◌else◌, length, take, drop, replicate, write, ◌>>=◌,
}
use mathlib.Core.Option
use Prim.Native.String.{String}

abbrev pub max_name_size : ℕ
max_name_size = 20

abbrev pub max_secret_size : ℕ
max_secret_size = 128

abbrev pub max_msg_size : ℕ
max_msg_size = 60000

abbrev pub zero_byte : ℕ
zero_byte = 1

-- BUFFER_SIZE is UINT16_MAX.
abbrev pub buffer_size : ℕ
buffer_size = 65535

-- `EXIT_SUCCESS` and `EXIT_FAILURE`.
pub data Exit : Type 0 where
  exit_success exit_failure : Exit

pub data MsgType : Type 0 where
  confirm reply auth join msg nreply error local ping err bye : MsgType

-- The numbers of the enumeration.
unfoldable pub type_code : MsgType → ℕ
type_code confirm = 0x00
type_code reply = 1
type_code auth = 2
type_code join = 3
type_code msg = 4
type_code nreply = 5
type_code error = 6
type_code local = 7
type_code ping = 0xFD
type_code err = 0xFE
type_code bye = 0xFF

-- What the client prints on stdout, a line or a text each.
pub data Out : Type 0 where
  action_success : List ℕ → Out
  action_failure : List ℕ → Out
  message : List ℕ → List ℕ → Out
  error_from : List ℕ → List ℕ → Out
  error_line : String → Out
  invalid_message : List ℕ → Out
  help : String → Out

-- `client_t`. A character array is the string that it holds: the bytes before its first NUL.
pub record Client : Type 0 where
  pub msg_id : ℕ
  pub username : List ℕ
  pub channel_id : List ℕ
  pub secret : List ℕ
  pub display_name : List ℕ
  pub msg_content : List ℕ

-- `c < k` and `k < c` for a plain `char c` and a constant `k` below 128.
abbrev pub char_lt : ℕ → ℕ → Bool
char_lt c k = leb 128 c || ltb c k

abbrev pub char_gt : ℕ → ℕ → Bool
char_gt c k = ltb c 128 && ltb k c

-- `isalnum` in the C locale.
abbrev pub isalnum : ℕ → Bool
isalnum c = (leb b'0' c && leb c b'9') || ((leb b'A' c && leb c b'Z') || (leb b'a' c && leb c b'z'))

all_alphanum : List ℕ → Bool
all_alphanum [] = true
all_alphanum (c ∷ s) =
    if not (isalnum c) && (not (c == b'-') && not (c == b'_')) then false else all_alphanum s

unfoldable pub is_valid_alphanum_underscore : List ℕ → ℕ → Bool
unfolding all_alphanum
is_valid_alphanum_underscore str max_len =
    if ltb max_len (length str) || ltb (length str) 1 then false else all_alphanum str

all_printable : List ℕ → Bool
all_printable [] = true
all_printable (c ∷ s) = if char_lt c 0x21 || char_gt c 0x7E then false else all_printable s

unfoldable pub is_valid_printable : List ℕ → ℕ → Bool
unfolding all_printable
is_valid_printable str max_len =
    if ltb max_len (length str) || ltb (length str) 1 then false else all_printable str

all_msg_content : List ℕ → Bool
all_msg_content [] = true
all_msg_content (c ∷ s) =
    if not (c == 0x0A || (not (char_lt c 0x20) && not (char_gt c 0x7E)))
    then false
    else all_msg_content s

unfoldable pub is_valid_msg_content : List ℕ → ℕ → Bool
unfolding all_msg_content
is_valid_msg_content str max_len =
    if ltb max_len (length str) || ltb (length str) 1 then false else all_msg_content str

-- `strncpy` of at most `n` bytes from the block `src`: what it writes, padded with NUL bytes.
-- `none`: the block ends before its string does and before `n` bytes.
unfoldable pub strncpy : List ℕ → ℕ → Option (List ℕ)
strncpy src zero = some []
strncpy [] (suc n) = none
strncpy (zero ∷ src) (suc n) = some (replicate (suc n) 0)
strncpy (suc c ∷ src) (suc n) = Option.map (λ bytes. suc c ∷ bytes) (strncpy src n)

-- `copy(dest + off, src, size)` on the block `dest`. At size 0 the code writes before `dest + off`.
unfoldable pub copy : List ℕ → ℕ → List ℕ → ℕ → Option (List ℕ)
copy dest off src zero = none
copy dest off src (suc n) = do bytes ← strncpy src n; write dest off (bytes ++ (0 ∷ []))

-- The same call on a character array of the client, for a source string: what the array holds then.
abbrev pub copy_string : List ℕ → ℕ → List ℕ
copy_string src size = take (size - 1) src
