-- ===== src/UdpMsg/Build.antt =====
-- The builders of src/udp_msg.c. A builder returns the block and its length, or `none` for the
-- NULL pointer; the outer `none` is a write outside the block. `allocated` says whether `malloc`
-- succeeds.
use ipk_chat_client.Base.{
  ℕ, ◌+◌, ◌/◌, ◌%◌, Bool, Option, none, some, List, [], ◌∷◌, ◌++◌, if◌then◌else◌, length, replicate,
  write, ◌>>=◌,
}
use ipk_chat_client.Common.{zero_byte, MsgType, auth, join, msg, err, bye, type_code, Client}

abbrev pub header_size : ℕ
header_size = 3

-- The header in a block with room for the payload, whose cells hold no particular value in C, here
-- 0.
unfoldable pub build_header : Bool → MsgType → ℕ → ℕ → Option (List ℕ)
unfolding type_code
build_header allocated type msg_id payload_len =
    if allocated
    then some (type_code type ∷ msg_id / 256 % 256 ∷ msg_id % 256 ∷ replicate payload_len 0)
    else none

-- `strcpy(&block[off], s)` for a string `s`.
abbrev pub strcpy : List ℕ → ℕ → List ℕ → Option (List ℕ)
strcpy block off s = write block off (s ++ (0 ∷ []))

abbrev pub Built : Type 0
Built = Option (Option (List ℕ × ℕ))

unfoldable pub build_auth : Bool → Client → Built
build_auth allocated client =
    let payload_len =
      length client.username
      + zero_byte
      + length client.display_name
      + zero_byte
      + length client.secret
      + zero_byte in
    elim (build_header allocated auth client.msg_id payload_len) [
      | none ↦ some none
      | some header ↦ strcpy header header_size client.username >>= λ one.
          strcpy one (header_size + length client.username + zero_byte) client.display_name
          >>= λ two.
              strcpy two
                (header_size
                  + length client.username
                  + zero_byte
                  + length client.display_name
                  + zero_byte)
                client.secret
              >>= λ three. some (some (three, header_size + payload_len))
    ]

unfoldable pub build_join : Bool → Client → Built
build_join allocated client =
    let payload_len =
      length client.channel_id + zero_byte + length client.display_name + zero_byte in
    elim (build_header allocated join client.msg_id payload_len) [
      | none ↦ some none
      | some header ↦ strcpy header header_size client.channel_id >>= λ one.
          strcpy one (header_size + length client.channel_id + zero_byte) client.display_name
          >>= λ two. some (some (two, header_size + payload_len))
    ]

unfoldable pub build_msg_err : Bool → MsgType → Client → Built
build_msg_err allocated type client =
    let payload_len =
      length client.display_name + zero_byte + length client.msg_content + zero_byte in
    elim (build_header allocated type client.msg_id payload_len) [
      | none ↦ some none
      | some header ↦ strcpy header header_size client.display_name >>= λ one.
          strcpy one (header_size + length client.display_name + zero_byte) client.msg_content
          >>= λ two. some (some (two, header_size + payload_len))
    ]

unfoldable pub build_bye : Bool → Client → Built
build_bye allocated client =
    let payload_len = length client.display_name + zero_byte in
    elim (build_header allocated bye client.msg_id payload_len) [
      | none ↦ some none
      | some header ↦ strcpy header header_size client.display_name >>= λ one.
          some (some (one, header_size + payload_len))
    ]

unfoldable pub udp_build_msg : Bool → MsgType → Client → Built
udp_build_msg allocated auth client = build_auth allocated client
udp_build_msg allocated join client = build_join allocated client
udp_build_msg allocated msg client = build_msg_err allocated msg client
udp_build_msg allocated err client = build_msg_err allocated err client
udp_build_msg allocated bye client = build_bye allocated client
udp_build_msg allocated _ client = some none
