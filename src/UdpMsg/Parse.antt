-- ===== src/UdpMsg/Parse.antt =====
-- The parsers of src/udp_msg.c, over the block that holds the datagram. `none` is a read outside
-- the block; a result is the type returned and the lines printed.
use ipk_chat_client.Base.{
  ℕ, ◌+◌, ◌*◌, ◌%◌, Bool, false, not, Option, some, List, [], ◌∷◌, ltb, leb, ◌==◌, if◌then◌else◌,
  length, get_elem?, drop, c_string, ◌>>=◌,
}
use ipk_chat_client.Common.{
  max_name_size, max_msg_size, zero_byte, MsgType, reply, msg, nreply, error, local, ping, err, bye,
  Out, action_success, action_failure, message, error_from, error_line, Client,
  is_valid_alphanum_underscore, is_valid_msg_content,
}
use ipk_chat_client.UdpMsg.Build.{header_size}

abbrev pub Parsed : Type 0
Parsed = Option (MsgType × List Out)

-- `to_uint16(&buffer[off])`; the low byte has no bit of the high one, so `|` is a sum.
unfoldable pub to_uint16 : List ℕ → ℕ → Option ℕ
to_uint16 buffer off = get_elem? buffer off >>= λ high.
    get_elem? buffer (off + 1) >>= λ low. some (high % 256 * 256 + low % 256)

-- A refused message.
abbrev pub refuse : Out → Parsed
refuse line = some (error, line ∷ [])

unfoldable pub is_valid_msg_err : List ℕ → ℕ → Option Bool
is_valid_msg_err buffer len =
    if ltb len (header_size + zero_byte)
    then some false
    else c_string (drop header_size buffer) >>= λ name.
        if not (is_valid_alphanum_underscore name max_name_size)
        then some false
        else let content_offset = header_size + length name + zero_byte in
          if ltb len (content_offset + 1 + zero_byte)
          then some false
          else c_string (drop content_offset buffer) >>= λ content.
              if not (is_valid_msg_content content max_msg_size)
              then some false
              else some (len == content_offset + length content + zero_byte)

unfoldable pub udp_parse_confirm : Client → List ℕ → ℕ → Parsed
udp_parse_confirm client buffer msg_len =
    let refused = refuse (error_line "ERROR: Received an unexpected CONFIRM") in
    if msg_len == header_size
    then (to_uint16 buffer 1 >>= λ id. if ltb id client.msg_id then some (local, []) else refused)
    else refused

-- `client.msg_id - 1` is computed as an int, so it is -1 for 0: hence the sum on the other side.
unfoldable pub udp_parse_reply : Client → List ℕ → ℕ → Parsed
udp_parse_reply client buffer msg_len =
    let refused = refuse (error_line "ERROR: Received invalid REPLY") in
    if not (leb 8 msg_len)
    then refused
    else c_string (drop 6 buffer) >>= λ content.
        if not (is_valid_msg_content content max_msg_size)
        then refused
        else if not (msg_len == 6 + length content + zero_byte)
        then refused
        else to_uint16 buffer 4 >>= λ ref_id.
            if not (ref_id + 1 == client.msg_id)
            then refused
            else get_elem? buffer header_size >>= λ result.
                if result == 1
                then some (reply, action_success content ∷ [])
                else some (nreply, action_failure content ∷ [])

unfoldable pub udp_parse_unexpected : Client → List ℕ → ℕ → Parsed
udp_parse_unexpected client buffer msg_len =
    refuse (error_line "ERROR: Received unexpected message")

-- The two strings behind the header, as the accepting branches print them.
abbrev pub name_and_content : List ℕ → (List ℕ → List ℕ → Out) → MsgType → Parsed
name_and_content buffer line type = c_string (drop header_size buffer) >>= λ name.
    c_string (drop (header_size + zero_byte + length name) buffer) >>= λ content.
    some (type, line name content ∷ [])

unfoldable pub udp_parse_msg : Client → List ℕ → ℕ → Parsed
udp_parse_msg client buffer msg_len = is_valid_msg_err buffer msg_len >>= λ valid.
    if valid
    then name_and_content buffer message msg
    else refuse (error_line "ERROR: Received invalid MSG")

unfoldable pub udp_parse_err : Client → List ℕ → ℕ → Parsed
udp_parse_err client buffer msg_len = is_valid_msg_err buffer msg_len >>= λ valid.
    if valid
    then name_and_content buffer error_from err
    else refuse (error_line "ERROR: Received invalid ERR")

unfoldable pub udp_parse_bye : Client → List ℕ → ℕ → Parsed
udp_parse_bye client buffer msg_len =
    let refused = refuse (error_line "ERROR: Received invalid BYE") in
    if not (leb (header_size + 1 + zero_byte) msg_len)
    then refused
    else c_string (drop header_size buffer) >>= λ name.
        if not (is_valid_alphanum_underscore name 20)
        then refused
        else if msg_len == header_size + length name + zero_byte
        then some (bye, [])
        else refused

unfoldable pub udp_parse_ping : Client → List ℕ → ℕ → Parsed
udp_parse_ping client buffer msg_len =
    if msg_len == header_size
    then some (ping, [])
    else refuse (error_line "ERROR: Received invalid PING")
