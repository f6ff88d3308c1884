-- ===== src/Examples/Wire.antt =====
-- Building and parsing UDP messages.
use ipk_chat_client.Base.{
  ℕ, zero, ◌+◌, ◌≡◌, refl, ◌∷◌, [], ◌++◌, List, codes, arith, true, some, length, c_string, ◌&&◌,
  ◌==◌, if◌then◌else◌,
}
use ipk_chat_client.Common.{
  Client, msg, reply, nreply, err, error, message, error_from, error_line, action_success,
  action_failure, max_name_size, max_msg_size, is_valid_alphanum_underscore, is_valid_msg_content,
}
use ipk_chat_client.Common.Laws.{IsIdChar, IsContentChar, IsText}
use ipk_chat_client.UdpMsg.Frames.{frame, built, udp_build_msg_lem}
use ipk_chat_client.UdpMsg.Build.{header_size, udp_build_msg}
use ipk_chat_client.UdpMsg.Parse.{
  to_uint16, is_valid_msg_err, udp_parse_msg, udp_parse_err, udp_parse_reply,
}
use ipk_chat_client.UdpMsg.Accept.{layout, IsMsgSender, udp_parse-build, printable_name_refused}
use ipk_chat_client.UdpMsg.Sound.{udp_parse_msg_sound}
use ipk_chat_client.UdpMsg.Reply.{udp_parse_reply_lem, reply_refused_after_wrap}
use ipk_chat_client.Examples.Data.{alice}

abbrev texts : List (List ℕ)
texts = codes "Al" ∷ codes "hi there" ∷ []

abbrev sent : List ℕ
sent = frame msg 7 texts

abbrev err_sent : List ℕ
err_sent = frame err 7 texts

udp_build_msg_lem_example : udp_build_msg true msg alice ≡ some (built msg 7 texts)
udp_build_msg_lem_example = udp_build_msg_lem msg alice

alice-IsMsgSender : IsMsgSender alice
alice-IsMsgSender = record {
  name = record { nonempty = omega arith; fits = omega arith; chars = ground arith };
  content = record { nonempty = omega arith; fits = omega arith; chars = ground arith };
}

udp_parse-build_example :
    (udp_build_msg true msg alice ≡ some (some (sent, length sent)))
    × (udp_parse_msg alice (sent ++ []) (length sent)
        ≡ some (msg, message (codes "Al") (codes "hi there") ∷ []))
    × (udp_build_msg true err alice ≡ some (some (err_sent, length err_sent)))
    × (udp_parse_err alice (err_sent ++ []) (length err_sent)
        ≡ some (err, error_from (codes "Al") (codes "hi there") ∷ []))
udp_parse-build_example = udp_parse-build alice alice [] alice-IsMsgSender

-- A client whose display name has an exclamation mark.
abbrev loud : Client
loud = record alice { display_name = codes "A!" }

abbrev loud_sent : List ℕ
loud_sent = frame msg 7 (codes "A!" ∷ codes "hi there" ∷ [])

printable_name_refused_example :
    (udp_build_msg true msg loud ≡ some (some (loud_sent, length loud_sent)))
    × (udp_parse_msg alice (loud_sent ++ []) (length loud_sent)
        ≡ some (error, error_line "ERROR: Received invalid MSG" ∷ []))
printable_name_refused_example =
    printable_name_refused loud alice []
      (record { nonempty = omega arith; fits = omega arith; chars = ground arith })
      (λ h. ground arith) (ground arith)

abbrev received : List ℕ
received = layout 4 0 9 (codes "Bo") (codes "yo") []

udp_parse_msg_sound_example :
    (a b c : ℕ) × (name content rest : List ℕ) × (received ≡ layout a b c name content rest)
    × IsText IsIdChar max_name_size name
    × IsText IsContentChar max_msg_size content
    × (9 ≡ header_size + length name + 1 + length content + 1)
    × (message (codes "Bo") (codes "yo") ∷ [] ≡ message name content ∷ [])
unfolding udp_parse_msg is_valid_msg_err c_string is_valid_alphanum_underscore is_valid_msg_content
udp_parse_msg_sound_example =
    udp_parse_msg_sound alice received 9 {out = message (codes "Bo") (codes "yo") ∷ []} refl

abbrev welcome : List ℕ
welcome = 1 ∷ 0 ∷ 1 ∷ 1 ∷ 0 ∷ 6 ∷ (codes "hello" ++ zero ∷ [])

udp_parse_reply_lem_example : udp_parse_reply alice welcome 12 ≡ (
    if is_valid_msg_content (codes "hello") max_msg_size && (12 == 6 + 5 + 1 && 6 + 1 == 7)
    then if 1 == 1
      then some (reply, action_success (codes "hello") ∷ [])
      else some (nreply, action_failure (codes "hello") ∷ [])
    else some (error, error_line "ERROR: Received invalid REPLY" ∷ []))
udp_parse_reply_lem_example =
    udp_parse_reply_lem 1 0 1 1 0 6 (codes "hello") [] (ground arith) alice 12

reply_refused_after_wrap_example : error ≡ error
unfolding udp_parse_reply c_string is_valid_msg_content to_uint16
reply_refused_after_wrap_example =
    reply_refused_after_wrap (record alice { msg_id = 0 }) welcome 12 {type = error}
      {out = error_line "ERROR: Received invalid REPLY" ∷ []} refl refl
