-- ===== src/UdpMsg/Reply.antt =====
-- The message id in the header, and which REPLY is accepted.
use ipk_chat_client.Base.{
  ℕ, zero, ◌+◌, ◌*◌, ◌%◌, ◌≤◌, ◌<◌, ◌≡◌, inl, inr, true, ◌&&◌, Option-cases, some, List, [], ◌∷◌,
  ◌++◌, arith, ◌==◌, if◌then◌else◌, length, drop, c_string, c_string-append, HasNoNul,
}
use ipk_chat_client.Common.{
  max_msg_size, MsgType, reply, nreply, error, Out, action_success, action_failure, error_line,
  Client, is_valid_msg_content,
}
use ipk_chat_client.Common.Laws.{is_valid_msg_content_iff}
use ipk_chat_client.UdpMsg.Build.{build_header}
use ipk_chat_client.UdpMsg.Parse.{to_uint16, udp_parse_reply}

-- The id that the header is built with is the id that is read back from it, whatever the type and
-- the room for a payload.
pub to_uint16-build_header :
    (type : MsgType) (id payload_len : ℕ) {m : List ℕ}
    → id < 65536
    → build_header true type id payload_len ≡ some m
    → to_uint16 m 1 ≡ some id
unfolding build_header to_uint16
to_uint16-build_header type id payload_len fits h = ground arith

module _ (a b c result high low : ℕ) (content rest : List ℕ) (t : HasNoNul content) where
  abbrev reply_block : List ℕ
  reply_block = a ∷ b ∷ c ∷ result ∷ high ∷ low ∷ (content ++ zero ∷ rest)

  -- The id that the reply refers to.
  abbrev ref_id : ℕ
  ref_id = high % 256 * 256 + low % 256

  content_pos : is_valid_msg_content content max_msg_size ≡ true → 1 ≤ length content
  content_pos h = ((is_valid_msg_content_iff content max_msg_size).0 h).nonempty

  -- A REPLY with a terminated content is accepted exactly when its content is valid, the datagram
  -- ends with the NUL and the id that it refers to is the one before the client's next id; its
  -- result byte then decides between success and failure, and the content is printed with it.
  pub udp_parse_reply_lem :
      (client : Client) (len : ℕ)
      → udp_parse_reply client reply_block len ≡ (
          if is_valid_msg_content content max_msg_size
            && (len == 6 + length content + 1 && ref_id + 1 == client.msg_id)
          then if result == 1
            then some (reply, action_success content ∷ [])
            else some (nreply, action_failure content ∷ [])
          else some (error, error_line "ERROR: Received invalid REPLY" ∷ []))
  unfolding udp_parse_reply to_uint16
  udp_parse_reply_lem client len = ground (arith, c_string-append content rest t, content_pos)

-- Once the 16-bit id of the client has wrapped to 0 no REPLY is accepted, whatever it holds.
pub reply_refused_after_wrap :
    (client : Client) (m : List ℕ) (len : ℕ) {type : MsgType} {out : List Out}
    → client.msg_id ≡ 0
    → udp_parse_reply client m len ≡ some (type, out)
    → type ≡ error
unfolding udp_parse_reply
reply_refused_after_wrap client m len wrapped h = elim (Option-cases (c_string (drop 6 m))) [
  | inl e ↦ ground (arith, e)
  | inr (content, e) ↦ elim (Option-cases (to_uint16 m 4)) [
    | inl e' ↦ ground (arith, e, e')
    | inr (id, e') ↦ ground (arith, e, e')
  ]
]
