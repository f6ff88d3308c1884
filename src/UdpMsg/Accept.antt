-- ===== src/UdpMsg/Accept.antt =====
-- Which datagrams the parsers of MSG, ERR, BYE and REPLY accept.
use ipk_chat_client.Base.{
  ℕ, zero, ◌+◌, ◌/◌, ◌%◌, ◌≤◌, ◌≡◌, refl, inl, inr, Bool, true, false, ◌&&◌, Bool-cases, some, List,
  [], ◌∷◌, ◌++◌, arith, ◌==◌, if◌then◌else◌, length, drop, length-append, c_string, c_string-append,
  HasNoNul, append_assoc, drop-append_eq, All,
}
use ipk_chat_client.Common.{
  max_name_size, max_msg_size, type_code, MsgType, msg, err, error, message, error_from, error_line,
  Client, is_valid_alphanum_underscore, is_valid_msg_content,
}
use ipk_chat_client.Common.Laws.{
  IsText, IsIdChar, IsPrintable, IsContentChar, is_valid_alphanum_underscore_iff,
  is_valid_msg_content_iff, IsIdChar-no_nul, IsPrintable-no_nul, IsContentChar-no_nul,
}
use ipk_chat_client.UdpMsg.Build.{header_size, udp_build_msg}
use ipk_chat_client.UdpMsg.Parse.{refuse, is_valid_msg_err, udp_parse_msg, udp_parse_err}
use ipk_chat_client.UdpMsg.Frames.{frame, udp_build_msg_lem}

-- A block that begins with three bytes and two strings.
abbrev pub layout : ℕ → ℕ → ℕ → List ℕ → List ℕ → List ℕ → List ℕ
layout a b c name content rest = a ∷ b ∷ c ∷ (name ++ zero ∷ (content ++ zero ∷ rest))

-- Behind the header and the first string with its NUL.
pub drop_field :
    (a b c : ℕ) (name r : List ℕ)
    → drop (header_size + length name + 1) (a ∷ b ∷ c ∷ (name ++ zero ∷ r)) ≡ r
drop_field a b c name r = rw (← append_assoc (a ∷ b ∷ c ∷ name) (zero ∷ []) r) (
    drop-append_eq (header_size + length name + 1) (a ∷ b ∷ c ∷ (name ++ zero ∷ [])) r
      (omega (arith, length-append {0} name (zero ∷ []))))

module _ (a b c : ℕ) (name content rest : List ℕ) (n : HasNoNul name) (t : HasNoNul content) where
  abbrev pub block : List ℕ
  block = layout a b c name content rest

  drop_name : drop (header_size + length name + 1) block ≡ content ++ zero ∷ rest
  drop_name = drop_field a b c name (content ++ zero ∷ rest)

  read_name : c_string (drop header_size block) ≡ some name
  read_name = c_string-append name (content ++ zero ∷ rest) n

  read_content : c_string (drop (header_size + length name + 1) block) ≡ some content
  read_content = rw drop_name (c_string-append content rest t)

  -- Whether a datagram of `len` bytes in that block is accepted.
  abbrev pub accepted : ℕ → Bool
  accepted len =
      is_valid_alphanum_underscore name max_name_size
      && (is_valid_msg_content content max_msg_size
          && len == header_size + length name + 1 + length content + 1)

  content_pos : is_valid_msg_content content max_msg_size ≡ true → 1 ≤ length content
  content_pos h = ((is_valid_msg_content_iff content max_msg_size).0 h).nonempty

  pub is_valid_msg_err_lem : (len : ℕ) → is_valid_msg_err block len ≡ some (accepted len)
  unfolding is_valid_msg_err
  is_valid_msg_err_lem len = ground (arith, read_name, read_content, content_pos)

  -- On a block that holds two strings behind its header, MSG and ERR are accepted exactly when the
  -- strings are valid and the length is that of the two, and then both strings are printed.
  pub udp_parse_msg_lem :
      (client : Client) (len : ℕ)
      → udp_parse_msg client block len ≡ (
          if accepted len
          then some (msg, message name content ∷ [])
          else refuse (error_line "ERROR: Received invalid MSG"))
  unfolding udp_parse_msg
  udp_parse_msg_lem client len =
      ground (arith, is_valid_msg_err_lem len, read_name, header_sum, read_content)
    where
      header_sum : header_size + 1 + length name ≡ header_size + length name + 1
      header_sum = omega arith

  pub udp_parse_err_lem :
      (client : Client) (len : ℕ)
      → udp_parse_err client block len ≡ (
          if accepted len
          then some (err, error_from name content ∷ [])
          else refuse (error_line "ERROR: Received invalid ERR"))
  unfolding udp_parse_err
  udp_parse_err_lem client len =
      ground (arith, is_valid_msg_err_lem len, read_name, header_sum, read_content)
    where
      header_sum : header_size + 1 + length name ≡ header_size + length name + 1
      header_sum = omega arith

-- The frame of two strings is such a block.
frame-layout :
    (type : MsgType) (id : ℕ) (s t rest : List ℕ)
    → frame type id (s ∷ t ∷ []) ++ rest
      ≡ layout (type_code type) (id / 256 % 256) (id % 256) s t rest
frame-layout type id s t rest = simp append_assoc

length-frame_two :
    (type : MsgType) (id : ℕ) (s t : List ℕ)
    → length (frame type id (s ∷ t ∷ [])) ≡ header_size + length s + 1 + length t + 1
length-frame_two type id s t =
    omega (arith, length-append {0} s (0 ∷ (t ++ 0 ∷ [])), length-append {0} t (0 ∷ []))

-- What an MSG client sends: a display name of letters, digits, `-` and `_`, and a valid content.
pub record IsMsgSender (c : Client) : Type 0 where
  pub name : IsText IsIdChar max_name_size c.display_name
  pub content : IsText IsContentChar max_msg_size c.msg_content

module _ (sender : Client) (v : IsMsgSender sender) where
  open sender use {display_name, msg_content}

  name_no_nul : HasNoNul display_name
  name_no_nul = IsIdChar-no_nul display_name v.name

  content_no_nul : HasNoNul msg_content
  content_no_nul = IsContentChar-no_nul msg_content v.content

  accepted_sender :
      (len : ℕ)
      → len ≡ header_size + length display_name + 1 + length msg_content + 1
      → accepted 0 0 0 display_name msg_content [] name_no_nul content_no_nul len ≡ true
  accepted_sender len e = ground (
    arith,
    (is_valid_alphanum_underscore_iff display_name max_name_size).1 v.name,
    (is_valid_msg_content_iff msg_content max_msg_size).1 v.content,
  )

  parse_msg_frame :
      (receiver : Client) (rest : List ℕ)
      → let f = frame msg sender.msg_id (display_name ∷ msg_content ∷ []) in
        udp_parse_msg receiver (f ++ rest) (length f)
        ≡ some (msg, message display_name msg_content ∷ [])
  parse_msg_frame receiver rest =
      rw
        (
          frame-layout,
          udp_parse_msg_lem _ _ _ display_name msg_content rest name_no_nul content_no_nul receiver,
        )
        (rw
          (accepted_sender (length (frame msg sender.msg_id (display_name ∷ msg_content ∷ [])))
            (length-frame_two msg sender.msg_id display_name msg_content))
          refl)

  parse_err_frame :
      (receiver : Client) (rest : List ℕ)
      → let f = frame err sender.msg_id (display_name ∷ msg_content ∷ []) in
        udp_parse_err receiver (f ++ rest) (length f)
        ≡ some (err, error_from display_name msg_content ∷ [])
  parse_err_frame receiver rest =
      rw
        (
          frame-layout,
          udp_parse_err_lem _ _ _ display_name msg_content rest name_no_nul content_no_nul receiver,
        )
        (rw
          (accepted_sender (length (frame err sender.msg_id (display_name ∷ msg_content ∷ [])))
            (length-frame_two err sender.msg_id display_name msg_content))
          refl)

-- The MSG and the ERR built by a client whose display name has 1 to 20 letters, digits, `-` and
-- `_` and whose content is valid are accepted by the parsers, in a block with anything behind
-- them, with the name and the content that were sent.
pub udp_parse-build :
    (sender receiver : Client) (rest : List ℕ)
    → IsMsgSender sender
    → let texts = sender.display_name ∷ sender.msg_content ∷ [] in
      let f = frame msg sender.msg_id texts in
      let g = frame err sender.msg_id texts in
      (udp_build_msg true msg sender ≡ some (some (f, length f)))
      × (udp_parse_msg receiver (f ++ rest) (length f)
          ≡ some (msg, message sender.display_name sender.msg_content ∷ []))
      × (udp_build_msg true err sender ≡ some (some (g, length g)))
      × (udp_parse_err receiver (g ++ rest) (length g)
          ≡ some (err, error_from sender.display_name sender.msg_content ∷ []))
udp_parse-build sender receiver rest v = (
  udp_build_msg_lem msg sender,
  parse_msg_frame sender v receiver rest,
  udp_build_msg_lem err sender,
  parse_err_frame sender v receiver rest,
)

-- A display name that the client itself accepts from its user, and sends, but that has a byte
-- other than letters, digits, `-` and `_`, makes the parsers refuse the MSG, whatever its content.
pub printable_name_refused :
    (sender receiver : Client) (rest : List ℕ)
    → IsText IsPrintable max_name_size sender.display_name
    → (All IsIdChar sender.display_name → ⊥)
    → HasNoNul sender.msg_content
    → let f = frame msg sender.msg_id (sender.display_name ∷ sender.msg_content ∷ []) in
      (udp_build_msg true msg sender ≡ some (some (f, length f)))
      × (udp_parse_msg receiver (f ++ rest) (length f)
          ≡ some (error, error_line "ERROR: Received invalid MSG" ∷ []))
printable_name_refused sender receiver rest printable odd t = (
  udp_build_msg_lem msg sender,
  rw
      (
        frame-layout,
        udp_parse_msg_lem _ _ _ name sender.msg_content rest (IsPrintable-no_nul name printable) t
            receiver,
      )
      (rw refused refl),
)
  where
    name : List ℕ
    name = sender.display_name

    refused : is_valid_alphanum_underscore sender.display_name max_name_size ≡ false
    refused = elim (Bool-cases (is_valid_alphanum_underscore sender.display_name max_name_size)) [
      | inl ok ↦
          absurd
            (odd ((is_valid_alphanum_underscore_iff sender.display_name max_name_size).0 ok).chars)
      | inr no_match ↦ no_match
    ]
