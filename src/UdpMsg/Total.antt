-- ===== src/UdpMsg/Total.antt =====
-- No parser of src/udp_msg.c reads outside a block that ends in a NUL behind the datagram.
use ipk_chat_client.Base.{
  ◌==◌, leb, ℕ, zero, ◌+◌, ◌*◌, ◌%◌, ◌<◌, ◌≤◌, ◌<◌, ◌≡◌, ◌≢◌, refl, ap, ◌∙◌, inl, inr, Bool-cases,
  none, some, List, [], ◌∷◌, ◌++◌, arith, length, length-append, get_elem?, get_or,
  get_elem?-eq-get_or, drop, c_string, c_string-ends,
}
use ipk_chat_client.Common.{zero_byte, MsgType, Out, Client}
use ipk_chat_client.UdpMsg.Build.{header_size}
use ipk_chat_client.UdpMsg.Parse.{
  is_valid_msg_err, Parsed, to_uint16, udp_parse_confirm, udp_parse_reply, udp_parse_unexpected,
  udp_parse_msg, udp_parse_err, udp_parse_bye, udp_parse_ping,
}
use ipk_chat_client.UdpMsg.Accept.{udp_parse_msg_lem, udp_parse_err_lem}
use ipk_chat_client.UdpMsg.Sound.{IsLaidOut, IsLaidOut-of_valid, is_valid_msg_err-total}

total_of : (o : Parsed) → o ≢ none → (p : MsgType × List Out) × (o ≡ some p)
total_of none h = absurd (h refl)
total_of (some p) h = (p, refl)

-- A parser that gives a result.
abbrev pub IsTotal : Client → List ℕ → ℕ → (Client → List ℕ → ℕ → Parsed) → Type 0
IsTotal client block len parse = (p : MsgType × List Out) × (parse client block len ≡ some p)

read_cell : (b : List ℕ) (i : ℕ) → i < length b → (c : ℕ) × (get_elem? b i ≡ some c)
read_cell b i h = (get_or b i 0, get_elem?-eq-get_or b i 0 h)

read_pair : (b : List ℕ) (i : ℕ) → i + 1 < length b → (id : ℕ) × (to_uint16 b i ≡ some id)
unfolding to_uint16
read_pair b i h =
    let (x, e) = read_cell b i (omega arith) in
    let (y, e') = read_cell b (i + 1) h in (x % 256 * 256 + y % 256, rw (e, e') refl)

-- CONFIRM, PING and the types that a server does not send have no string.
pub udp_parse_confirm-IsTotal :
    (client : Client) (b : List ℕ) (len : ℕ)
    → len ≤ length b
    → IsTotal client b len udp_parse_confirm
unfolding udp_parse_confirm
udp_parse_confirm-IsTotal client b len h = elim (Bool-cases (len == header_size)) [
  | inl exact ↦
      let (id, e) = read_pair b 1 (ground arith) in
      total_of (udp_parse_confirm client b len) (λ h. ground (arith, h, e))
  | inr other ↦ total_of (udp_parse_confirm client b len) (λ h. ground (arith, h, other))
]

pub udp_parse_unexpected-IsTotal :
    (client : Client) (b : List ℕ) (len : ℕ) → IsTotal client b len udp_parse_unexpected
unfolding udp_parse_unexpected
udp_parse_unexpected-IsTotal client b len = total_of (udp_parse_unexpected client b len) (λ h. cc)

pub udp_parse_ping-IsTotal :
    (client : Client) (b : List ℕ) (len : ℕ) → IsTotal client b len udp_parse_ping
unfolding udp_parse_ping
udp_parse_ping-IsTotal client b len =
    total_of (udp_parse_ping client b len) (λ h. ground (arith, h))

-- The others, on a block that ends in a NUL, of at least the bytes of the datagram.
module _ (client : Client) (m : List ℕ) (len : ℕ) (fits : len ≤ length m + 1) where
  abbrev block : List ℕ
  block = m ++ zero ∷ []

  length_block : length block ≡ length m + 1
  length_block = length-append {0} m (zero ∷ [])

  read_string : (i : ℕ) → i ≤ length m → (t : List ℕ) × (c_string (drop i block) ≡ some t)
  read_string i h = c_string-ends m i h

  pub udp_parse_reply-IsTotal : IsTotal client block len udp_parse_reply
  unfolding udp_parse_reply
  udp_parse_reply-IsTotal = elim (Bool-cases (leb 8 len)) [
    | inl long ↦
        let (t, e) = read_string 6 (ground arith) in
        let (id, e') = read_pair block 4 (ground (arith, length_block)) in
        let (c, e'') = read_cell block header_size (ground (arith, length_block)) in
        total_of (udp_parse_reply client block len) (λ h. ground (arith, h, e, e', e''))
    | inr short ↦ total_of (udp_parse_reply client block len) (λ h. ground (arith, h, short))
  ]

  pub udp_parse_bye-IsTotal : IsTotal client block len udp_parse_bye
  unfolding udp_parse_bye
  udp_parse_bye-IsTotal = elim (Bool-cases (leb (header_size + 1 + zero_byte) len)) [
    | inl long ↦
        let (t, e) = read_string header_size (ground arith) in
        total_of (udp_parse_bye client block len) (λ h. ground (arith, h, e))
    | inr short ↦ total_of (udp_parse_bye client block len) (λ h. ground (arith, h, short))
  ]

  -- A block that the validator accepts holds two strings, and they are printed.
  laid_out_msg :
      (b : List ℕ) → IsLaidOut b → (p : MsgType × List Out) × (udp_parse_msg client b len ≡ some p)
  laid_out_msg b laid =
      let parsed =
        udp_parse_msg_lem laid.a laid.b laid.c laid.name laid.content laid.rest laid.name_no_nul
          laid.content_no_nul client len in
      total_of (udp_parse_msg client b len)
        (λ h. ground (arith, parsed, ap (λ x. udp_parse_msg client x len) laid.same, h))

  pub udp_parse_msg-IsTotal : IsTotal client block len udp_parse_msg
  udp_parse_msg-IsTotal =
      let (valid, e) = is_valid_msg_err-total m len fits in
      elim (Bool-cases valid) [
        | inl fine ↦ laid_out_msg block (IsLaidOut-of_valid block len (e ∙ ap some fine))
        | inr bad ↦
            total_of (udp_parse_msg client block len)
              (λ h. unfold udp_parse_msg in ground (arith, h, e, bad))
      ]

  -- A block that the validator accepts holds two strings, and they are printed.
  laid_out_err :
      (b : List ℕ) → IsLaidOut b → (p : MsgType × List Out) × (udp_parse_err client b len ≡ some p)
  laid_out_err b laid =
      let parsed =
        udp_parse_err_lem laid.a laid.b laid.c laid.name laid.content laid.rest laid.name_no_nul
          laid.content_no_nul client len in
      total_of (udp_parse_err client b len)
        (λ h. ground (arith, parsed, ap (λ x. udp_parse_err client x len) laid.same, h))

  pub udp_parse_err-IsTotal : IsTotal client block len udp_parse_err
  udp_parse_err-IsTotal =
      let (valid, e) = is_valid_msg_err-total m len fits in
      elim (Bool-cases valid) [
        | inl fine ↦ laid_out_err block (IsLaidOut-of_valid block len (e ∙ ap some fine))
        | inr bad ↦
            total_of (udp_parse_err client block len)
              (λ h. unfold udp_parse_err in ground (arith, h, e, bad))
      ]

-- A datagram of at most three bytes has no string.
module _ (client : Client) (b : List ℕ) (short : length b ≤ 3) where
  pub short_reply : IsTotal client b (length b) udp_parse_reply
  unfolding udp_parse_reply
  short_reply = total_of (udp_parse_reply client b (length b)) (λ h. ground (arith, h))

  pub short_bye : IsTotal client b (length b) udp_parse_bye
  unfolding udp_parse_bye
  short_bye = total_of (udp_parse_bye client b (length b)) (λ h. ground (arith, h))

  pub short_msg : IsTotal client b (length b) udp_parse_msg
  unfolding udp_parse_msg is_valid_msg_err
  short_msg = total_of (udp_parse_msg client b (length b)) (λ h. ground (arith, h))

  pub short_err : IsTotal client b (length b) udp_parse_err
  unfolding udp_parse_err is_valid_msg_err
  short_err = total_of (udp_parse_err client b (length b)) (λ h. ground (arith, h))
