-- ===== src/UdpMsg/Frames.antt =====
-- The builders against the wire format: a header of three bytes, then NUL-terminated strings.
use ipk_chat_client.Base.{
  ℕ, ◌+◌, ◌/◌, ◌%◌, ◌≡◌, refl, ap₂, true, Option, none, some, List, [], ◌∷◌, ◌++◌, arith, length,
  replicate, replicate-add, length-append, length-replicate, write_middle, ◌>>=◌, append_assoc,
  append-nil,
}
use ipk_chat_client.Common.{MsgType, auth, join, msg, err, bye, type_code, Client}
use ipk_chat_client.UdpMsg.Build.{
  header_size, build_header, strcpy, Built, build_auth, build_join, build_msg_err, build_bye,
  udp_build_msg,
}

-- The three bytes of the header: the type, and the message id with its high byte first.
abbrev pub header : MsgType → ℕ → List ℕ
header type id = type_code type ∷ id / 256 % 256 ∷ id % 256 ∷ []

-- Each string with its NUL.
abbrev pub fields : List (List ℕ) → List ℕ
fields [] = []
fields (s ∷ ss) = s ++ 0 ∷ fields ss

-- The strings that a message of each type carries; `none` for the types that the client never
-- sends.
abbrev pub sent_fields : MsgType → Client → Option (List (List ℕ))
sent_fields auth c = some (c.username ∷ c.display_name ∷ c.secret ∷ [])
sent_fields join c = some (c.channel_id ∷ c.display_name ∷ [])
sent_fields msg c = some (c.display_name ∷ c.msg_content ∷ [])
sent_fields err c = some (c.display_name ∷ c.msg_content ∷ [])
sent_fields bye c = some (c.display_name ∷ [])
sent_fields _ c = none

abbrev pub frame : MsgType → ℕ → List (List ℕ) → List ℕ
frame type id ss = header type id ++ fields ss

-- `strcpy` into the free cells behind what is already written.
strcpy_lem :
    (pre s : List ℕ) (off n k : ℕ)
    → length pre ≡ off
    → n ≡ length s + 1 + k
    → strcpy (pre ++ replicate n 0) off s ≡ some ((pre ++ (s ++ 0 ∷ [])) ++ replicate k 0)
strcpy_lem pre s off n k at e =
    rw (e, replicate-add {A = ℕ} (length s + 1) k 0, append_assoc)
      (write_middle pre (replicate (length s + 1) 0) (replicate k 0) (s ++ 0 ∷ []) off at
        (omega (arith, length-replicate {A = ℕ} (length s + 1) 0, length-append {0} s (0 ∷ []))))

-- What a builder returns for the strings `ss`.
abbrev pub built : MsgType → ℕ → List (List ℕ) → Option (List ℕ × ℕ)
built type id ss = let f = frame type id ss in some (f, length f)

length-fields :
    (s : List ℕ) (ss : List (List ℕ)) → length (fields (s ∷ ss)) ≡ length s + 1 + length (fields ss)
length-fields s ss = omega (arith, length-append {0} s (0 ∷ fields ss))

-- A block and a length that equal a frame and its length are what a builder returns.
built_of_eq :
    (type : MsgType) (id n : ℕ) (ss : List (List ℕ)) {block : List ℕ}
    → block ≡ frame type id ss
    → n ≡ length (fields ss)
    → ◌≡◌ {A = Built} (some (some (block, header_size + n))) (some (built type id ss))
built_of_eq type id n ss e l = ap₂ (λ b k. some (some (b, k))) e (omega (arith, l))

one_field :
    (type : MsgType) (id : ℕ) (s : List ℕ)
    → let payload_len = length s + 1 in
      (strcpy (header type id ++ replicate payload_len 0) header_size s >>= λ one.
      some (some (one, header_size + payload_len)))
      ≡ some (built type id (s ∷ []))
one_field type id s =
    let payload_len = length s + 1 in
    let one = strcpy_lem (header type id) s header_size payload_len 0 refl (omega arith) in
    rw one (
      built_of_eq type id payload_len (s ∷ []) (simp (append_assoc, append-nil))
        (omega (arith, length-fields s [])))

two_fields :
    (type : MsgType) (id : ℕ) (s t : List ℕ)
    → let payload_len = length s + 1 + length t + 1 in
      (strcpy (header type id ++ replicate payload_len 0) header_size s >>= λ one.
      strcpy one (header_size + length s + 1) t >>= λ two.
      some (some (two, header_size + payload_len)))
      ≡ some (built type id (s ∷ t ∷ []))
two_fields type id s t =
    let payload_len = length s + 1 + length t + 1 in
    let one =
      strcpy_lem (header type id) s header_size payload_len (length t + 1) refl (omega arith) in
    let two =
      strcpy_lem (header type id ++ (s ++ 0 ∷ [])) t (header_size + length s + 1) (length t + 1) 0
        (omega (arith, length-append {0} s (0 ∷ []))) (omega arith) in
    rw (one, two)
      (built_of_eq type id payload_len (s ∷ t ∷ []) (simp (append_assoc, append-nil))
        (omega (arith, length-fields s (t ∷ []), length-fields t [])))

three_fields :
    (type : MsgType) (id : ℕ) (s t u : List ℕ)
    → let payload_len = length s + 1 + length t + 1 + length u + 1 in
      (strcpy (header type id ++ replicate payload_len 0) header_size s >>= λ one.
      strcpy one (header_size + length s + 1) t >>= λ two.
      strcpy two (header_size + length s + 1 + length t + 1) u >>= λ three.
      some (some (three, header_size + payload_len)))
      ≡ some (built type id (s ∷ t ∷ u ∷ []))
three_fields type id s t u =
    let payload_len = length s + 1 + length t + 1 + length u + 1 in
    let one =
      strcpy_lem (header type id) s header_size payload_len (length t + 1 + length u + 1) refl
        (omega arith) in
    let two =
      strcpy_lem (header type id ++ (s ++ 0 ∷ [])) t (header_size + length s + 1)
        (length t + 1 + length u + 1) (length u + 1) (omega (arith, length-append {0} s (0 ∷ [])))
        (omega arith) in
    let three =
      strcpy_lem ((header type id ++ (s ++ 0 ∷ [])) ++ (t ++ 0 ∷ [])) u
        (header_size + length s + 1 + length t + 1) (length u + 1) 0
        (omega (
          arith,
          length-append {0} (s ++ 0 ∷ []) (t ++ 0 ∷ []),
          length-append {0} s (0 ∷ []),
          length-append {0} t (0 ∷ []),
        ))
        (omega arith) in
    rw (one, two, three)
      (built_of_eq type id payload_len (s ∷ t ∷ u ∷ []) (simp (append_assoc, append-nil))
        (omega (arith, length-fields s (t ∷ u ∷ []), length-fields t (u ∷ []), length-fields u [])))

-- With an allocation that succeeds every message type that the client sends is built, inside its
-- block, as the header with the client's message id and the strings of that type with their NULs,
-- and its length is returned; any other type gives the NULL pointer.
pub udp_build_msg_lem :
    (type : MsgType) (c : Client)
    → udp_build_msg true type c
      ≡ some (elim (sent_fields type c) [ none ↦ none | some ss ↦ built type c.msg_id ss ])
unfolding udp_build_msg build_auth build_join build_msg_err build_bye build_header
udp_build_msg_lem auth c = three_fields auth c.msg_id c.username c.display_name c.secret
udp_build_msg_lem join c = two_fields join c.msg_id c.channel_id c.display_name
udp_build_msg_lem msg c = two_fields msg c.msg_id c.display_name c.msg_content
udp_build_msg_lem err c = two_fields err c.msg_id c.display_name c.msg_content
udp_build_msg_lem bye c = one_field bye c.msg_id c.display_name
udp_build_msg_lem _ c = refl
