-- ===== src/UdpMsg/Sound.antt =====
-- What an accepted MSG must look like, and when the parsers of MSG and ERR read past their block.
use ipk_chat_client.Base.{
  ℕ, zero, ◌+◌, ◌≤◌, ◌≡◌, refl, ap, sym, eq_of_some-eq, ==_iff, ◌∙◌, inl, inr, Bool, true, false,
  ◌&&◌, Bool-cases, Option-cases, none, some, List, [], ◌∷◌, ◌++◌, arith, ltb, ◌==◌, length,
  length-append, c_string, c_string-append, c_string-eq-some, c_string-ends, c_string-unterminated,
  HasNoNul,
}
use ipk_chat_client.Common.{
  max_name_size, max_msg_size, msg, Out, message, Client, is_valid_alphanum_underscore,
  is_valid_msg_content,
}
use ipk_chat_client.Common.Laws.{
  IsText, IsIdChar, IsContentChar, is_valid_alphanum_underscore_iff, is_valid_msg_content_iff,
}
use ipk_chat_client.UdpMsg.Build.{header_size}
use ipk_chat_client.UdpMsg.Parse.{is_valid_msg_err, udp_parse_msg}
use ipk_chat_client.UdpMsg.Accept.{
  layout, drop_field, accepted, is_valid_msg_err_lem, udp_parse_msg_lem,
}

-- The block `m` holds two strings behind its first three bytes.
pub record IsLaidOut (m : List ℕ) : Type 0 where
  pub a : ℕ
  pub b : ℕ
  pub c : ℕ
  pub name : List ℕ
  pub content : List ℕ
  pub rest : List ℕ
  pub name_no_nul : HasNoNul name
  pub content_no_nul : HasNoNul content
  pub same : m ≡ layout a b c name content rest

second_string :
    (a b c len : ℕ) (name r : List ℕ)
    → HasNoNul name
    → c_string (name ++ zero ∷ r) ≡ some name
    → is_valid_msg_err (a ∷ b ∷ c ∷ (name ++ zero ∷ r)) len ≡ some true
    → IsLaidOut (a ∷ b ∷ c ∷ (name ++ zero ∷ r))
unfolding is_valid_msg_err
second_string a b c len name r n read h = elim (Option-cases (c_string r)) [
  | inl e ↦ absurd (ground (arith, e, read, drop_field a b c name r))
  | inr (content, e) ↦
      let (rest, at, t) = c_string-eq-some r content e in
      record {
        a = a;
        b = b;
        c = c;
        name = name;
        content = content;
        rest = rest;
        name_no_nul = n;
        content_no_nul = t;
        same = rw at refl;
      }
]

-- A block that the validator accepts holds two strings behind its header.
pub IsLaidOut-of_valid : (m : List ℕ) (len : ℕ) → is_valid_msg_err m len ≡ some true → IsLaidOut m
unfolding is_valid_msg_err c_string
IsLaidOut-of_valid [] len h = absurd (ground arith)
IsLaidOut-of_valid (a ∷ []) len h = absurd (ground arith)
IsLaidOut-of_valid (a ∷ b ∷ []) len h = absurd (ground arith)
IsLaidOut-of_valid (a ∷ b ∷ c ∷ m) len h = elim (Option-cases (c_string m)) [
  | inl e ↦ absurd (ground (arith, e))
  | inr (name, e) ↦
      let (r, at, n) = c_string-eq-some m name e in
      rw at (second_string a b c len name r n (c_string-append name r n) (rw at at h))
]

some-true-of_msg :
    (client : Client) (m : List ℕ) (len : ℕ) {out : List Out}
    → udp_parse_msg client m len ≡ some (msg, out)
    → is_valid_msg_err m len ≡ some true
unfolding udp_parse_msg
some-true-of_msg client m len h = elim (Option-cases (is_valid_msg_err m len)) [
  | inl e ↦ absurd (ground (arith, e))
  | inr (true, e) ↦ e
  | inr (false, e) ↦ absurd (ground (arith, e))
]

accepted_parts :
    (name content : List ℕ) (n : Bool)
    → (is_valid_alphanum_underscore name max_name_size
        && (is_valid_msg_content content max_msg_size && n))
      ≡ true
    → IsText IsIdChar max_name_size name × IsText IsContentChar max_msg_size content × (n ≡ true)
accepted_parts name content n h = (
  (is_valid_alphanum_underscore_iff name max_name_size).0 (ground arith),
  (is_valid_msg_content_iff content max_msg_size).0 (ground arith),
  ground arith,
)

-- The decision and the result at a laid-out block.
laid_out_parts :
    (client : Client) (m : List ℕ) (len : ℕ) {out : List Out} (laid : IsLaidOut m)
    → udp_parse_msg client m len ≡ some (msg, out)
    → is_valid_msg_err m len ≡ some true
    → (accepted laid.a laid.b laid.c laid.name laid.content laid.rest laid.name_no_nul
          laid.content_no_nul len
        ≡ true)
      × (out ≡ message laid.name laid.content ∷ [])
laid_out_parts client m len laid h valid =
    let decided =
      is_valid_msg_err_lem laid.a laid.b laid.c laid.name laid.content laid.rest laid.name_no_nul
        laid.content_no_nul len in
    let parsed =
      udp_parse_msg_lem laid.a laid.b laid.c laid.name laid.content laid.rest laid.name_no_nul
        laid.content_no_nul client len in
    let passed =
      eq_of_some-eq (sym decided ∙ (sym (ap (λ b. is_valid_msg_err b len) laid.same) ∙ valid)) in
    (
      passed,
      ground (arith, sym (ap (λ b. udp_parse_msg client b len) laid.same) ∙ h, parsed, passed),
    )

-- Whatever the block, an MSG is accepted only if it holds, behind three bytes, a name of 1 to 20
-- letters, digits, `-` and `_`, and a content of 1 to 60000 printable bytes, spaces and line feeds,
-- each with its NUL, and the datagram ends with the second NUL; then these are what is printed.
pub udp_parse_msg_sound :
    (client : Client) (m : List ℕ) (len : ℕ) {out : List Out}
    → udp_parse_msg client m len ≡ some (msg, out)
    → (a b c : ℕ) × (name content rest : List ℕ) × (m ≡ layout a b c name content rest)
      × IsText IsIdChar max_name_size name
      × IsText IsContentChar max_msg_size content
      × (len ≡ header_size + length name + 1 + length content + 1)
      × (out ≡ message name content ∷ [])
udp_parse_msg_sound client m len {out = out} h =
    let valid = some-true-of_msg client m len h in
    let laid = IsLaidOut-of_valid m len valid in
    let (passed, printed) = laid_out_parts client m len laid h valid in
    let (is_name, is_content, ends) = accepted_parts laid.name laid.content _ passed in
    (
      laid.a,
      laid.b,
      laid.c,
      laid.name,
      laid.content,
      laid.rest,
      laid.same,
      is_name,
      is_content,
      (==_iff len _).0 ends,
      printed,
    )

-- An MSG or an ERR of at least four bytes with no NUL behind its header, in a block that ends with
-- the datagram, as the copy in the queue does, makes the validator read past the block.
pub is_valid_msg_err-unterminated :
    (a b c : ℕ) (text : List ℕ) (len : ℕ)
    → HasNoNul text
    → 4 ≤ len
    → is_valid_msg_err (a ∷ b ∷ c ∷ text) len ≡ none
unfolding is_valid_msg_err
is_valid_msg_err-unterminated a b c text len n h = ground (arith, c_string-unterminated text n)

length-le-of_string : (m s rest : List ℕ) → m ≡ s ++ zero ∷ rest → length s + 1 ≤ length m
length-le-of_string m s rest e = omega (arith, ap length e, length-append {0} s (zero ∷ rest))

-- In a block that ends in a NUL, the last byte of the datagram or one behind it, the validator reads
-- inside the block, whatever the bytes and the length of the datagram.
pub is_valid_msg_err-total :
    (m : List ℕ) (len : ℕ)
    → len ≤ length m + 1
    → (valid : Bool) × (is_valid_msg_err (m ++ zero ∷ []) len ≡ some valid)
unfolding is_valid_msg_err
is_valid_msg_err-total m len h = elim (Bool-cases (ltb len (header_size + 1))) [
  | inl short ↦ (false, rw short refl)
  | inr long ↦
      let (name, e) = c_string-ends m header_size (ground arith) in
      elim (Bool-cases (is_valid_alphanum_underscore name max_name_size)) [
        | inl ok ↦ elim (Bool-cases (ltb len (header_size + length name + 1 + 1 + 1))) [
          | inl short ↦ (false, ground (arith, e, ok, short, long))
          | inr longer ↦
              let (content, e') = c_string-ends m (header_size + length name + 1) (ground arith) in
              elim (Bool-cases (is_valid_msg_content content max_msg_size)) [
                | inl fine ↦ (
                  len == header_size + length name + 1 + length content + 1,
                  ground (arith, e, ok, longer, long, e', fine),
                )
                | inr bad ↦ (false, ground (arith, e, ok, longer, long, e', bad))
              ]
        ]
        | inr bad ↦ (false, ground (arith, e, bad, long))
      ]
]
