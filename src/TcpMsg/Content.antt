-- ===== src/TcpMsg/Content.antt =====
-- The end of a line: `read_till_delimiter` and the check of what it read.
use mathlib.Core.Path.{subst}
use ipk_chat_client.Base.{
  ℕ, ◌<◌, ◌≡◌, refl, inl, inr, Bool-cases, Option-cases, false, ◌&&◌, some, List, [], ◌∷◌, ◌++◌,
  arith, ◌==◌, length, All, All-mono, length-take,
}
use ipk_chat_client.Common.{max_msg_size, buffer_size, is_valid_msg_content}
use ipk_chat_client.Common.Laws.{IsContentChar, IsText, is_valid_msg_content_iff}
use ipk_chat_client.TcpMsg.{before_crlf, read_till_delimiter, content}

-- The text has no carriage return.
abbrev pub IsPlain : ℕ → Type 0
IsPlain c = (c == 13) ≡ false

before_crlf-append : (t rest : List ℕ) → All IsPlain t → before_crlf (t ++ 13 ∷ 10 ∷ rest) ≡ some t
unfolding before_crlf
before_crlf-append [] rest h = refl
before_crlf-append (c ∷ []) rest (h, hs) = ground arith
before_crlf-append (c ∷ d ∷ t) rest (h, hs) = ground (arith, before_crlf-append (d ∷ t) rest hs)

before_crlf_sound :
    (s t : List ℕ) → before_crlf s ≡ some t → (rest : List ℕ) × (s ≡ t ++ 13 ∷ 10 ∷ rest)
unfolding before_crlf
before_crlf_sound [] t h = cc
before_crlf_sound (c ∷ []) t h = cc
before_crlf_sound (c ∷ d ∷ s) t h = elim (Bool-cases (c == 13 && d == 10)) [
  | inl here ↦ (s, ground (arith, here, h))
  | inr later ↦ elim (Option-cases (before_crlf (d ∷ s))) [
    | inl e ↦ absurd (ground (arith, later, e, h))
    | inr (t', e) ↦
        let (rest, same) = before_crlf_sound (d ∷ s) t' e in
        (rest, ground (arith, later, e, h, same))
  ]
]

-- A text that is read, at most `size` bytes long.
pub read_sound :
    (s t : List ℕ) (size : ℕ)
    → read_till_delimiter s size ≡ some t
    → length t < size
    → (rest : List ℕ) × (s ≡ t ++ 13 ∷ 10 ∷ rest)
unfolding read_till_delimiter
read_sound s t size h fits = elim (Option-cases (before_crlf s)) [
  | inl e ↦ absurd (ground (arith, e, h))
  | inr (u, e) ↦
      let (rest, same) = before_crlf_sound s u e in
      (rest, ground (arith, e, h, same, length-take size u))
]

-- A text without a carriage return in front of a CRLF is read, if it is short enough.
pub read-append :
    (t rest : List ℕ) (size : ℕ)
    → All IsPlain t
    → length t < size
    → read_till_delimiter (t ++ 13 ∷ 10 ∷ rest) size ≡ some t
unfolding read_till_delimiter
read-append t rest size h fits = rw (before_crlf-append t rest h) (ground arith)

-- What `content` accepts is a valid content in front of a CRLF.
pub content_sound :
    (s t : List ℕ)
    → content s ≡ some t
    → IsText IsContentChar max_msg_size t × ((rest : List ℕ) × (s ≡ t ++ 13 ∷ 10 ∷ rest))
unfolding content
content_sound s t h = elim (Option-cases (read_till_delimiter s buffer_size)) [
  | inl e ↦ absurd (ground (arith, e, h))
  | inr (u, e) ↦ elim (Bool-cases (is_valid_msg_content u max_msg_size)) [
    | inl valid ↦
        let text = (is_valid_msg_content_iff u max_msg_size).0 valid in
        let same : u ≡ t = ground (arith, e, valid, h) in
        subst
          (λ v. IsText IsContentChar max_msg_size v × ((rest : List ℕ) × (s ≡ v ++ 13 ∷ 10 ∷ rest)))
          same (text, read_sound s u buffer_size e (omega (arith, text.fits)))
    | inr wrong ↦ absurd (ground (arith, e, wrong, h))
  ]
]

pub content-append :
    (t rest : List ℕ) → IsText IsContentChar max_msg_size t → content (t ++ 13 ∷ 10 ∷ rest) ≡ some t
unfolding content
content-append t rest h =
    let plain = All-mono IsContentChar IsPlain t (λ c k. ground arith) h.chars in
    rw
      (
        read-append t rest buffer_size plain (omega (arith, h.fits)),
        (is_valid_msg_content_iff t max_msg_size).1 h,
      )
      refl
