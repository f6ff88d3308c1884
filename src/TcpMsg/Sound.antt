-- ===== src/TcpMsg/Sound.antt =====
-- What the parsers of src/tcp_msg.c take is a line of the grammar.
use mathlib.Core.Path.{subst}
use ipk_chat_client.Base.{
  ℕ, ◌+◌, ◌≡◌, ◌≢◌, refl, ap, sym, ◌∙◌, ◌⊎◌, inl, inr, Bool-cases, Option, Option-cases, some, List,
  [], ◌∷◌, ◌++◌, arith, All, codes,
}
use ipk_chat_client.Common.{
  error, reply, nreply, msg, err, bye, action_success, action_failure, message, error_from,
  max_name_size, max_msg_size, zero_byte, is_valid_printable,
}
use ipk_chat_client.Common.Laws.{IsContentChar, IsText, is_valid_printable_iff}
use ipk_chat_client.TcpMsg.{
  TcpMsgTemp, match, content, read_till_delimiter, name_content, parse_reply, parse_nreply,
  parse_msg, parse_err, parse_bye, parse_unexpected, msg_temp, strncasecmp_eq,
}
use ipk_chat_client.TcpMsg.Process.{process_with, tcp_process_msg}
use ipk_chat_client.TcpMsg.Grammar.{
  Alike, Named, Unnamed, Line, ok_line, nok_line, msg_line, err_line, bye_line, match_sound,
}
use ipk_chat_client.TcpMsg.Content.{content_sound, read_sound}
use ipk_chat_client.TcpMsg.Name.{name_content_sound}

-- A name and a content, or what is read so.
abbrev pub Read : List ℕ → List ℕ → List ℕ → Type 0
Read b name t = Named b name t ⊎ Unnamed b name t

-- The parts of a line with a keyword and a content.
content_parts :
    (l p b t : List ℕ)
    → match l p 0 ≡ some b
    → content b ≡ some t
    → (k : List ℕ) × (rest : List ℕ) × Alike k p
      × IsText IsContentChar max_msg_size t
      × (l ≡ k ++ (t ++ 13 ∷ 10 ∷ rest))
content_parts l p b t m c =
    let (k, a, e) = match_sound l p b 0 m in
    let (h, (rest, e')) = content_sound b t c in (k, rest, a, h, e ∙ ap (λ r. k ++ r) e')

parse_reply_sound : (l : List ℕ) → (parse_reply l).0 ≢ error → Line Read l (parse_reply l)
unfolding parse_reply
parse_reply_sound l h = elim (Option-cases (match l (codes "REPLY OK IS ") 0)) [
  | inl e ↦ absurd (ground (arith, e, h))
  | inr (b, e) ↦ elim (Option-cases (content b)) [
    | inl e' ↦ absurd (ground (arith, e, e', h))
    | inr (t, e') ↦
        let (k, rest, a, text, whole) = content_parts l (codes "REPLY OK IS ") b t e e' in
        rw (e, e')
          (subst (λ x. Line Read x (reply, action_success t ∷ [])) (sym whole)
            (ok_line k t rest a text))
  ]
]

parse_nreply_sound : (l : List ℕ) → (parse_nreply l).0 ≢ error → Line Read l (parse_nreply l)
unfolding parse_nreply
parse_nreply_sound l h = elim (Option-cases (match l (codes "REPLY NOK IS ") 0)) [
  | inl e ↦ absurd (ground (arith, e, h))
  | inr (b, e) ↦ elim (Option-cases (content b)) [
    | inl e' ↦ absurd (ground (arith, e, e', h))
    | inr (t, e') ↦
        let (k, rest, a, text, whole) = content_parts l (codes "REPLY NOK IS ") b t e e' in
        rw (e, e')
          (subst (λ x. Line Read x (nreply, action_failure t ∷ [])) (sym whole)
            (nok_line k t rest a text))
  ]
]

parse_msg_sound : (l : List ℕ) → (parse_msg l).0 ≢ error → Line Read l (parse_msg l)
unfolding parse_msg
parse_msg_sound l h = elim (Option-cases (match l (codes "MSG FROM ") 0)) [
  | inl e ↦ absurd (ground (arith, e, h))
  | inr (b, e) ↦ elim (Option-cases (name_content b)) [
    | inl e' ↦ absurd (ground (arith, e, e', h))
    | inr ((name, t), e') ↦
        let (k, a, whole) = match_sound l (codes "MSG FROM ") b 0 e in
        rw (e, e')
          (subst (λ x. Line Read x (msg, message name t ∷ [])) (sym whole)
            (msg_line k b name t a (name_content_sound b name t e')))
  ]
]

parse_err_sound : (l : List ℕ) → (parse_err l).0 ≢ error → Line Read l (parse_err l)
unfolding parse_err
parse_err_sound l h = elim (Option-cases (match l (codes "ERR FROM ") 0)) [
  | inl e ↦ absurd (ground (arith, e, h))
  | inr (b, e) ↦ elim (Option-cases (name_content b)) [
    | inl e' ↦ absurd (ground (arith, e, e', h))
    | inr ((name, t), e') ↦
        let (k, a, whole) = match_sound l (codes "ERR FROM ") b 0 e in
        rw (e, e')
          (subst (λ x. Line Read x (err, error_from name t ∷ [])) (sym whole)
            (err_line k b name t a (name_content_sound b name t e')))
  ]
]

-- The name of a BYE.
abbrev bye_name : List ℕ → Option (List ℕ)
bye_name b = read_till_delimiter b (max_name_size + zero_byte)

parse_bye_sound : (l : List ℕ) → (parse_bye l).0 ≢ error → Line Read l (parse_bye l)
unfolding parse_bye
parse_bye_sound l h = elim (Option-cases (match l (codes "BYE FROM ") 0)) [
  | inl e ↦ absurd (ground (arith, e, h))
  | inr (b, e) ↦ elim (Option-cases (bye_name b)) [
    | inl e' ↦ absurd (ground (arith, e, e', h))
    | inr (name, e') ↦ elim (Bool-cases (is_valid_printable name max_name_size)) [
      | inr wrong ↦ absurd (ground (arith, e, e', wrong, h))
      | inl valid ↦
          let (k, a, whole) = match_sound l (codes "BYE FROM ") b 0 e in
          let text = (is_valid_printable_iff name max_name_size).0 valid in
          let (rest, e'') =
            read_sound b name (max_name_size + zero_byte) e' (omega (arith, text.fits)) in
          rw (e, e', valid)
            (subst (λ x. Line Read x (bye, [])) (sym (whole ∙ ap (λ r. k ++ r) e''))
              (bye_line k name rest a text))
    ]
  ]
]

-- A parser that takes only lines of the grammar.
abbrev IsSound : TcpMsgTemp → Type 0
IsSound t = (l : List ℕ) → (t.parse_func l).0 ≢ error → Line Read l (t.parse_func l)

process_with_sound :
    (ts : List TcpMsgTemp) (l : List ℕ)
    → All IsSound ts
    → (process_with ts l).0 ≢ error
    → Line Read l (process_with ts l)
unfolding process_with
process_with_sound [] l sound h = absurd (h refl)
process_with_sound (t ∷ ts) l (sound, sounds) h =
    elim (Bool-cases (strncasecmp_eq l t.temp t.len)) [
      | inl here ↦ rw here (sound l (rw here at h))
      | inr later ↦ rw later (process_with_sound ts l sounds (rw later at h))
    ]

pub tcp_process_msg_sound :
    (l : List ℕ) → (tcp_process_msg l).0 ≢ error → Line Read l (tcp_process_msg l)
unfolding tcp_process_msg msg_temp parse_unexpected
tcp_process_msg_sound l h =
    process_with_sound msg_temp l
      (
        parse_reply_sound,
        (
          parse_nreply_sound,
          (
            λ s g. absurd (g refl),
            (λ s g. absurd (g refl), (parse_msg_sound, (parse_err_sound, (parse_bye_sound, tt)))),
          ),
        ),
      )
      h
