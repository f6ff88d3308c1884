-- ===== src/TcpMsg/Accept.antt =====
-- Which lines src/tcp_msg.c takes, and as what.
use mathlib.Core.Path.{subst}
use ipk_chat_client.Base.{
  skip_spaces, ℕ, ◌+◌, ◌<◌, ◌≡◌, ◌≢◌, ◌↔◌, refl, ap, ◌∙◌, inl, inr, some, List, [], ◌∷◌, ◌++◌,
  arith, All-mono, if◌then◌else◌, length, length-append,
}
use ipk_chat_client.Common.{error, max_name_size, zero_byte}
use ipk_chat_client.Common.Laws.{IsPrintable, is_valid_printable_iff}
use ipk_chat_client.TcpMsg.{
  Parsed, TcpMsgTemp, sscanf_name, scan_word, refuse, match, name_content, parse_reply,
  parse_nreply, parse_msg, parse_err, parse_bye, msg_temp, strncasecmp_eq,
}
use ipk_chat_client.TcpMsg.Process.{process_with, tcp_process_msg}
use ipk_chat_client.TcpMsg.Grammar.{
  Alike, Line, ok_line, nok_line, msg_line, err_line, bye_line, match-Alike, strncasecmp_eq-Alike,
}
use ipk_chat_client.TcpMsg.Content.{content-append, read-append, IsPlain}
use ipk_chat_client.TcpMsg.Name.{name_content-Named, name_content-Unnamed}
use ipk_chat_client.TcpMsg.Sound.{Read, tcp_process_msg_sound}

name_content-Read : (b name t : List ℕ) → Read b name t → name_content b ≡ some (name, t)
name_content-Read b name t (inl n) = name_content-Named n
name_content-Read b name t (inr u) = name_content-Unnamed u

-- A keyword and a rest that is not empty.
keyword : {k p : List ℕ} (x : List ℕ) → Alike k p → 0 < length x → match (k ++ x) p 0 ≡ some x
keyword {k} {p} x a pos = match-Alike [] k p x a pos

ended : (t rest : List ℕ) → 0 < length (t ++ 13 ∷ 10 ∷ rest)
ended t rest = omega (arith, length-append {0} t (13 ∷ 10 ∷ rest))

Read-nonempty : (b name t : List ℕ) → Read b name t → 0 < length b
Read-nonempty [] name t h = absurd (
    unfold name_content sscanf_name skip_spaces scan_word in
    ground (arith, name_content-Read [] name t h))
Read-nonempty (c ∷ b) name t h = omega arith

-- The parser of the first entry whose template starts as the line does.
abbrev chosen : List TcpMsgTemp → List ℕ → List ℕ → Parsed
chosen [] s = λ _. refuse "ERROR: Unknown massage received"
chosen (t ∷ ts) s = if strncasecmp_eq s t.temp t.len then t.parse_func else chosen ts s

process_with-chosen : (ts : List TcpMsgTemp) (s : List ℕ) → process_with ts s ≡ chosen ts s s
unfolding process_with
process_with-chosen [] s = refl
process_with-chosen (t ∷ ts) s = ground (arith, process_with-chosen ts s)

chosen-Alike :
    {k p : List ℕ} (ts : List TcpMsgTemp) (x : List ℕ)
    → Alike k p
    → chosen ts (k ++ x) ≡ chosen ts (p ++ x)
chosen-Alike [] x a = refl
chosen-Alike (t ∷ ts) x a = rw (strncasecmp_eq-Alike x t.temp t.len a, chosen-Alike ts x a) refl

-- A keyword chooses the parser, in whatever case it is.
by_keyword :
    {k p : List ℕ} (x : List ℕ)
    → Alike k p
    → tcp_process_msg (k ++ x) ≡ chosen msg_temp (p ++ x) (k ++ x)
unfolding tcp_process_msg
by_keyword {k} x a =
    process_with-chosen msg_temp (k ++ x) ∙ ap (λ f. f (k ++ x)) (chosen-Alike msg_temp x a)

-- Every line of the grammar is taken as what it says.
pub tcp_process_msg-Line : {l : List ℕ} {p : Parsed} → Line Read l p → tcp_process_msg l ≡ p
unfolding msg_temp strncasecmp_eq parse_reply parse_nreply parse_msg parse_err parse_bye
tcp_process_msg-Line (ok_line k t rest a h) =
    let x = t ++ 13 ∷ 10 ∷ rest in
    by_keyword x a ∙ rw (keyword x a (ended t rest), content-append t rest h) refl
tcp_process_msg-Line (nok_line k t rest a h) =
    let x = t ++ 13 ∷ 10 ∷ rest in
    by_keyword x a ∙ rw (keyword x a (ended t rest), content-append t rest h) refl
tcp_process_msg-Line (msg_line k b name t a h) =
    by_keyword b a ∙ rw (keyword b a (Read-nonempty b name t h), name_content-Read b name t h) refl
tcp_process_msg-Line (err_line k b name t a h) =
    by_keyword b a ∙ rw (keyword b a (Read-nonempty b name t h), name_content-Read b name t h) refl
tcp_process_msg-Line (bye_line k name rest a h) =
    let x = name ++ 13 ∷ 10 ∷ rest in
    let plain = All-mono IsPrintable IsPlain name (λ c g. ground arith) h.chars in
    let read = read-append name rest (max_name_size + zero_byte) plain (omega (arith, h.fits)) in
    by_keyword x a
    ∙ rw (keyword x a (ended name rest), read, (is_valid_printable_iff name max_name_size).1 h) refl

Line-ne-error : {l : List ℕ} {p : Parsed} → Line Read l p → p.0 ≢ error
Line-ne-error (ok_line k t rest a h) = λ e. cc
Line-ne-error (nok_line k t rest a h) = λ e. cc
Line-ne-error (msg_line k b name t a h) = λ e. cc
Line-ne-error (err_line k b name t a h) = λ e. cc
Line-ne-error (bye_line k name rest a h) = λ e. cc

-- A text of any bytes is taken as a REPLY, a negative REPLY, an MSG, an ERR or a BYE, and what it
-- says is printed, exactly if it is such a line of the grammar: its keywords in any case, its
-- name and content valid, up to a CRLF, with anything behind. The one exception is that two bytes
-- of white space and ` IS ` in the place of the name and the keyword are read as the name `IS`. Every
-- other text is an error.
pub tcp_process_msg_iff :
    (l : List ℕ) (p : Parsed) → ((tcp_process_msg l ≡ p) × (p.0 ≢ error)) ↔ Line Read l p
tcp_process_msg_iff l p = (
  λ h. subst (Line Read l) h.0 (tcp_process_msg_sound l (rw h.0 h.1)),
  λ h. (tcp_process_msg-Line h, Line-ne-error h),
)
