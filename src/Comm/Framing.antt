-- ===== src/Comm/Framing.antt =====
-- Where a line of TCP ends.
use ipk_chat_client.Base.{
  ℕ, ◌≡◌, ◌≢◌, refl, sym, ap, ◌∙◌, List, [], ◌∷◌, ◌++◌, arith, codes, All, All-mono, All-append,
  append_assoc,
}
use ipk_chat_client.Common.{MsgType, confirm, auth, join, msg, err, bye}
use ipk_chat_client.Common.Laws.{IsIdChar, IsPrintable, IsContentChar, IsText}
use ipk_chat_client.Comm.Wire.{Allowed, line, IsLine}

-- No carriage return.
abbrev IsPlain : ℕ → Type 0
IsPlain c = c ≢ 13

-- The only carriage return is the one of the CR LF at the end.
abbrev pub EndsOnce : List ℕ → Type 0
EndsOnce l = (t : List ℕ) × (l ≡ t ++ 13 ∷ 10 ∷ []) × All IsPlain t

behind : (xs : List ℕ) {l : List ℕ} → All IsPlain xs → EndsOnce l → EndsOnce (xs ++ l)
behind xs h (t, e, k) = (
  xs ++ t,
  ap (λ r. xs ++ r) e ∙ sym (append_assoc xs t (13 ∷ 10 ∷ [])),
  All-append IsPlain xs t h k,
)

crlf_EndsOnce : EndsOnce (codes "\r\n")
crlf_EndsOnce = ([], refl, tt)

IsIdChar-IsPlain : {n : ℕ} {s : List ℕ} → IsText IsIdChar n s → All IsPlain s
IsIdChar-IsPlain {s = s} w = All-mono IsIdChar IsPlain s (λ c h. ground arith) w.chars

IsPrintable-IsPlain : {n : ℕ} {s : List ℕ} → IsText IsPrintable n s → All IsPlain s
IsPrintable-IsPlain {s = s} w = All-mono IsPrintable IsPlain s (λ c h. ground arith) w.chars

IsContentChar-IsPlain : {n : ℕ} {s : List ℕ} → IsText IsContentChar n s → All IsPlain s
IsContentChar-IsPlain {s = s} w = All-mono IsContentChar IsPlain s (λ c h. ground arith) w.chars

line-EndsOnce :
    (type : MsgType) (texts : List (List ℕ))
    → Allowed type texts
    → type ≢ confirm
    → EndsOnce (line type texts)
line-EndsOnce auth (u ∷ d ∷ s ∷ []) h n = behind (codes "AUTH ") (ground arith) (
    behind u (IsIdChar-IsPlain h.0) (
      behind (codes " AS ") (ground arith) (
        behind d (IsPrintable-IsPlain h.1) (
          behind (codes " USING ") (ground arith)
            (behind s (IsIdChar-IsPlain h.2) crlf_EndsOnce)))))
line-EndsOnce join (c ∷ d ∷ []) h n = behind (codes "JOIN ") (ground arith) (
    behind c (IsIdChar-IsPlain h.0)
      (behind (codes " AS ") (ground arith) (behind d (IsPrintable-IsPlain h.1) crlf_EndsOnce)))
line-EndsOnce msg (d ∷ m ∷ []) h n = behind (codes "MSG FROM ") (ground arith) (
    behind d (IsPrintable-IsPlain h.0)
      (behind (codes " IS ") (ground arith) (behind m (IsContentChar-IsPlain h.1) crlf_EndsOnce)))
line-EndsOnce err (d ∷ m ∷ []) h n = behind (codes "ERR FROM ") (ground arith) (
    behind d (IsPrintable-IsPlain h.0)
      (behind (codes " IS ") (ground arith) (behind m (IsContentChar-IsPlain h.1) crlf_EndsOnce)))
line-EndsOnce bye (d ∷ []) h n =
    behind (codes "BYE FROM ") (ground arith) (behind d (IsPrintable-IsPlain h) crlf_EndsOnce)
line-EndsOnce confirm texts h n = absurd (n refl)
line-EndsOnce type texts h n = absurd h

-- A line of the format ends once.
pub IsLine-EndsOnce : (l : List ℕ) → IsLine l → EndsOnce l
IsLine-EndsOnce l (type, texts, ok, n, e) =
    let (t, f, k) = line-EndsOnce type texts ok n in (t, e ∙ f, k)
