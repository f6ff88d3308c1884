-- ===== src/TcpMsg/Grammar.antt =====
-- The lines of the protocol that the parsers of src/tcp_msg.c are for, and the parts of a line that
-- `match` and `read_till_delimiter` recognize.
use ipk_chat_client.Base.{
  ℕ, zero, suc, ◌<◌, ◌≡◌, refl, ap, inl, inr, Bool-cases, true, some, List, [], ◌∷◌, ◌++◌, arith,
  lt→ltb, length, drop, drop-append, codes, isspace,
}
use ipk_chat_client.Common.{
  reply, msg, nreply, err, bye, action_success, action_failure, message, error_from, max_name_size,
  max_msg_size,
}
use ipk_chat_client.Common.Laws.{IsPrintable, IsContentChar, IsText}
use ipk_chat_client.TcpMsg.{Parsed, tolower, match, strncasecmp_eq}

-- The same text, but for the case of its letters.
pub data Alike : List ℕ → List ℕ → Type 0 where
  nil : Alike [] []
  cons : {c d : ℕ} {s t : List ℕ} → tolower c ≡ tolower d → Alike s t → Alike (c ∷ s) (d ∷ t)

-- A display name, ` IS ` in any case, a content, and the CRLF, with whatever is behind it.
pub data Named : List ℕ → List ℕ → List ℕ → Type 0 where
  named :
      (name k t rest : List ℕ)
      → IsText IsPrintable max_name_size name
      → Alike k (codes " IS ")
      → IsText IsContentChar max_msg_size t
      → Named (name ++ (k ++ (t ++ 13 ∷ 10 ∷ rest))) name t

-- Two bytes of white space and ` IS ` in the place of the name and the keyword.
pub data Unnamed : List ℕ → List ℕ → List ℕ → Type 0 where
  unnamed :
      (v w i s : ℕ) (t rest : List ℕ)
      → isspace v ≡ true
      → isspace w ≡ true
      → Alike (i ∷ s ∷ []) (codes "IS")
      → IsText IsContentChar max_msg_size t
      → Unnamed (v ∷ w ∷ 32 ∷ i ∷ s ∷ 32 ∷ (t ++ 13 ∷ 10 ∷ rest)) (i ∷ s ∷ []) t

-- What a server may send, with the result of its parser. The keywords are in any case, and `rest`
-- is what stands behind the CRLF. `N` says how a name and a content stand behind the keyword.
pub data Line (N : List ℕ → List ℕ → List ℕ → Type 0) : List ℕ → Parsed → Type 0 where
  ok_line :
      (k t rest : List ℕ)
      → Alike k (codes "REPLY OK IS ")
      → IsText IsContentChar max_msg_size t
      → Line N (k ++ (t ++ 13 ∷ 10 ∷ rest)) (reply, action_success t ∷ [])
  nok_line :
      (k t rest : List ℕ)
      → Alike k (codes "REPLY NOK IS ")
      → IsText IsContentChar max_msg_size t
      → Line N (k ++ (t ++ 13 ∷ 10 ∷ rest)) (nreply, action_failure t ∷ [])
  msg_line :
      (k b name t : List ℕ)
      → Alike k (codes "MSG FROM ")
      → N b name t
      → Line N (k ++ b) (msg, message name t ∷ [])
  err_line :
      (k b name t : List ℕ)
      → Alike k (codes "ERR FROM ")
      → N b name t
      → Line N (k ++ b) (err, error_from name t ∷ [])
  bye_line :
      (k name rest : List ℕ)
      → Alike k (codes "BYE FROM ")
      → IsText IsPrintable max_name_size name
      → Line N (k ++ (name ++ 13 ∷ 10 ∷ rest)) (bye, [])

-- The comparison does not see the case.
pub strncasecmp_eq-Alike :
    {s s' : List ℕ} (x t : List ℕ) (n : ℕ)
    → Alike s s'
    → strncasecmp_eq (s ++ x) t n ≡ strncasecmp_eq (s' ++ x) t n
unfolding strncasecmp_eq
strncasecmp_eq-Alike x t n nil = refl
strncasecmp_eq-Alike x t zero (cons h hs) = refl
strncasecmp_eq-Alike x [] (suc n) (cons h hs) = refl
strncasecmp_eq-Alike x (d ∷ t) (suc n) (cons h hs) = rw (h, strncasecmp_eq-Alike x t n hs) refl

pub strncasecmp_eq_sound :
    (s t : List ℕ)
    → strncasecmp_eq s t (length t) ≡ true
    → (k : List ℕ) × Alike k t × (s ≡ k ++ drop (length t) s)
unfolding strncasecmp_eq
strncasecmp_eq_sound s [] h = ([], nil, refl)
strncasecmp_eq_sound [] (d ∷ t) h = cc
strncasecmp_eq_sound (c ∷ s) (d ∷ t) h =
    let (k, alike, e) = strncasecmp_eq_sound s t (ground (arith, h)) in
    (c ∷ k, cons (ground (arith, h)) alike, ap (λ r. c ∷ r) e)

drop-Alike : {s t : List ℕ} (x : List ℕ) → Alike s t → drop (length t) (s ++ x) ≡ x
drop-Alike x nil = refl
drop-Alike x (cons h hs) = drop-Alike x hs

strncasecmp_eq_self : (t x : List ℕ) → strncasecmp_eq (t ++ x) t (length t) ≡ true
unfolding strncasecmp_eq
strncasecmp_eq_self [] x = refl
strncasecmp_eq_self (c ∷ t) x = ground (arith, strncasecmp_eq_self t x)

-- A pattern behind `before` is found where something follows it.
pub match-Alike :
    (before k p x : List ℕ)
    → Alike k p
    → 0 < length x
    → match (before ++ (k ++ x)) p (length before) ≡ some x
unfolding match
match-Alike before k p x a pos =
    rw
      (
        drop-append before (k ++ x),
        strncasecmp_eq-Alike x p (length p) a,
        strncasecmp_eq_self p x,
        drop-Alike x a,
        lt→ltb 0 (length x) pos,
      )
      refl

pub match_sound :
    (s p x : List ℕ) (n : ℕ) → match s p n ≡ some x → (k : List ℕ) × Alike k p × (drop n s ≡ k ++ x)
unfolding match
match_sound s p x n h = elim (Bool-cases (strncasecmp_eq (drop n s) p (length p))) [
  | inl same ↦
      let (k, a, e) = strncasecmp_eq_sound (drop n s) p same in (k, a, ground (arith, e, same, h))
  | inr other ↦ absurd (ground (arith, other, h))
]
