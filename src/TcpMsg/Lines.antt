-- ===== src/TcpMsg/Lines.antt =====
-- The stream as its lines: what the calls of src/comm_tcp.c take from it, one line at a time.

use ipk_chat_client.Base.{
  ℕ, ◌≡◌, refl, ap, ◌∙◌, inl, inr, Bool-cases, true, false, ◌&&◌, Option-cases, none, some, List,
  [], ◌∷◌, ◌++◌, arith, ◌==◌, if◌then◌else◌,
}
use ipk_chat_client.Buffer.Laws.{split_line}

-- A byte in front of the first line, or of the rest.
abbrev pub extend : ℕ → List (List ℕ) × List ℕ → List (List ℕ) × List ℕ
extend x ([], rest) = ([], x ∷ rest)
extend x (l ∷ ls, rest) = ((x ∷ l) ∷ ls, rest)

-- A stream cut at every CRLF: the lines, each with its CRLF, and the bytes behind the last one.
unfoldable pub lines : List ℕ → List (List ℕ) × List ℕ
lines [] = ([], [])
lines (x ∷ []) = ([], x ∷ [])
lines (x ∷ y ∷ r) =
    let behind = lines r in
    let later = lines (y ∷ r) in
    if x == b'\r' && y == b'\n' then ((x ∷ y ∷ []) ∷ behind.0, behind.1) else extend x later

pub lines-none : (s : List ℕ) → split_line s ≡ none → lines s ≡ ([], s)
unfolding lines split_line
lines-none [] h = refl
lines-none (x ∷ []) h = refl
lines-none (x ∷ y ∷ r) h = elim (Option-cases (split_line (y ∷ r))) [
  | inl e ↦ ground (arith, e, lines-none (y ∷ r) e)
  | inr (p, e) ↦ ground (arith, e)
]

pub lines-some :
    (s l rest : List ℕ)
    → split_line s ≡ some (l, rest)
    → lines s ≡ (l ∷ (lines rest).0, (lines rest).1)
unfolding lines split_line
lines-some [] l rest h = cc
lines-some (x ∷ []) l rest h = cc
lines-some (x ∷ y ∷ r) l rest h = elim (Bool-cases (x == b'\r' && y == b'\n')) [
  | inl here ↦ ground (arith, here)
  | inr later ↦ elim (Option-cases (split_line (y ∷ r))) [
    | inl e ↦ ground (arith, e)
    | inr ((l', rest'), e) ↦ ground (arith, e, lines-some (y ∷ r) l' rest' e)
  ]
]

pub split_line-append : (s l rest : List ℕ) → split_line s ≡ some (l, rest) → s ≡ l ++ rest
unfolding split_line
split_line-append [] l rest h = cc
split_line-append (x ∷ []) l rest h = cc
split_line-append (x ∷ y ∷ r) l rest h = elim (Bool-cases (x == b'\r' && y == b'\n')) [
  | inl here ↦ ground (arith, here)
  | inr later ↦ elim (Option-cases (split_line (y ∷ r))) [
    | inl e ↦ ground (arith, e)
    | inr ((l', rest'), e) ↦ ground (arith, e, split_line-append (y ∷ r) l' rest' e)
  ]
]

lines-later :
    (x y : ℕ) (r : List ℕ)
    → (x == b'\r' && y == b'\n') ≡ false
    → lines (x ∷ y ∷ r) ≡ extend x (lines (y ∷ r))
unfolding lines
lines-later x y r h = rw h refl

lines-here :
    (x y : ℕ) (r : List ℕ)
    → (x == b'\r' && y == b'\n') ≡ true
    → lines (x ∷ y ∷ r) ≡ ((x ∷ y ∷ []) ∷ (lines r).0, (lines r).1)
unfolding lines
lines-here x y r h = rw h refl

extend-rest :
    (x : ℕ) (p : List (List ℕ) × List ℕ) (s : List ℕ)
    → (p.0 ≡ [] → p.1 ≡ s)
    → (extend x p).0 ≡ []
    → (extend x p).1 ≡ x ∷ s
extend-rest x ([], rest) s f h = rw (f refl) refl
extend-rest x (l ∷ ls, rest) s f h = cc

lines-rest : (s : List ℕ) → (lines s).0 ≡ [] → (lines s).1 ≡ s
lines-rest [] h = unfold lines in refl
lines-rest (x ∷ []) h = unfold lines in refl
lines-rest (x ∷ y ∷ r) h = elim (Bool-cases (x == b'\r' && y == b'\n')) [
  | inl here ↦ unfold lines in ground (arith, here)
  | inr later ↦ rw (lines-later x y r later) (
      extend-rest x (lines (y ∷ r)) (y ∷ r) (lines-rest (y ∷ r))
        (rw (lines-later x y r later) at h))
]

-- The second part of a stream, behind what the first was cut into.
abbrev pub resume : List (List ℕ) × List ℕ → List ℕ → List (List ℕ) × List ℕ
resume p t = (p.0 ++ (lines (p.1 ++ t)).0, (lines (p.1 ++ t)).1)

extend-resume :
    (x y : ℕ) (r t : List ℕ) (p : List (List ℕ) × List ℕ)
    → (x == b'\r' && y == b'\n') ≡ false
    → (p.0 ≡ [] → p.1 ≡ y ∷ r)
    → lines (y ∷ (r ++ t)) ≡ resume p t
    → lines (x ∷ y ∷ (r ++ t)) ≡ resume (extend x p) t
extend-resume x y r t ([], rest) h f e = rw (f refl) refl
extend-resume x y r t (l ∷ ls, rest) h f e = lines-later x y (r ++ t) h ∙ ap (λ q. extend x q) e

-- Cutting the first part of a stream and then what is left with the second part.
pub lines-append : (s t : List ℕ) → lines (s ++ t) ≡ resume (lines s) t
lines-append [] t = unfold lines in refl
lines-append (x ∷ []) t = unfold lines in refl
lines-append (x ∷ y ∷ r) t = elim (Bool-cases (x == b'\r' && y == b'\n')) [
  | inl here ↦
      lines-here x y (r ++ t) here
      ∙ rw (lines-here x y r here) (ap (λ p. ((x ∷ y ∷ []) ∷ p.0, p.1)) (lines-append r t))
  | inr later ↦
      rw (lines-later x y r later)
        (extend-resume x y r t (lines (y ∷ r)) later (lines-rest (y ∷ r)) (lines-append (y ∷ r) t))
]
