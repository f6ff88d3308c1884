-- ===== src/Common/Laws.antt =====
-- What the validators accept, and what `copy` writes.

use ipk_chat_client.Base.{
  ℕ, ◌≤◌, ◌<◌, ◌≡◌, refl, ◌↔◌, ◌⊎◌, true, List, [], ◌∷◌, arith, length, All, All-mono, HasNoNul,
}
use ipk_chat_client.Common.{
  is_valid_alphanum_underscore, is_valid_printable, is_valid_msg_content, all_alphanum,
  all_printable, all_msg_content,
}

-- A letter, a digit, `-` or `_`.
abbrev pub IsIdChar : ℕ → Type 0
IsIdChar c =
    ((48 ≤ c) × (c ≤ 57))
    ⊎ (((65 ≤ c) × (c ≤ 90)) ⊎ (((97 ≤ c) × (c ≤ 122)) ⊎ ((c ≡ 45) ⊎ (c ≡ 95))))

-- Printable ASCII without the space.
abbrev pub IsPrintable : ℕ → Type 0
IsPrintable c = (0x21 ≤ c) × (c ≤ 0x7E)

-- A line feed or printable ASCII, the space included.
abbrev pub IsContentChar : ℕ → Type 0
IsContentChar c = (c ≡ 10) ⊎ ((0x20 ≤ c) × (c ≤ 0x7E))

-- A text of 1 to `n` bytes that all satisfy `P`.
pub record IsText (P : ℕ → Type 0) (n : ℕ) (s : List ℕ) : Type 0 where
  pub nonempty : 1 ≤ length s
  pub fits : length s ≤ n
  pub chars : All P s

all_alphanum_iff : (s : List ℕ) → (all_alphanum s ≡ true) ↔ All IsIdChar s
unfolding all_alphanum
all_alphanum_iff [] = (λ _. tt, λ _. refl)
all_alphanum_iff (c ∷ s) = ground (arith, all_alphanum_iff s)

all_printable_iff : (s : List ℕ) → (all_printable s ≡ true) ↔ All IsPrintable s
unfolding all_printable
all_printable_iff [] = (λ _. tt, λ _. refl)
all_printable_iff (c ∷ s) = ground (arith, all_printable_iff s)

all_msg_content_iff : (s : List ℕ) → (all_msg_content s ≡ true) ↔ All IsContentChar s
unfolding all_msg_content
all_msg_content_iff [] = (λ _. tt, λ _. refl)
all_msg_content_iff (c ∷ s) = ground (arith, all_msg_content_iff s)

-- The identifier validator accepts exactly the texts of 1 to `n` letters, digits, `-` and `_`.
pub is_valid_alphanum_underscore_iff :
    (s : List ℕ) (n : ℕ) → (is_valid_alphanum_underscore s n ≡ true) ↔ IsText IsIdChar n s
unfolding is_valid_alphanum_underscore
is_valid_alphanum_underscore_iff s n = ground (arith, all_alphanum_iff s)

-- The name validator accepts exactly the texts of 1 to `n` printable ASCII bytes with no space.
pub is_valid_printable_iff :
    (s : List ℕ) (n : ℕ) → (is_valid_printable s n ≡ true) ↔ IsText IsPrintable n s
unfolding is_valid_printable
is_valid_printable_iff s n = ground (arith, all_printable_iff s)

-- The content validator accepts exactly the texts of 1 to `n` printable ASCII bytes, spaces and
-- line feeds.
pub is_valid_msg_content_iff :
    (s : List ℕ) (n : ℕ) → (is_valid_msg_content s n ≡ true) ↔ IsText IsContentChar n s
unfolding is_valid_msg_content
is_valid_msg_content_iff s n = ground (arith, all_msg_content_iff s)

-- No accepted text holds a NUL.
pub IsIdChar-no_nul : {n : ℕ} (s : List ℕ) → IsText IsIdChar n s → HasNoNul s
IsIdChar-no_nul s t = All-mono IsIdChar (λ c. 0 < c) s (λ c h. ground arith) t.chars

pub IsPrintable-no_nul : {n : ℕ} (s : List ℕ) → IsText IsPrintable n s → HasNoNul s
IsPrintable-no_nul s t = All-mono IsPrintable (λ c. 0 < c) s (λ c h. omega arith) t.chars

pub IsContentChar-no_nul : {n : ℕ} (s : List ℕ) → IsText IsContentChar n s → HasNoNul s
IsContentChar-no_nul s t = All-mono IsContentChar (λ c. 0 < c) s (λ c h. ground arith) t.chars
