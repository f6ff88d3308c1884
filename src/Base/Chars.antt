-- ===== src/Base/Chars.antt =====
-- White space and digits, and the scanning that `sscanf` and `strtol` begin with.
use Prim.Native.Nat.{ℕ}
use mathlib.Core.Bool.{Bool, true, false, ◌&&◌, ◌||◌}
use mathlib.Core.List.{List, [], ◌∷◌}
use ipk_chat_client.Base.Tests.{leb, ◌==◌, if◌then◌else◌}

abbrev pub isspace : ℕ → Bool
isspace c = c == 32 || (leb 9 c && leb c 13)

abbrev pub isdigit : ℕ → Bool
isdigit c = leb b'0' c && leb c b'9'

unfoldable pub skip_spaces : List ℕ → List ℕ
skip_spaces [] = []
skip_spaces (c ∷ s) = let rest = skip_spaces s in if isspace c then rest else c ∷ s

-- `strcmp(s, t) == 0`.
abbrev pub strcmp_eq : List ℕ → List ℕ → Bool
strcmp_eq [] [] = true
strcmp_eq (c ∷ s) (d ∷ t) = c == d && strcmp_eq s t
strcmp_eq s t = false
