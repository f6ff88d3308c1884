-- ===== src/Base/Memory.antt =====
-- Blocks of memory as lists of byte cells. A read or a write outside a block is a fault, `none`.
use Prim.Native.Nat.{ℕ, zero, suc, ◌+◌, ◌<◌, ◌≤◌}
use Prim.Native.Char.{code}
use Prim.Native.String.{String}
use mathlib.Core.Path.{◌≡◌, refl}
use mathlib.Core.List.{List, [], ◌∷◌, ◌++◌, append_assoc}
use mathlib.Core.Option
use mathlib.Core.Option.{Option, none, some}
use native.Mathlib.Omega.{arith}
use mathlib.Core.Logic.{inl, inr}
use ipk_chat_client.Base.Tests.{leb, le→leb, Option-cases, if◌then◌else◌}
use ipk_chat_client.Base.Lists.{
  length, take, drop, All, length-append, length-take, length-drop, take-append_eq, drop-append_eq,
}

-- A fault in one step is a fault of the whole.
infixl 5 ◌>>=◌
abbrev pub ◌>>=◌ {ℓ κ} : {A : Type ℓ} {B : Type κ} → Option A → (A → Option B) → Option B
none >>= f = none
some a >>= f = f a

-- The bytes of a literal.
abbrev pub codes : String → List ℕ
codes String.[] = []
codes (String.◌∷◌ c s) = code c ∷ codes s

-- The C string at the start of a block: the bytes before the first NUL.
unfoldable pub c_string : List ℕ → Option (List ℕ)
c_string [] = none
c_string (zero ∷ m) = some []
c_string (suc c ∷ m) = Option.map (λ s. suc c ∷ s) (c_string m)

-- memcpy into a block.
unfoldable pub write : List ℕ → ℕ → List ℕ → Option (List ℕ)
write m off bytes =
    if leb (off + length bytes) (length m)
    then some (take off m ++ (bytes ++ drop (off + length bytes) m))
    else none

-- A string holds no NUL.
abbrev pub HasNoNul : List ℕ → Type 0
HasNoNul s = All (λ c. 0 < c) s

-- The string that a terminated text holds is that text.
pub c_string-append : (s rest : List ℕ) → HasNoNul s → c_string (s ++ zero ∷ rest) ≡ some s
unfolding c_string
c_string-append [] rest h = refl
c_string-append (zero ∷ s) rest h = absurd (omega arith)
c_string-append (suc c ∷ s) rest h = rw (c_string-append s rest h.1)

-- Without a NUL in the block, reading the string runs off its end.
pub c_string-unterminated : (s : List ℕ) → HasNoNul s → c_string s ≡ none
unfolding c_string
c_string-unterminated [] h = refl
c_string-unterminated (zero ∷ s) h = absurd (omega arith)
c_string-unterminated (suc c ∷ s) h = rw (c_string-unterminated s h.1)

pub length-write :
    (m : List ℕ) (off : ℕ) (bytes m' : List ℕ) → write m off bytes ≡ some m' → length m' ≡ length m
unfolding write
length-write m off bytes m' h = ground (
  arith,
  length-append {0} (take off m) (bytes ++ drop (off + length bytes) m),
  length-append {0} bytes (drop (off + length bytes) m),
  length-take {0} off m,
  length-drop {0} (off + length bytes) m,
)

-- A write over the middle of a block.
pub write_middle :
    (pre mid post bytes : List ℕ) (off : ℕ)
    → length pre ≡ off
    → length mid ≡ length bytes
    → write (pre ++ (mid ++ post)) off bytes ≡ some (pre ++ (bytes ++ post))
unfolding write
write_middle pre mid post bytes off at same =
    let fits =
      le→leb (off + length bytes) (length (pre ++ (mid ++ post)))
        (omega (arith, length-append {0} pre (mid ++ post), length-append {0} mid post)) in
    let prefix = take-append_eq off pre (mid ++ post) at in
    let suffix =
      drop-append_eq (off + length bytes) (pre ++ mid) post
        (omega (arith, length-append {0} pre mid)) in
    rw (fits, prefix, ← append_assoc pre mid post, suffix)

-- What a read string says of the block.
pub c_string-eq-some :
    (m s : List ℕ) → c_string m ≡ some s → (rest : List ℕ) × (m ≡ s ++ zero ∷ rest) × HasNoNul s
unfolding c_string
c_string-eq-some [] s h = cc
c_string-eq-some (zero ∷ m) s h = (m, ground arith, ground arith)
c_string-eq-some (suc c ∷ m) s h = elim (Option-cases (c_string m)) [
  | inl e ↦ ground (arith, e)
  | inr (t, e) ↦
      let (rest, at, no_nul) = c_string-eq-some m t e in
      let head : suc c ∷ t ≡ s = ground (arith, e) in
      (rest, rw (at, ← head) refl, rw (← head) (omega arith, no_nul))
]

-- A block that ends in a NUL holds a string at every place before its end.
pub c_string-ends :
    (m : List ℕ) (n : ℕ)
    → n ≤ length m
    → (s : List ℕ) × (c_string (drop n (m ++ zero ∷ [])) ≡ some s)
unfolding c_string
c_string-ends [] n h = let e : n ≡ 0 = omega arith in ([], rw e refl)
c_string-ends (zero ∷ m) zero h = ([], refl)
c_string-ends (suc c ∷ m) zero h =
    let (s, e) = c_string-ends m 0 (omega arith) in (suc c ∷ s, rw e refl)
c_string-ends (zero ∷ m) (suc n) h = c_string-ends m n (omega arith)
c_string-ends (suc c ∷ m) (suc n) h = c_string-ends m n (omega arith)
