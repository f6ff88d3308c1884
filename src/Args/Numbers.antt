-- ===== src/Args/Numbers.antt =====
-- The numbers of the command line against their decimal value.
use ipk_chat_client.Base.{
  ℕ, zero, suc, ◌+◌, ◌-◌, ◌*◌, ◌≤◌, ◌≡◌, ap, Bool, true, false, ◌&&◌, not, none, some, List, [],
  ◌∷◌, ◌++◌, arith, leb, ◌==◌, if◌then◌else◌, length, isdigit, skip_spaces,
}
use ipk_chat_client.Args.{digits, strtol, long_max, parse_int}

-- The value of a numeral by the weights of its places.
abbrev pub ten_to : ℕ → ℕ
ten_to zero = 1
ten_to (suc n) = 10 * ten_to n

abbrev pub value : List ℕ → ℕ
value [] = 0
value (c ∷ s) = (c - b'0') * ten_to (length s) + value s

abbrev pub all_digits : List ℕ → Bool
all_digits [] = true
all_digits (c ∷ s) = isdigit c && all_digits s

-- The text does not go on with a digit.
abbrev pub stops : List ℕ → Bool
stops [] = true
stops (c ∷ s) = not (isdigit c)

digits_lem :
    (acc : ℕ) (s rest : List ℕ)
    → all_digits s ≡ true
    → stops rest ≡ true
    → digits acc (s ++ rest) ≡ (acc * ten_to (length s) + value s, rest)
unfolding digits
digits_lem acc [] [] h k = ground arith
digits_lem acc [] (c ∷ rest) h k = ground arith
digits_lem acc (c ∷ s) rest h k =
    let first : isdigit c ≡ true = ground (arith, h) in
    rw (first, digits_lem (acc * 10 + (c - b'0')) s rest (ground (arith, h)) k)
      (ap (λ (n : ℕ). (n, rest)) (grind arith))

strtol_lem :
    (c : ℕ) (s rest : List ℕ)
    → isdigit c ≡ true
    → all_digits s ≡ true
    → stops rest ≡ true
    → strtol (c ∷ s ++ rest) ≡ record { negative = false; magnitude = value (c ∷ s); endptr = rest }
unfolding strtol skip_spaces
strtol_lem c s rest d ds e =
    let found = digits_lem 0 (c ∷ s) rest (ground (arith, d, ds)) e in ground (arith, d, found)

-- A digit, more digits and then a text that does not go on with a digit: the number is taken only
-- if nothing is left, and then exactly if its decimal value is at most `max`.
pub parse_int_lem :
    (max c : ℕ) (s rest : List ℕ)
    → isdigit c ≡ true
    → all_digits s ≡ true
    → stops rest ≡ true
    → max ≤ long_max
    → parse_int max (c ∷ s ++ rest)
      ≡ (if length rest == 0 && leb (value (c ∷ s)) max then some (value (c ∷ s)) else none)
unfolding parse_int
parse_int_lem max c s [] d ds e fits = rw (strtol_lem c s [] d ds e) (ground (arith, fits))
parse_int_lem max c s (b ∷ rest) d ds e fits = rw (strtol_lem c s (b ∷ rest) d ds e) (ground arith)
