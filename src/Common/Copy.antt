-- ===== src/Common/Copy.antt =====
-- `copy` writes a terminated string: what a character array holds after a call.

use ipk_chat_client.Base.{
  ℕ, zero, suc, ◌+◌, ◌-◌, ◌≤◌, ◌<◌, ◌≡◌, ap, some, List, [], ◌∷◌, ◌++◌, arith, length, take, drop,
  replicate, length-append, length-take, length-drop, length-replicate, le→leb, drop-append_eq,
  take-append_eq, c_string, c_string-append, write, HasNoNul, append_assoc, append-nil,
}
use ipk_chat_client.Common.{strncpy, copy, copy_string}

zero-sub : (n : ℕ) → ◌≡◌ {A = ℕ} 0 (0 - n)
zero-sub n = omega arith

sub-zero : (n : ℕ) → n ≡ n - 0
sub-zero n = omega arith

suc-sub-suc : (n m : ℕ) → suc n - suc m ≡ n - m
suc-sub-suc n m = omega arith

pub strncpy_lem :
    (s rest : List ℕ) (n : ℕ)
    → HasNoNul s
    → strncpy (s ++ zero ∷ rest) n ≡ some (take n s ++ replicate (n - length s) 0)
unfolding strncpy
strncpy_lem s rest zero h = ap (λ (k : ℕ). some (replicate k 0)) (zero-sub (length s))
strncpy_lem [] rest (suc n) h = ap (λ (k : ℕ). some (replicate k 0)) (sub-zero (suc n))
strncpy_lem (zero ∷ s) rest (suc n) h = absurd (omega arith)
strncpy_lem (suc c ∷ s) rest (suc n) h = rw (strncpy_lem s rest n h.1, suc-sub-suc n (length s))

HasNoNul-take : (n : ℕ) (s : List ℕ) → HasNoNul s → HasNoNul (take n s)
HasNoNul-take zero s h = tt
HasNoNul-take (suc n) [] h = tt
HasNoNul-take (suc n) (c ∷ s) h = (h.0, HasNoNul-take n s h.1)

-- The NUL that `copy` adds ends the string, padded or not.
c_string-padded :
    (s : List ℕ) (k : ℕ) (rest : List ℕ)
    → HasNoNul s
    → c_string ((s ++ replicate k 0) ++ (0 ∷ rest)) ≡ some s
c_string-padded s zero rest h = rw append-nil (c_string-append s rest h)
c_string-padded s (suc k) rest h =
    rw append_assoc (c_string-append s (replicate k 0 ++ (0 ∷ rest)) h)

suc-sub-one : (n : ℕ) → suc n - 1 ≡ n
suc-sub-one n = omega arith

length-prefix :
    (dest : List ℕ) (off n : ℕ) → off + suc n ≤ length dest → length (take off dest) ≡ off
length-prefix dest off n fits = omega (arith, length-take {0} off dest)

module _ (dest s rest : List ℕ) (off n : ℕ) (h : HasNoNul s)
    (fits : off + suc n ≤ length dest) where
  -- What `copy` leaves in the block: the bytes written, between those before and those after.
  abbrev pub written : List ℕ
  written = (take n s ++ replicate (n - length s) 0) ++ (0 ∷ [])

  length-written : length written ≡ suc n
  length-written = omega (
    arith,
    length-append {0} (take n s ++ replicate (n - length s) 0) (0 ∷ []),
    length-append {0} (take n s) (replicate (n - length s) 0),
    length-take {0} n s,
    length-replicate {A = ℕ} (n - length s) 0,
  )

  pub copy_lem :
      copy dest off (s ++ zero ∷ rest) (suc n)
      ≡ some (take off dest ++ (written ++ drop (off + suc n) dest))
  unfolding copy write
  copy_lem = rw (strncpy_lem s rest n h, length-written, le→leb _ _ fits)

  abbrev pub copied : List ℕ
  copied = take off dest ++ (written ++ drop (off + suc n) dest)

  pub length-copied : length copied ≡ length dest
  length-copied = omega (
    arith,
    length-append {0} (take off dest) (written ++ drop (off + suc n) dest),
    length-append {0} written (drop (off + suc n) dest),
    length-written,
    length-take {0} off dest,
    length-drop {0} (off + suc n) dest,
  )

  length-filled : length (take n s ++ replicate (n - length s) 0) ≡ n
  length-filled = omega (
    arith,
    length-append {0} (take n s) (replicate (n - length s) 0),
    length-take {0} n s,
    length-replicate {A = ℕ} (n - length s) 0,
  )

  -- The bytes before the offset, then the source, padded to `n` bytes.
  pub take-copied :
      take (off + n) copied ≡ take off dest ++ (take n s ++ replicate (n - length s) 0)
  take-copied =
      rw (append_assoc, ← append_assoc)
        (take-append_eq (off + n) (take off dest ++ (take n s ++ replicate (n - length s) 0)) _ (
          omega (
            arith,
            length-append {0} (take off dest) (take n s ++ replicate (n - length s) 0),
            length-filled,
            length-take {0} off dest,
          )))

-- `copy` of a terminated source to an offset at which `size` bytes fit, `size` not 0, succeeds,
-- keeps the length of the block and the bytes before the offset, and leaves at the offset the
-- string of the first `size - 1` bytes of the source.
pub copy-copy_string :
    (dest s rest : List ℕ) (off size : ℕ)
    → HasNoNul s
    → 0 < size
    → off + size ≤ length dest
    → (m : List ℕ) × (copy dest off (s ++ zero ∷ rest) size ≡ some m)
      × (length m ≡ length dest)
      × (take off m ≡ take off dest)
      × (c_string (drop off m) ≡ some (copy_string s size))
copy-copy_string dest s rest off zero h pos fits = absurd (omega arith)
copy-copy_string dest s rest off (suc n) h pos fits = (
  copied dest s rest off n h fits,
  copy_lem dest s rest off n h fits,
  length-copied dest s rest off n h fits,
  take-append_eq off (take off dest) _ (length-prefix dest off n fits),
  rw (drop-append_eq off (take off dest) _ (length-prefix dest off n fits), append_assoc)
      (rw suc-sub-one (c_string-padded (take n s) (n - length s) _ (HasNoNul-take n s h))),
)
