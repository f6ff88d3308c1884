-- ===== src/MsgIdList/Distinct.antt =====
-- Ids of 16 bits that all differ: how many there can be.
use ipk_chat_client.Base.{
  ℕ, zero, suc, ◌<◌, ◌≤◌, ◌≡◌, refl, inl, inr, false, Bool-cases, List, [], ◌∷◌, ◌++◌, arith, ◌==◌,
  if◌then◌else◌, length, All,
}
use ipk_chat_client.MsgIdList.Laws.{elem, elem-append}

-- No number stands in the list twice.
abbrev pub IsDistinct : List ℕ → Type 0
IsDistinct [] = Unit
IsDistinct (x ∷ xs) = (elem x xs ≡ false) × IsDistinct xs

pub IsDistinct-snoc :
    (xs : List ℕ) (x : ℕ) → IsDistinct xs → elem x xs ≡ false → IsDistinct (xs ++ x ∷ [])
IsDistinct-snoc [] x d h = (refl, tt)
IsDistinct-snoc (y ∷ xs) x (h, d) new =
    (rw elem-append (ground arith), IsDistinct-snoc xs x d (ground arith))

-- The list without a number.
without : ℕ → List ℕ → List ℕ
without n [] = []
without n (x ∷ xs) = let rest = without n xs in if x == n then rest else x ∷ rest

elem-without : (n m : ℕ) (xs : List ℕ) → elem m xs ≡ false → elem m (without n xs) ≡ false
unfolding without
elem-without n m [] h = refl
elem-without n m (x ∷ xs) h = ground (arith, elem-without n m xs)

IsDistinct-without : (n : ℕ) (xs : List ℕ) → IsDistinct xs → IsDistinct (without n xs)
unfolding without
IsDistinct-without n [] d = tt
IsDistinct-without n (x ∷ xs) (h, d) = elim (Bool-cases (x == n)) [
  | inl here ↦ rw here (IsDistinct-without n xs d)
  | inr other ↦ rw other (elem-without n x xs h, IsDistinct-without n xs d)
]

without_absent : (n : ℕ) (xs : List ℕ) → elem n xs ≡ false → without n xs ≡ xs
unfolding without
without_absent n [] h = refl
without_absent n (x ∷ xs) h = ground (arith, without_absent n xs)

length-without : (n : ℕ) (xs : List ℕ) → IsDistinct xs → length xs ≤ suc (length (without n xs))
unfolding without
length-without n [] d = omega arith
length-without n (x ∷ xs) (h, d) = ground (arith, length-without n xs d, without_absent n xs)

below-without : (n : ℕ) (xs : List ℕ) → All (λ x. x < suc n) xs → All (λ x. x < n) (without n xs)
unfolding without
below-without n [] h = tt
below-without n (x ∷ xs) (h, hs) = elim (Bool-cases (x == n)) [
  | inl here ↦ rw here (below-without n xs hs)
  | inr other ↦ rw other (ground arith, below-without n xs hs)
]

-- Different numbers below `n` are at most `n`.
pub length-IsDistinct : (n : ℕ) (xs : List ℕ) → IsDistinct xs → All (λ x. x < n) xs → length xs ≤ n
length-IsDistinct zero [] d h = omega arith
length-IsDistinct zero (x ∷ xs) d (h, hs) = absurd (omega arith)
length-IsDistinct (suc n) xs d h =
    let fewer =
      length-IsDistinct n (without n xs) (IsDistinct-without n xs d) (below-without n xs h) in
    omega (arith, fewer, length-without n xs d)
