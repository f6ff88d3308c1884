-- ===== src/Queue/Fifo.antt =====
-- What the queue promises: a first-in first-out sequence of at most `cap` messages.
use ipk_chat_client.Base.{
  ℕ, Bool, true, false, Option, none, some, List, [], ◌∷◌, ◌++◌, ◌==◌, if◌then◌else◌, length,
}

module _ {ℓ} {A : Type ℓ} where
  unfoldable pub push : ℕ → A → List A → Bool × List A
  push cap x xs = if length xs == cap then (false, xs) else (true, xs ++ x ∷ [])

  unfoldable pub pop : List A → Option A × List A
  pop [] = (none, [])
  pop (x ∷ xs) = (some x, xs)

  -- Without memory nothing is pushed.
  abbrev pub offer : Bool → ℕ → A → List A → Bool × List A
  offer memory cap x xs = if memory then push cap x xs else (false, xs)

-- What a client asks of the queue, and whether there is memory for it; and what it sees of each call.
pub data Op {ℓ} (A : Type ℓ) : Type ℓ where
  add : Bool → A → Op A
  front : Op A

pub data Reply {ℓ} (A : Type ℓ) : Type ℓ where
  added : Bool → Reply A
  got : Option A → Reply A

module _ {ℓ} {A : Type ℓ} (cap : ℕ) where
  unfoldable pub run : List A → List (Op A) → List (Reply A)
  unfolding push pop
  run xs [] = []
  run xs (add memory x ∷ ops) = let (done, xs') = offer memory cap x xs in added done ∷ run xs' ops
  run xs (front ∷ ops) = let (x, xs') = pop xs in got x ∷ run xs' ops
