-- ===== src/Input/Words.antt =====
-- The words of a line.
use ipk_chat_client.Base.{
  some, ℕ, ◌≤◌, ◌<◌, ◌≡◌, ◌≢◌, refl, List, [], ◌∷◌, ◌++◌, arith, length, take, All, All-mono,
}
use ipk_chat_client.Common.{Client}
use ipk_chat_client.Input.{
  line, strip_newline, add_word, fields, strtok, parse_words, parse_user_input,
}

-- Neither a space, nor a line feed, nor a NUL.
abbrev pub IsWordChar : ℕ → Type 0
IsWordChar c = (0 < c) × (c ≢ 10) × (c ≢ 32)

pub record IsWord (w : List ℕ) : Type 0 where
  pub nonempty : 1 ≤ length w
  pub chars : All IsWordChar w

-- A space between any two words.
abbrev pub unwords : List (List ℕ) → List ℕ
unwords [] = []
unwords (w ∷ []) = w
unwords (w ∷ v ∷ ws) = w ++ 32 ∷ unwords (v ∷ ws)

fields-append : (w rest : List ℕ) → All IsWordChar w → fields (w ++ 32 ∷ rest) ≡ (w, strtok rest)
unfolding fields strtok
fields-append [] rest h = refl
fields-append (c ∷ w) rest (h, hs) = ground (arith, fields-append w rest hs)

fields-word : (w : List ℕ) → All IsWordChar w → fields w ≡ (w, [])
unfolding fields
fields-word [] h = refl
fields-word (c ∷ w) (h, hs) = ground (arith, fields-word w hs)

add_word-cons : (w : List ℕ) (ws : List (List ℕ)) → IsWord w → add_word w ws ≡ w ∷ ws
add_word-cons [] ws h = absurd (omega (arith, h.nonempty))
add_word-cons (c ∷ w) ws h = refl

-- The words of a line whose words a single space separates are those words.
pub strtok-unwords : (ws : List (List ℕ)) → All IsWord ws → strtok (unwords ws) ≡ ws
unfolding strtok fields
strtok-unwords [] h = refl
strtok-unwords (w ∷ []) (h, hs) = rw (fields-word w h.chars) (add_word-cons w [] h)
strtok-unwords (w ∷ v ∷ ws) (h, hs) =
    rw (fields-append w (unwords (v ∷ ws)) h.chars, add_word-cons w _ h, strtok-unwords (v ∷ ws) hs)

-- Neither a line feed nor a NUL.
abbrev pub IsLineChar : ℕ → Type 0
IsLineChar c = (0 < c) × (c ≢ 10)

pub strip_newline-append : (s rest : List ℕ) → All IsLineChar s → strip_newline (s ++ 10 ∷ rest) ≡ s
unfolding strip_newline
strip_newline-append [] rest h = refl
strip_newline-append (c ∷ s) rest (h, hs) = ground (arith, strip_newline-append s rest hs)

All-append : (P : ℕ → Type 0) (xs ys : List ℕ) → All P xs → All P ys → All P (xs ++ ys)
All-append P [] ys h k = k
All-append P (x ∷ xs) ys (h, hs) k = (h, All-append P xs ys hs k)

word-IsLine : (w : List ℕ) → IsWord w → All IsLineChar w
word-IsLine w h = All-mono IsWordChar IsLineChar w (λ c k. (k.0, k.1)) h.chars

unwords-IsLine : (ws : List (List ℕ)) → All IsWord ws → All IsLineChar (unwords ws)
unwords-IsLine [] h = tt
unwords-IsLine (w ∷ []) (h, hs) = word-IsLine w h
unwords-IsLine (w ∷ v ∷ ws) (h, hs) =
    All-append IsLineChar w _ (word-IsLine w h)
      ((omega arith, λ e. omega (arith, e)), unwords-IsLine (v ∷ ws) hs)

-- A line of words with a space between any two is run on its first five words.
pub parse_user_input-unwords :
    (ws : List (List ℕ)) (client : Client)
    → All IsWord ws
    → parse_user_input (line (unwords ws ++ 10 ∷ [])) client
      ≡ parse_words (take 5 ws) (some (unwords ws)) client
unfolding parse_user_input
parse_user_input-unwords ws client h =
    rw (strip_newline-append (unwords ws) [] (unwords-IsLine ws h), strtok-unwords ws h)
