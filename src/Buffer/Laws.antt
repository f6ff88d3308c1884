-- ===== src/Buffer/Laws.antt =====
-- What `buffer_get_msg` takes out of the buffer.
use mathlib.Core.Option
use native.Mathlib.Numerals.{add-one, add-two}
use ipk_chat_client.Base.{
  ℕ, zero, suc, ◌+◌, ◌-◌, ◌≤◌, ◌<◌, ◌≡◌, refl, ap, ◌∙◌, ◌≢◌, inl, inr, Bool-cases, Option-cases,
  drop-take, take-take, take-append_eq, Bool, true, ◌&&◌, Option, none, some, List, [], ◌∷◌, ◌++◌,
  arith, le→leb, ◌==◌, if◌then◌else◌, length, take, drop, length-take, length-drop, drop-get_elem?,
  write, length-write,
}
use ipk_chat_client.Buffer.{MsgBuffer, crlf_from, crlf, extract, buffer_get_msg, buffer_is_empty}

-- `size` cells, of which `msg_len` hold data.
pub record IsValid (b : MsgBuffer) : Type 0 where
  pub block : length b.msg ≡ b.size
  pub within : b.msg_len ≤ b.size

-- The bytes that wait in the buffer.
abbrev pub pending : MsgBuffer → List ℕ
pending b = take b.msg_len b.msg

-- The bytes up to and with the first CRLF, and those behind it.
unfoldable pub split_line : List ℕ → Option (List ℕ × List ℕ)
split_line [] = none
split_line (x ∷ []) = none
split_line (x ∷ y ∷ r) =
    if x == b'\r' && y == b'\n'
    then some (x ∷ y ∷ [], r)
    else Option.map (λ p. (x ∷ p.0, p.1)) (split_line (y ∷ r))

-- The length of the line before its CRLF.
cr_at : List ℕ → Option ℕ
cr_at [] = none
cr_at (x ∷ []) = none
cr_at (x ∷ y ∷ r) = if x == b'\r' && y == b'\n' then some 0 else Option.map suc (cr_at (y ∷ r))

split_line-cr_at :
    (s : List ℕ)
    → split_line s ≡ Option.map (λ i. (take (suc (suc i)) s, drop (suc (suc i)) s)) (cr_at s)
unfolding split_line cr_at
split_line-cr_at [] = refl
split_line-cr_at (x ∷ []) = refl
split_line-cr_at (x ∷ y ∷ r) = ground (arith, split_line-cr_at (y ∷ r))

map-map_add :
    (i : ℕ) (o : Option ℕ)
    → Option.map (λ k. suc i + k) o ≡ Option.map (λ k. i + k) (Option.map suc o)
map-map_add i none = refl
map-map_add i (some k) = ap some (omega arith)

-- The loop finds the first CR that a LF follows, in the `rounds + 1` bytes from `i` on.
crlf_from_lem :
    (cells : List ℕ) (rounds i : ℕ)
    → i + rounds < length cells
    → crlf_from cells rounds i
      ≡ some (Option.map (λ k. i + k) (cr_at (take (suc rounds) (drop i cells))))
unfolding crlf_from cr_at
crlf_from_lem cells zero i h =
    let (x, read, here) = drop-get_elem? cells i (omega arith) in rw here refl
crlf_from_lem cells (suc rounds) i h =
    let (x, read, here) = drop-get_elem? cells i (omega arith) in
    let (y, read', next) = drop-get_elem? cells (suc i) (omega arith) in
    let rest = crlf_from_lem cells rounds (suc i) (omega arith) in
    rw add-one (
      ground (
        arith,
        read,
        read',
        here,
        next,
        rest,
        map-map_add i (cr_at (take (suc rounds) (drop (suc i) cells))),
      ))

map-zero_add : (o : Option ℕ) → Option.map (λ k. 0 + k) o ≡ o
map-zero_add none = refl
map-zero_add (some k) = ap some (omega arith)

-- `crlf` of a valid buffer with data finds the first CRLF of the pending bytes.
crlf_lem : (b : MsgBuffer) → IsValid b → b.msg_len ≢ 0 → crlf b ≡ some (cr_at (pending b))
unfolding crlf
crlf_lem b v h =
    let loop = crlf_from_lem b.msg (b.msg_len - 1) 0 (omega arith) in
    let len : suc (b.msg_len - 1) ≡ b.msg_len = omega arith in
    loop ∙ ap some (map-zero_add _ ∙ ap (λ n. cr_at (take n b.msg)) len)

cr_at-lt : (s : List ℕ) (i : ℕ) → cr_at s ≡ some i → i + 2 ≤ length s
unfolding cr_at
cr_at-lt [] i h = cc
cr_at-lt (x ∷ []) i h = cc
cr_at-lt (x ∷ y ∷ r) i h = elim (Option-cases (cr_at (y ∷ r))) [
  | inl e ↦ ground (arith, e)
  | inr (k, e) ↦ ground (arith, e, cr_at-lt (y ∷ r) k e)
]

-- What the client sees of a call: the block returned, and the bytes still pending.
abbrev pub view {ℓ} : {A : Type ℓ} → Option (A × MsgBuffer) → Option (A × List ℕ)
view r = Option.map (λ p. (p.0, pending p.1)) r

-- The first line, terminated by a NUL, and the bytes behind it; nothing where no CRLF is there.
unfoldable pub next_line : List ℕ → Option (List ℕ) × List ℕ
next_line s = elim (split_line s) [
  | none ↦ (none, s)
  | some (line, rest) ↦ (some (line ++ 0 ∷ []), rest)
]

length-pending : (b : MsgBuffer) → IsValid b → length (pending b) ≡ b.msg_len
length-pending b v = omega (arith, length-take {0} b.msg_len b.msg)

-- The bytes behind the first `n` pending ones, as `memmove` reads them.
abbrev moved : ℕ → MsgBuffer → List ℕ
moved n b = take (b.msg_len - n) (drop n b.msg)

length-moved : (n : ℕ) (b : MsgBuffer) → IsValid b → length (moved n b) ≡ b.msg_len - n
length-moved n b v =
    omega (arith, length-take {0} (b.msg_len - n) (drop n b.msg), length-drop {0} n b.msg)

write_front :
    (n : ℕ) (b : MsgBuffer)
    → IsValid b
    → write b.msg 0 (moved n b) ≡ some (moved n b ++ drop (0 + length (moved n b)) b.msg)
unfolding write
write_front n b v =
    rw (le→leb (0 + length (moved n b)) (length b.msg) (omega (arith, length-moved n b v)))

extract_lem :
    (n : ℕ) (b : MsgBuffer)
    → IsValid b
    → n ≤ b.msg_len
    → view (extract n b) ≡ some (some (take n (pending b) ++ 0 ∷ []), drop n (pending b))
unfolding extract
extract_lem n b v h =
    rw
      (
        write_front n b v,
        take-append_eq (b.msg_len - n) (moved n b) _ (length-moved n b v),
        take-take n b.msg_len b.msg h,
        drop-take n b.msg_len b.msg,
      )
      refl

extract-IsValid :
    (n : ℕ) (b : MsgBuffer) (m : Option (List ℕ)) {b' : MsgBuffer}
    → IsValid b
    → extract n b ≡ some (m, b')
    → IsValid b'
unfolding extract
extract-IsValid n b m v e = elim (Option-cases (write b.msg 0 (moved n b))) [
  | inl w ↦ ground (arith, w)
  | inr (cells, w) ↦ ground (arith, w, length-write b.msg 0 (moved n b) cells w)
]

next_line_of_none : (s : List ℕ) → cr_at s ≡ none → next_line s ≡ (none, s)
unfolding next_line
next_line_of_none s e = ground (arith, split_line-cr_at s, e)

next_line_of_some :
    (s : List ℕ) (i : ℕ)
    → cr_at s ≡ some i
    → next_line s ≡ (some (take (i + 2) s ++ 0 ∷ []), drop (i + 2) s)
unfolding next_line
next_line_of_some s i e = ground (arith, split_line-cr_at s, e, add-two i)

pending_nil : (b : MsgBuffer) → b.msg_len ≡ 0 → pending b ≡ []
pending_nil b e = ap (λ n. take n b.msg) e

-- On a valid buffer, with an allocation that succeeds, `buffer_get_msg` returns the pending bytes
-- up to and with the first CRLF, terminated by a NUL, and leaves the bytes behind them; where no
-- CRLF is pending it returns nothing and leaves the bytes. It reads and writes inside its block.
pub buffer_get_msg_refines :
    (b : MsgBuffer) → IsValid b → view (buffer_get_msg true b) ≡ some (next_line (pending b))
unfolding buffer_get_msg
buffer_get_msg_refines b v = elim (Bool-cases (buffer_is_empty b)) [
  | inl nothing ↦ rw (nothing, pending_nil b (ground arith)) (unfold next_line split_line in refl)
  | inr data_there ↦
      rw (data_there, crlf_lem b v (ground arith))
        (elim (Option-cases (cr_at (pending b))) [
          | inl e ↦ rw (e, next_line_of_none (pending b) e) refl
          | inr (i, e) ↦
              rw (e, next_line_of_some (pending b) i e)
                (extract_lem (i + 2) b v
                  (omega (arith, cr_at-lt (pending b) i e, length-pending b v)))
        ])
]

-- Every call of `buffer_get_msg` on a valid buffer leaves a valid buffer.
pub buffer_get_msg-IsValid :
    (allocated : Bool) (b : MsgBuffer) (m : Option (List ℕ)) {b' : MsgBuffer}
    → IsValid b
    → buffer_get_msg allocated b ≡ some (m, b')
    → IsValid b'
unfolding buffer_get_msg
buffer_get_msg-IsValid allocated b m {b' = b'} v e = elim (Option-cases (crlf b)) [
  | inl fault ↦ ground (arith, fault)
  | inr (none, found) ↦ ground (arith, found)
  | inr (some i, found) ↦
      ground
        (arith, found, λ (x : extract (i + 2) b ≡ some (m, b')). extract-IsValid (i + 2) b m v x)
]
