-- ===== src/MsgIdList/Laws.antt =====
-- The id list refines a growing sequence of ids.
use ipk_chat_client.Base.{
  ℕ, ◌-◌, zero, suc, ◌+◌, ◌≤◌, ◌<◌, ◌≡◌, refl, ap, ◌∙◌, ◌⊎◌, inl, inr, Bool-cases, Bool, true,
  false, ◌||◌, none, some, List, [], ◌∷◌, ◌++◌, arith, ◌==◌, length, set, take, drop, replicate,
  length-append, length-set, length-replicate, take-set, take-append_of_le, drop-get_elem?,
}
use native.Mathlib.Numerals.{add-one}
use ipk_chat_client.Common.{Exit, exit_success, exit_failure}
use ipk_chat_client.MsgIdList.{
  MsgIdList, list_len, empty, contains_from, list_contains, append_cell, list_append,
}

-- The block has `capacity` cells, of which the first `count` are in use.
pub record IsValid (l : MsgIdList) : Type 0 where
  pub block : length l.content ≡ l.capacity
  pub within : l.count ≤ l.capacity

-- The ids that the list holds, oldest first.
abbrev pub ids : MsgIdList → List ℕ
ids l = take l.count l.content

abbrev pub elem : ℕ → List ℕ → Bool
elem n [] = false
elem n (x ∷ xs) = x == n || elem n xs

pub elem-append : (n : ℕ) (xs ys : List ℕ) → elem n (xs ++ ys) ≡ (elem n xs || elem n ys)
elem-append n [] ys = refl
elem-append n (x ∷ xs) ys = ground (arith, elem-append n xs ys)

pub empty-IsValid : IsValid empty
empty-IsValid = omega arith

contains_from_lem :
    (content : List ℕ) (number rounds i : ℕ)
    → i + rounds ≤ length content
    → contains_from content number rounds i ≡ some (elem number (take rounds (drop i content)))
unfolding contains_from
contains_from_lem content number zero i h = refl
contains_from_lem content number (suc rounds) i h =
    let (x, read, tail) = drop-get_elem? content i (omega arith) in
    ground (arith, read, tail, contains_from_lem content number rounds (i + 1) (omega arith))

-- On a valid list the scan stays inside the block and finds a number exactly when it is among the
-- ids.
pub list_contains_lem :
    (l : MsgIdList) (number : ℕ) → IsValid l → list_contains l number ≡ some (elem number (ids l))
unfolding list_contains
list_contains_lem l number v = contains_from_lem l.content number l.count 0 (omega arith)

append_cell_lem :
    (l : MsgIdList) (number : ℕ)
    → IsValid l
    → l.count < l.capacity
    → (l' : MsgIdList) × (append_cell number l ≡ some (exit_success, l'))
      × IsValid l'
      × (ids l' ≡ ids l ++ number ∷ [])
unfolding append_cell
append_cell_lem l number v h = (
  record l { content = set l.content l.count number; count = l.count + 1 },
  ground arith,
  ground (arith, length-set l.content l.count number),
  rw add-one (take-set l.content l.count number (omega arith)),
)

grow_IsValid :
    (l : MsgIdList)
    → IsValid l
    → IsValid
        (record l { content = l.content ++ replicate list_len 0; capacity = l.capacity + list_len })
grow_IsValid l v = omega (
  arith,
  length-append {0} l.content (replicate list_len 0),
  length-replicate {0} list_len (zero),
)

-- On a valid list an append whose allocation succeeds returns success, keeps the list valid and
-- adds the number behind the ids that it held.
pub list_append_lem :
    (l : MsgIdList) (number : ℕ)
    → IsValid l
    → (l' : MsgIdList) × (list_append true number l ≡ some (exit_success, l'))
      × IsValid l'
      × (ids l' ≡ ids l ++ number ∷ [])
unfolding list_append
list_append_lem l number v = elim (Bool-cases (l.capacity == l.count)) [
  | inl full ↦
      let (l', done, v', e) =
        append_cell_lem
          (record l {
            content = l.content ++ replicate list_len 0;
            capacity = l.capacity + list_len;
          })
          number (grow_IsValid l v) (omega (arith, v.within)) in
      let cells : l.capacity + list_len - length l.content ≡ list_len = omega (arith, v.block) in
      (
        l',
        rw (full, cells) done,
        v',
        e
            ∙ ap (λ xs. xs ++ number ∷ [])
                (take-append_of_le l.count l.content (replicate list_len 0) (omega arith)),
      )
  | inr room ↦
      let (l', done, v', e) = append_cell_lem l number v (ground arith) in (l', rw room done, v', e)
]

-- After an append the list contains the number, and of the others those that it contained.
pub list_contains-list_append :
    (l : MsgIdList) (number other : ℕ)
    → IsValid l
    → (l' : MsgIdList) × (list_append true number l ≡ some (exit_success, l'))
      × IsValid l'
      × (list_contains l' other ≡ some (elem other (ids l) || number == other))
list_contains-list_append l number other v =
    let (l', done, v', e) = list_append_lem l number v in
    (l', done, v', list_contains_lem l' other v' ∙ rw (e, elem-append) (ground arith))

contains_from-nil : (number n i : ℕ) → 0 < n → contains_from [] number n i ≡ none
unfolding contains_from
contains_from-nil number zero i h = absurd (omega arith)
contains_from-nil number (suc n) i h = refl

-- A scan of a list in use whose block is lost faults.
pub list_contains-lost :
    (l : MsgIdList) (n : ℕ) → l.content ≡ [] → 0 < l.count → list_contains l n ≡ none
unfolding list_contains
list_contains-lost l n lost used = rw lost (contains_from-nil n l.count 0 used)

-- A failing reallocation of a full list in use loses its block: the failure is reported, and the
-- next scan of the list faults.
pub list_append-lost :
    (l : MsgIdList) (number other : ℕ)
    → IsValid l
    → l.count ≡ l.capacity
    → 0 < l.count
    → (l' : MsgIdList) × (list_append false number l ≡ some (exit_failure, l'))
      × (list_contains l' other ≡ none)
unfolding list_append list_contains
list_append-lost l number other v full used =
    (record l { content = [] }, ground arith, contains_from-nil other l.count 0 used)

-- Whether or not the allocation succeeds, an append to a valid list does not fault, and leaves a
-- valid list if it reports success.
pub list_append-total :
    (grown : Bool) (l : MsgIdList) (number : ℕ)
    → IsValid l
    → (e : Exit) × (l' : MsgIdList) × (list_append grown number l ≡ some (e, l'))
      × ((e ≡ exit_failure) ⊎ IsValid l')
list_append-total true l number v =
    let (l', appended, v', _) = list_append_lem l number v in (exit_success, l', appended, inr v')
list_append-total false l number v = elim (Bool-cases (l.capacity == l.count)) [
  | inl full ↦
      (exit_failure, record l { content = [] }, unfold list_append in rw full refl, inl refl)
  | inr room ↦
      let (l', appended, v', _) = append_cell_lem l number v (ground arith) in
      (exit_success, l', unfold list_append in rw room appended, inr v')
]
