-- ===== src/MsgIdList/Recorded.antt =====
-- What the list of src/list.c holds, as long as a number is added only where it was not found.
use ipk_chat_client.Base.{
  ℕ, zero, suc, ap, ◌≤◌, ◌<◌, ◌≡◌, refl, sym, ◌∙◌, ◌⊎◌, inl, inr, Bool, true, false, Bool-cases,
  some, List, [], arith, ◌==◌, take, length-take, All, All-snoc, eq_of_some-eq,
}
use mathlib.Core.Path.{subst}
use ipk_chat_client.Common.{Exit, exit_failure}
use ipk_chat_client.MsgIdList.{MsgIdList, list_contains, list_append}
use ipk_chat_client.MsgIdList.Laws.{
  IsValid, ids, elem, list_contains_lem, list_append_lem, list_contains-lost,
}
use ipk_chat_client.MsgIdList.Distinct.{IsDistinct, IsDistinct-snoc, length-IsDistinct}

-- Different ids of 16 bits.
abbrev pub IsBounded : List ℕ → Type 0
IsBounded xs = IsDistinct xs × All (λ x. x < 65536) xs

-- A valid list of different ids of 16 bits, or a list whose block a `realloc` that failed has lost;
-- never with more than 65536 ids.
pub record IsRecorded (l : MsgIdList) : Type 0 where
  pub count : l.count ≤ 65536
  pub held : (IsValid l × IsBounded (ids l)) ⊎ ((l.content ≡ []) × (0 < l.count))

pub bounded-IsRecorded : (l : MsgIdList) → IsValid l → IsBounded (ids l) → IsRecorded l
bounded-IsRecorded l v b = record {
  count = omega (arith, v, length-IsDistinct 65536 (ids l) b.0 b.1, length-take l.count l.content);
  held = inl (v, b);
}

take_of_nil : (n : ℕ) → take {A = ℕ} n [] ≡ []
take_of_nil zero = refl
take_of_nil (suc n) = refl

-- With memory, or with room, the number is added.
added-IsRecorded :
    (l : MsgIdList) (n : ℕ) (r : Exit × MsgIdList)
    → n < 65536
    → elem n (ids l) ≡ false
    → IsValid l
    → IsBounded (ids l)
    → list_append true n l ≡ some r
    → IsRecorded r.1
added-IsRecorded l n r small new v b h =
    let (l', done, v', e) = list_append_lem l n v in
    let same : l' ≡ r.1 = ap (λ p. p.1) (eq_of_some-eq (sym done ∙ h)) in
    let both : IsBounded (ids l') =
      rw e (IsDistinct-snoc (ids l) n b.0 new, All-snoc (λ x. x < 65536) (ids l) n b.1 small) in
    subst IsRecorded same (bounded-IsRecorded l' v' both)

full_or_room :
    (l : MsgIdList) (n : ℕ) (grown : Bool) (r : Exit × MsgIdList)
    → list_append grown n l ≡ some r
    → (list_append true n l ≡ some r)
      ⊎ ((l.capacity ≡ l.count) × (r ≡ (exit_failure, record l { content = [] })))
unfolding list_append
full_or_room l n true r h = inl h
full_or_room l n false r h = elim (Bool-cases (l.capacity == l.count)) [
  | inl full ↦ inr (ground arith, ground (arith, full, h))
  | inr room ↦ inl (ground (arith, room, h))
]

-- The block of a full list is lost where `realloc` fails; the NULL of an empty list stays NULL.
lost-IsRecorded :
    (l : MsgIdList)
    → IsRecorded l
    → IsValid l
    → l.capacity ≡ l.count
    → IsRecorded (record l { content = [] })
lost-IsRecorded l h v full = elim (Bool-cases (l.count == 0)) [
  | inl none_yet ↦
      bounded-IsRecorded (record l { content = [] })
        (record { block = ground (arith, none_yet); within = omega (arith, full) })
        (rw (take_of_nil l.count) (tt, tt))
  | inr used ↦ record { count = h.count; held = inr (refl, ground (arith, used)) }
]

-- A number of 16 bits that was not found, and then added, leaves such a list.
pub list_append-IsRecorded :
    (l : MsgIdList) (n : ℕ) (grown : Bool) (r : Exit × MsgIdList)
    → n < 65536
    → list_contains l n ≡ some false
    → list_append grown n l ≡ some r
    → IsRecorded l
    → IsRecorded r.1
list_append-IsRecorded l n grown r small new h recorded = elim recorded.held [
  | inr (lost, used) ↦ absurd (ground (arith, list_contains-lost l n lost used, new))
  | inl (v, b) ↦
      let absent : elem n (ids l) ≡ false = eq_of_some-eq (sym (list_contains_lem l n v) ∙ new) in
      elim (full_or_room l n grown r h) [
        | inl done ↦ added-IsRecorded l n r small absent v b done
        | inr (full, e) ↦ rw e (lost-IsRecorded l recorded v full)
      ]
]
