-- ===== src/Buffer/Append.antt =====
-- What `buffer_append` adds to the buffer, and where it writes past its block.
use native.Mathlib.Numerals.{add-one}
use ipk_chat_client.Base.{
  ℕ, zero, suc, ◌+◌, ◌-◌, ◌≤◌, ◌<◌, ◌≡◌, refl, ◌∙◌, ◌≢◌, inl, inr, Bool-cases, Option-cases, Bool,
  true, none, some, List, [], ◌∷◌, ◌++◌, arith, ltb, length, replicate, length-append,
  length-replicate, take-append_of_le, take_of_length_le, HasNoNul, write,
}
use ipk_chat_client.Common.{buffer_size, copy, strncpy}
use ipk_chat_client.Common.Copy.{copied, copy_lem, length-copied, take-copied}
use ipk_chat_client.Buffer.{MsgBuffer, grow, fill, buffer_append}
use ipk_chat_client.Buffer.Laws.{IsValid, pending}

-- The buffer after a successful `realloc`, or as it was where the block is large enough.
grow_lem :
    (b : MsgBuffer) (len : ℕ)
    → IsValid b
    → len < buffer_size
    → b.msg_len + len ≢ b.size
    → (r : MsgBuffer) × (grow true len b ≡ some r)
      × IsValid r
      × (r.msg_len ≡ b.msg_len)
      × (r.msg_len + len < r.size)
      × (pending r ≡ pending b)
unfolding grow
grow_lem b len v small ne = elim (Bool-cases (ltb b.size (b.msg_len + len))) [
  | inl short ↦ (
    record b { msg = b.msg ++ replicate buffer_size 0; size = b.size + buffer_size },
    rw short,
    omega (
      arith,
      length-append {0} b.msg (replicate buffer_size 0),
      length-replicate {A = ℕ} buffer_size 0,
    ),
    refl,
    ground arith,
    take-append_of_le b.msg_len b.msg (replicate buffer_size 0) (omega arith),
  )
  | inr room ↦ (b, rw room, v, refl, ground arith, refl)
]

fill_lem :
    (b : MsgBuffer) (s rest : List ℕ) (len : ℕ)
    → IsValid b
    → HasNoNul s
    → length s ≤ len
    → b.msg_len + len < b.size
    → (b' : MsgBuffer) × (fill (s ++ zero ∷ rest) len b ≡ some (true, b'))
      × IsValid b'
      × (pending b' ≡ pending b ++ (s ++ replicate (len - length s) 0))
unfolding fill
fill_lem b s rest len v h fits room =
    let inside : b.msg_len + suc len ≤ length b.msg = omega arith in
    (
      record b { msg = copied b.msg s rest b.msg_len len h inside; msg_len = b.msg_len + len },
      rw (add-one, copy_lem b.msg s rest b.msg_len len h inside) refl,
      omega (arith, length-copied b.msg s rest b.msg_len len h inside),
      take-copied b.msg s rest b.msg_len len h inside ∙ rw (take_of_length_le len s fits) refl,
    )

-- Appending `len` bytes of a block that holds the string `s` of at most `len` bytes, less than
-- BUFFER_SIZE, to a valid buffer whose allocation succeeds and that the data do not fill exactly,
-- succeeds, keeps the buffer valid, and adds `s` and then a NUL for each byte that is left.
pub buffer_append_lem :
    (b : MsgBuffer) (s rest : List ℕ) (len : ℕ)
    → IsValid b
    → HasNoNul s
    → length s ≤ len
    → len < buffer_size
    → b.msg_len + len ≢ b.size
    → (b' : MsgBuffer) × (buffer_append true (s ++ zero ∷ rest) len b ≡ some (true, b'))
      × IsValid b'
      × (pending b' ≡ pending b ++ (s ++ replicate (len - length s) 0))
unfolding buffer_append
buffer_append_lem b s rest len v h fits small ne =
    let (r, grown, vr, same, room, kept) = grow_lem b len v small ne in
    let (b', done, v', holds) = fill_lem r s rest len vr h fits room in
    (b', ground (arith, grown, done), v', rw kept at holds)

write_outside :
    (m : List ℕ) (off : ℕ) (bytes : List ℕ)
    → length m < off + length bytes
    → write m off bytes ≡ none
unfolding write
write_outside m off bytes h = ground arith

length-strncpy : (m : List ℕ) (n : ℕ) (bytes : List ℕ) → strncpy m n ≡ some bytes → length bytes ≡ n
unfolding strncpy
length-strncpy m zero bytes h = ground arith
length-strncpy [] (suc n) bytes h = cc
length-strncpy (zero ∷ m) (suc n) bytes h = ground (arith, length-replicate {A = ℕ} n 0)
length-strncpy (suc c ∷ m) (suc n) bytes h = elim (Option-cases (strncpy m n)) [
  | inl e ↦ ground (arith, e)
  | inr (tail, e) ↦ ground (arith, e, length-strncpy m n tail e)
]

-- A copy that does not fit behind the offset is a fault, whatever the source.
copy_outside :
    (dest src : List ℕ) (off n : ℕ) → length dest < off + suc n → copy dest off src (suc n) ≡ none
unfolding copy
copy_outside dest src off n h = elim (Option-cases (strncpy src n)) [
  | inl e ↦ rw e refl
  | inr (bytes, e) ↦ rw e (
      write_outside dest off (bytes ++ (0 ∷ []))
        (omega (arith, length-append {0} bytes (0 ∷ []), length-strncpy src n bytes e)))
]

-- Data that fill the block exactly make the NUL of `copy` fall behind its last cell: an append of
-- `len` bytes to a valid buffer with `msg_len + len` equal to its size goes outside the block.
pub buffer_append-overflow :
    (grown : Bool) (b : MsgBuffer) (msg : List ℕ) (len : ℕ)
    → IsValid b
    → b.msg_len + len ≡ b.size
    → buffer_append grown msg len b ≡ none
unfolding buffer_append grow fill
buffer_append-overflow grown b msg len v full =
    let outside = copy_outside b.msg msg b.msg_len len (omega arith) in
    ground (arith, outside, add-one len)
