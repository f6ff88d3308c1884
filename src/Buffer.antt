-- ===== src/Buffer.antt =====
-- src/buffer.c: the receive buffer that reassembles TCP segments into CRLF-terminated messages.
pub mod Laws
pub mod Append
use ipk_chat_client.Base.{
  ℕ, zero, suc, ◌+◌, ◌-◌, Bool, true, false, not, Option, none, some, List, [], ◌∷◌, ◌++◌, ltb,
  ◌==◌, if◌then◌else◌, length, get_elem?, take, drop, replicate, write, ◌>>=◌,
}
use ipk_chat_client.Common.{buffer_size, zero_byte, copy}

-- `msg_buffer_t`. `msg` holds the cells of the allocated block; the NULL pointer is the empty
-- block.
pub record MsgBuffer : Type 0 where
  pub msg : List ℕ
  pub msg_len : ℕ
  pub size : ℕ

abbrev pub empty : MsgBuffer
empty = record { msg = []; msg_len = 0; size = 0 }

-- The loop of `crlf` from index `i` on, with the rounds left: the index of the CR, if there is one.
-- The outer `none` is a read outside the block; the second byte is read only after a CR.
crlf_from : List ℕ → ℕ → ℕ → Option (Option ℕ)
crlf_from cells zero i = some none
crlf_from cells (suc rounds) i =
    let rest = crlf_from cells rounds (i + 1) in
    get_elem? cells i >>= λ a.
    if a == b'\r'
    then (get_elem? cells (i + 1) >>= λ b. if b == b'\n' then some (some i) else rest)
    else rest

-- The loop runs while `i < msg_len - 1`, so not at all on a buffer of length 0 or 1.
unfoldable pub crlf : MsgBuffer → Option (Option ℕ)
unfolding crlf_from
crlf b = crlf_from b.msg (b.msg_len - 1) 0

-- `grown` says whether `realloc` succeeds. The new cells, which hold no particular value in C, are
-- 0.
unfoldable pub grow : Bool → ℕ → MsgBuffer → Option MsgBuffer
grow grown msg_len b =
    if ltb b.size (b.msg_len + msg_len)
    then if grown
      then some (record b { msg = b.msg ++ replicate buffer_size 0; size = b.size + buffer_size })
      else none
    else some b

-- The `copy` behind the data, and the new length; `none` is an access outside a block.
unfoldable pub fill : List ℕ → ℕ → MsgBuffer → Option (Bool × MsgBuffer)
fill msg msg_len b = copy b.msg b.msg_len msg (msg_len + zero_byte) >>= λ cells.
    some (true, record b { msg = cells; msg_len = b.msg_len + msg_len })

-- `buffer_append(msg, msg_len)` for the block `msg`.
unfoldable pub buffer_append : Bool → List ℕ → ℕ → MsgBuffer → Option (Bool × MsgBuffer)
buffer_append grown msg msg_len b = elim (grow grown msg_len b) [
  | none ↦ some (false, b)
  | some r ↦ fill msg msg_len r
]

unfoldable pub buffer_destroy : MsgBuffer → MsgBuffer
buffer_destroy b = elim b.msg [ [] ↦ b | _ ∷ _ ↦ empty ]

abbrev pub buffer_is_empty : MsgBuffer → Bool
buffer_is_empty b = b.msg_len == 0

-- `memcpy` of the message and `memmove` of what follows it to the front.
unfoldable pub extract : ℕ → MsgBuffer → Option (Option (List ℕ) × MsgBuffer)
extract msg_len b = write b.msg 0 (take (b.msg_len - msg_len) (drop msg_len b.msg)) >>= λ cells.
    some (
      some (take msg_len b.msg ++ (0 ∷ [])),
      record b { msg = cells; msg_len = b.msg_len - msg_len },
    )

-- The extracted block, NUL included, if there is a complete message.
-- `allocated` says whether `malloc` succeeds.
unfoldable pub buffer_get_msg : Bool → MsgBuffer → Option (Option (List ℕ) × MsgBuffer)
buffer_get_msg allocated b =
    if buffer_is_empty b
    then some (none, b)
    else crlf b >>= elim [
      | none ↦ some (none, b)
      | some i ↦ if not allocated then some (none, b) else extract (i + 2) b
    ]
