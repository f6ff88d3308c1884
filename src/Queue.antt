-- ===== src/Queue.antt =====
-- src/queue.c: the fixed-size circular queue of datagrams that wait for processing.
pub mod Fifo
pub mod Laws
pub mod Runs
use ipk_chat_client.Base.{
  ℕ, zero, suc, ◌+◌, ◌-◌, ◌%◌, Bool, true, false, Option, none, some, List, [], ◌∷◌, not, ◌&&◌, ltb,
  leb, ◌==◌, if◌then◌else◌, length, get_elem?, set, take, replicate, ◌>>=◌,
}

abbrev pub max_queue_size : ℕ
max_queue_size = 16

-- `msg_t`: the cells of the copied block, and its length.
pub record Msg : Type 0 where
  pub msg : List ℕ
  pub msg_len : ℕ

-- `msg_queue_t`.
pub record MsgQueue : Type 0 where
  pub msgs : List Msg
  pub front : ℕ
  pub end : ℕ
  pub size : ℕ

abbrev pub no_msg : Msg
no_msg = record { msg = []; msg_len = 0 }

abbrev pub empty : MsgQueue
empty = record { msgs = replicate max_queue_size no_msg; front = 0; end = 0; size = 0 }

abbrev pub queue_is_empty : MsgQueue → Bool
queue_is_empty q = q.size == 0

abbrev pub queue_is_full : MsgQueue → Bool
queue_is_full q = q.size == max_queue_size

-- `allocated` says whether `malloc` succeeds; `none` is a read past the block `msg`, or
-- a write outside the slots.
unfoldable pub queue_add : Bool → List ℕ → ℕ → MsgQueue → Option (Bool × MsgQueue)
queue_add allocated msg msg_len q =
    if queue_is_full q
    then some (false, q)
    else if not allocated
    then some (false, q)
    else if leb msg_len (length msg) && ltb q.end (length q.msgs)
    then some (
      true,
      record q {
        msgs = set q.msgs q.end (record { msg = take msg_len msg; msg_len = msg_len });
        end = (q.end + 1) % max_queue_size;
        size = q.size + 1;
      },
    )
    else none

-- The message that leaves, if any; `none` is a read outside the slots. `size--` runs at `size ≢ 0`.
unfoldable pub queue_front : MsgQueue → Option (Option Msg × MsgQueue)
queue_front q = if queue_is_empty q then some (none, q) else do
  m ← get_elem? q.msgs q.front
  some (some m, record q { front = (q.front + 1) % max_queue_size; size = q.size - 1 })

-- The loop, on fuel: `none` is a fault or no fuel left.
unfoldable pub queue_destroy : ℕ → MsgQueue → Option MsgQueue
queue_destroy zero q = none
queue_destroy (suc fuel) q =
    let rest = queue_front q >>= λ r. queue_destroy fuel r.1 in
    if queue_is_empty q then some q else rest
