-- ===== src/MsgIdList.antt =====
-- src/list.c: the dynamic array of received message ids.
pub mod Laws
pub mod Distinct
pub mod Recorded
use ipk_chat_client.Base.{
  ℕ, zero, suc, ◌+◌, ◌-◌, Bool, true, false, Option, none, some, List, [], ◌++◌, ltb, ◌==◌,
  if◌then◌else◌, length, get_elem?, set, replicate, ◌>>=◌,
}
use ipk_chat_client.Common.{Exit, exit_success, exit_failure}

abbrev pub list_len : ℕ
list_len = 20

-- `list_t`. `content` holds the cells of the allocated block; the NULL pointer is the empty block.
pub record MsgIdList : Type 0 where
  pub count : ℕ
  pub capacity : ℕ
  pub content : List ℕ

abbrev pub empty : MsgIdList
empty = record { count = 0; capacity = 0; content = [] }

-- The loop from index `i` on, with the rounds left; `none` is a read outside the block.
contains_from : List ℕ → ℕ → ℕ → ℕ → Option Bool
contains_from content number zero i = some false
contains_from content number (suc rounds) i =
    let rest = contains_from content number rounds (i + 1) in
    elim (get_elem? content i) [ none ↦ none | some x ↦ if x == number then some true else rest ]

unfoldable pub list_contains : MsgIdList → ℕ → Option Bool
unfolding contains_from
list_contains l number = contains_from l.content number l.count 0

-- content[count++] = number
append_cell : ℕ → MsgIdList → Option (Exit × MsgIdList)
append_cell number l =
    if ltb l.count (length l.content)
    then some
        (exit_success, record l { content = set l.content l.count number; count = l.count + 1 })
    else none

-- `grown` says whether `realloc` succeeds. On failure the pointer is already overwritten by NULL.
-- The block gets `capacity + list_len` cells in all, also from NULL. The new cells, which hold no particular value in C, are 0 here.
unfoldable pub list_append : Bool → ℕ → MsgIdList → Option (Exit × MsgIdList)
unfolding append_cell
list_append grown number l =
    if l.capacity == l.count
    then if grown
      then append_cell number (record l {
        content = l.content ++ replicate (l.capacity + list_len - length l.content) 0;
        capacity = l.capacity + list_len;
      })
      else some (exit_failure, record l { content = [] })
    else append_cell number l

-- The block is freed, and the pointer is not reset: no cell can be read any more.
unfoldable pub list_destroy : MsgIdList → MsgIdList
list_destroy l = record l { content = [] }
