-- ===== src/Examples/Stores.antt =====
-- The queue, the id list, the stream buffer and `copy`.
use ipk_chat_client.Base.{
  ℕ, zero, ◌≡◌, refl, ◌∷◌, [], ◌++◌, List, codes, arith, true, false, none, some, replicate, map,
}
use ipk_chat_client.Queue as Queue
use ipk_chat_client.Queue.{Msg, MsgQueue, max_queue_size, queue_add, queue_front, queue_destroy}
use ipk_chat_client.Queue.Fifo as Fifo
use ipk_chat_client.Queue.Fifo.{Op, add, front, push, pop}
use ipk_chat_client.Queue.Laws as QueueLaws
use ipk_chat_client.Queue.Laws.{
  contents, copied, view, queue_add_refines, queue_front_refines, queue_destroy_lem,
  queue_add-total,
}
use ipk_chat_client.Queue.Runs.{run, whole, run_refines}
use ipk_chat_client.Buffer.{MsgBuffer, buffer_append, buffer_get_msg}
use ipk_chat_client.Buffer.Laws as BufferLaws
use ipk_chat_client.Buffer.Laws.{pending, next_line, buffer_get_msg_refines, buffer_get_msg-IsValid}
use ipk_chat_client.Buffer.Append.{buffer_append_lem, buffer_append-overflow}
use ipk_chat_client.Examples.Data.{queue-IsValid}

abbrev ops : List (Op (List ℕ))
ops =
    add true (codes "one")
    ∷ add false (codes "off")
    ∷ add true (codes "two")
    ∷ front
    ∷ front
    ∷ front
    ∷ []

run_refines_example :
    run Queue.empty ops ≡ some (Fifo.run max_queue_size (contents Queue.empty) (map whole ops))
run_refines_example = run_refines Queue.empty ops queue-IsValid

-- One message, in the last slot.
abbrev one : MsgQueue
one = record {
  msgs = replicate 15 Queue.no_msg ++ record { msg = codes "one"; msg_len = 3 } ∷ [];
  front = 15;
  end = 0;
  size = 1;
}

one-IsValid : QueueLaws.IsValid one
one-IsValid = record { slots = refl; front_in = omega arith; end_at = refl; size_in = omega arith }

queue_destroy_lem_example :
    (q : MsgQueue) × (queue_destroy 2 one ≡ some q) × QueueLaws.IsValid q × (contents q ≡ [])
queue_destroy_lem_example = queue_destroy_lem 2 one one-IsValid (omega arith)

-- A block of eight cells with two lines in it, the second without its end.
abbrev stream : MsgBuffer
stream = record { msg = 66 ∷ 13 ∷ 10 ∷ 77 ∷ 0 ∷ 0 ∷ 0 ∷ 0 ∷ []; msg_len = 4; size = 8 }

stream-IsValid : BufferLaws.IsValid stream
stream-IsValid = record { block = refl; within = omega arith }

buffer_get_msg_refines_example :
    BufferLaws.view (buffer_get_msg true stream) ≡ some (next_line (pending stream))
buffer_get_msg_refines_example = buffer_get_msg_refines stream stream-IsValid

buffer_append_lem_example :
    (b : MsgBuffer) × (buffer_append true (codes "SG" ++ zero ∷ []) 2 stream ≡ some (true, b))
    × BufferLaws.IsValid b
    × (pending b ≡ pending stream ++ (codes "SG" ++ replicate 0 0))
buffer_append_lem_example =
    buffer_append_lem stream (codes "SG") [] 2 stream-IsValid (ground arith) (omega arith)
      (omega arith) (λ h. ground arith)

buffer_append-overflow_example : buffer_append true (codes "SG x") 4 stream ≡ none
buffer_append-overflow_example =
    buffer_append-overflow true stream (codes "SG x") 4 stream-IsValid refl
