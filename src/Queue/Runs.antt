-- ===== src/Queue/Runs.antt =====
-- Any sequence of calls on the circular queue, against the bounded sequence.
use ipk_chat_client.Base.{
  ℕ, ◌≡◌, refl, Option, none, some, List, [], ◌∷◌, map, arith, length, ◌>>=◌, le_refl,
}
use ipk_chat_client.Queue.{Msg, MsgQueue, max_queue_size, queue_add, queue_front}
use ipk_chat_client.Queue.Fifo
use ipk_chat_client.Queue.Fifo.{offer, pop, Op, add, front, Reply, added, got}
use ipk_chat_client.Queue.Laws.{
  IsValid, contents, copied, view, queue_add-offer, queue_add-IsValid, queue_front_refines,
  queue_front-IsValid,
}

-- A client's calls in order, each added block whole, with the answers of `malloc`; what each
-- returns.
pub run : MsgQueue → List (Op (List ℕ)) → Option (List (Reply Msg))
run q [] = some []
run q (add memory bytes ∷ ops) = do
  (done, q') ← queue_add memory bytes (length bytes) q
  replies ← run q' ops
  some (added done ∷ replies)
run q (front ∷ ops) = do (m, q') ← queue_front q; replies ← run q' ops; some (got m ∷ replies)

abbrev pub whole : Op (List ℕ) → Op Msg
whole (add memory bytes) = add memory (copied bytes (length bytes))
whole front = front

-- A call that is seen as `(a, ms)` returns `a` and leaves a queue that holds `ms`.
pub view-eq-some {ℓ} :
    {A : Type ℓ} (r : Option (A × MsgQueue)) (a : A) (ms : List Msg)
    → view r ≡ some (a, ms)
    → (q : MsgQueue) × (r ≡ some (a, q)) × (contents q ≡ ms)
view-eq-some none a ms h = cc
view-eq-some (some (b, q)) a ms h = (q, ground arith, ground arith)

-- From any valid queue every sequence of calls, each adding a whole block, runs without a fault,
-- whatever the answers of `malloc`; and each call returns what the first-in first-out sequence of at
-- most 16 messages returns, where an addition without memory is refused and leaves it as it was.
pub run_refines :
    (q : MsgQueue) (ops : List (Op (List ℕ)))
    → IsValid q
    → run q ops ≡ some (Fifo.run max_queue_size (contents q) (map whole ops))
unfolding run Fifo.run
run_refines q [] v = refl
run_refines q (add memory bytes ∷ ops) v =
    let len = length bytes in
    let (done, xs) = offer memory max_queue_size (copied bytes len) (contents q) in
    let (q', call, holds) =
      view-eq-some (queue_add memory bytes len q) done xs
        (queue_add-offer memory q bytes len v (le_refl len)) in
    rw (call)
      (rw (run_refines q' ops (queue_add-IsValid q memory done bytes len v call), holds) refl)
run_refines q (front ∷ ops) v =
    let (m, xs) = pop (contents q) in
    let (q', call, holds) = view-eq-some (queue_front q) m xs (queue_front_refines q v) in
    rw call (rw (run_refines q' ops (queue_front-IsValid q m v call), holds) refl)
