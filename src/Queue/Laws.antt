-- ===== src/Queue/Laws.antt =====
-- The circular queue refines the sequence of `Fifo`.
use mathlib.Core.Option
use native.Mathlib.Nat.{add-zero}
use native.Mathlib.Numerals.{add-one}
use ipk_chat_client.Base.{
  ℕ, zero, suc, ◌+◌, ◌-◌, ◌%◌, ◌≤◌, ◌<◌, ◌≡◌, refl, ap, ap₂, ◌≢◌, inl, inr, Bool-cases,
  Option-cases, Bool, true, false, Option, some, List, [], ◌∷◌, ◌++◌, arith, le→leb, ◌==◌, length,
  set, take, get_or, length-set, get_or-set_self, get_or-set_ne, get_elem?-eq-get_or,
}
use ipk_chat_client.Queue.{
  Msg, MsgQueue, no_msg, max_queue_size, empty, queue_add, queue_front, queue_destroy,
}
use ipk_chat_client.Queue.Fifo.{push, offer, pop}

-- Sixteen slots, the indices inside them, and `end` the slot `size` places behind `front`.
pub record IsValid (q : MsgQueue) : Type 0 where
  pub slots : length q.msgs ≡ max_queue_size
  pub front_in : q.front < max_queue_size
  pub end_at : q.end ≡ (q.front + q.size) % max_queue_size
  pub size_in : q.size ≤ max_queue_size

-- The messages in `n` slots from place `i` on, places counted round the array.
collect : List Msg → ℕ → ℕ → List Msg
collect msgs i zero = []
collect msgs i (suc n) = get_or msgs (i % max_queue_size) no_msg ∷ collect msgs (i + 1) n

-- The messages that wait, oldest first.
unfoldable pub contents : MsgQueue → List Msg
unfolding collect
contents q = collect q.msgs q.front q.size

length-collect : (msgs : List Msg) (i n : ℕ) → length (collect msgs i n) ≡ n
unfolding collect
length-collect msgs i zero = refl
length-collect msgs i (suc n) = ap suc (length-collect msgs (i + 1) n)

collect_congr :
    (msgs : List Msg) (i j n : ℕ)
    → i % max_queue_size ≡ j % max_queue_size
    → collect msgs i n ≡ collect msgs j n
unfolding collect
collect_congr msgs i j zero e = refl
collect_congr msgs i j (suc n) e =
    ap₂ ◌∷◌ (ap (λ k. get_or msgs k no_msg) e) (collect_congr msgs (i + 1) (j + 1) n (omega arith))

-- A write to the slot behind the window extends it.
collect-set :
    (msgs : List Msg) (m : Msg) (i n k : ℕ)
    → length msgs ≡ max_queue_size
    → k ≡ (i + n) % max_queue_size
    → n < max_queue_size
    → collect (set msgs k m) i (suc n) ≡ collect msgs i n ++ m ∷ []
unfolding collect
collect-set msgs m i zero k slots e h =
    ap (λ x. x ∷ [])
      (rw (e, add-zero) (get_or-set_self msgs (i % max_queue_size) m no_msg (omega arith)))
collect-set msgs m i (suc n) k slots e h =
    ap₂ ◌∷◌ (get_or-set_ne msgs k (i % max_queue_size) m no_msg (omega arith))
      (collect-set msgs m (i + 1) n k slots (omega arith) (omega arith))

mod_of_front : (q : MsgQueue) → IsValid q → q.front % max_queue_size ≡ q.front
mod_of_front q v = omega arith

pub empty-IsValid : IsValid empty
empty-IsValid = omega arith

collect_pos :
    (msgs : List Msg) (i n : ℕ)
    → n ≢ 0
    → collect msgs i n ≡ get_or msgs (i % max_queue_size) no_msg ∷ collect msgs (i + 1) (n - 1)
unfolding collect
collect_pos msgs i zero h = absurd (h refl)
collect_pos msgs i (suc n) h =
    ap (λ k. get_or msgs (i % max_queue_size) no_msg ∷ collect msgs (i + 1) k) (omega arith)

pub length-contents : (q : MsgQueue) → length (contents q) ≡ q.size
unfolding contents
length-contents q = length-collect q.msgs q.front q.size

-- The message that `queue_add` stores: a copy of the first `len` bytes.
abbrev pub copied : List ℕ → ℕ → Msg
copied bytes len = record { msg = take len bytes; msg_len = len }

-- What a call returns, seen through the messages that wait.
abbrev pub view {ℓ} : {A : Type ℓ} → Option (A × MsgQueue) → Option (A × List Msg)
view r = Option.map (λ p. (p.0, contents p.1)) r

collect-add :
    (q : MsgQueue) (m : Msg)
    → IsValid q
    → q.size < max_queue_size
    → collect (set q.msgs q.end m) q.front (q.size + 1) ≡ collect q.msgs q.front q.size ++ m ∷ []
collect-add q m v h = rw add-one (collect-set q.msgs m q.front q.size q.end v.slots v.end_at h)

-- On a valid queue, with an allocation that succeeds and a block of at least `len` bytes,
-- `queue_add` reports and leaves what the bounded sequence of 16 messages reports and leaves.
pub queue_add_refines :
    (q : MsgQueue) (bytes : List ℕ) (len : ℕ)
    → IsValid q
    → len ≤ length bytes
    → view (queue_add true bytes len q) ≡ some (push max_queue_size (copied bytes len) (contents q))
unfolding queue_add push contents
queue_add_refines q bytes len v h = ground (
  arith,
  le→leb len (length bytes) h,
  length-collect q.msgs q.front q.size,
  λ (lt : q.size < max_queue_size). collect-add q (copied bytes len) v lt,
)

-- Without memory `queue_add` refuses, and leaves the queue as it was.
pub queue_add-offer :
    (memory : Bool) (q : MsgQueue) (bytes : List ℕ) (len : ℕ)
    → IsValid q
    → len ≤ length bytes
    → view (queue_add memory bytes len q)
      ≡ some (offer memory max_queue_size (copied bytes len) (contents q))
unfolding queue_add
queue_add-offer true q bytes len v h = queue_add_refines q bytes len v h
queue_add-offer false q bytes len v h = ground arith

-- Every call of `queue_add` on a valid queue that does not fault leaves a valid queue.
pub queue_add-IsValid :
    (q : MsgQueue) (allocated done : Bool) (bytes : List ℕ) (len : ℕ) {q' : MsgQueue}
    → IsValid q
    → queue_add allocated bytes len q ≡ some (done, q')
    → IsValid q'
unfolding queue_add
queue_add-IsValid q allocated done bytes len v e =
    ground (arith, length-set q.msgs q.end (copied bytes len))

-- On a valid queue `queue_front` returns the oldest message and leaves the others, or returns
-- nothing where none waits, as `pop` of the sequence does.
pub queue_front_refines :
    (q : MsgQueue) → IsValid q → view (queue_front q) ≡ some (pop (contents q))
unfolding queue_front pop contents collect
queue_front_refines q v = ground (
  arith,
  get_elem?-eq-get_or q.msgs q.front no_msg (omega arith),
  collect_pos q.msgs q.front q.size,
  collect_congr q.msgs ((q.front + 1) % max_queue_size) (q.front + 1) (q.size - 1) (omega arith),
  mod_of_front q v,
)

-- Every call of `queue_front` on a valid queue leaves a valid queue.
pub queue_front-IsValid :
    (q : MsgQueue) (m : Option Msg) {q' : MsgQueue}
    → IsValid q
    → queue_front q ≡ some (m, q')
    → IsValid q'
unfolding queue_front
queue_front-IsValid q m v e =
    ground (arith, get_elem?-eq-get_or q.msgs q.front no_msg (omega arith))

contents_nil : (q : MsgQueue) → q.size ≡ 0 → contents q ≡ []
unfolding contents collect
contents_nil q e = rw (ap (λ n. collect q.msgs q.front n) e)

-- One round of the loop on a valid queue that is not empty.
queue_front_next :
    (q : MsgQueue)
    → IsValid q
    → q.size ≢ 0
    → (m : Option Msg) × let next = record q {
      front = (q.front + 1) % max_queue_size;
      size = q.size - 1;
    } in
        (queue_front q ≡ some (m, next)) × IsValid next
unfolding queue_front
queue_front_next q v h = (
  some (get_or q.msgs q.front no_msg),
  (ground (arith, get_elem?-eq-get_or q.msgs q.front no_msg (omega arith)), omega arith),
)

-- With fuel above the number of messages the loop of `queue_destroy` ends, with an empty valid
-- queue.
pub queue_destroy_lem :
    (fuel : ℕ) (q : MsgQueue)
    → IsValid q
    → q.size < fuel
    → (q' : MsgQueue) × (queue_destroy fuel q ≡ some q') × IsValid q' × (contents q' ≡ [])
unfolding queue_destroy
queue_destroy_lem zero q v h = absurd (omega arith)
queue_destroy_lem (suc fuel) q v h = elim (Bool-cases (q.size == 0)) [
  | inl done ↦ (q, rw done, v, contents_nil q (ground arith))
  | inr more ↦
      let next : MsgQueue = record q {
        front = (q.front + 1) % max_queue_size;
        size = q.size - 1;
      } in
      let (m, step) = queue_front_next q v (ground arith) in
      let (q', ends, v', none_left) = queue_destroy_lem fuel next step.1 (ground arith) in
      (q', rw (more, step.0) ends, v', none_left)
]

-- Adding to a valid queue the first bytes of a block that holds them does not fault, and leaves a
-- valid queue, whether or not there is room and memory.
pub queue_add-total :
    (q : MsgQueue) (allocated : Bool) (bytes : List ℕ) (len : ℕ)
    → IsValid q
    → len ≤ length bytes
    → (done : Bool) × (q' : MsgQueue) × (queue_add allocated bytes len q ≡ some (done, q'))
      × IsValid q'
queue_add-total q allocated bytes len v h = elim (Option-cases (queue_add allocated bytes len q)) [
  | inl e ↦ absurd (unfold queue_add in ground (arith, e))
  | inr ((done, q'), e) ↦ (done, q', e, queue_add-IsValid q allocated done bytes len v e)
]
