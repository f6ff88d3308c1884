-- ===== src/CommUdp/Queued.antt =====
-- The blocks in the queue: each is a datagram that the parsers can read without leaving it.
use mathlib.Core.Path.{subst}
use ipk_chat_client.Base.{
  ℕ, ◌-◌, ◌<◌, ◌≤◌, ◌≡◌, refl, eq_of_some-eq, sym, ap, ◌∙◌, Bool, true, false, not, ◌&&◌, Option,
  none, some, List, [], ◌∷◌, ◌++◌, arith, ◌==◌, if◌then◌else◌, length, take, take-append, replicate,
  All, All-snoc, ◌>>=◌, get_elem?,
}
use ipk_chat_client.Common.{exit_failure, buffer_size}
use ipk_chat_client.MsgIdList.{list_contains, list_append}
use ipk_chat_client.Queue.{Msg, MsgQueue, max_queue_size, queue_add}
use ipk_chat_client.Queue.Fifo.{push}
use ipk_chat_client.Queue.Laws as QueueLaws
use ipk_chat_client.Queue.Laws.{contents, copied, queue_add_refines, queue_add-IsValid}
use ipk_chat_client.UdpMsg.Parse.{to_uint16}
use ipk_chat_client.CommUdp.State.{Udp, Round, recv_buffer, send_confirm}
use ipk_chat_client.CommUdp.Send.{
  Turn, return, timeout, put_aside, keep_datagram, take_datagram, receive, turn,
}
use ipk_chat_client.Comm.After.{After, after_bind, after_if, after_exit}
use ipk_chat_client.CommUdp.Valid.{length-recv_buffer}
use ipk_chat_client.CommUdp.Readable.{IsTerminated}

-- A copied datagram that is not empty, of at most three bytes or with a NUL at its end.
pub record IsReadable (m : Msg) : Type 0 where
  pub whole : m.msg_len ≡ length m.msg
  pub nonempty : 0 < length m.msg
  pub terminated : IsTerminated m.msg

-- The queue is valid, and its blocks are readable.
pub record HoldsReadable (q : MsgQueue) : Type 0 where
  pub valid : QueueLaws.IsValid q
  pub blocks : All IsReadable (contents q)

push-All :
    (xs : List Msg) (x : Msg)
    → All IsReadable xs
    → IsReadable x
    → All IsReadable (push max_queue_size x xs).1
unfolding push
push-All xs x h k =
    after_if (λ (p : Bool × List Msg). All IsReadable p.1) (length xs == max_queue_size) h
      (All-snoc IsReadable xs x h k)

pub queue_add-HoldsReadable :
    (q : MsgQueue) (allocated done : Bool) (b : List ℕ) (len : ℕ) (q' : MsgQueue)
    → HoldsReadable q
    → len ≤ length b
    → IsReadable (copied b len)
    → queue_add allocated b len q ≡ some (done, q')
    → HoldsReadable q'
queue_add-HoldsReadable q false done b len q' h fits r e =
    let same : q ≡ q' = unfold queue_add in ground (arith, e) in subst HoldsReadable same h
queue_add-HoldsReadable q true done b len q' h fits r e =
    let seen : ◌≡◌ {A = Option (Bool × List Msg)} (some (done, contents q'))
        (some (push max_queue_size (copied b len) (contents q))) =
      sym (ap QueueLaws.view e) ∙ queue_add_refines q b len h.valid fits in
    record {
      valid = queue_add-IsValid q true done b len h.valid e;
      blocks =
          subst (All IsReadable) (sym (ap (λ p. p.1) (eq_of_some-eq seen)))
            (push-All (contents q) (copied b len) h.blocks r);
    }

-- The datagram in the receive buffer.
copied-recv_buffer :
    (first c : ℕ) (d : List ℕ)
    → IsTerminated (c ∷ d)
    → IsReadable (copied (recv_buffer first (c ∷ d)) (length (c ∷ d)))
unfolding recv_buffer
copied-recv_buffer first c d t =
    let same : take (length (c ∷ d)) (recv_buffer first (c ∷ d)) ≡ c ∷ d =
      take-append (c ∷ d) (replicate (buffer_size - length (c ∷ d)) 0) in
    subst (λ x. IsReadable (record { msg = x; msg_len = length (c ∷ d) })) (sym same)
      (record { whole = refl; nonempty = omega arith; terminated = t })

-- A call that may be a fault, and what is known of its result.
after_call :
    {X Y : Type 0} (Q : Option Y → Type 0) (o : Option X) (f : X → Option Y)
    → Q none
    → ((x : X) → o ≡ some x → Q (f x))
    → Q (o >>= f)
after_call Q none f n k = n
after_call Q (some x) f n k = k x refl

-- The globals with a queue of readable blocks.
abbrev pub Holds : Udp → Type 0
Holds s = HoldsReadable s.queue

abbrev AfterTurn : Option (Turn × Udp) → Type 0
AfterTurn o = After Holds o

put_aside-Holds :
    (r : Round) (b : List ℕ) (len id : ℕ) (s : Udp)
    → Holds s
    → len ≤ length b
    → IsReadable (copied b len)
    → AfterTurn (put_aside r b len id s)
unfolding put_aside
put_aside-Holds r b len id s h fits k = after_bind AfterTurn (list_contains s.ids id) _ tt (λ seen.
    after_if AfterTurn seen h (
      after_call AfterTurn (queue_add r.copy_allocated b len s.queue) _ tt (λ added e.
        let h' =
          queue_add-HoldsReadable s.queue r.copy_allocated added.0 b len added.1 h fits k e in
        after_if AfterTurn added.0
          (after_bind AfterTurn (list_append r.list_grown id s.ids) _ tt
            (λ stored. after_exit AfterTurn stored.0 h' h'))
          h')))

send_confirm-Holds : (r : Round) (id : ℕ) (s : Udp) → Holds s → Holds (send_confirm r id s).1
unfolding send_confirm
send_confirm-Holds r id s h = ground (arith, h)

keep_datagram-Holds :
    (r : Round) (b : List ℕ) (len type id : ℕ) (s : Udp)
    → Holds s
    → len ≤ length b
    → IsReadable (copied b len)
    → AfterTurn (keep_datagram r b len type id s)
unfolding keep_datagram
keep_datagram-Holds r b len type id s h fits k =
    let s' = (send_confirm r id s).1 in
    let h' = send_confirm-Holds r id s h in
    after_if AfterTurn (type == 0) (put_aside-Holds r b len id s h fits k)
      (after_exit AfterTurn (send_confirm r id s).0 (put_aside-Holds r b len id s' h' fits k) h')

-- A datagram that the buffer holds and the parsers can read from a block of its own.
pub record IsGood (r : Round) : Type 0 where
  pub fits : length r.datagram ≤ buffer_size
  pub terminated : IsTerminated r.datagram

take_datagram-Holds :
    (r : Round) (c : ℕ) (d : List ℕ) (s : Udp)
    → r.datagram ≡ c ∷ d
    → IsGood r
    → Holds s
    → AfterTurn (take_datagram r s)
unfolding take_datagram
take_datagram-Holds r c d s e g h =
    let b = recv_buffer b'0' r.datagram in
    let size = length-recv_buffer b'0' r.datagram g.fits in
    let k : IsReadable (copied b (length r.datagram)) =
      rw e (copied-recv_buffer b'0' c d (rw e at g.terminated)) in
    after_bind AfterTurn (get_elem? b 0) _ tt (λ type.
      after_bind AfterTurn (to_uint16 b 1) _ tt (λ id.
        after_if AfterTurn (length r.datagram == 3 && (type == 0 && s.client.msg_id == id)) h (
          keep_datagram-Holds r b (length r.datagram) type id s h (omega (arith, size, g.fits)) k)))

receive_nothing :
    (r : Round) (s : Udp)
    → r.datagram ≡ []
    → receive r s ≡ (if r.errno_again then some (timeout, s) else some (return exit_failure, s))
unfolding receive
receive_nothing r s e = ground (arith, e)

receive_some :
    (r : Round) (c : ℕ) (d : List ℕ) (s : Udp)
    → r.datagram ≡ c ∷ d
    → receive r s ≡ take_datagram r s
unfolding receive
receive_some r c d s e = ground (arith, e)

receive-Holds :
    (r : Round) (d : List ℕ) (s : Udp)
    → r.datagram ≡ d
    → IsGood r
    → Holds s
    → AfterTurn (receive r s)
receive-Holds r [] s e g h =
    subst AfterTurn (sym (receive_nothing r s e)) (after_if AfterTurn r.errno_again h h)
receive-Holds r (c ∷ d) s e g h =
    subst AfterTurn (sym (receive_some r c d s e)) (take_datagram-Holds r c d s e g h)

-- One turn of the send loop leaves a queue of readable blocks.
pub turn-Holds :
    (frame : List ℕ) (resend : Bool) (r : Round) (s : Udp)
    → IsGood r
    → Holds s
    → After Holds (turn frame resend r s)
unfolding turn
turn-Holds frame resend r s g h =
    let s' = if resend then record s { sent = s.sent ++ frame ∷ [] } else s in
    let h' : Holds s' = after_if Holds resend h h in
    after_if AfterTurn (resend && not r.frame_sent) h (receive-Holds r r.datagram s' refl g h')
