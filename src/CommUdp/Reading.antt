-- ===== src/CommUdp/Reading.antt =====
-- `udp_recv_msg` and `udp_check_previous` stay inside their blocks.
use mathlib.Core.Path.{subst}
use ipk_chat_client.Base.{
  ℕ, zero, ◌<◌, ◌≡◌, refl, sym, ap, ◌∙◌, Bool, true, false, Option, none, some, List, [], ◌∷◌, ◌++◌,
  arith, ◌==◌, leb, if◌then◌else◌, length, length-append, get_elem?, get_or, get_elem?-eq-get_or,
  All, ◌>>=◌,
}
use ipk_chat_client.Common.{exit_success, exit_failure, MsgType, buffer_size, error}
use ipk_chat_client.MsgIdList.Laws as IdLaws
use ipk_chat_client.Queue.{Msg, MsgQueue, queue_front, queue_is_empty}
use ipk_chat_client.Queue.Runs.{view-eq-some}
use ipk_chat_client.Common.{error_line}
use ipk_chat_client.Queue.Fifo.{pop}
use ipk_chat_client.Queue.Laws.{contents, queue_front_refines, queue_front-IsValid, length-contents}
use ipk_chat_client.UdpMsg.Parse.{to_uint16}
use ipk_chat_client.UdpMsg.Build.{header_size}
use ipk_chat_client.CommUdp.State.{Udp, Round, recv_buffer, send_confirm}
use ipk_chat_client.CommUdp.Process.{msg_table, udp_process_msg, udp_recv_msg, udp_check_previous}
use ipk_chat_client.CommUdp.Valid.{to_uint16-total, length-recv_buffer}
use ipk_chat_client.CommUdp.Readable.{
  msg_table-total, recv_buffer-ends, IsTerminated-AllTotal, process_from_known, process_from_stored,
  Stores, PrintsOnly,
}
use ipk_chat_client.Comm.After.{after_exit, after_if}
use ipk_chat_client.CommUdp.Queued.{HoldsReadable, IsReadable}

-- The id list is valid, and the queue is valid and holds readable blocks.
pub record IsSafe (s : Udp) : Type 0 where
  pub ids : IdLaws.IsValid s.ids
  pub queue : HoldsReadable s.queue

-- A datagram shorter than the buffer, and memory for its id.
pub record IsReceivable (r : Round) : Type 0 where
  pub fits : length r.datagram < buffer_size
  pub memory : r.list_grown ≡ true

-- A call that comes back with safe globals.
abbrev pub Comes {ℓ} : {X : Type ℓ} → Option (X × Udp) → Type ℓ
Comes {X = X} o = (x : X) × (s : Udp) × (o ≡ some (x, s)) × IsSafe s

stored : (s : Udp) (o : Option (MsgType × Udp)) → IsSafe s → Stores s o → Comes o
stored s o h (t, l, out, e, v) =
    (t, record s { ids = l; out = out }, e, record { ids = v; queue = h.queue })

-- Processing the receive buffer.
process_received :
    (c : ℕ) (d : List ℕ) (s : Udp)
    → length (c ∷ d) < buffer_size
    → IsSafe s
    → Comes (udp_process_msg true (recv_buffer 0 (c ∷ d)) (length (c ∷ d)) true s)
unfolding udp_process_msg
process_received c d s fits h =
    let (m, same, len) = recv_buffer-ends c d fits in
    let size = length-append {0} m (zero ∷ []) in
    let all = msg_table-total s.client m (length (c ∷ d)) (omega (arith, len)) in
    let (id, read) = to_uint16-total (m ++ zero ∷ []) 1 (omega (arith, len, size)) in
    let type = get_or (m ++ zero ∷ []) 0 0 in
    let first = get_elem?-eq-get_or (m ++ zero ∷ []) 0 0 (omega (arith, size)) in
    rw (same, first)
      (stored s _ h
        (process_from_stored msg_table type (m ++ zero ∷ []) (length (c ∷ d)) id s read h.ids all))

send_confirm-IsSafe : (r : Round) (id : ℕ) (s : Udp) → IsSafe s → IsSafe (send_confirm r id s).1
unfolding send_confirm
send_confirm-IsSafe r id s h = ground (arith, h)

-- The message once it is confirmed, or not.
confirmed :
    (r : Round) (c : ℕ) (d : List ℕ) (id : ℕ) (s : Udp)
    → length (c ∷ d) < buffer_size
    → IsSafe s
    → Comes (elim (send_confirm r id s).0 [
      | exit_success ↦
          udp_process_msg true (recv_buffer 0 (c ∷ d)) (length (c ∷ d)) true (send_confirm r id s).1
      | exit_failure ↦ some (error, (send_confirm r id s).1)
    ])
confirmed r c d id s fits h =
    let h' = send_confirm-IsSafe r id s h in
    after_exit Comes (send_confirm r id s).0 (process_received c d (send_confirm r id s).1 fits h')
      (error, (send_confirm r id s).1, refl, h')

-- `udp_recv_msg` for the datagram `d`, where `grown` says whether the list can grow.
abbrev receiving : Round → List ℕ → Bool → Udp → Option (MsgType × Udp)
receiving r d grown s =
    if leb header_size (length d)
    then (get_elem? (recv_buffer 0 d) 0 >>= λ type. to_uint16 (recv_buffer 0 d) 1 >>= λ id.
        if type == 0
        then udp_process_msg grown (recv_buffer 0 d) (length d) true s
        else elim (send_confirm r id s).0 [
          | exit_success ↦
              udp_process_msg grown (recv_buffer 0 d) (length d) true (send_confirm r id s).1
          | exit_failure ↦ some (error, (send_confirm r id s).1)
        ])
    else some (error, record s { out = s.out ++ error_line "ERROR: recvfrom fault" ∷ [] })

receiving-Comes :
    (r : Round) (d : List ℕ) (s : Udp)
    → length d < buffer_size
    → IsSafe s
    → Comes (receiving r d true s)
receiving-Comes r [] s fits h = (error, _, refl, record { ids = h.ids; queue = h.queue })
receiving-Comes r (c ∷ d) s fits h =
    let b = recv_buffer 0 (c ∷ d) in
    let size = length-recv_buffer 0 (c ∷ d) (omega (arith, fits)) in
    let (id, read) = to_uint16-total b 1 (omega (arith, size)) in
    let first = get_elem?-eq-get_or b 0 0 (omega (arith, size)) in
    rw (first, read)
      (after_if Comes (leb header_size (length (c ∷ d)))
        (after_if Comes (get_or b 0 0 == 0) (process_received c d s fits h)
          (confirmed r c d id s fits h))
        (error, _, refl, record { ids = h.ids; queue = h.queue }))

-- From safe globals, a datagram shorter than the buffer is received without an access outside a
-- block, and leaves safe globals, if there is memory for its id.
pub udp_recv_msg-Comes :
    (r : Round) (s : Udp) → IsReceivable r → IsSafe s → Comes (udp_recv_msg r s)
unfolding udp_recv_msg
udp_recv_msg-Comes r s g h =
    subst (λ b. Comes (receiving r r.datagram b s)) (sym g.memory)
      (receiving-Comes r r.datagram s g.fits h)

-- Processing a queued block.
process_queued :
    (m : Msg) (s : Udp) → IsReadable m → PrintsOnly s (udp_process_msg true m.msg m.msg_len false s)
unfolding udp_process_msg
process_queued m s k =
    let first = get_elem?-eq-get_or m.msg 0 0 k.nonempty in
    rw (first, k.whole)
      (process_from_known msg_table (get_or m.msg 0 0) true m.msg (length m.msg) s
        (IsTerminated-AllTotal s.client m.msg k.terminated))

taken :
    (q : MsgQueue) (m : Msg) (later : List Msg)
    → HoldsReadable q
    → contents q ≡ m ∷ later
    → (q' : MsgQueue) × (queue_front q ≡ some (some m, q')) × HoldsReadable q' × IsReadable m
unfolding pop
taken q m later h e =
    let (q', call, waits) =
      view-eq-some (queue_front q) (some m) later
        (queue_front_refines q h.valid ∙ ap (λ c. some (pop c)) e) in
    let (first, others) : All IsReadable (m ∷ later) = subst (All IsReadable) e h.blocks in
    (
      q',
      call,
      record {
        valid = queue_front-IsValid q (some m) h.valid call;
        blocks = subst (All IsReadable) (sym waits) others;
      },
      first,
    )

previous_of :
    (s : Udp) (xs : List Msg) → contents s.queue ≡ xs → IsSafe s → Comes (udp_check_previous s)
unfolding udp_check_previous
previous_of s [] e h =
    let nothing : queue_is_empty s.queue ≡ true =
      ground (arith, length-contents s.queue, ap length e) in
    (none, s, rw nothing refl, h)
previous_of s (m ∷ later) e h =
    let more : queue_is_empty s.queue ≡ false =
      ground (arith, length-contents s.queue, ap length e) in
    let (q', call, h', k) = taken s.queue m later h.queue e in
    let (t, out, parsed) = process_queued m (record s { queue = q' }) k in
    (
      some t,
      record s { queue = q'; out = out },
      rw (more, call, parsed) refl,
      record { ids = h.ids; queue = h' },
    )

-- From safe globals, the oldest block of the queue, if there is one, is parsed without a read
-- outside it, and the globals stay safe.
pub udp_check_previous-Comes : (s : Udp) → IsSafe s → Comes (udp_check_previous s)
udp_check_previous-Comes s h = previous_of s (contents s.queue) refl h
