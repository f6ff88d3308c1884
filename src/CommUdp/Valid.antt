-- ===== src/CommUdp/Valid.antt =====
-- One turn of the send loop stays inside its blocks and keeps the id list and the queue valid.
use ipk_chat_client.Base.{
  ℕ, ◌+◌, ◌*◌, ◌-◌, ◌%◌, ◌≤◌, ◌<◌, ◌≡◌, refl, ◌⊎◌, inl, inr, Bool, true, false, ◌&&◌, not,
  Bool-cases, Option, some, List, [], ◌∷◌, ◌++◌, arith, ◌==◌, if◌then◌else◌, length, get_or,
  get_elem?-eq-get_or, replicate, length-append, length-replicate,
}
use ipk_chat_client.Common.{buffer_size, Exit, exit_success, exit_failure}
use ipk_chat_client.MsgIdList.{list_contains, list_append}
use ipk_chat_client.MsgIdList.Laws as IdLaws
use ipk_chat_client.Queue.{queue_add}
use ipk_chat_client.Queue.Laws as QueueLaws
use ipk_chat_client.MsgIdList.{MsgIdList}
use ipk_chat_client.Queue.{MsgQueue}
use ipk_chat_client.UdpMsg.Parse.{to_uint16}
use ipk_chat_client.CommUdp.State.{Udp, Round, recv_buffer, send_confirm}
use ipk_chat_client.CommUdp.Send.{
  Turn, return, timeout, aside, put_aside, keep_datagram, next_id, take_datagram, receive, turn,
}

-- The id list and the queue are valid.
pub record IsValid (s : Udp) : Type 0 where
  pub ids : IdLaws.IsValid s.ids
  pub queue : QueueLaws.IsValid s.queue

-- `recvfrom` returns at most the size of the buffer that it is given.
abbrev pub Fits : Round → Type 0
Fits r = length r.datagram ≤ buffer_size

pub length-recv_buffer :
    (first : ℕ) (d : List ℕ) → length d ≤ buffer_size → length (recv_buffer first d) ≡ buffer_size
unfolding recv_buffer
length-recv_buffer first [] h = omega (arith, length-replicate {A = ℕ} (buffer_size - 1) 0)
length-recv_buffer first (c ∷ d) h = omega (
  arith,
  length-append {0} (c ∷ d) (replicate (buffer_size - length (c ∷ d)) 0),
  length-replicate {A = ℕ} (buffer_size - length (c ∷ d)) 0,
)

pub to_uint16-total :
    (m : List ℕ) (off : ℕ) → off + 1 < length m → (id : ℕ) × (to_uint16 m off ≡ some id)
unfolding to_uint16
to_uint16-total m off h = (
  get_or m off 0 % 256 * 256 + get_or m (off + 1) 0 % 256,
  rw (get_elem?-eq-get_or m off 0 (omega arith), get_elem?-eq-get_or m (off + 1) 0 h) refl,
)

-- A turn that does not end in failure leaves the globals valid.
abbrev pub Kept : Turn → Udp → Type 0
Kept t s = (t ≡ return exit_failure) ⊎ IsValid s

abbrev pub Safe : Option (Turn × Udp) → Type 0
Safe o = (t : Turn) × (s : Udp) × (o ≡ some (t, s)) × Kept t s

IsValid-stored :
    (s : Udp) {q : MsgQueue} {l : MsgIdList}
    → QueueLaws.IsValid q
    → (exit_success ≡ exit_failure) ⊎ IdLaws.IsValid l
    → IsValid (record s { queue = q; ids = l })
IsValid-stored s vq (inl e) = absurd (cc)
IsValid-stored s vq (inr vl) = record { ids = vl; queue = vq }

put_aside_cases :
    (r : Round) (buffer : List ℕ) (b_rcv id : ℕ) (s : Udp) (seen added : Bool) (e : Exit)
    {q : MsgQueue} {l : MsgIdList}
    → IsValid s
    → list_contains s.ids id ≡ some seen
    → queue_add r.copy_allocated buffer b_rcv s.queue ≡ some (added, q)
    → list_append r.list_grown id s.ids ≡ some (e, l)
    → QueueLaws.IsValid q
    → (e ≡ exit_failure) ⊎ IdLaws.IsValid l
    → Safe (put_aside r buffer b_rcv id s)
unfolding put_aside
put_aside_cases r buffer b_rcv id s true added e v scan add append vq vl =
    (aside, s, rw scan refl, inr v)
put_aside_cases r buffer b_rcv id s false false e {q = q} v scan add append vq vl =
    (return exit_failure, record s { queue = q }, rw (scan, add) refl, inl refl)
put_aside_cases r buffer b_rcv id s false true exit_failure {q = q} {l = l} v scan add append vq
      vl =
    (return exit_failure, record s { queue = q; ids = l }, rw (scan, add, append) refl, inl refl)
put_aside_cases r buffer b_rcv id s false true exit_success {q = q} {l = l} v scan add append vq
      vl =
    (
      aside,
      record s { queue = q; ids = l },
      rw (scan, add, append) refl,
      inr (IsValid-stored s vq vl),
    )

pub put_aside-Safe :
    (r : Round) (buffer : List ℕ) (b_rcv id : ℕ) (s : Udp)
    → IsValid s
    → b_rcv ≤ length buffer
    → Safe (put_aside r buffer b_rcv id s)
put_aside-Safe r buffer b_rcv id s v h =
    let scan = IdLaws.list_contains_lem s.ids id v.ids in
    let (added, q, add, vq) =
      QueueLaws.queue_add-total s.queue r.copy_allocated buffer b_rcv v.queue h in
    let (e, l, append, vl) = IdLaws.list_append-total r.list_grown s.ids id v.ids in
    put_aside_cases r buffer b_rcv id s _ added e v scan add append vq vl

-- `send_confirm` changes nothing but the datagrams sent.
pub send_confirm-IsValid :
    (r : Round) (id : ℕ) (s : Udp) → IsValid s → IsValid (send_confirm r id s).1
unfolding send_confirm
send_confirm-IsValid r id s v = ground arith

keep_datagram-Safe :
    (r : Round) (buffer : List ℕ) (b_rcv type id : ℕ) (s : Udp)
    → IsValid s
    → b_rcv ≤ length buffer
    → Safe (keep_datagram r buffer b_rcv type id s)
unfolding keep_datagram
keep_datagram-Safe r buffer b_rcv type id s v h = elim (Bool-cases (type == 0)) [
  | inl is_confirm ↦ rw is_confirm (put_aside-Safe r buffer b_rcv id s v h)
  | inr other ↦ rw other (confirmed (send_confirm r id s).0 refl)
]
  where
    confirmed :
        (e : Exit)
        → (send_confirm r id s).0 ≡ e
        → Safe (elim e [
          | exit_success ↦ put_aside r buffer b_rcv id (send_confirm r id s).1
          | exit_failure ↦ some (return exit_failure, (send_confirm r id s).1)
        ])
    confirmed exit_success _ =
        put_aside-Safe r buffer b_rcv id (send_confirm r id s).1 (send_confirm-IsValid r id s v) h
    confirmed exit_failure _ = (return exit_failure, (send_confirm r id s).1, refl, inl refl)

take_datagram-Safe : (r : Round) (s : Udp) → IsValid s → Fits r → Safe (take_datagram r s)
unfolding take_datagram
take_datagram-Safe r s v h =
    let buffer = recv_buffer b'0' r.datagram in
    let size = length-recv_buffer b'0' r.datagram h in
    let (id, read) = to_uint16-total buffer 1 (omega (arith, size)) in
    let first = get_elem?-eq-get_or buffer 0 0 (omega (arith, size)) in
    let type = get_or buffer 0 0 in
    rw (first, read)
      (elim (Bool-cases (length r.datagram == 3 && (type == 0 && s.client.msg_id == id))) [
        | inl awaited ↦ (
          return exit_success,
          next_id s,
          rw awaited refl,
          inr (record { ids = v.ids; queue = v.queue }),
        )
        | inr other ↦
            rw other
              (keep_datagram-Safe r buffer (length r.datagram) type id s v (omega (arith, size)))
      ])

received :
    (r : Round) (s : Udp) (d : List ℕ) → r.datagram ≡ d → IsValid s → Fits r → Safe (receive r s)
unfolding receive
received r s [] e v h = elim (Bool-cases r.errno_again) [
  | inl again ↦ (timeout, s, ground (arith, e, again), inr v)
  | inr failed ↦ (return exit_failure, s, ground (arith, e, failed), inl refl)
]
received r s (c ∷ d) e v h =
    let (t, s', took, kept) = take_datagram-Safe r s v h in (t, s', ground (arith, e, took), kept)

resent-IsValid :
    (resend : Bool) (frame : List ℕ) (s : Udp)
    → IsValid s
    → IsValid (if resend then record s { sent = s.sent ++ frame ∷ [] } else s)
resent-IsValid true frame s v = record { ids = v.ids; queue = v.queue }
resent-IsValid false frame s v = v

-- From valid globals and a datagram that the buffer holds, a turn of the loop stays inside its
-- blocks and ends with valid globals or in failure.
pub turn-Safe :
    (frame : List ℕ) (resend : Bool) (r : Round) (s : Udp)
    → IsValid s
    → Fits r
    → Safe (turn frame resend r s)
unfolding turn
turn-Safe frame resend r s v h = elim (Bool-cases (resend && not r.frame_sent)) [
  | inl refused ↦ (return exit_failure, s, rw refused refl, inl refl)
  | inr sent ↦ rw sent (received r _ r.datagram refl (resent-IsValid resend frame s v) h)
]
