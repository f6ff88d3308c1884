-- ===== src/CommUdp/Send.antt =====
-- `udp_send_msg` of src/comm_udp.c.
use ipk_chat_client.Base.{
  ℕ, ◌+◌, ◌%◌, Bool, true, false, not, ◌&&◌, Option, none, some, List, [], ◌∷◌, ◌++◌, leb, ◌==◌,
  if◌then◌else◌, length, get_elem?, ◌>>=◌,
}
use ipk_chat_client.Common.{Exit, exit_success, exit_failure, MsgType}
use ipk_chat_client.MsgIdList.{list_contains, list_append}
use ipk_chat_client.Queue.{queue_add}
use ipk_chat_client.UdpMsg.Build.{udp_build_msg}
use ipk_chat_client.UdpMsg.Parse.{to_uint16}
use ipk_chat_client.CommUdp.State.{Udp, Round, recv_buffer, send_confirm}

-- How one turn of the loop ends: by a return, by a timeout (`continue`), or with a datagram put
-- aside.
pub data Turn : Type 0 where
  return : Exit → Turn
  timeout : Turn
  aside : Turn

-- A call that returned, one that waits for the network, and one that left a block.
pub data Outcome : Type 0 where
  done : Exit → Udp → Outcome
  waiting : Udp → Outcome
  fault : Outcome

-- Puts an unseen datagram in the queue, and then its id in the list.
unfoldable pub put_aside : Round → List ℕ → ℕ → ℕ → Udp → Option (Turn × Udp)
put_aside r buffer b_rcv id s = list_contains s.ids id >>= λ seen.
    if seen
    then some (aside, s)
    else queue_add r.copy_allocated buffer b_rcv s.queue >>= λ added.
        let s' = record s { queue = added.1 } in
        if added.0
        then (list_append r.list_grown id s.ids >>= λ stored.
            let s'' = record s' { ids = stored.1 } in
            elim stored.0 [
              | exit_success ↦ some (aside, s'')
              | exit_failure ↦ some (return exit_failure, s'')
            ])
        else some (return exit_failure, s')

-- The other branch: a datagram that is not the awaited CONFIRM is confirmed, unless it is a CONFIRM
-- itself, and put aside.
unfoldable pub keep_datagram : Round → List ℕ → ℕ → ℕ → ℕ → Udp → Option (Turn × Udp)
keep_datagram r buffer b_rcv type id s =
    if type == 0
    then put_aside r buffer b_rcv id s
    else let (confirmed, s') = send_confirm r id s in
      elim confirmed [
        | exit_success ↦ put_aside r buffer b_rcv id s'
        | exit_failure ↦ some (return exit_failure, s')
      ]

-- The awaited CONFIRM. The id counts modulo 2^16.
abbrev pub next_id : Udp → Udp
next_id s = record s { client = record s.client { msg_id = (s.client.msg_id + 1) % 65536 } }

-- What the loop does with a received datagram.
unfoldable pub take_datagram : Round → Udp → Option (Turn × Udp)
take_datagram r s =
    let buffer = recv_buffer b'0' r.datagram in
    let b_rcv = length r.datagram in
    get_elem? buffer 0 >>= λ type. to_uint16 buffer 1 >>= λ id.
    if b_rcv == 3 && (type == 0 && s.client.msg_id == id)
    then some (return exit_success, next_id s)
    else keep_datagram r buffer b_rcv type id s

-- The `recvfrom` of one turn and what follows it.
unfoldable pub receive : Round → Udp → Option (Turn × Udp)
receive r s = elim r.datagram [
  | [] ↦ if r.errno_again then some (timeout, s) else some (return exit_failure, s)
  | _ ∷ _ ↦ take_datagram r s
]

-- One turn of the loop, for the frame to send.
unfoldable pub turn : List ℕ → Bool → Round → Udp → Option (Turn × Udp)
turn frame resend r s =
    if resend && not r.frame_sent
    then some (return exit_failure, s)
    else receive r (if resend then record s { sent = s.sent ++ frame ∷ [] } else s)

-- The loop at counter `i`; a datagram put aside leaves the counter as it was (`i--` and then
-- `i++`). The rounds are the network's answers in order, and where they end the call still waits.
unfoldable pub send_loop : ℕ → List ℕ → ℕ → Bool → Udp → List Round → Outcome
send_loop limit frame i resend s [] = if leb i limit then waiting s else done exit_failure s
send_loop limit frame i resend s (r ∷ rounds) = elim (leb i limit) [
  | false ↦ done exit_failure s
  | true ↦ elim (turn frame resend r s) [
    | none ↦ fault
    | some (t, s') ↦ elim t [
      | return e ↦ done e s'
      | timeout ↦ send_loop limit frame (i + 1) true s' rounds
      | aside ↦ send_loop limit frame i false s' rounds
    ]
  ]
]

-- `allocated` says whether the message block is allocated.
unfoldable pub udp_send_msg : ℕ → Bool → MsgType → Udp → List Round → Outcome
udp_send_msg retransmissions allocated type s rounds =
    elim (udp_build_msg allocated type s.client) [
      | none ↦ fault
      | some o ↦ elim o [
        | none ↦ done exit_failure s
        | some f ↦ send_loop retransmissions f.0 0 true s rounds
      ]
    ]
