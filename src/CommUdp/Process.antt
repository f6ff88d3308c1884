-- ===== src/CommUdp/Process.antt =====
-- `udp_process_msg`, `udp_recv_msg` and `udp_check_previous` of src/comm_udp.c.
use ipk_chat_client.Base.{
  ℕ, ◌%◌, Bool, true, false, Option, none, some, List, [], ◌∷◌, ◌++◌, leb, ◌==◌, if◌then◌else◌,
  length, get_elem?, ◌>>=◌,
}
use ipk_chat_client.Common.{
  exit_success, exit_failure, MsgType, confirm, reply, auth, join, msg, error, local, ping, err,
  bye, type_code, error_line, Client,
}
use ipk_chat_client.MsgIdList.{list_contains, list_append}
use ipk_chat_client.Queue.{queue_is_empty, queue_front}
use ipk_chat_client.UdpMsg.Build.{header_size}
use ipk_chat_client.UdpMsg.Parse.{
  Parsed, to_uint16, udp_parse_confirm, udp_parse_reply, udp_parse_unexpected, udp_parse_msg,
  udp_parse_err, udp_parse_bye, udp_parse_ping,
}
use ipk_chat_client.CommUdp.State.{Udp, Round, recv_buffer, send_confirm}

-- `udp_msg_t` and the table `msg`.
pub record UdpMsg : Type 0 where
  pub type : MsgType
  pub parse_func : Client → List ℕ → ℕ → Parsed

unfoldable pub msg_table : List UdpMsg
msg_table =
    record { type = confirm; parse_func = udp_parse_confirm }
    ∷ record { type = reply; parse_func = udp_parse_reply }
    ∷ record { type = auth; parse_func = udp_parse_unexpected }
    ∷ record { type = join; parse_func = udp_parse_unexpected }
    ∷ record { type = msg; parse_func = udp_parse_msg }
    ∷ record { type = err; parse_func = udp_parse_err }
    ∷ record { type = bye; parse_func = udp_parse_bye }
    ∷ record { type = ping; parse_func = udp_parse_ping }
    ∷ []

-- The printed lines go to stdout.
abbrev pub finish : Udp → Parsed → Option (MsgType × Udp)
finish s parsed = parsed >>= λ p. some (p.0, record s { out = s.out ++ p.1 })

-- The `store` part of `udp_process_msg` and then the parser: `grown` says whether the id list
-- grows.
unfoldable pub store_and_parse :
    (Client → List ℕ → ℕ → Parsed) → Bool → List ℕ → ℕ → Bool → Udp → Option (MsgType × Udp)
store_and_parse parse_func grown buffer msg_len store s =
    if store
    then (to_uint16 buffer 1 >>= λ id. list_contains s.ids id >>= λ seen.
        if seen
        then some (local, s)
        else list_append grown id s.ids >>= λ r.
            let s' = record s { ids = r.1 } in
            elim r.0 [
              | exit_success ↦ finish s' (parse_func s.client buffer msg_len)
              | exit_failure ↦ some (error, s')
            ])
    else finish s (parse_func s.client buffer msg_len)

-- The loop over the table, for the first byte `type` of the message.
unfoldable pub process_from :
    List UdpMsg → ℕ → Bool → List ℕ → ℕ → Bool → Udp → Option (MsgType × Udp)
process_from [] type grown buffer msg_len store s =
    some (error, record s { out = s.out ++ error_line "ERROR: Unknown message" ∷ [] })
process_from (entry ∷ table) type grown buffer msg_len store s =
    if type % 256 == type_code entry.type
    then store_and_parse entry.parse_func grown buffer msg_len store s
    else process_from table type grown buffer msg_len store s

unfoldable pub udp_process_msg : Bool → List ℕ → ℕ → Bool → Udp → Option (MsgType × Udp)
udp_process_msg grown buffer msg_len store s =
    get_elem? buffer 0 >>= λ type. process_from msg_table type grown buffer msg_len store s

-- A datagram shorter than the header, 0 and -1 included, is a fault of `recvfrom` to the code.
unfoldable pub udp_recv_msg : Round → Udp → Option (MsgType × Udp)
udp_recv_msg r s =
    let buffer = recv_buffer 0 r.datagram in
    let b_rcv = length r.datagram in
    if leb header_size b_rcv
    then (get_elem? buffer 0 >>= λ type. to_uint16 buffer 1 >>= λ id.
        if type == 0
        then udp_process_msg r.list_grown buffer b_rcv true s
        else let (confirmed, s') = send_confirm r id s in
          elim confirmed [
            | exit_success ↦ udp_process_msg r.list_grown buffer b_rcv true s'
            | exit_failure ↦ some (error, s')
          ])
    else some (error, record s { out = s.out ++ error_line "ERROR: recvfrom fault" ∷ [] })

-- The type goes through the pointer argument; `none` inside is the result `false`.
unfoldable pub udp_check_previous : Udp → Option (Option MsgType × Udp)
udp_check_previous s =
    if queue_is_empty s.queue
    then some (none, s)
    else queue_front s.queue >>= λ r. elim r.0 [
      | none ↦ none
      | some m ↦ udp_process_msg true m.msg m.msg_len false (record s { queue = r.1 }) >>= λ p.
          some (some p.0, p.1)
    ]
