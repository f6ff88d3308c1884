-- ===== src/Comm/UdpKeeps.antt =====
-- What the changes of the globals keep, receiving over UDP keeps.
pub mod Sending
use mathlib.Core.Path.{subst}
use ipk_chat_client.Base.{
  ap, ◌∙◌, ◌<◌, ◌*◌, inl, inr, Option-cases, ℕ, ◌+◌, ◌%◌, ◌≡◌, refl, Bool, true, false, not, ◌&&◌,
  Option, none, some, List, [], ◌∷◌, ◌++◌, arith, if◌then◌else◌, ◌>>=◌, ◌==◌, leb, length,
  get_elem?,
}
use ipk_chat_client.Common.{
  Exit, exit_success, exit_failure, MsgType, confirm, type_code, Client, Out,
}
use ipk_chat_client.Input.Laws.{IsValid, IsReady}
use ipk_chat_client.MsgIdList.{MsgIdList, list_contains, list_append}
use ipk_chat_client.MsgIdList.Recorded.{IsRecorded, list_append-IsRecorded}
use ipk_chat_client.Queue.{Msg, MsgQueue, queue_add, queue_front, queue_is_empty}
use ipk_chat_client.Queue.Laws as Queue
use ipk_chat_client.Queue.Laws.{queue_front-IsValid}
use ipk_chat_client.UdpMsg.Build.{header_size, build_header, udp_build_msg}
use ipk_chat_client.UdpMsg.Parse.{Parsed, to_uint16}
use ipk_chat_client.CommUdp.State.{Udp, Round, send_confirm, recv_buffer}
use ipk_chat_client.CommUdp.Process.{
  UdpMsg, msg_table, store_and_parse, process_from, udp_process_msg, udp_recv_msg,
  udp_check_previous, finish,
}
use ipk_chat_client.CommUdp.Send.{
  Turn, return, timeout, aside, Outcome, done, waiting, fault, put_aside, keep_datagram, next_id,
  take_datagram, receive, turn, send_loop, udp_send_msg,
}
use ipk_chat_client.Comm.{Keeps, returned}
use ipk_chat_client.Comm.After.{
  After, after_bind, after_result, after_test, after_if, after_exit, After-some, After_holds,
}
use ipk_chat_client.Comm.Variants.{called, udp_comm}

-- A property of the globals that every change of one of them keeps, where every datagram that goes
-- out is `Good`, a valid queue stays valid and the ids stay different, and that says that the client's data are valid.
pub record Stable (P : Udp → Type 0) (Good : List ℕ → Type 0) : Type 0 where
  pub valid : (s : Udp) → P s → IsValid s.client
  pub client : (c : Client) (s : Udp) → IsValid c → P s → P (record s { client = c })
  pub out : (out : List Out) (s : Udp) → P s → P (record s { out = out })
  pub ids :
      (ids : MsgIdList) (s : Udp)
      → (IsRecorded s.ids → IsRecorded ids)
      → P s
      → P (record s { ids = ids })
  pub queue :
      (queue : MsgQueue) (s : Udp)
      → (Queue.IsValid s.queue → Queue.IsValid queue)
      → P s
      → P (record s { queue = queue })
  pub sends : (d : List ℕ) (s : Udp) → Good d → P s → P (record s { sent = s.sent ++ d ∷ [] })
  pub confirms :
      (allocated : Bool) (id : ℕ) (d : List ℕ)
      → build_header allocated confirm id 0 ≡ some d
      → Good d
  pub builds :
      (allocated : Bool) (type : MsgType) (c : Client) (d : List ℕ) (n : ℕ)
      → IsValid c
      → IsReady type c
      → udp_build_msg allocated type c ≡ some (some (d, n))
      → Good d

pub to_uint16-lt : (b : List ℕ) (off : ℕ) {n : ℕ} → to_uint16 b off ≡ some n → n < 65536
unfolding to_uint16
to_uint16-lt b off {n = n} h = elim (Option-cases (get_elem? b off)) [
  | inl missing ↦ absurd (ground (arith, missing, h))
  | inr (high, got) ↦ elim (Option-cases (get_elem? b (off + 1))) [
    | inl missing ↦ absurd (ground (arith, got, missing, h))
    | inr (low, got') ↦
        let value : high % 256 * 256 + low % 256 ≡ n = ground (arith, got, got', h) in
        omega (arith, value)
  ]
]

module _ (P : Udp → Type 0) (Good : List ℕ → Type 0) (laws : Stable P Good) where
  abbrev pub Q : {X : Type 0} → Option (X × Udp) → Type 0
  Q o = After P o

  finish-Q : (s : Udp) (p : Parsed) → P s → Q (finish s p)
  finish-Q s none h = tt
  finish-Q s (some r) h = laws.out (s.out ++ r.1) s h

  store_and_parse-Q :
      (f : Client → List ℕ → ℕ → Parsed) (grown : Bool) (buffer : List ℕ) (n : ℕ) (store : Bool)
      (s : Udp)
      → P s
      → Q (store_and_parse f grown buffer n store s)
  unfolding store_and_parse
  store_and_parse-Q f grown buffer n store s h =
      after_if Q store
        (after_result Q (to_uint16 buffer 1) _ tt (λ id read.
          after_result Q (list_contains s.ids id) _ tt (λ seen found.
            after_test Q seen (λ _. h)
              (λ new. after_result Q (list_append grown id s.ids) _ tt (λ r added.
                let s' = record s { ids = r.1 } in
                let keep =
                  list_append-IsRecorded s.ids id grown r (to_uint16-lt buffer 1 read)
                    (found ∙ ap some new) added in
                let h' = laws.ids r.1 s keep h in
                after_exit Q r.0 (finish-Q s' (f s.client buffer n) h') h')))))
        (finish-Q s (f s.client buffer n) h)

  process_from-Q :
      (table : List UdpMsg) (type : ℕ) (grown : Bool) (buffer : List ℕ) (n : ℕ) (store : Bool)
      (s : Udp)
      → P s
      → Q (process_from table type grown buffer n store s)
  unfolding process_from
  process_from-Q [] type grown buffer n store s h = laws.out _ s h
  process_from-Q (entry ∷ table) type grown buffer n store s h =
      after_if Q (type % 256 == type_code entry.type)
        (store_and_parse-Q entry.parse_func grown buffer n store s h)
        (process_from-Q table type grown buffer n store s h)

  udp_process_msg-Q :
      (grown : Bool) (buffer : List ℕ) (n : ℕ) (store : Bool) (s : Udp)
      → P s
      → Q (udp_process_msg grown buffer n store s)
  unfolding udp_process_msg
  udp_process_msg-Q grown buffer n store s h =
      after_bind Q (get_elem? buffer 0) _ tt
        (λ type. process_from-Q msg_table type grown buffer n store s h)

  confirm_sent :
      (r : Round) (s : Udp) (o : Option (List ℕ))
      → ((d : List ℕ) → o ≡ some d → Good d)
      → P s
      → let sent : Exit × Udp = elim o [
        | none ↦ (exit_failure, s)
        | some block ↦
            if r.confirm_sent
            then (exit_success, record s { sent = s.sent ++ block ∷ [] })
            else (exit_failure, s)
      ] in
        P sent.1
  confirm_sent r s none good h = h
  confirm_sent r s (some d) good h =
      after_if (λ (x : Exit × Udp). P x.1) r.confirm_sent (laws.sends d s (good d refl) h) h

  pub send_confirm-P : (r : Round) (id : ℕ) (s : Udp) → P s → P (send_confirm r id s).1
  unfolding send_confirm
  send_confirm-P r id s h =
      confirm_sent r s (build_header r.confirm_allocated confirm id 0)
        (λ d built. laws.confirms r.confirm_allocated id d built) h

  pub udp_recv_msg-Q : (r : Round) (s : Udp) → P s → Q (udp_recv_msg r s)
  unfolding udp_recv_msg
  udp_recv_msg-Q r s h =
      let buffer = recv_buffer 0 r.datagram in
      let b_rcv = length r.datagram in
      after_if Q (leb header_size b_rcv)
        (after_bind Q (get_elem? buffer 0) _ tt (λ type.
          after_bind Q (to_uint16 buffer 1) _ tt (λ id.
            let s' = (send_confirm r id s).1 in
            let h' = send_confirm-P r id s h in
            after_if Q (type == 0) (udp_process_msg-Q r.list_grown buffer b_rcv true s h) (
              after_exit Q (send_confirm r id s).0
                (udp_process_msg-Q r.list_grown buffer b_rcv true s' h') h'))))
        (laws.out _ s h)

  taken_from_queue :
      (m : Option Msg) (s : Udp)
      → P s
      → Q {X = Option MsgType} (elim m [
        | none ↦ none
        | some m ↦ udp_process_msg true m.msg m.msg_len false s >>= λ p. some (some p.0, p.1)
      ])
  taken_from_queue none s h = tt
  taken_from_queue (some m) s h =
      After-some P (udp_process_msg true m.msg m.msg_len false s)
        (udp_process_msg-Q true m.msg m.msg_len false s h)

  pub udp_check_previous-Q : (s : Udp) → P s → Q (udp_check_previous s)
  unfolding udp_check_previous
  udp_check_previous-Q s h = after_if Q (queue_is_empty s.queue) h (
      after_result Q (queue_front s.queue) _ tt (λ r got.
        taken_from_queue r.0 (record s { queue = r.1 })
          (laws.queue r.1 s (λ v. queue_front-IsValid s.queue r.0 v got) h)))
