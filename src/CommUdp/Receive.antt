-- ===== src/CommUdp/Receive.antt =====
-- Duplicates: a received id is processed once, and what the id list does with a stray CONFIRM.
use ipk_chat_client.Base.{
  ℕ, ◌+◌, ◌*◌, ◌%◌, ◌≡◌, refl, ap, sym, ◌∙◌, inl, inr, Bool, true, false, ◌||◌, Bool-cases,
  Option-cases, some, List, [], ◌∷◌, ◌++◌, arith, ◌==◌, if◌then◌else◌, length,
}
use ipk_chat_client.Common.{MsgType, confirm, local, type_code, Out, Client}
use ipk_chat_client.MsgIdList.{MsgIdList, list_contains}
use ipk_chat_client.MsgIdList.Laws as IdLaws
use ipk_chat_client.MsgIdList.Laws.{elem, ids, elem-append}
use ipk_chat_client.UdpMsg.Build.{build_header}
use ipk_chat_client.UdpMsg.Parse.{Parsed, to_uint16}
use ipk_chat_client.UdpMsg.Frames.{header}
use ipk_chat_client.CommUdp.State.{Udp, Round, recv_buffer, send_confirm}
use ipk_chat_client.CommUdp.Process.{
  UdpMsg, msg_table, store_and_parse, process_from, udp_process_msg, udp_recv_msg,
}

-- The table has an entry for the first byte of the message.
abbrev pub knows : List UdpMsg → ℕ → Bool
knows [] type = false
knows (e ∷ table) type = type % 256 == type_code e.type || knows table type

module _ (grown : Bool) (buffer : List ℕ) (len id : ℕ) (read : to_uint16 buffer 1 ≡ some id) where
  pub process_from_seen :
      (table : List UdpMsg) (type : ℕ) (s : Udp)
      → knows table type ≡ true
      → list_contains s.ids id ≡ some true
      → process_from table type grown buffer len true s ≡ some (local, s)
  unfolding process_from store_and_parse
  process_from_seen [] type s k seen = cc
  process_from_seen (e ∷ table) type s k seen =
      ground (arith, read, seen, process_from_seen table type s)

-- After a message was processed with `store` its id is in the list, which is valid, unless the list
-- could not grow; the client's data and the queue are as they were.
abbrev Stored : ℕ → Udp → Udp → Type 0
Stored id s s' =
    IdLaws.IsValid s'.ids
    × (elem id (ids s'.ids) ≡ true)
    × (s'.client ≡ s.client)
    × (s'.queue ≡ s.queue)

elem_last : (n : ℕ) (xs : List ℕ) → elem n (xs ++ n ∷ []) ≡ true
elem_last n xs = rw elem-append (ground arith)

Stored-of_eq :
    (id : ℕ) (s s' : Udp) (l : MsgIdList) (o : List Out)
    → s' ≡ record s { ids = l; out = o }
    → IdLaws.IsValid l
    → elem id (ids l) ≡ true
    → Stored id s s'
Stored-of_eq id s s' l o e v h = rw e (v, h, refl, refl)

store_and_parse-Stored :
    (parse : Client → List ℕ → ℕ → Parsed) (buffer : List ℕ) (len id : ℕ) (s : Udp) (t : MsgType)
    (s' : Udp)
    → to_uint16 buffer 1 ≡ some id
    → IdLaws.IsValid s.ids
    → store_and_parse parse true buffer len true s ≡ some (t, s')
    → Stored id s s'
unfolding store_and_parse
store_and_parse-Stored parse buffer len id s t s' read v h =
    let scan = IdLaws.list_contains_lem s.ids id v in
    let (l, append, vl, holds) = IdLaws.list_append_lem s.ids id v in
    elim (Bool-cases (elem id (ids s.ids))) [
      | inl seen ↦ Stored-of_eq id s s' s.ids s.out (ground (arith, read, scan, seen)) v seen
      | inr unseen ↦ elim (Option-cases (parse s.client buffer len)) [
        | inl e ↦ absurd (ground (arith, read, scan, unseen, append, e))
        | inr ((t', out), e) ↦
            Stored-of_eq id s s' l (s.out ++ out) (ground (arith, read, scan, unseen, append, e)) vl
              (rw holds (elem_last id (ids s.ids)))
      ]
    ]

process_from-Stored :
    (table : List UdpMsg) (type : ℕ) (buffer : List ℕ) (len id : ℕ) (s : Udp) (t : MsgType)
    (s' : Udp)
    → knows table type ≡ true
    → to_uint16 buffer 1 ≡ some id
    → IdLaws.IsValid s.ids
    → process_from table type true buffer len true s ≡ some (t, s')
    → Stored id s s'
unfolding process_from
process_from-Stored [] type buffer len id s t s' k read v h = absurd (cc)
process_from-Stored (e ∷ table) type buffer len id s t s' k read v h =
    elim (Bool-cases (type % 256 == type_code e.type)) [
      | inl here ↦
          store_and_parse-Stored e.parse_func buffer len id s t s' read v (ground (arith, here))
      | inr later ↦
          process_from-Stored table type buffer len id s t s' (ground (arith, later)) read v
            (ground (arith, later))
    ]

-- The id in a datagram of at least three bytes.
abbrev pub datagram_id : ℕ → ℕ → ℕ
datagram_id high low = high % 256 * 256 + low % 256

-- The globals once the datagram is confirmed, which a CONFIRM is not.
abbrev pub acknowledged : ℕ → ℕ → Udp → Udp
acknowledged type id s =
    if type == 0 then s else record s { sent = s.sent ++ header confirm id ∷ [] }

-- Receiving a datagram that is longer than the header, once it can be confirmed, is processing it.
pub recv_is_process :
    (r : Round) (s : Udp) (type high low : ℕ) (rest : List ℕ)
    → r.datagram ≡ type ∷ high ∷ low ∷ rest
    → r.confirm_allocated ≡ true
    → r.confirm_sent ≡ true
    → udp_recv_msg r s
      ≡ process_from msg_table type r.list_grown
          (recv_buffer 0 (type ∷ high ∷ low ∷ rest))
          (length (type ∷ high ∷ low ∷ rest))
          true
          (acknowledged type (datagram_id high low) s)
unfolding udp_recv_msg udp_process_msg to_uint16 recv_buffer send_confirm build_header
recv_is_process r s type high low rest d a c = ground (arith, d, a, c)

pub to_uint16-recv_buffer :
    (first type high low : ℕ) (rest : List ℕ)
    → to_uint16 (recv_buffer first (type ∷ high ∷ low ∷ rest)) 1 ≡ some (datagram_id high low)
unfolding to_uint16 recv_buffer
to_uint16-recv_buffer first type high low rest = refl

pub ids-acknowledged : (type id : ℕ) (s : Udp) → (acknowledged type id s).ids ≡ s.ids
ids-acknowledged type id s = ground arith

-- A datagram of a known type whose id is in the valid list is confirmed again, unless it is a
-- CONFIRM, and changes nothing else: it is not parsed, and nothing is printed.
pub udp_recv_msg_duplicate :
    (r : Round) (s : Udp) (type high low : ℕ) (rest : List ℕ)
    → r.datagram ≡ type ∷ high ∷ low ∷ rest
    → r.confirm_allocated ≡ true
    → r.confirm_sent ≡ true
    → knows msg_table type ≡ true
    → IdLaws.IsValid s.ids
    → elem (datagram_id high low) (ids s.ids) ≡ true
    → udp_recv_msg r s ≡ some (local, acknowledged type (datagram_id high low) s)
udp_recv_msg_duplicate r s type high low rest d a c k v seen =
    let id = datagram_id high low in
    recv_is_process r s type high low rest d a c
    ∙ process_from_seen r.list_grown (recv_buffer 0 (type ∷ high ∷ low ∷ rest))
        (length (type ∷ high ∷ low ∷ rest)) id (to_uint16-recv_buffer 0 type high low rest)
        msg_table type (acknowledged type id s) k
        (rw (ids-acknowledged type id s) (IdLaws.list_contains_lem s.ids id v ∙ ap some seen))

-- Whatever a received datagram of a known type was, when the list can grow, the same datagram or
-- any other with its id that comes next is a duplicate: nothing of it is parsed or printed.
pub udp_recv_msg_twice :
    (r r' : Round) (s s' : Udp) (t : MsgType) (type type' high low : ℕ) (rest rest' : List ℕ)
    → r.datagram ≡ type ∷ high ∷ low ∷ rest
    → r.confirm_allocated ≡ true
    → r.confirm_sent ≡ true
    → r.list_grown ≡ true
    → knows msg_table type ≡ true
    → IdLaws.IsValid s.ids
    → udp_recv_msg r s ≡ some (t, s')
    → r'.datagram ≡ type' ∷ high ∷ low ∷ rest'
    → r'.confirm_allocated ≡ true
    → r'.confirm_sent ≡ true
    → knows msg_table type' ≡ true
    → udp_recv_msg r' s' ≡ some (local, acknowledged type' (datagram_id high low) s')
udp_recv_msg_twice r r' s s' t type type' high low rest rest' d a c g k v first d' a' c' k' =
    let id = datagram_id high low in
    let buffer = recv_buffer 0 (type ∷ high ∷ low ∷ rest) in
    let len = length (type ∷ high ∷ low ∷ rest) in
    let processed : process_from msg_table type true buffer len true (acknowledged type id s)
        ≡ some (t, s') =
      rw g at (sym (recv_is_process r s type high low rest d a c) ∙ first) in
    let (v', stored, _, _) =
      process_from-Stored msg_table type buffer len id (acknowledged type id s) t s' k
        (to_uint16-recv_buffer 0 type high low rest) (rw (ids-acknowledged type id s) v)
        processed in
    udp_recv_msg_duplicate r' s' type' high low rest' d' a' c' k' v' stored
