-- ===== src/CommUdp/Readable.antt =====
-- Which blocks the table of parsers of src/comm_udp.c reads without leaving them.
use mathlib.Core.Path.{subst}
use ipk_chat_client.Base.{
  Bool, true, ℕ, zero, ◌+◌, ◌-◌, ◌%◌, ◌<◌, ◌≤◌, ◌≡◌, refl, sym, inl, inr, true, false, Bool-cases,
  Option, some, List, [], ◌∷◌, ◌++◌, arith, ◌==◌, length, length-append, replicate,
  length-replicate, replicate-add, append_assoc, All,
}
use ipk_chat_client.Common.{MsgType, type_code, Out, Client, buffer_size}
use ipk_chat_client.MsgIdList.Laws as IdLaws
use ipk_chat_client.MsgIdList.Laws.{elem, ids}
use ipk_chat_client.UdpMsg.Parse.{Parsed}
use ipk_chat_client.UdpMsg.Total.{
  udp_parse_confirm-IsTotal, udp_parse_reply-IsTotal, udp_parse_unexpected-IsTotal,
  udp_parse_msg-IsTotal, udp_parse_err-IsTotal, udp_parse_bye-IsTotal, udp_parse_ping-IsTotal,
}
use ipk_chat_client.CommUdp.State.{Udp, recv_buffer}
use ipk_chat_client.CommUdp.Process.{UdpMsg, msg_table, store_and_parse, process_from}
use ipk_chat_client.Base.{
  le_refl, replicate, replicate-add, length-replicate, append_assoc, ◌<◌, ◌-◌, ◌⊎◌,
}
use ipk_chat_client.MsgIdList.{MsgIdList}
use ipk_chat_client.Common.{local, buffer_size}
use ipk_chat_client.CommUdp.State.{recv_buffer}
use ipk_chat_client.UdpMsg.Parse.{to_uint16}
use ipk_chat_client.UdpMsg.Total.{IsTotal, short_reply, short_bye, short_msg, short_err}

-- Every parser of the table gives a result.
abbrev pub AllTotal : Client → List ℕ → ℕ → List UdpMsg → Type 0
AllTotal client b len table = All (λ e. IsTotal client b len e.parse_func) table

-- Whatever the datagram, all eight parsers give a result on a block of at least its bytes that ends
-- in a NUL: none of them reads outside the block.
pub msg_table-total :
    (client : Client) (m : List ℕ) (len : ℕ)
    → len ≤ length m + 1
    → AllTotal client (m ++ zero ∷ []) len msg_table
unfolding msg_table
msg_table-total client m len h = (
  udp_parse_confirm-IsTotal client (m ++ zero ∷ []) len
      (omega (arith, h, length-append {0} m (zero ∷ []))),
  (
    udp_parse_reply-IsTotal client m len h,
    (
      udp_parse_unexpected-IsTotal client (m ++ zero ∷ []) len,
      (
        udp_parse_unexpected-IsTotal client (m ++ zero ∷ []) len,
        (
          udp_parse_msg-IsTotal client m len h,
          (
            udp_parse_err-IsTotal client m len h,
            (
              udp_parse_bye-IsTotal client m len h,
              (udp_parse_ping-IsTotal client (m ++ zero ∷ []) len, tt),
            ),
          ),
        ),
      ),
    ),
  ),
)

msg_table-short :
    (client : Client) (b : List ℕ) → length b ≤ 3 → AllTotal client b (length b) msg_table
unfolding msg_table
msg_table-short client b h = (
  udp_parse_confirm-IsTotal client b (length b) (le_refl (length b)),
  (
    short_reply client b h,
    (
      udp_parse_unexpected-IsTotal client b (length b),
      (
        udp_parse_unexpected-IsTotal client b (length b),
        (
          short_msg client b h,
          (
            short_err client b h,
            (short_bye client b h, (udp_parse_ping-IsTotal client b (length b), tt)),
          ),
        ),
      ),
    ),
  ),
)

-- At most three bytes, or a NUL at the end.
abbrev pub IsTerminated : List ℕ → Type 0
IsTerminated d = (length d ≤ 3) ⊎ ((m : List ℕ) × (d ≡ m ++ zero ∷ []))

-- So the parsers read a block of just these bytes without leaving it.
pub IsTerminated-AllTotal :
    (client : Client) (d : List ℕ) → IsTerminated d → AllTotal client d (length d) msg_table
IsTerminated-AllTotal client d (inl short) = msg_table-short client d short
IsTerminated-AllTotal client d (inr (m, e)) =
    subst (λ x. AllTotal client x (length x) msg_table) (sym e)
      (msg_table-total client m (length (m ++ zero ∷ []))
        (omega (arith, length-append {0} m (zero ∷ []))))

-- Without a new id, only what is printed changes.
abbrev pub PrintsOnly : Udp → Option (MsgType × Udp) → Type 0
PrintsOnly s r = (t : MsgType) × (out : List Out) × (r ≡ some (t, record s { out = out }))

pub process_from_known :
    (table : List UdpMsg) (type : ℕ) (grown : Bool) (b : List ℕ) (len : ℕ) (s : Udp)
    → AllTotal s.client b len table
    → PrintsOnly s (process_from table type grown b len false s)
unfolding process_from store_and_parse
process_from_known [] type grown b len s all = (_, _, refl)
process_from_known (e ∷ table) type grown b len s ((p, parsed), all) =
    elim (Bool-cases (type % 256 == type_code e.type)) [
      | inl here ↦ (p.0, s.out ++ p.1, rw (here, parsed) refl)
      | inr later ↦ rw later (process_from_known table type grown b len s all)
    ]

-- With memory for the list, the globals after a message is stored and parsed: the list is valid
-- still.
abbrev pub Stores : Udp → Option (MsgType × Udp) → Type 0
Stores s r =
    (t : MsgType) × (l : MsgIdList) × (out : List Out) × (r
      ≡ some (t, record s { ids = l; out = out }))
    × IdLaws.IsValid l

store_and_parse_known :
    (parse : Client → List ℕ → ℕ → Parsed) (b : List ℕ) (len id : ℕ) (s : Udp)
    → to_uint16 b 1 ≡ some id
    → IdLaws.IsValid s.ids
    → IsTotal s.client b len parse
    → Stores s (store_and_parse parse true b len true s)
unfolding store_and_parse
store_and_parse_known parse b len id s read v (p, parsed) =
    let scan = IdLaws.list_contains_lem s.ids id v in
    let (l, append, vl, holds) = IdLaws.list_append_lem s.ids id v in
    elim (Bool-cases (elem id (ids s.ids))) [
      | inl old ↦ (local, s.ids, s.out, rw (read, scan, old) refl, v)
      | inr new ↦ (p.0, l, s.out ++ p.1, rw (read, scan, new, append, parsed) refl, vl)
    ]

pub process_from_stored :
    (table : List UdpMsg) (type : ℕ) (b : List ℕ) (len id : ℕ) (s : Udp)
    → to_uint16 b 1 ≡ some id
    → IdLaws.IsValid s.ids
    → AllTotal s.client b len table
    → Stores s (process_from table type true b len true s)
unfolding process_from
process_from_stored [] type b len id s read v all = (_, s.ids, _, refl, v)
process_from_stored (e ∷ table) type b len id s read v (total, all) =
    elim (Bool-cases (type % 256 == type_code e.type)) [
      | inl here ↦ rw here (store_and_parse_known e.parse_func b len id s read v total)
      | inr later ↦ rw later (process_from_stored table type b len id s read v all)
    ]

-- The receive buffer ends in a NUL behind a datagram that is shorter.
pub recv_buffer-ends :
    (c : ℕ) (d : List ℕ)
    → length (c ∷ d) < buffer_size
    → (m : List ℕ) × (recv_buffer 0 (c ∷ d) ≡ m ++ zero ∷ []) × (length m ≡ 65534)
unfolding recv_buffer
recv_buffer-ends c d h =
    let n = 65534 - length (c ∷ d) in
    let more : buffer_size - length (c ∷ d) ≡ n + 1 = omega arith in
    (
      (c ∷ d) ++ replicate n 0,
      rw (more, replicate-add {A = ℕ} n 1 0)
          (sym (append_assoc (c ∷ d) (replicate n 0) (zero ∷ []))),
      omega (arith, length-append {0} (c ∷ d) (replicate n 0), length-replicate {A = ℕ} n 0),
    )
