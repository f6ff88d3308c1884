-- ===== src/CommUdp/Known.antt =====
-- Received datagrams of known types: what their parsers make of them, and that no read leaves the
-- buffer.
use ipk_chat_client.Base.{
  ℕ, zero, ◌%◌, ◌<◌, ◌≡◌, refl, inl, inr, true, false, Bool-cases, Option, none, some, List, [],
  ◌∷◌, ◌++◌, arith, ◌==◌, if◌then◌else◌, length, All, ◌>>=◌,
}
use ipk_chat_client.Common.{MsgType, type_code, Out, Client, buffer_size}
use ipk_chat_client.MsgIdList.Laws as IdLaws
use ipk_chat_client.MsgIdList.Laws.{elem, ids}
use ipk_chat_client.UdpMsg.Parse.{Parsed}
use ipk_chat_client.CommUdp.State.{Udp, Round, recv_buffer}
use ipk_chat_client.CommUdp.Process.{UdpMsg, msg_table, store_and_parse, process_from, udp_recv_msg}
use ipk_chat_client.CommUdp.Readable.{msg_table-total, recv_buffer-ends}
use ipk_chat_client.CommUdp.Receive.{knows, datagram_id, to_uint16-recv_buffer}

-- The first four parts of a datagram.
pub record Datagram : Type 0 where
  pub type : ℕ
  pub high : ℕ
  pub low : ℕ
  pub rest : List ℕ

abbrev pub bytes : Datagram → List ℕ
bytes d = d.type ∷ d.high ∷ d.low ∷ d.rest

abbrev pub id : Datagram → ℕ
id d = datagram_id d.high d.low

-- It is of a type that the table knows, and shorter than the buffer.
pub record IsKnown (d : Datagram) : Type 0 where
  pub known : knows msg_table d.type ≡ true
  pub fits : length (bytes d) < buffer_size

-- The answers of the system while one datagram is received: nothing fails.
abbrev pub round : Datagram → Round
round d = record {
  frame_sent = true;
  datagram = bytes d;
  errno_again = false;
  confirm_allocated = true;
  confirm_sent = true;
  copy_allocated = true;
  list_grown = true;
}

-- One call of `udp_recv_msg` for each datagram: the types that the calls report.
unfoldable pub udp_recv_all : List Datagram → Udp → Option (List MsgType × Udp)
udp_recv_all [] s = some ([], s)
udp_recv_all (d ∷ ds) s =
    udp_recv_msg (round d) s >>= λ p. udp_recv_all ds p.1 >>= λ q. some (p.0 ∷ q.0, q.1)

-- The datagrams whose id is new, where those in `seen` are not.
abbrev pub fresh : List ℕ → List Datagram → List Datagram
fresh seen [] = []
fresh seen (d ∷ ds) =
    let again = fresh seen ds in
    let later = fresh (seen ++ id d ∷ []) ds in if elem (id d) seen then again else d ∷ later

-- What the parser of its type makes of a datagram.
unfoldable pub reading : List UdpMsg → Client → Datagram → Parsed
reading [] client d = none
reading (e ∷ table) client d =
    let rest = reading table client d in
    if d.type % 256 == type_code e.type
    then e.parse_func client (recv_buffer 0 (bytes d)) (length (bytes d))
    else rest

reading_of_table :
    (table : List UdpMsg) (client : Client) (d : Datagram) (b : List ℕ)
    → recv_buffer 0 (bytes d) ≡ b
    → knows table d.type ≡ true
    → All
        (λ e. (p : MsgType × List Out) × (e.parse_func client b (length (bytes d)) ≡ some p))
        table
    → (p : MsgType × List Out) × (reading table client d ≡ some p)
unfolding reading
reading_of_table [] client d b same k all = cc
reading_of_table (e ∷ table) client d b same k ((p, t), ts) =
    elim (Bool-cases (d.type % 256 == type_code e.type)) [
      | inl here ↦ (p, rw (here, same) t)
      | inr later ↦ rw later (reading_of_table table client d b same (ground (arith, later, k)) ts)
    ]

-- A known datagram is read without leaving the buffer.
pub reading-total :
    (client : Client) (d : Datagram)
    → IsKnown d
    → (p : MsgType × List Out) × (reading msg_table client d ≡ some p)
reading-total client d k =
    let (m, same, len) = recv_buffer-ends d.type (d.high ∷ d.low ∷ d.rest) k.fits in
    reading_of_table msg_table client d (m ++ zero ∷ []) same k.known
      (msg_table-total client m (length (bytes d)) (omega (arith, k.fits)))

-- What processing a new datagram makes of the globals.
abbrev pub Read : Datagram → MsgType × List Out → Udp → Option (MsgType × Udp) → Type 0
Read d p s r =
    (s' : Udp) × (r ≡ some (p.0, s'))
    × IdLaws.IsValid s'.ids
    × (ids s'.ids ≡ ids s.ids ++ id d ∷ [])
    × (s'.out ≡ s.out ++ p.1)
    × (s'.sent ≡ s.sent)
    × (s'.client ≡ s.client)
    × (s'.queue ≡ s.queue)

store_and_parse-Read :
    (parse : Client → List ℕ → ℕ → Parsed) (d : Datagram) (p : MsgType × List Out) (s : Udp)
    → IdLaws.IsValid s.ids
    → elem (id d) (ids s.ids) ≡ false
    → parse s.client (recv_buffer 0 (bytes d)) (length (bytes d)) ≡ some p
    → Read d p s (store_and_parse parse true (recv_buffer 0 (bytes d)) (length (bytes d)) true s)
unfolding store_and_parse
store_and_parse-Read parse d p s v new e =
    let scan = IdLaws.list_contains_lem s.ids (id d) v in
    let (l, append, vl, holds) = IdLaws.list_append_lem s.ids (id d) v in
    let number = to_uint16-recv_buffer 0 d.type d.high d.low d.rest in
    (
      record s { ids = l; out = s.out ++ p.1 },
      rw (number, scan, new, append, e) refl,
      vl,
      holds,
      refl,
      refl,
      refl,
      refl,
    )

pub process_from-Read :
    (table : List UdpMsg) (d : Datagram) (p : MsgType × List Out) (s : Udp)
    → IdLaws.IsValid s.ids
    → elem (id d) (ids s.ids) ≡ false
    → reading table s.client d ≡ some p
    → Read d p s
        (process_from table d.type true (recv_buffer 0 (bytes d)) (length (bytes d)) true s)
unfolding process_from reading
process_from-Read [] d p s v new e = cc
process_from-Read (x ∷ table) d p s v new e = elim (Bool-cases (d.type % 256 == type_code x.type)) [
  | inl here ↦ rw here (store_and_parse-Read x.parse_func d p s v new (rw here at e))
  | inr later ↦ rw later (process_from-Read table d p s v new (rw later at e))
]
