-- ===== src/Comm/WireKeeps.antt =====
-- What the calls of the two variants keep: the client's data are valid, and what goes out is of the
-- wire format.
use mathlib.Core.Path.{subst}
use ipk_chat_client.Base.{
  ℕ, ◌-◌, ◌≡◌, refl, sym, Bool, Option, none, some, List, [], ◌∷◌, ◌++◌, arith, All, All-snoc,
  if◌then◌else◌, ◌>>=◌, ltb, length, replicate, c_string,
}
use ipk_chat_client.Common.{Exit, exit_success, exit_failure, MsgType, local, buffer_size}
use ipk_chat_client.Input.Laws.{IsValid, IsReady}
use ipk_chat_client.Buffer.{buffer_append, buffer_get_msg}
use ipk_chat_client.MsgIdList.Recorded.{IsRecorded}
use ipk_chat_client.Queue.Laws as Queue
use ipk_chat_client.CommUdp.State.{Udp}
use ipk_chat_client.TcpMsg.Process.{
  Tcp, Received, data_of, broken, tcp_build_msg, tcp_send_msg, tcp_recv_msg, tcp_check_previous,
  process_block,
}
use ipk_chat_client.Comm.{Keeps, returned}
use ipk_chat_client.Comm.After.{After, after_bind, after_if, After-some, After_holds}
use ipk_chat_client.Comm.Wire.{
  IsDatagram, IsLine, build_header-IsDatagram, udp_build_msg-IsDatagram, tcp_build_msg-IsLine,
}
use ipk_chat_client.Comm.UdpKeeps.Sending as Sending
use ipk_chat_client.Comm.UdpKeeps.{Stable}
use ipk_chat_client.Comm.Variants.{udp_comm, tcp_comm}

-- The client's data are valid, and what was sent are datagrams of the wire format.
abbrev pub IsFine : Udp → Type 0
IsFine s = IsValid s.client × All IsDatagram s.sent

IsFine-Stable : Stable IsFine IsDatagram
IsFine-Stable = record {
  valid = λ s h. h.0;
  client = λ c s v h. (v, h.1);
  out = λ out s h. h;
  ids = λ ids s keep h. h;
  queue = λ queue s keep h. h;
  sends = λ d s good h. (h.0, All-snoc IsDatagram s.sent d h.1 good);
  confirms = λ allocated id d built. build_header-IsDatagram allocated id d built;
  builds =
      λ allocated type c d n v r built. udp_build_msg-IsDatagram allocated type c d n v r built;
}

-- The calls of the UDP variant keep the client's data valid and send datagrams of the wire format
-- only.
pub udp_comm-Keeps : (fd limit : ℕ) → Keeps (udp_comm fd limit) IsFine
udp_comm-Keeps fd limit = Sending.udp_comm-Keeps IsFine IsDatagram IsFine-Stable fd limit

-- The client's data are valid, and the queue is.
abbrev pub IsKept : Udp → Type 0
IsKept s = IsValid s.client × Queue.IsValid s.queue

IsKept-Stable : Stable IsKept (λ d. Unit {0})
IsKept-Stable = record {
  valid = λ s h. h.0;
  client = λ c s v h. (v, h.1);
  out = λ out s h. h;
  ids = λ ids s keep h. h;
  queue = λ queue s keep h. (h.0, keep h.1);
  sends = λ d s good h. h;
  confirms = λ allocated id d built. tt;
  builds = λ allocated type c d n v r built. tt;
}

-- However a call of the UDP variant ends, failures included, it leaves a valid queue valid.
pub udp_comm-queue : (fd limit : ℕ) → Keeps (udp_comm fd limit) IsKept
udp_comm-queue fd limit = Sending.udp_comm-Keeps IsKept (λ d. Unit {0}) IsKept-Stable fd limit

-- The client's data are valid, and the list of ids is.
abbrev pub HasIds : Udp → Type 0
HasIds s = IsValid s.client × IsRecorded s.ids

HasIds-Stable : Stable HasIds (λ d. Unit {0})
HasIds-Stable = record {
  valid = λ s h. h.0;
  client = λ c s v h. (v, h.1);
  out = λ out s h. h;
  ids = λ ids s keep h. (h.0, keep h.1);
  queue = λ queue s keep h. h;
  sends = λ d s good h. h;
  confirms = λ allocated id d built. tt;
  builds = λ allocated type c d n v r built. tt;
}

-- However a call of the UDP variant ends, failures included, the ids that it has stored differ.
pub udp_comm-ids : (fd limit : ℕ) → Keeps (udp_comm fd limit) HasIds
udp_comm-ids fd limit = Sending.udp_comm-Keeps HasIds (λ d. Unit {0}) HasIds-Stable fd limit

-- The client's data and the lines sent.
abbrev AsIn : Tcp → Tcp → Type 0
AsIn s s' = (s'.client ≡ s.client) × (s'.sent ≡ s.sent)

process_block-AsIn : (block : List ℕ) (s : Tcp) → After (AsIn s) (process_block block s)
unfolding process_block
process_block-AsIn block s =
    after_bind (After (AsIn s)) (c_string block) _ tt (λ text. (refl, refl))

line_or_not :
    (m : Option (List ℕ)) (s : Tcp)
    → After (AsIn s) (elim m [ none ↦ some (local, s) | some block ↦ process_block block s ])
line_or_not none s = (refl, refl)
line_or_not (some block) s = process_block-AsIn block s

tcp_recv_msg-AsIn :
    (grown allocated : Bool) (received : Received) (s : Tcp)
    → After (AsIn s) (tcp_recv_msg grown allocated received s)
unfolding tcp_recv_msg
tcp_recv_msg-AsIn grown allocated broken s = tt
tcp_recv_msg-AsIn grown allocated (data_of d) s =
    let Q = After {X = MsgType} (AsIn s) in
    after_if Q (ltb 0 (length d))
      (after_bind Q
        (buffer_append grown (d ++ replicate (buffer_size - length d) 0) (length d) s.buffer) _ tt
        (λ r.
          after_if Q r.0
            (after_bind Q (buffer_get_msg allocated r.1) _ tt
              (λ m. line_or_not m.0 (record s { buffer = m.1 })))
            (refl, refl)))
      (refl, refl)

waiting_line :
    (m : Option (List ℕ)) (s : Tcp)
    → After {X = Option MsgType} (AsIn s) (elim m [
      | none ↦ some (none, s)
      | some block ↦ process_block block s >>= λ p. some (some p.0, p.1)
    ])
waiting_line none s = (refl, refl)
waiting_line (some block) s =
    After-some (AsIn s) (process_block block s) (process_block-AsIn block s)

tcp_check_previous-AsIn :
    (allocated : Bool) (s : Tcp) → After (AsIn s) (tcp_check_previous allocated s)
unfolding tcp_check_previous
tcp_check_previous-AsIn allocated s =
    after_bind (After {X = Option MsgType} (AsIn s)) (buffer_get_msg allocated s.buffer) _ tt
      (λ m. waiting_line m.0 (record s { buffer = m.1 }))

-- The client's data are valid, and what was sent are lines.
abbrev pub IsGood : Tcp → Type 0
IsGood s = IsValid s.client × All IsLine s.sent

as_in :
    {X : Type 0} (s : Tcp) (o : Option (X × Tcp)) (x : X) (s' : Tcp)
    → IsGood s
    → After (AsIn s) o
    → o ≡ some (x, s')
    → IsGood s'
as_in s o x s' h a e =
    let same = After_holds (AsIn s) o x s' a e in
    (subst IsValid (sym same.0) h.0, subst (All IsLine) (sym same.1) h.1)

line_sent :
    (whole : Bool) (s : Tcp) (o : Option (List ℕ × ℕ))
    → ((l : List ℕ) (n : ℕ) → o ≡ some (l, n) → IsLine l)
    → IsGood s
    → let sent : Exit × Tcp = elim o [
      | none ↦ (exit_failure, s)
      | some m ↦
          if whole
          then (exit_success, record s { sent = s.sent ++ m.0 ∷ [] })
          else (exit_failure, s)
    ] in
      IsGood sent.1
line_sent whole s none good h = h
line_sent whole s (some m) good h =
    after_if (λ (r : Exit × Tcp). IsGood r.1) whole
      (h.0, All-snoc IsLine s.sent (m.0) h.1 (good m.0 m.1 refl)) h

sent_state : {x e : Exit} {y s : Tcp} → returned x y ≡ returned e s → y ≡ s
sent_state h = ground arith

tcp_send_msg-IsGood :
    (allocated whole : Bool) (type : MsgType) (s : Tcp)
    → IsGood s
    → IsReady type s.client
    → IsGood (tcp_send_msg allocated whole type s).1
unfolding tcp_send_msg
tcp_send_msg-IsGood allocated whole type s h r =
    line_sent whole s (tcp_build_msg allocated type s.client)
      (λ l n built. tcp_build_msg-IsLine allocated type s.client l n h.0 r built) h

-- The calls of the TCP variant keep the client's data valid and send lines only.
pub tcp_comm-Keeps : (fd : ℕ) → Keeps (tcp_comm fd) IsGood
unfolding tcp_comm
tcp_comm-Keeps fd = record {
  send = λ a type s e s' h r eq.
      subst IsGood (sent_state eq) (tcp_send_msg-IsGood a.allocated a.whole type s h r);
  waits = λ a type s s' h r eq. absurd (ground arith);
  recv = λ r s type s' h eq.
      as_in s (tcp_recv_msg r.grown r.allocated r.received s) type s' h
        (tcp_recv_msg-AsIn r.grown r.allocated r.received s) eq;
  previous = λ memory s type s' h eq.
      as_in s (tcp_check_previous memory s) type s' h (tcp_check_previous-AsIn memory s) eq;
  valid = λ s h. h.0;
  sets = λ c s v h. (v, h.1);
  prints = λ out s h. h;
  reads = λ c s. refl;
  shows = λ out s. refl;
}
