-- ===== src/TcpMsg/Stream.antt =====
-- What src/comm_tcp.c makes of the bytes of the stream.
use ipk_chat_client.Base.{
  ℕ, zero, suc, ◌+◌, ◌-◌, ◌<◌, ◌≡◌, ◌≢◌, refl, ap, ◌∙◌, inl, inr, true, Option, none, some, List,
  [], ◌∷◌, ◌++◌, arith, lt→ltb, Option-cases, length, replicate, append-nil, c_string-append,
  HasNoNul, le_refl,
}
use ipk_chat_client.Common.{local, buffer_size}
use ipk_chat_client.Buffer.{MsgBuffer, buffer_append, buffer_get_msg}
use ipk_chat_client.Buffer.Laws.{
  IsValid, pending, next_line, buffer_get_msg_refines, buffer_get_msg-IsValid,
}
use ipk_chat_client.Buffer.Append.{buffer_append_lem}
use ipk_chat_client.TcpMsg.Process.{
  Tcp, data_of, process_block, tcp_process_msg, tcp_check_previous, tcp_recv_msg,
}

-- A call of `buffer_get_msg` on a valid buffer, by what the pending bytes begin with.
taken :
    (b : MsgBuffer) (m : Option (List ℕ)) (rest : List ℕ)
    → IsValid b
    → next_line (pending b) ≡ (m, rest)
    → (b' : MsgBuffer) × (buffer_get_msg true b ≡ some (m, b')) × IsValid b' × (pending b' ≡ rest)
taken b m rest v h = elim (Option-cases (buffer_get_msg true b)) [
  | inl fault ↦ absurd (ground (arith, fault, buffer_get_msg_refines b v))
  | inr ((m', b'), call) ↦
      let seen : (m' ≡ m) × (pending b' ≡ rest) =
        ground (arith, call, buffer_get_msg_refines b v, h) in
      (b', ground (arith, call, seen), buffer_get_msg-IsValid true b m' v call, seen.1)
]

-- The line `l` was parsed: its type, what it prints, and the bytes that wait behind it.
pub record IsParsed (s s' : Tcp) (l rest : List ℕ) : Type 0 where
  pub valid : IsValid s'.buffer
  pub waits : pending s'.buffer ≡ rest
  pub prints : s'.out ≡ s.out ++ (tcp_process_msg l).1
  pub same_client : s'.client ≡ s.client

-- With memory for a line, if the bytes that wait in a valid buffer begin with the line `l` with
-- its CRLF, with no NUL in it, `tcp_check_previous` parses exactly this line, reports its type,
-- prints what it prints, and leaves the bytes behind it.
pub tcp_check_previous_lem :
    (s : Tcp) (l rest : List ℕ)
    → IsValid s.buffer
    → HasNoNul l
    → next_line (pending s.buffer) ≡ (some (l ++ zero ∷ []), rest)
    → (s' : Tcp) × (tcp_check_previous true s ≡ some (some (tcp_process_msg l).0, s'))
      × IsParsed s s' l rest
unfolding tcp_check_previous process_block
tcp_check_previous_lem s l rest v n h =
    let (b, call, v', waits) = taken s.buffer (some (l ++ zero ∷ [])) rest v h in
    (
      record s { buffer = b; out = s.out ++ (tcp_process_msg l).1 },
      ground (arith, call, c_string-append l [] n),
      record { valid = v'; waits = waits; prints = refl; same_client = refl },
    )

-- If no CRLF is among the bytes that wait, `tcp_check_previous` returns false and changes nothing
-- that can be seen.
pub tcp_check_previous_incomplete :
    (s : Tcp)
    → IsValid s.buffer
    → next_line (pending s.buffer) ≡ (none, pending s.buffer)
    → (s' : Tcp) × (tcp_check_previous true s ≡ some (none, s'))
      × IsValid s'.buffer
      × (pending s'.buffer ≡ pending s.buffer)
      × (s'.out ≡ s.out)
unfolding tcp_check_previous
tcp_check_previous_incomplete s v h =
    let (b, call, v', waits) = taken s.buffer none (pending s.buffer) v h in
    (record s { buffer = b }, rw call refl, v', waits, refl)

-- The bytes that `recv` wrote to the front of the zeroed array.
appended :
    (b : MsgBuffer) (d : List ℕ)
    → IsValid b
    → HasNoNul d
    → length d < buffer_size
    → b.msg_len + length d ≢ b.size
    → (b' : MsgBuffer) × (buffer_append true
          (d ++ replicate (buffer_size - length d) 0)
          (length d)
          b
        ≡ some (true, b'))
      × IsValid b'
      × (pending b' ≡ pending b ++ d)
appended b d v n h ne =
    let e : buffer_size - length d ≡ suc (65534 - length d) = omega arith in
    let e' : length d - length d ≡ 0 = omega arith in
    let (b', call, v', joined) =
      buffer_append_lem b d (replicate (65534 - length d) 0) (length d) v n (le_refl (length d)) h
        ne in
    (b', rw e call, v', joined ∙ rw (e', append-nil d) refl)

-- 1 to 65534 received bytes with no NUL among them, which do not fill the block exactly, join the
-- bytes that wait, if memory is there; if a line `l` with its CRLF is at the front then, with no
-- NUL in it, exactly it is parsed, its type is the result, what it prints is printed, and the
-- bytes behind it are left.
pub tcp_recv_msg_line :
    (s : Tcp) (d l rest : List ℕ)
    → IsValid s.buffer
    → HasNoNul d
    → 0 < length d
    → length d < buffer_size
    → s.buffer.msg_len + length d ≢ s.buffer.size
    → HasNoNul l
    → next_line (pending s.buffer ++ d) ≡ (some (l ++ zero ∷ []), rest)
    → (s' : Tcp) × (tcp_recv_msg true true (data_of d) s ≡ some ((tcp_process_msg l).0, s'))
      × IsParsed s s' l rest
unfolding tcp_recv_msg process_block
tcp_recv_msg_line s d l rest v nd pos le ne nl h =
    let (b, call, v', joined) = appended s.buffer d v nd le ne in
    let (b', call', v'', waits) =
      taken b (some (l ++ zero ∷ [])) rest v' (ap next_line joined ∙ h) in
    (
      record s { buffer = b'; out = s.out ++ (tcp_process_msg l).1 },
      rw (lt→ltb 0 (length d) pos, call, call', c_string-append l [] nl) refl,
      record { valid = v''; waits = waits; prints = refl; same_client = refl },
    )

-- If no CRLF is among the waiting and the received bytes, under the same conditions, all of them
-- wait, nothing is printed, and the result is LOCAL.
pub tcp_recv_msg_incomplete :
    (s : Tcp) (d : List ℕ)
    → IsValid s.buffer
    → HasNoNul d
    → 0 < length d
    → length d < buffer_size
    → s.buffer.msg_len + length d ≢ s.buffer.size
    → next_line (pending s.buffer ++ d) ≡ (none, pending s.buffer ++ d)
    → (s' : Tcp) × (tcp_recv_msg true true (data_of d) s ≡ some (local, s'))
      × IsValid s'.buffer
      × (pending s'.buffer ≡ pending s.buffer ++ d)
      × (s'.out ≡ s.out)
unfolding tcp_recv_msg
tcp_recv_msg_incomplete s d v nd pos le ne h =
    let (b, call, v', joined) = appended s.buffer d v nd le ne in
    let (b', call', v'', waits) =
      taken b none (pending s.buffer ++ d) v' (ap next_line joined ∙ h) in
    (record s { buffer = b' }, rw (lt→ltb 0 (length d) pos, call, call') refl, v'', waits, refl)
