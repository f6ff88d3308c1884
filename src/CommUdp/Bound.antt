-- ===== src/CommUdp/Bound.antt =====
-- How many copies of the frame the send loop sends.
use ipk_chat_client.Base.{
  ℕ, zero, suc, ◌+◌, ◌-◌, ◌/◌, ◌%◌, ◌≤◌, ◌<◌, ◌≡◌, refl, ◌∙◌, inl, inr, Bool, true, false, not,
  Bool-cases, Option-cases, Option, none, some, List, [], ◌∷◌, ◌++◌, arith, leb, leb→le, get_elem?,
  ◌==◌, if◌then◌else◌, length, All, replicate, append_assoc, append-nil,
}
use ipk_chat_client.Common.{exit_failure, MsgType}
use ipk_chat_client.UdpMsg.Build.{build_header, udp_build_msg}
use ipk_chat_client.UdpMsg.Parse.{to_uint16}
use ipk_chat_client.CommUdp.State.{Udp, Round, recv_buffer, send_confirm}
use ipk_chat_client.CommUdp.Send.{
  Turn, return, timeout, aside, Outcome, done, waiting, fault, put_aside, keep_datagram,
  take_datagram, receive, turn, send_loop, udp_send_msg,
}
use ipk_chat_client.CommUdp.Safety.{
  send_loop-turn, send_loop_over, built_or_null, udp_send_msg_built,
}
use ipk_chat_client.CommUdp.Retransmit.{send_loop_fault}

-- A datagram of any type but CONFIRM.
abbrev pub is_request : List ℕ → Bool
is_request [] = false
is_request (c ∷ d) = not (c == 0)

abbrev pub requests : List (List ℕ) → ℕ
requests [] = 0
requests (d ∷ ds) = (if is_request d then 1 else 0) + requests ds

requests-append : (ds es : List (List ℕ)) → requests (ds ++ es) ≡ requests ds + requests es
requests-append [] es = omega arith
requests-append (d ∷ ds) es = omega (arith, requests-append ds es)

-- The CONFIRM that is sent for a datagram is no request.
requests-send_confirm :
    (r : Round) (id : ℕ) (s : Udp) → requests (send_confirm r id s).1.sent ≡ requests s.sent
unfolding send_confirm build_header
requests-send_confirm r id s =
    ground (arith, requests-append s.sent ((0 ∷ id / 256 % 256 ∷ id % 256 ∷ []) ∷ []))

sent-put_aside :
    (r : Round) (buffer : List ℕ) (b_rcv id : ℕ) (s : Udp) (t : Turn) (s' : Udp)
    → put_aside r buffer b_rcv id s ≡ some (t, s')
    → s'.sent ≡ s.sent
unfolding put_aside
sent-put_aside r buffer b_rcv id s t s' h = ground arith

requests-keep_datagram :
    (r : Round) (buffer : List ℕ) (b_rcv type id : ℕ) (s : Udp) (t : Turn) (s' : Udp)
    → keep_datagram r buffer b_rcv type id s ≡ some (t, s')
    → requests s'.sent ≡ requests s.sent
unfolding keep_datagram
requests-keep_datagram r buffer b_rcv type id s t s' h = ground (
  arith,
  requests-send_confirm r id s,
  sent-put_aside r buffer b_rcv id s t s',
  sent-put_aside r buffer b_rcv id (send_confirm r id s).1 t s',
)

requests-take_datagram :
    (r : Round) (s : Udp) (t : Turn) (s' : Udp)
    → take_datagram r s ≡ some (t, s')
    → requests s'.sent ≡ requests s.sent
unfolding take_datagram
requests-take_datagram r s t s' h =
    let buffer = recv_buffer b'0' r.datagram in
    elim (Option-cases (get_elem? buffer 0)) [
      | inl e ↦ absurd (ground (arith, e))
      | inr (type, e) ↦ elim (Option-cases (to_uint16 buffer 1)) [
        | inl e' ↦ absurd (ground (arith, e, e'))
        | inr (id, e') ↦
            ground
              (arith, e, e', requests-keep_datagram r buffer (length r.datagram) type id s t s')
      ]
    ]

requests-receive :
    (r : Round) (s : Udp) (t : Turn) (s' : Udp) (d : List ℕ)
    → r.datagram ≡ d
    → receive r s ≡ some (t, s')
    → requests s'.sent ≡ requests s.sent
unfolding receive
requests-receive r s t s' [] e h = ground (arith, e)
requests-receive r s t s' (c ∷ d) e h = requests-take_datagram r s t s' (ground (arith, e))

-- The copies that the loop may still send.
abbrev budget : ℕ → ℕ → Bool → ℕ
budget limit i true = limit + 1 - i
budget limit i false = limit - i

requests-sent :
    (ds : List (List ℕ)) (frame : List ℕ) → requests (ds ++ frame ∷ []) ≤ requests ds + 1
requests-sent ds frame = ground (arith, requests-append ds (frame ∷ []))

requests-turn :
    (frame : List ℕ) (resend : Bool) (r : Round) (s : Udp) (t : Turn) (s' : Udp)
    → turn frame resend r s ≡ some (t, s')
    → requests s'.sent ≤ requests s.sent + (if resend then 1 else 0)
unfolding turn
requests-turn frame true r s t s' h = elim (Bool-cases r.frame_sent) [
  | inl sent ↦ omega (
    arith,
    requests-receive r (record s { sent = s.sent ++ frame ∷ [] }) t s' r.datagram refl
        (ground (arith, sent)),
    requests-sent s.sent frame,
  )
  | inr refused ↦ ground (arith, refused)
]
requests-turn frame false r s t s' h = omega (arith, requests-receive r s t s' r.datagram refl h)

abbrev pub requests_of : Outcome → ℕ
requests_of (done e s) = requests s.sent
requests_of (waiting s) = requests s.sent
requests_of fault = 0

after_turn-le :
    (limit : ℕ) (frame : List ℕ) (i : ℕ) (resend : Bool) (t : Turn) (s s' : Udp)
    (rounds : List Round)
    → i ≤ limit
    → requests s'.sent ≤ requests s.sent + (if resend then 1 else 0)
    → ((j : ℕ) (again : Bool)
        → requests_of (send_loop limit frame j again s' rounds)
          ≤ requests s'.sent + budget limit j again)
    → requests_of (elim t [
      | return e ↦ done e s'
      | timeout ↦ send_loop limit frame (i + 1) true s' rounds
      | aside ↦ send_loop limit frame i false s' rounds
    ])
      ≤ requests s.sent + budget limit i resend
after_turn-le limit frame i true (return e) s s' rounds h k next = omega arith
after_turn-le limit frame i false (return e) s s' rounds h k next = omega arith
after_turn-le limit frame i true timeout s s' rounds h k next = omega (arith, next (i + 1) true)
after_turn-le limit frame i false timeout s s' rounds h k next = omega (arith, next (i + 1) true)
after_turn-le limit frame i true aside s s' rounds h k next = omega (arith, next i false)
after_turn-le limit frame i false aside s s' rounds h k next = omega (arith, next i false)

requests-send_loop :
    (limit : ℕ) (frame : List ℕ) (i : ℕ) (resend : Bool) (s : Udp) (rounds : List Round)
    → requests_of (send_loop limit frame i resend s rounds)
      ≤ requests s.sent + budget limit i resend
requests-send_loop limit frame i resend s [] = elim (Bool-cases (leb i limit)) [
  | inl more ↦ unfold send_loop in rw more (omega arith)
  | inr over ↦ rw (send_loop_over limit frame i resend s [] over) (omega arith)
]
requests-send_loop limit frame i resend s (r ∷ rounds) = elim (Bool-cases (leb i limit)) [
  | inl more ↦ elim (Option-cases (turn frame resend r s)) [
    | inl e ↦ rw (send_loop_fault limit frame i resend s r rounds more e) (omega arith)
    | inr ((t, s'), e) ↦ rw (send_loop-turn limit frame i resend s r rounds t s' more e) (
        after_turn-le limit frame i resend t s s' rounds (leb→le i limit more)
          (requests-turn frame resend r s t s' e)
          (λ j again. requests-send_loop limit frame j again s' rounds))
  ]
  | inr over ↦ rw (send_loop_over limit frame i resend s (r ∷ rounds) over) (omega arith)
]

sent_or_refused-le :
    (limit : ℕ) (s : Udp) (rounds : List Round) (o : Option (List ℕ × ℕ))
    → requests_of
        (elim o [ none ↦ done exit_failure s | some f ↦ send_loop limit f.0 0 true s rounds ])
      ≤ requests s.sent + (limit + 1)
sent_or_refused-le limit s rounds none = omega arith
sent_or_refused-le limit s rounds (some (frame, len)) =
    omega (arith, requests-send_loop limit frame 0 true s rounds)

-- Whatever the network answers, and however many datagrams are put aside meanwhile, one call of
-- `udp_send_msg` sends its message at most once and `retransmissions` times more.
pub requests-udp_send_msg :
    (retransmissions : ℕ) (allocated : Bool) (type : MsgType) (s : Udp) (rounds : List Round)
    → requests_of (udp_send_msg retransmissions allocated type s rounds)
      ≤ requests s.sent + (retransmissions + 1)
requests-udp_send_msg retransmissions allocated type s rounds =
    let (o, build) = built_or_null allocated type s.client in
    rw (udp_send_msg_built retransmissions allocated type s rounds o build)
      (sent_or_refused-le retransmissions s rounds o)

-- A round of the network without an answer: the frame goes out, and nothing comes back in time.
abbrev pub IsSilent : Round → Type 0
IsSilent r = (r.frame_sent ≡ true) × (r.datagram ≡ []) × (r.errno_again ≡ true)

turn_of_silent :
    (frame : List ℕ) (r : Round) (s : Udp)
    → IsSilent r
    → turn frame true r s ≡ some (timeout, record s { sent = s.sent ++ frame ∷ [] })
unfolding turn receive
turn_of_silent frame r s h = ground (arith, h.0, h.1, h.2)

silent_loop :
    (limit : ℕ) (frame : List ℕ) (k i : ℕ) (s : Udp) (rounds : List Round)
    → k + i ≡ limit + 1
    → k ≤ length rounds
    → All IsSilent rounds
    → send_loop limit frame i true s rounds
      ≡ done exit_failure (record s { sent = s.sent ++ replicate k frame })
silent_loop limit frame zero i s rounds e l h =
    rw append-nil (send_loop_over limit frame i true s rounds (ground arith))
silent_loop limit frame (suc k) i s [] e l h = absurd (omega arith)
silent_loop limit frame (suc k) i s (r ∷ rounds) e l h =
    let s' : Udp = record s { sent = s.sent ++ frame ∷ [] } in
    send_loop-turn limit frame i true s r rounds timeout s' (ground arith)
      (turn_of_silent frame r s h.0)
    ∙ silent_loop limit frame k (i + 1) s' rounds (omega arith) (omega arith) h.1
    ∙ rw append_assoc refl

-- If the network stays silent, `udp_send_msg` of a type that the client sends sends the message
-- exactly once and `retransmissions` times more, and then returns failure with all else as it was.
pub udp_send_msg_silent :
    (retransmissions : ℕ) (type : MsgType) (s : Udp) (rounds : List Round) (frame : List ℕ)
    (len : ℕ)
    → udp_build_msg true type s.client ≡ some (some (frame, len))
    → retransmissions < length rounds
    → All IsSilent rounds
    → udp_send_msg retransmissions true type s rounds
      ≡ done exit_failure (record s { sent = s.sent ++ replicate (retransmissions + 1) frame })
udp_send_msg_silent retransmissions type s rounds frame len build l h =
    udp_send_msg_built retransmissions true type s rounds (some (frame, len)) build
    ∙ silent_loop retransmissions frame (retransmissions + 1) 0 s rounds (omega arith) (omega arith)
        h
