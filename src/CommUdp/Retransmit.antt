-- ===== src/CommUdp/Retransmit.antt =====
-- Success, retransmission and the number of copies of the frame that the send loop sends.
use mathlib.Core.Path.{subst}
use ipk_chat_client.Base.{
  ℕ, ◌+◌, ◌*◌, ◌%◌, ◌≡◌, refl, ◌≢◌, ◌⊎◌, inl, inr, Bool, true, false, ◌&&◌, Bool-cases,
  Option-cases, none, some, List, [], ◌∷◌, ◌++◌, arith, leb, ◌==◌, length, get_elem?,
}
use ipk_chat_client.Common.{exit_success, exit_failure, Client}
use ipk_chat_client.UdpMsg.Parse.{to_uint16}
use ipk_chat_client.CommUdp.State.{Udp, Round, recv_buffer, send_confirm}
use ipk_chat_client.CommUdp.Send.{
  Turn, return, timeout, aside, Outcome, done, waiting, fault, put_aside, keep_datagram, next_id,
  take_datagram, receive, turn, send_loop,
}
use ipk_chat_client.CommUdp.Safety.{send_loop-turn, send_loop_over}

-- The datagram is a CONFIRM of `id` and nothing more.
abbrev pub IsConfirm : ℕ → List ℕ → Type 0
IsConfirm id d = (high low : ℕ) × (d ≡ 0 ∷ high ∷ low ∷ []) × (high % 256 * 256 + low % 256 ≡ id)

IsConfirm-of_buffer :
    (first id : ℕ) (d : List ℕ)
    → length d ≡ 3
    → get_elem? (recv_buffer first d) 0 ≡ some 0
    → to_uint16 (recv_buffer first d) 1 ≡ some id
    → IsConfirm id d
unfolding recv_buffer to_uint16
IsConfirm-of_buffer first id [] l t i = absurd (omega arith)
IsConfirm-of_buffer first id (a ∷ []) l t i = absurd (omega arith)
IsConfirm-of_buffer first id (a ∷ b ∷ []) l t i = absurd (omega arith)
IsConfirm-of_buffer first id (a ∷ b ∷ c ∷ []) l t i = (b, c, ground arith, ground arith)
IsConfirm-of_buffer first id (a ∷ b ∷ c ∷ d ∷ e) l t i = absurd (omega arith)

-- How a turn ends for the client's data: with the awaited CONFIRM, success and the next id, or
-- with the data as they were and no success.
abbrev Ends : Round → Udp → Turn → Udp → Type 0
Ends r s t s' =
    ((t ≡ return exit_success)
      × IsConfirm s.client.msg_id r.datagram
      × (s'.client ≡ (next_id s).client))
    ⊎ ((t ≢ return exit_success) × (s'.client ≡ s.client))

put_aside-Ends :
    (r : Round) (buffer : List ℕ) (b_rcv id : ℕ) (s : Udp) (t : Turn) (s' : Udp)
    → put_aside r buffer b_rcv id s ≡ some (t, s')
    → (t ≢ return exit_success) × (s'.client ≡ s.client)
unfolding put_aside
put_aside-Ends r buffer b_rcv id s t s' h = ground arith

client-send_confirm : (r : Round) (id : ℕ) (s : Udp) → (send_confirm r id s).1.client ≡ s.client
unfolding send_confirm
client-send_confirm r id s = ground arith

keep_datagram-Ends :
    (r : Round) (buffer : List ℕ) (b_rcv type id : ℕ) (s : Udp) (t : Turn) (s' : Udp)
    → keep_datagram r buffer b_rcv type id s ≡ some (t, s')
    → (t ≢ return exit_success) × (s'.client ≡ s.client)
unfolding keep_datagram
keep_datagram-Ends r buffer b_rcv type id s t s' h = ground (
  arith,
  client-send_confirm r id s,
  put_aside-Ends r buffer b_rcv id s t s',
  put_aside-Ends r buffer b_rcv id (send_confirm r id s).1 t s',
)

take_datagram-Ends :
    (r : Round) (s : Udp) (t : Turn) (s' : Udp) → take_datagram r s ≡ some (t, s') → Ends r s t s'
unfolding take_datagram
take_datagram-Ends r s t s' h =
    let buffer = recv_buffer b'0' r.datagram in
    elim (Option-cases (get_elem? buffer 0)) [
      | inl e ↦ absurd (ground (arith, e))
      | inr (type, e) ↦ elim (Option-cases (to_uint16 buffer 1)) [
        | inl e' ↦ absurd (ground (arith, e, e'))
        | inr (id, e') ↦
            elim (Bool-cases (length r.datagram == 3 && (type == 0 && s.client.msg_id == id))) [
              | inl awaited ↦ inl (
                ground (arith, e, e', awaited),
                IsConfirm-of_buffer b'0' s.client.msg_id r.datagram (ground (arith, awaited))
                    (ground (arith, e, awaited)) (ground (arith, e', awaited)),
                ground (arith, e, e', awaited),
              )
              | inr other ↦ inr (
                  keep_datagram-Ends r buffer (length r.datagram) type id s t s'
                    (ground (arith, e, e', other)))
            ]
      ]
    ]

receive-Ends :
    (r : Round) (s : Udp) (t : Turn) (s' : Udp) (d : List ℕ)
    → r.datagram ≡ d
    → receive r s ≡ some (t, s')
    → Ends r s t s'
unfolding receive
receive-Ends r s t s' [] e h = inr (ground (arith, e), ground (arith, e))
receive-Ends r s t s' (c ∷ d) e h = take_datagram-Ends r s t s' (ground (arith, e))

turn-Ends :
    (frame : List ℕ) (resend : Bool) (r : Round) (s : Udp) (t : Turn) (s' : Udp)
    → turn frame resend r s ≡ some (t, s')
    → Ends r s t s'
unfolding turn
turn-Ends frame true r s t s' h = elim (Bool-cases r.frame_sent) [
  | inl sent ↦
      receive-Ends r (record s { sent = s.sent ++ frame ∷ [] }) t s' r.datagram refl
        (ground (arith, sent))
  | inr refused ↦ inr (ground (arith, refused), ground (arith, refused))
]
turn-Ends frame false r s t s' h = receive-Ends r s t s' r.datagram refl h

-- One of the rounds answers with a CONFIRM of `id`.
abbrev pub AnyConfirm : ℕ → List Round → Type 0
AnyConfirm id [] = ⊥
AnyConfirm id (r ∷ rounds) = IsConfirm id r.datagram ⊎ AnyConfirm id rounds

-- What the end of a call says of the client's data, which were `c` before it.
abbrev pub Confirmed : Client → List Round → Outcome → Type 0
Confirmed c rounds (done exit_success s) =
    AnyConfirm c.msg_id rounds × (s.client ≡ record c { msg_id = (c.msg_id + 1) % 65536 })
Confirmed c rounds (done exit_failure s) = s.client ≡ c
Confirmed c rounds (waiting s) = s.client ≡ c
Confirmed c rounds fault = Unit {0}

Confirmed-cons :
    (c : Client) (r : Round) (rounds : List Round) (o : Outcome)
    → Confirmed c rounds o
    → Confirmed c (r ∷ rounds) o
Confirmed-cons c r rounds (done exit_success s) h = (inr h.0, h.1)
Confirmed-cons c r rounds (done exit_failure s) h = h
Confirmed-cons c r rounds (waiting s) h = h
Confirmed-cons c r rounds fault h = h

Confirmed-after :
    (limit : ℕ) (frame : List ℕ) (i : ℕ) (r : Round) (rounds : List Round) (s : Udp) (t : Turn)
    (s' : Udp)
    → Ends r s t s'
    → (s'.client ≡ s.client
        → (j : ℕ) (resend : Bool)
        → Confirmed s.client rounds (send_loop limit frame j resend s' rounds))
    → Confirmed s.client (r ∷ rounds) (elim t [
      | return e ↦ done e s'
      | timeout ↦ send_loop limit frame (i + 1) true s' rounds
      | aside ↦ send_loop limit frame i false s' rounds
    ])
Confirmed-after limit frame i r rounds s (return exit_success) s' (inl (e, c, n)) next = (inl c, n)
Confirmed-after limit frame i r rounds s (return exit_success) s' (inr (e, n)) next =
    absurd (e refl)
Confirmed-after limit frame i r rounds s (return exit_failure) s' (inl (e, c, n)) next = absurd (cc)
Confirmed-after limit frame i r rounds s (return exit_failure) s' (inr (e, n)) next = n
Confirmed-after limit frame i r rounds s timeout s' (inl (e, c, n)) next = absurd (cc)
Confirmed-after limit frame i r rounds s timeout s' (inr (e, n)) next =
    Confirmed-cons s.client r rounds _ (next n (i + 1) true)
Confirmed-after limit frame i r rounds s aside s' (inl (e, c, n)) next = absurd (cc)
Confirmed-after limit frame i r rounds s aside s' (inr (e, n)) next =
    Confirmed-cons s.client r rounds _ (next n i false)

pub send_loop_fault :
    (limit : ℕ) (frame : List ℕ) (i : ℕ) (resend : Bool) (s : Udp) (r : Round) (rounds : List Round)
    → leb i limit ≡ true
    → turn frame resend r s ≡ none
    → send_loop limit frame i resend s (r ∷ rounds) ≡ fault
unfolding send_loop
send_loop_fault limit frame i resend s r rounds more step = ground (arith, more, step)

-- Success needs a CONFIRM of the client's message id among the answers, and counts the id up modulo
-- 2^16; on any other end, and while the call waits, the client's data are as they were.
pub send_loop-Confirmed :
    (limit : ℕ) (frame : List ℕ) (i : ℕ) (resend : Bool) (s : Udp) (rounds : List Round)
    → Confirmed s.client rounds (send_loop limit frame i resend s rounds)
send_loop-Confirmed limit frame i resend s [] = elim (Bool-cases (leb i limit)) [
  | inl more ↦ unfold send_loop in rw more refl
  | inr over ↦ rw (send_loop_over limit frame i resend s [] over) refl
]
send_loop-Confirmed limit frame i resend s (r ∷ rounds) = elim (Bool-cases (leb i limit)) [
  | inl more ↦ elim (Option-cases (turn frame resend r s)) [
    | inl e ↦ rw (send_loop_fault limit frame i resend s r rounds more e) tt
    | inr ((t, s'), e) ↦ rw (send_loop-turn limit frame i resend s r rounds t s' more e) (
        Confirmed-after limit frame i r rounds s t s' (turn-Ends frame resend r s t s' e)
          (λ same j again.
            subst (λ c. Confirmed c rounds (send_loop limit frame j again s' rounds)) same
              (send_loop-Confirmed limit frame j again s' rounds)))
  ]
  | inr over ↦ rw (send_loop_over limit frame i resend s (r ∷ rounds) over) refl
]
