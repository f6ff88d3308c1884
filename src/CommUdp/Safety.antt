-- ===== src/CommUdp/Safety.antt =====
-- The send loop stays inside its blocks and keeps the id list and the queue valid.
use ipk_chat_client.Base.{
  ℕ, ◌+◌, ◌≡◌, refl, inl, inr, Bool, true, false, Bool-cases, Option, none, some, List, [], ◌∷◌,
  arith, leb, All,
}
use ipk_chat_client.Common.{exit_success, exit_failure, MsgType, auth, join, msg, err, bye, Client}
use ipk_chat_client.UdpMsg.Build.{
  build_header, build_auth, build_join, build_msg_err, build_bye, udp_build_msg,
}
use ipk_chat_client.UdpMsg.Frames.{udp_build_msg_lem}
use ipk_chat_client.CommUdp.State.{Udp, Round}
use ipk_chat_client.CommUdp.Send.{
  Turn, return, timeout, aside, Outcome, done, waiting, fault, turn, send_loop, udp_send_msg,
}
use ipk_chat_client.CommUdp.Valid.{IsValid, Fits, Kept, turn-Safe}

-- What a call may leave: valid globals, unless it failed; never a fault.
abbrev pub Left : Outcome → Type 0
Left (done exit_success s) = IsValid s
Left (done exit_failure s) = Unit {0}
Left (waiting s) = IsValid s
Left fault = ⊥

after_turn :
    (limit : ℕ) (frame : List ℕ) (i : ℕ) (t : Turn) (s : Udp) (rounds : List Round)
    → Kept t s
    → (IsValid s → (j : ℕ) (resend : Bool) → Left (send_loop limit frame j resend s rounds))
    → Left (elim t [
      | return e ↦ done e s
      | timeout ↦ send_loop limit frame (i + 1) true s rounds
      | aside ↦ send_loop limit frame i false s rounds
    ])
after_turn limit frame i (return exit_failure) s rounds kept next = tt
after_turn limit frame i (return exit_success) s rounds (inl e) next = absurd (cc)
after_turn limit frame i (return exit_success) s rounds (inr v) next = v
after_turn limit frame i timeout s rounds (inl e) next = absurd (cc)
after_turn limit frame i timeout s rounds (inr v) next = next v (i + 1) true
after_turn limit frame i aside s rounds (inl e) next = absurd (cc)
after_turn limit frame i aside s rounds (inr v) next = next v i false

-- One turn of the loop where the counter is within the limit, and its end where it is not.
pub send_loop-turn :
    (limit : ℕ) (frame : List ℕ) (i : ℕ) (resend : Bool) (s : Udp) (r : Round) (rounds : List Round)
    (t : Turn) (s' : Udp)
    → leb i limit ≡ true
    → turn frame resend r s ≡ some (t, s')
    → send_loop limit frame i resend s (r ∷ rounds) ≡ elim t [
      | return e ↦ done e s'
      | timeout ↦ send_loop limit frame (i + 1) true s' rounds
      | aside ↦ send_loop limit frame i false s' rounds
    ]
unfolding send_loop
send_loop-turn limit frame i resend s r rounds t s' more step = ground (arith, more, step)

pub send_loop_over :
    (limit : ℕ) (frame : List ℕ) (i : ℕ) (resend : Bool) (s : Udp) (rounds : List Round)
    → leb i limit ≡ false
    → send_loop limit frame i resend s rounds ≡ done exit_failure s
unfolding send_loop
send_loop_over limit frame i resend s [] over = ground (arith, over)
send_loop_over limit frame i resend s (r ∷ rounds) over = ground (arith, over)

-- From valid globals the send loop, whatever the network answers with datagrams that the buffer
-- holds, never goes outside a block, and leaves valid globals unless it returns failure.
pub send_loop-Left :
    (limit : ℕ) (frame : List ℕ) (i : ℕ) (resend : Bool) (s : Udp) (rounds : List Round)
    → IsValid s
    → All Fits rounds
    → Left (send_loop limit frame i resend s rounds)
send_loop-Left limit frame i resend s [] v h = elim (Bool-cases (leb i limit)) [
  | inl more ↦ unfold send_loop in rw more v
  | inr over ↦ rw (send_loop_over limit frame i resend s [] over) tt
]
send_loop-Left limit frame i resend s (r ∷ rounds) v h = elim (Bool-cases (leb i limit)) [
  | inl more ↦
      let (t, s', step, kept) = turn-Safe frame resend r s v h.0 in
      rw (send_loop-turn limit frame i resend s r rounds t s' more step) (
        after_turn limit frame i t s' rounds kept
          (λ v' j again. send_loop-Left limit frame j again s' rounds v' h.1))
  | inr over ↦ rw (send_loop_over limit frame i resend s (r ∷ rounds) over) tt
]

pub udp_build_msg-null : (type : MsgType) (c : Client) → udp_build_msg false type c ≡ some none
unfolding udp_build_msg build_auth build_join build_msg_err build_bye build_header
udp_build_msg-null auth c = refl
udp_build_msg-null join c = refl
udp_build_msg-null msg c = refl
udp_build_msg-null err c = refl
udp_build_msg-null bye c = refl
udp_build_msg-null _ c = refl

pub built_or_null :
    (allocated : Bool) (type : MsgType) (c : Client)
    → (o : Option (List ℕ × ℕ)) × (udp_build_msg allocated type c ≡ some o)
built_or_null true type c = (_, udp_build_msg_lem type c)
built_or_null false type c = (none, udp_build_msg-null type c)

-- The call once the frame is built, or not.
pub udp_send_msg_built :
    (limit : ℕ) (allocated : Bool) (type : MsgType) (s : Udp) (rounds : List Round)
    (o : Option (List ℕ × ℕ))
    → udp_build_msg allocated type s.client ≡ some o
    → udp_send_msg limit allocated type s rounds
      ≡ elim o [ none ↦ done exit_failure s | some f ↦ send_loop limit f.0 0 true s rounds ]
unfolding udp_send_msg
udp_send_msg_built limit allocated type s rounds o build = ground (arith, build)

sent_or_refused :
    (limit : ℕ) (s : Udp) (rounds : List Round) (o : Option (List ℕ × ℕ))
    → IsValid s
    → All Fits rounds
    → Left (elim o [ none ↦ done exit_failure s | some f ↦ send_loop limit f.0 0 true s rounds ])
sent_or_refused limit s rounds none v h = tt
sent_or_refused limit s rounds (some (frame, len)) v h =
    send_loop-Left limit frame 0 true s rounds v h

-- From valid globals `udp_send_msg` of any type, whatever memory it gets and whatever the network
-- answers with datagrams that the buffer holds, never goes outside a block, and leaves valid
-- globals unless it returns failure.
pub udp_send_msg-Left :
    (retransmissions : ℕ) (allocated : Bool) (type : MsgType) (s : Udp) (rounds : List Round)
    → IsValid s
    → All Fits rounds
    → Left (udp_send_msg retransmissions allocated type s rounds)
udp_send_msg-Left retransmissions allocated type s rounds v h =
    let (o, build) = built_or_null allocated type s.client in
    rw (udp_send_msg_built retransmissions allocated type s rounds o build)
      (sent_or_refused retransmissions s rounds o v h)
