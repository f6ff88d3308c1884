-- ===== src/CommUdp/NoFault.antt =====
-- The calls of the UDP variant stay inside their blocks, with the queue that their own calls fill.
use mathlib.Core.Path.{subst}
use ipk_chat_client.Base.{
  ℕ, ◌+◌, ◌≡◌, sym, inl, inr, Bool, true, false, Bool-cases, Option, Option-cases, none, some, List,
  [], ◌∷◌, arith, leb, All,
}
use ipk_chat_client.Common.{exit_failure, MsgType}
use ipk_chat_client.CommUdp.State.{Udp, Round}
use ipk_chat_client.CommUdp.Send.{
  Turn, return, timeout, aside, Outcome, done, waiting, fault, turn, send_loop, udp_send_msg,
}
use ipk_chat_client.CommUdp.Safety.{
  send_loop-turn, send_loop_over, udp_send_msg_built, built_or_null,
}
use ipk_chat_client.CommUdp.Queued.{Holds, IsGood, turn-Holds}
use ipk_chat_client.Comm.After.{After_holds}

-- A call that returns leaves a queue of readable blocks.
abbrev pub Holding : Outcome → Type 0
Holding (done e s) = Holds s
Holding (waiting s) = Holds s
Holding fault = Unit {0}

after_turn :
    (limit : ℕ) (frame : List ℕ) (i : ℕ) (t : Turn) (s : Udp) (rounds : List Round)
    → Holds s
    → ((j : ℕ) (resend : Bool) → Holding (send_loop limit frame j resend s rounds))
    → Holding (elim t [
      | return e ↦ done e s
      | timeout ↦ send_loop limit frame (i + 1) true s rounds
      | aside ↦ send_loop limit frame i false s rounds
    ])
after_turn limit frame i (return e) s rounds h more = h
after_turn limit frame i timeout s rounds h more = more (i + 1) true
after_turn limit frame i aside s rounds h more = more i false

lost_turn :
    (limit : ℕ) (frame : List ℕ) (i : ℕ) (resend : Bool) (s : Udp) (r : Round) (rounds : List Round)
    → leb i limit ≡ true
    → turn frame resend r s ≡ none
    → send_loop limit frame i resend s (r ∷ rounds) ≡ fault
unfolding send_loop
lost_turn limit frame i resend s r rounds more lost = ground (arith, more, lost)

send_loop-Holding :
    (limit : ℕ) (frame : List ℕ) (i : ℕ) (resend : Bool) (s : Udp) (rounds : List Round)
    → All IsGood rounds
    → Holds s
    → Holding (send_loop limit frame i resend s rounds)
send_loop-Holding limit frame i resend s [] g h = elim (Bool-cases (leb i limit)) [
  | inl more ↦ unfold send_loop in rw more h
  | inr over ↦ rw (send_loop_over limit frame i resend s [] over) h
]
send_loop-Holding limit frame i resend s (r ∷ rounds) (g, gs) h = elim (Bool-cases (leb i limit)) [
  | inr over ↦ rw (send_loop_over limit frame i resend s (r ∷ rounds) over) h
  | inl more ↦ elim (Option-cases (turn frame resend r s)) [
    | inl lost ↦ subst Holding (sym (lost_turn limit frame i resend s r rounds more lost)) tt
    | inr ((t, s'), step) ↦
        let h' =
          After_holds Holds (turn frame resend r s) t s' (turn-Holds frame resend r s g h) step in
        subst Holding (sym (send_loop-turn limit frame i resend s r rounds t s' more step)) (
          after_turn limit frame i t s' rounds h'
            (λ j again. send_loop-Holding limit frame j again s' rounds gs h'))
  ]
]

sent_or_refused :
    (limit : ℕ) (s : Udp) (rounds : List Round) (o : Option (List ℕ × ℕ))
    → All IsGood rounds
    → Holds s
    → Holding (elim o [ none ↦ done exit_failure s | some f ↦ send_loop limit f.0 0 true s rounds ])
sent_or_refused limit s rounds none g h = h
sent_or_refused limit s rounds (some (frame, len)) g h =
    send_loop-Holding limit frame 0 true s rounds g h

pub udp_send_msg-Holding :
    (limit : ℕ) (allocated : Bool) (type : MsgType) (s : Udp) (rounds : List Round)
    → All IsGood rounds
    → Holds s
    → Holding (udp_send_msg limit allocated type s rounds)
udp_send_msg-Holding limit allocated type s rounds g h =
    let (o, build) = built_or_null allocated type s.client in
    subst Holding (sym (udp_send_msg_built limit allocated type s rounds o build))
      (sent_or_refused limit s rounds o g h)
