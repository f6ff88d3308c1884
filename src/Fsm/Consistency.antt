-- ===== src/Fsm/Consistency.antt =====
-- Where the client waits for an answer of the server.
use ipk_chat_client.Base.{
  ℕ, Bool, true, false, not, ◌&&◌, ◌≡◌, ◌≢◌, ◌⊎◌, inl, inr, refl, Option, none, some, List, [], ◌∷◌,
  arith, Bool-cases, Option-cases,
}
use ipk_chat_client.Common.{Exit, exit_success, exit_failure}
use ipk_chat_client.Fsm.Machine.{
  StateFn, state_start, state_auth, state_open, state_join, state_interupt, Fsm, Event, unexpected,
  start_prompt, auth_prompt, open_prompt, join_prompt, call, chosen, turn, running, run_from, start,
  fsm,
}

-- Whether an answer of the server may be awaited in a state, by the flag `processing`: not in the
-- states start and open, always in join. The function of an interrupt is never the state between
-- two turns.
abbrev pub allowed : Option StateFn → Bool → Bool
allowed none waits = true
allowed (some state_start) waits = not waits
allowed (some state_auth) waits = true
allowed (some state_open) waits = not waits
allowed (some state_join) waits = waits
allowed (some state_interupt) waits = false

abbrev pub IsConsistent : Fsm → Type 0
IsConsistent s = allowed s.state s.processing ≡ true

call-IsConsistent :
    (f : StateFn) (e : Event) (s : Fsm)
    → f ≢ state_interupt
    → IsConsistent (record s { state = some f })
    → (call f e (record s { state = some f })).0 ≡ exit_success
    → IsConsistent (call f e (record s { state = some f })).1
unfolding call start_prompt auth_prompt open_prompt join_prompt unexpected
call-IsConsistent state_start e s n c h = grind arith
call-IsConsistent f e s n c h = grind arith

still-IsConsistent :
    (f : StateFn) (s : Fsm)
    → s.state ≡ some f
    → IsConsistent s
    → IsConsistent (record s { state = some f })
still-IsConsistent f s at c = grind arith

interupt-IsConsistent :
    (e : Event) (s : Fsm)
    → (call state_interupt e s).0 ≡ exit_success
    → IsConsistent (call state_interupt e s).1
unfolding call
interupt-IsConsistent e s h = grind arith

turn-chosen :
    (f g : StateFn) (e : Event) (s : Fsm)
    → chosen f e s ≡ g
    → turn f e s ≡ call g e (record s { state = some g })
unfolding turn
turn-chosen f g e s h = rw h refl

turn-IsConsistent :
    (f : StateFn) (e : Event) (s : Fsm)
    → s.state ≡ some f
    → IsConsistent s
    → (turn f e s).0 ≡ exit_success
    → IsConsistent (turn f e s).1
turn-IsConsistent f e s at c h = elim (Bool-cases (not s.processing && e.interrupt)) [
  | inl interrupted ↦
      let same = turn-chosen f state_interupt e s (ground (arith, interrupted)) in
      rw same (
        interupt-IsConsistent e (record s { state = some state_interupt })
          (ground (arith, same, h)))
  | inr on ↦
      let same = turn-chosen f f e s (ground (arith, on)) in
      rw same (
        call-IsConsistent f e s (grind arith) (still-IsConsistent f s at c)
          (ground (arith, same, h)))
]

-- The result of a turn is success, or it is failure.
exit_cases : (x : Exit) → (x ≡ exit_success) ⊎ (x ≡ exit_failure)
exit_cases exit_success = inl refl
exit_cases exit_failure = inr refl

-- A run that goes on is in a consistent state.
run_from-IsConsistent :
    (s : Fsm) (events : List Event) {s' : Fsm}
    → IsConsistent s
    → run_from exit_success s events ≡ running s'
    → IsConsistent s'
unfolding run_from
run_from-IsConsistent s [] {s' = s'} c h = elim (Option-cases s.state) [
  | inl null ↦ absurd (ground (arith, null))
  | inr (f, at) ↦ let same : s ≡ s' = ground (arith, at) in rw (← same) c
]
run_from-IsConsistent s (e ∷ events) {s' = s'} c h = elim (Option-cases s.state) [
  | inl null ↦ absurd (ground (arith, null))
  | inr (f, at) ↦ elim (exit_cases (turn f e s).0) [
    | inl ok ↦
        run_from-IsConsistent (turn f e s).1 events {s' = s'} (turn-IsConsistent f e s at c ok)
          (ground (arith, at, ok))
    | inr failed ↦ absurd (ground (arith, at, failed))
  ]
]

-- While the client runs, whatever it was fed, it is not waiting for an answer in the states start
-- and open, it is waiting in the state join, and the state function is never that of an interrupt.
pub fsm-IsConsistent :
    (msg_content : List ℕ) (events : List Event) {s : Fsm}
    → fsm msg_content events ≡ running s
    → IsConsistent s
unfolding fsm start
fsm-IsConsistent msg_content events h = run_from-IsConsistent (start msg_content) events refl h
