-- ===== src/Fsm/Trace.antt =====
-- The ends of the loop.
use ipk_chat_client.Base.{
  Bool, true, false, ◌≡◌, ◌≢◌, inl, inr, none, some, List, [], ◌∷◌, ◌++◌, if◌then◌else◌, arith,
  Option-cases,
}
use ipk_chat_client.Common.{
  Exit, exit_success, exit_failure, MsgType, reply, msg, nreply, local, err, bye,
}
use ipk_chat_client.Fsm.Machine.{
  server, StateFn, state_start, state_auth, state_open, state_join, state_interupt, Fsm, Event,
  unexpected, start_prompt, auth_prompt, open_prompt, join_prompt, call, turn, ended, run_from,
}

-- The loop ends with success only when `state` is NULL.
pub run_from-success :
    (res : Exit) (s : Fsm) (events : List Event) {s' : Fsm}
    → run_from res s events ≡ ended exit_success s'
    → s'.state ≡ none
unfolding run_from
run_from-success exit_failure s events h = absurd (ground arith)
run_from-success exit_success s [] h = ground arith
run_from-success exit_success s (e ∷ events) {s' = s'} h = elim (Option-cases s.state) [
  | inl null ↦ ground (arith, null)
  | inr (f, at) ↦
      run_from-success (turn f e s).0 (turn f e s).1 events {s' = s'} (ground (arith, at))
]

-- An interrupt while no answer is awaited ends the loop with success, after a BYE, whatever events
-- would follow and whatever prompt was there.
pub interrupt_ends :
    (s : Fsm) (f : StateFn) (e : Event) (events : List Event)
    → s.state ≡ some f
    → s.processing ≡ false
    → e.interrupt ≡ true
    → e.send_ok ≡ true
    → run_from exit_success s (e ∷ events)
      ≡ ended exit_success (record s { state = none; sent = s.sent ++ bye ∷ [] })
unfolding run_from turn call
interrupt_ends s f e [] at idle i ok = ground (arith, at, idle, i, ok)
interrupt_ends s f e (e' ∷ events) at idle i ok = ground (arith, at, idle, i, ok)

-- The messages of the server that a state expects.
abbrev pub is_expected : StateFn → MsgType → Bool
is_expected f err = true
is_expected f bye = true
is_expected f local = true
is_expected state_auth reply = true
is_expected state_auth nreply = true
is_expected state_open msg = true
is_expected state_join reply = true
is_expected state_join nreply = true
is_expected state_join msg = true
is_expected f t = false

-- A message of the server that the state does not expect makes the client send an ERR, unless
-- sending fails, and end in failure.
pub unexpected_fails :
    (f : StateFn) (e : Event) (s : Fsm)
    → f ≢ state_interupt
    → e.prompt.input_type ≡ server
    → is_expected f e.prompt.type ≡ false
    → ((call f e s).0 ≡ exit_failure)
      × ((call f e s).1.sent ≡ (if e.send_ok then s.sent ++ err ∷ [] else s.sent))
unfolding call start_prompt auth_prompt open_prompt join_prompt unexpected
unexpected_fails state_start e s n i x = ground arith
unexpected_fails f e s n i x = ground arith
