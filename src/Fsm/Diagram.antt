-- ===== src/Fsm/Diagram.antt =====
-- The diagram of the client's states, which the functions of src/fsm.c follow.
use ipk_chat_client.Base.{
  Bool, true, false, ◌≡◌, ◌≢◌, refl, Option, none, some, List, [], ◌∷◌, ◌++◌, arith,
}
use ipk_chat_client.Common.{
  exit_success, MsgType, reply, auth, join, msg, nreply, error, local, bye,
}
use ipk_chat_client.Fsm.Machine.{
  InputType, user, server, StateFn, state_start, state_auth, state_open, state_join, state_interupt,
  Fsm, Event, start_prompt, auth_prompt, open_prompt, join_prompt, call, chosen, turn,
}

-- The commands that a state refuses with a message to the user.
abbrev pub is_refused : StateFn → MsgType → Bool
is_refused state_start auth = false
is_refused state_auth auth = false
is_refused state_open msg = false
is_refused state_open join = false
is_refused state_join t = false
is_refused state_interupt t = false
is_refused f error = false
is_refused f local = false
is_refused f t = true

-- The edges: where a state goes on a prompt, with the type of the message sent on the way.
pub data Edge : StateFn → InputType → MsgType → Option MsgType → Option StateFn → Type 0 where
  authenticate : Edge state_start user auth (some auth) (some state_auth)
  again : Edge state_auth user auth (some auth) (some state_auth)
  accepted : Edge state_auth server reply none (some state_open)
  rejected : Edge state_auth server nreply none (some state_auth)
  speak : Edge state_open user msg (some msg) (some state_open)
  hear : Edge state_open server msg none (some state_open)
  join_channel : Edge state_open user join (some join) (some state_join)
  joined : {i : InputType} → Edge state_join i reply none (some state_open)
  not_joined : {i : InputType} → Edge state_join i nreply none (some state_open)
  hear_joining : {i : InputType} → Edge state_join i msg none (some state_join)
  nothing : {f : StateFn} {i : InputType} → f ≢ state_interupt → Edge f i local none (some f)
  closed : {f : StateFn} → f ≢ state_interupt → Edge f server bye none none
  closed_joining : {i : InputType} → Edge state_join i bye none none
  refused : {f : StateFn} {t : MsgType} → is_refused f t ≡ true → Edge f user t none (some f)
  leave : {i : InputType} {t : MsgType} → Edge state_interupt i t (some bye) none

ruleset edges = (
  authenticate, again, accepted, rejected, speak, hear, join_channel, joined, not_joined,
  hear_joining, nothing, closed, closed_joining, refused, leave,
)

-- What a call sends when it succeeds.
abbrev pub sends : StateFn → InputType → MsgType → Option MsgType
sends state_start user auth = some auth
sends state_auth user auth = some auth
sends state_open user msg = some msg
sends state_open user join = some join
sends state_interupt i t = some bye
sends f i t = none

abbrev pub with_sent : List MsgType → Option MsgType → List MsgType
with_sent sent none = sent
with_sent sent (some t) = sent ++ t ∷ []

start-Edge :
    (i : InputType) (t : MsgType) (ok : Bool) (s : Fsm)
    → s.state ≡ some state_start
    → (start_prompt i t ok s).0 ≡ exit_success
    → Edge state_start i t (sends state_start i t) (start_prompt i t ok s).1.state
unfolding start_prompt
start-Edge user auth ok s at h = grind (arith, edges)
start-Edge i t ok s at h = grind (arith, edges)

auth-Edge :
    (i : InputType) (t : MsgType) (ok : Bool) (s : Fsm)
    → s.state ≡ some state_auth
    → (auth_prompt i t ok s).0 ≡ exit_success
    → Edge state_auth i t (sends state_auth i t) (auth_prompt i t ok s).1.state
unfolding auth_prompt
auth-Edge user auth ok s at h = grind (arith, edges)
auth-Edge i t ok s at h = grind (arith, edges)

open-Edge :
    (i : InputType) (t : MsgType) (ok : Bool) (s : Fsm)
    → s.state ≡ some state_open
    → (open_prompt i t ok s).0 ≡ exit_success
    → Edge state_open i t (sends state_open i t) (open_prompt i t ok s).1.state
unfolding open_prompt
open-Edge user auth ok s at h = grind (arith, edges)
open-Edge i t ok s at h = grind (arith, edges)

join-Edge :
    (i : InputType) (t : MsgType) (ok : Bool) (s : Fsm)
    → s.state ≡ some state_join
    → (join_prompt t ok s).0 ≡ exit_success
    → Edge state_join i t (sends state_join i t) (join_prompt t ok s).1.state
unfolding join_prompt
join-Edge user auth ok s at h = grind (arith, edges)
join-Edge i t ok s at h = grind (arith, edges)

-- A call of a state function that succeeds follows an edge, from its own state, for the prompt
-- that it got: the next state is the edge's.
pub call-Edge :
    (f : StateFn) (e : Event) (s : Fsm)
    → s.state ≡ some f
    → (call f e s).0 ≡ exit_success
    → Edge f e.prompt.input_type e.prompt.type
        (sends f e.prompt.input_type e.prompt.type)
        (call f e s).1.state
unfolding call
call-Edge state_start e s at h = start-Edge e.prompt.input_type e.prompt.type e.send_ok s at h
call-Edge state_auth e s at h = auth-Edge e.prompt.input_type e.prompt.type e.send_ok s at h
call-Edge state_open e s at h = open-Edge e.prompt.input_type e.prompt.type e.send_ok s at h
call-Edge state_join e s at h = join-Edge e.prompt.input_type e.prompt.type e.send_ok s at h
call-Edge state_interupt e s at h = grind (arith, edges)

-- What a successful call has sent is what its edge sends.
pub sent-call :
    (f : StateFn) (e : Event) (s : Fsm)
    → (call f e s).0 ≡ exit_success
    → (call f e s).1.sent ≡ with_sent s.sent (sends f e.prompt.input_type e.prompt.type)
unfolding call
sent-call f e s h = ground arith

-- A turn of the loop that succeeds follows an edge of the diagram from the function that the loop
-- chose, which is `state_interupt` after an interrupt while no reply is awaited and the state
-- otherwise, and sends what that edge sends.
pub turn-Edge :
    (f : StateFn) (e : Event) (s : Fsm)
    → (turn f e s).0 ≡ exit_success
    → let g = chosen f e s in
      let o = sends g e.prompt.input_type e.prompt.type in
      Edge g e.prompt.input_type e.prompt.type o (turn f e s).1.state
      × ((turn f e s).1.sent ≡ with_sent s.sent o)
unfolding turn
turn-Edge f e s h =
    let g = chosen f e s in
    (
      call-Edge g e (record s { state = some g }) refl h,
      sent-call g e (record s { state = some g }) h,
    )
