-- ===== src/Examples/Chat.antt =====
-- Runs of the state machine.
use ipk_chat_client.Base.{◌≡◌, refl, ◌∷◌, [], List, codes, arith, true, false, none, some}
use ipk_chat_client.Common.{MsgType, auth, join, msg, reply, nreply, confirm, err, exit_failure}
use ipk_chat_client.Fsm.Machine.{
  InputType, user, server, state_auth, state_open, Fsm, Event, start_prompt, auth_prompt,
  open_prompt, call, turn, run_from, start, fsm,
}
use ipk_chat_client.Fsm.Diagram.{Edge, turn-Edge}
use ipk_chat_client.Fsm.Trace.{unexpected_fails}
use ipk_chat_client.Fsm.Consistency.{IsConsistent, fsm-IsConsistent}
use ipk_chat_client.Fsm.Speech.{final}

abbrev event : InputType → MsgType → Event
event i t = record {
  interrupt = false;
  prompt = record { input_type = i; type = t };
  send_ok = true;
}

abbrev login : List Event
login =
    event user auth
    ∷ event server nreply
    ∷ event user auth
    ∷ event server reply
    ∷ event user msg
    ∷ event user join
    ∷ []

-- The state in which the authentication was sent.
abbrev waiting : Fsm
waiting = record {
  state = some state_auth;
  processing = true;
  display_name = codes "Al";
  msg_content = [];
  sent = auth ∷ [];
  out = [];
}

abbrev opened : Fsm
opened = record waiting { state = some state_open; processing = false }

turn-Edge_example : Edge state_auth server reply none (some state_open) × (auth ∷ [] ≡ auth ∷ [])
unfolding turn call auth_prompt
turn-Edge_example = turn-Edge state_auth (event server reply) waiting refl

fsm-IsConsistent_example : IsConsistent (final (fsm [] login))
unfolding fsm start run_from turn call start_prompt auth_prompt open_prompt
fsm-IsConsistent_example = fsm-IsConsistent [] login {s = final (fsm [] login)} refl

unexpected_fails_example :
    ((call state_open (event server confirm) opened).0 ≡ exit_failure)
    × ((call state_open (event server confirm) opened).1.sent ≡ auth ∷ err ∷ [])
unexpected_fails_example =
    unexpected_fails state_open (event server confirm) opened (λ h. ground arith) refl refl
