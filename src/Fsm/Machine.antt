-- ===== src/Fsm/Machine.antt =====
-- The state functions and the loop of src/fsm.c, over what the modules below it answer: the prompt
-- that `await` returns, whether `send_msg` succeeds, and whether the interrupt flag is set.
use ipk_chat_client.Base.{
  ℕ, ◌+◌, Bool, true, false, not, ◌&&◌, Option, none, some, List, [], ◌∷◌, ◌++◌, if◌then◌else◌,
  codes,
}
use ipk_chat_client.Common.{
  Exit, exit_success, exit_failure, MsgType, reply, auth, join, msg, nreply, error, local, err, bye,
  Out, error_line, copy_string, max_msg_size, max_name_size, zero_byte,
}
use Prim.Native.String.{String}

-- `input_type_t` and `prompt_t` of lib/prompt.h.
pub data InputType : Type 0 where
  user server : InputType

pub record Prompt : Type 0 where
  pub input_type : InputType
  pub type : MsgType

-- The state functions, as values of the function pointer `state`; NULL is `none`.
pub data StateFn : Type 0 where
  state_start state_auth state_open state_join state_interupt : StateFn

-- `state`, `comm->processing`, the client's name and content as far as this file writes them, the
-- types handed to a `send_msg` that succeeded, and the lines printed.
pub record Fsm : Type 0 where
  pub state : Option StateFn
  pub processing : Bool
  pub display_name : List ℕ
  pub msg_content : List ℕ
  pub sent : List MsgType
  pub out : List Out

-- What one turn of the loop meets: the interrupt flag, the prompt, and whether sending succeeds.
pub record Event : Type 0 where
  pub interrupt : Bool
  pub prompt : Prompt
  pub send_ok : Bool

abbrev pub Step : Type 0
Step = Fsm → Exit × Fsm

-- The macro `SEND`, and then the rest of the function.
abbrev pub send : Bool → MsgType → Step → Step
send ok type rest s =
    if ok
    then rest (record s { sent = s.sent ++ type ∷ [] })
    else (exit_failure, record s { out = s.out ++ error_line "ERROR: Failed to send message" ∷ [] })

abbrev pub succeed : Step
succeed s = (exit_success, s)

abbrev pub fail : Step
fail s = (exit_failure, s)

abbrev pub goto : Option StateFn → Step
goto next s = (exit_success, record s { state = next })

-- A message that was not parsed has been reported already.
unfoldable pub reported : MsgType → Step
reported error s = (exit_failure, s)
reported _ s = (
  exit_failure,
  record s { out = s.out ++ error_line "ERROR: Received an unexpected message" ∷ [] },
)

-- A server message that the state does not expect: ERR goes out, and the client ends in failure.
unfoldable pub unexpected : String → Bool → MsgType → Step
unfolding reported
unexpected content ok type s =
    send ok err (reported type)
      (record s { msg_content = copy_string (codes content) (max_msg_size + zero_byte) })

-- A command of the user that the state does not take.
abbrev pub refuse : String → Step
refuse line s = (exit_success, record s { out = s.out ++ error_line line ∷ [] })

abbrev pub processing : Bool → Fsm → Fsm
processing b s = record s { processing = b }

unfoldable pub start_prompt : InputType → MsgType → Bool → Step
unfolding unexpected
start_prompt user auth ok s = send ok auth (goto (some state_auth)) (processing true s)
start_prompt user error ok s = fail s
start_prompt user local ok s = succeed s
start_prompt user _ ok s = refuse "ERROR: Authentication required" s
start_prompt server err ok s = fail s
start_prompt server bye ok s = goto none s
start_prompt server local ok s = succeed s
start_prompt server type ok s = unexpected "Invalid message received" ok type s

unfoldable pub auth_prompt : InputType → MsgType → Bool → Step
unfolding unexpected
auth_prompt user auth ok s = send ok auth succeed (processing true s)
auth_prompt user error ok s = fail s
auth_prompt user local ok s = succeed s
auth_prompt user _ ok s = refuse "ERROR: Authentication required" s
auth_prompt server reply ok s = goto (some state_open) (processing false s)
auth_prompt server nreply ok s = succeed (processing false s)
auth_prompt server err ok s = fail s
auth_prompt server bye ok s = goto none s
auth_prompt server local ok s = succeed s
auth_prompt server type ok s = unexpected "Server is not responding" ok type s

unfoldable pub open_prompt : InputType → MsgType → Bool → Step
unfolding unexpected
open_prompt user msg ok s = send ok msg succeed s
open_prompt user join ok s = send ok join (goto (some state_join)) (processing true s)
open_prompt user error ok s = fail s
open_prompt user local ok s = succeed s
open_prompt user _ ok s = refuse "ERROR: Invalid command" s
open_prompt server err ok s = fail s
open_prompt server bye ok s = goto none s
open_prompt server msg ok s = succeed s
open_prompt server local ok s = succeed s
open_prompt server type ok s = unexpected "Invalid message received" ok type s

-- This state does not look at where the input came from.
unfoldable pub join_prompt : MsgType → Bool → Step
unfolding unexpected
join_prompt reply ok s = goto (some state_open) (processing false s)
join_prompt nreply ok s = goto (some state_open) (processing false s)
join_prompt err ok s = fail s
join_prompt bye ok s = goto none s
join_prompt msg ok s = succeed s
join_prompt local ok s = succeed s
join_prompt type ok s = unexpected "Server is not responding" ok type s

-- A call of the state function, with the prompt that `await` returns in it.
unfoldable pub call : StateFn → Event → Step
unfolding start_prompt auth_prompt open_prompt join_prompt
call state_start e s = start_prompt e.prompt.input_type e.prompt.type e.send_ok s
call state_auth e s = auth_prompt e.prompt.input_type e.prompt.type e.send_ok s
call state_open e s = open_prompt e.prompt.input_type e.prompt.type e.send_ok s
call state_join e s = join_prompt e.prompt.type e.send_ok s
call state_interupt e s = send e.send_ok bye (goto none) s

-- The function that a turn of the loop calls: `state`, or `state_interupt` after an interrupt.
abbrev pub chosen : StateFn → Event → Fsm → StateFn
chosen f e s = if not s.processing && e.interrupt then state_interupt else f

unfoldable pub turn : StateFn → Event → Step
turn f e s = let g = chosen f e s in call g e (record s { state = some g })

-- The loop has ended with its result, or has met all events and runs on.
pub data Run : Type 0 where
  ended : Exit → Fsm → Run
  running : Fsm → Run

-- The loop from the result `res` of the last call on.
unfoldable pub run_from : Exit → Fsm → List Event → Run
run_from exit_failure s events = ended exit_failure s
run_from exit_success s [] = elim s.state [ none ↦ ended exit_success s | some f ↦ running s ]
run_from exit_success s (e ∷ events) = elim s.state [
  | none ↦ ended exit_success s
  | some f ↦ let (res, s') = turn f e s in run_from res s' events
]

-- `fsm()` up to `clean_up_comm`: `processing` is false since `get_comm`.
unfoldable pub start : List ℕ → Fsm
start msg_content = record {
  state = some state_start;
  processing = false;
  display_name = copy_string (codes "unknown") (max_name_size + zero_byte);
  msg_content = msg_content;
  sent = [];
  out = [];
}

unfoldable pub fsm : List ℕ → List Event → Run
unfolding start
fsm msg_content events = run_from exit_success (start msg_content) events
