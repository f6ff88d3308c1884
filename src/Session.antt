-- ===== src/Session.antt =====
-- src/fsm.c over the modules that it calls: the loop with `await` and with the functions of the
-- interface, for any variant of the protocol.
pub mod Refine
pub mod Runs
pub mod Speech
pub mod Keeps
pub mod NoFault
pub mod Memory
pub mod Parting
pub mod Interrupted
pub mod Variants
use ipk_chat_client.Base.{
  ◌≡◌, refl, ◌⊎◌, inl, inr, ℕ, ◌+◌, Bool, true, false, not, ◌&&◌, ◌||◌, Option, none, some, List,
  [], ◌∷◌, ◌++◌, if◌then◌else◌, codes,
}
use ipk_chat_client.Common.{
  Exit, exit_success, exit_failure, MsgType, confirm, reply, auth, join, msg, nreply, error, local,
  ping, err, bye, Client, Out, error_line, copy_string, max_msg_size, max_name_size, zero_byte,
}
use ipk_chat_client.Fsm.Machine.{
  InputType, user, server, Prompt, StateFn, state_start, state_auth, state_open, state_join,
  state_interupt,
}
use ipk_chat_client.Comm as Comm
use ipk_chat_client.Comm.{Comm, Called, returned, waiting}
use ipk_chat_client.Prompt.{Timeval, Wakeup, Awaited, prompted, asleep, await}
use Prim.Native.String.{String}

-- `state`, `comm->processing`, `interrupt` and the other globals; and, for the theorems only, the
-- types handed to a `send_msg` that succeeded, and the prompts that `await` gave.
pub record Session (S : Type 0) : Type 0 where
  pub state : Option StateFn
  pub processing : Bool
  pub interrupt : Bool
  pub world : S
  pub sent : List MsgType
  pub heard : List Prompt

-- What the system answers during a turn of the loop: whether SIGINT came by its start, and what
-- `await` and `send_msg` meet.
pub record Answers (A R : Type 0) : Type 0 where
  pub signal : Bool
  pub memory : Bool
  pub start : Timeval
  pub wakeups : List (Wakeup R)
  pub sending : A

-- The end of a call: a result; or it waits still, in `await` or in `send_msg`; or a fault.
pub data Result (S : Type 0) : Type 0 where
  next : Exit → Session S → Result S
  blocked : Session S → Result S
  broken : Result S

-- The globals at the end, or while the call waits.
abbrev pub reached : {S : Type 0} → Result S → Option (Session S)
reached (next e s) = some s
reached (blocked s) = some s
reached broken = none

pub Result-cases :
    {S : Type 0} (r : Result S)
    → ((e : Exit) × (s : Session S) × (r ≡ next e s))
      ⊎ (((s : Session S) × (r ≡ blocked s)) ⊎ (r ≡ broken))
Result-cases (next e s) = inl (e, s, refl)
Result-cases (blocked s) = inr (inl (s, refl))
Result-cases broken = inr (inr refl)

module _ {S A R : Type 0} (comm : Comm S A R) where
  abbrev pub Step : Type 0
  Step = Session S → Result S

  -- `fprintf` to stdout.
  abbrev pub print : String → Session S → Session S
  print line s = record s { world = comm.print (error_line line ∷ []) s.world }

  -- The macro `SEND`, and then the rest of the function.
  unfoldable pub send : A → MsgType → Step → Step
  send a type rest s = elim (comm.send_msg a type s.world) [
    | Called.returned e w ↦ elim e [
      | exit_success ↦ rest (record s { world = w; sent = s.sent ++ type ∷ [] })
      | exit_failure ↦
          next exit_failure (print "ERROR: Failed to send message" (record s { world = w }))
    ]
    | Called.waiting w ↦ blocked (record s { world = w })
    | Called.fault ↦ broken
  ]

  abbrev pub succeed : Step
  succeed s = next exit_success s

  abbrev pub fail : Step
  fail s = next exit_failure s

  abbrev pub goto : Option StateFn → Step
  goto to s = next exit_success (record s { state = to })

  abbrev pub processing : Bool → Session S → Session S
  processing b s = record s { processing = b }

  abbrev pub refuse : String → Step
  refuse line s = next exit_success (print line s)

  -- The line printed after the ERR, unless the type is ERROR.
  unfoldable pub reported : MsgType → Step
  reported error s = next exit_failure s
  reported _ s = next exit_failure (print "ERROR: Received an unexpected message" s)

  -- `copy(client.msg_content, content, sizeof(client.msg_content))`.
  abbrev pub set_content : String → Session S → Session S
  set_content content s =
      let c = comm.client s.world in
      let text = copy_string (codes content) (max_msg_size + zero_byte) in
      record s { world = comm.with_client (record c { msg_content = text }) s.world }

  unfoldable pub unexpected : A → String → MsgType → Step
  unexpected a content type s = send a err (reported type) (set_content content s)

  unfoldable pub start_prompt : A → InputType → MsgType → Step
  start_prompt a user auth s = send a auth (goto (some state_auth)) (processing true s)
  start_prompt a user error s = fail s
  start_prompt a user local s = succeed s
  start_prompt a user _ s = refuse "ERROR: Authentication required" s
  start_prompt a server err s = fail s
  start_prompt a server bye s = goto none s
  start_prompt a server local s = succeed s
  start_prompt a server type s = unexpected a "Invalid message received" type s

  unfoldable pub auth_prompt : A → InputType → MsgType → Step
  auth_prompt a user auth s = send a auth succeed (processing true s)
  auth_prompt a user error s = fail s
  auth_prompt a user local s = succeed s
  auth_prompt a user _ s = refuse "ERROR: Authentication required" s
  auth_prompt a server reply s = goto (some state_open) (processing false s)
  auth_prompt a server nreply s = succeed (processing false s)
  auth_prompt a server err s = fail s
  auth_prompt a server bye s = goto none s
  auth_prompt a server local s = succeed s
  auth_prompt a server type s = unexpected a "Server is not responding" type s

  unfoldable pub open_prompt : A → InputType → MsgType → Step
  open_prompt a user msg s = send a msg succeed s
  open_prompt a user join s = send a join (goto (some state_join)) (processing true s)
  open_prompt a user error s = fail s
  open_prompt a user local s = succeed s
  open_prompt a user _ s = refuse "ERROR: Invalid command" s
  open_prompt a server err s = fail s
  open_prompt a server bye s = goto none s
  open_prompt a server msg s = succeed s
  open_prompt a server local s = succeed s
  open_prompt a server type s = unexpected a "Invalid message received" type s

  -- This state does not look at where the input came from.
  unfoldable pub join_prompt : A → MsgType → Step
  join_prompt a reply s = goto (some state_open) (processing false s)
  join_prompt a nreply s = goto (some state_open) (processing false s)
  join_prompt a err s = fail s
  join_prompt a bye s = goto none s
  join_prompt a msg s = succeed s
  join_prompt a local s = succeed s
  join_prompt a type s = unexpected a "Server is not responding" type s

  -- `prompt_t prompt = await();` and the rest of the function.
  unfoldable pub with_prompt : Answers A R → (Prompt → Step) → Step
  with_prompt x rest s = elim (await comm s.processing x.memory x.start x.wakeups s.world) [
    | Awaited.prompted p ended w ↦
        rest p (record s { world = w; interrupt = s.interrupt || ended; heard = s.heard ++ p ∷ [] })
    | Awaited.asleep w ↦ blocked (record s { world = w })
    | Awaited.fault ↦ broken
  ]

  unfoldable pub call : StateFn → Answers A R → Step
  call state_start x = with_prompt x (λ p. start_prompt x.sending p.input_type p.type)
  call state_auth x = with_prompt x (λ p. auth_prompt x.sending p.input_type p.type)
  call state_open x = with_prompt x (λ p. open_prompt x.sending p.input_type p.type)
  call state_join x = with_prompt x (λ p. join_prompt x.sending p.type)
  call state_interupt x = send x.sending bye (goto none)

  -- A turn of the loop at the function `f`.
  unfoldable pub turn : StateFn → Answers A R → Step
  turn f x s =
      let s' = record s { interrupt = s.interrupt || x.signal } in
      let g = if not s.processing && s'.interrupt then state_interupt else f in
      call g x (record s' { state = some g })

  -- The loop from the result of the last call on; where the answers end it runs on.
  unfoldable pub run_from : Exit → Session S → List (Answers A R) → Result S
  run_from exit_failure s xs = next exit_failure s
  run_from exit_success s [] = elim s.state [ none ↦ next exit_success s | some f ↦ blocked s ]
  run_from exit_success s (x ∷ xs) = elim s.state [
    | none ↦ next exit_success s
    | some f ↦ elim (turn f x s) [
      | next e s' ↦ run_from e s' xs
      | blocked s' ↦ blocked s'
      | broken ↦ broken
    ]
  ]

  -- `fsm()` up to `clean_up_comm`, on the globals after `get_comm`.
  unfoldable pub start : S → Session S
  start w = record {
    state = some state_start;
    processing = false;
    interrupt = false;
    world =
        comm.with_client
          (record (comm.client w) {
            display_name = copy_string (codes "unknown") (max_name_size + zero_byte);
          })
          w;
    sent = [];
    heard = [];
  }

  unfoldable pub fsm : S → List (Answers A R) → Result S
  unfolding start
  fsm w xs = run_from exit_success (start w) xs
