-- ===== src/Session/Keeps.antt =====
-- What every call of the interface keeps, a session keeps.
use mathlib.Core.Path.{subst}
use Prim.Native.String.{String}
use ipk_chat_client.Base.{
  ◌+◌, ◌≡◌, refl, sym, inl, inr, true, ◌||◌, not, ◌&&◌, Option, none, some, List, [], ◌∷◌, ◌++◌,
  arith, Option-cases, if◌then◌else◌, codes,
}
use ipk_chat_client.Common.{
  Client, Exit, exit_success, exit_failure, MsgType, auth, join, msg, error, err, bye, error_line,
  is_valid_msg_content, is_valid_printable, copy_string, max_msg_size, max_name_size, zero_byte,
}
use ipk_chat_client.Common.Laws.{
  IsContentChar, IsPrintable, IsText, is_valid_msg_content_iff, is_valid_printable_iff,
}
use ipk_chat_client.Input.Laws.{IsReady, IsValid, copy_all}
use ipk_chat_client.Fsm.Machine.{
  InputType, user, server, Prompt, StateFn, state_start, state_auth, state_open, state_join,
  state_interupt,
}
use ipk_chat_client.Comm.{Comm, Keeps, Called-cases}
use ipk_chat_client.Prompt.{left, await, Awaited-cases}
use ipk_chat_client.Prompt.Keeps.{await-keeps}
use ipk_chat_client.Prompt.Ready.{await-Ready}
use ipk_chat_client.Session.{
  Session, Answers, Result-cases, reached, Step, send, reported, unexpected, set_content, succeed,
  goto, refuse, start_prompt, auth_prompt, open_prompt, join_prompt, with_prompt, call, turn,
  run_from, start, fsm, processing,
}

-- The texts that the state functions put in an ERR.
abbrev IsReport : String → Type 0
IsReport content =
    IsText IsContentChar max_msg_size (copy_string (codes content) (max_msg_size + zero_byte))

report :
    (content : String) → is_valid_msg_content (codes content) max_msg_size ≡ true → IsReport content
report content h =
    let t = (is_valid_msg_content_iff (codes content) max_msg_size).0 h in
    rw (copy_all (codes content) max_msg_size t.fits) t

invalid-IsReport : IsReport "Invalid message received"
unfolding is_valid_msg_content
invalid-IsReport = report "Invalid message received" refl

silent-IsReport : IsReport "Server is not responding"
unfolding is_valid_msg_content
silent-IsReport = report "Server is not responding" refl

-- The name that a session starts with.
pub unknown_name :
    IsText IsPrintable max_name_size (copy_string (codes "unknown") (max_name_size + zero_byte))
unfolding is_valid_printable
unknown_name = (is_valid_printable_iff (codes "unknown") max_name_size).0 refl

module _ {S A R : Type 0} (comm : Comm S A R) (P : S → Type 0) (laws : Keeps comm P) where
  abbrev Keeping : Step comm → Type 0
  Keeping f = (s s' : Session S) → P s.world → reached (f s) ≡ some s' → P s'.world

  -- A step from globals that hold what a message of the type is built from.
  abbrev KeepingWith : MsgType → Step comm → Type 0
  KeepingWith type f =
      (s s' : Session S)
      → P s.world
      → IsReady type (comm.client s.world)
      → reached (f s) ≡ some s'
      → P s'.world

  send-KeepingWith :
      (a : A) (type : MsgType) (f : Step comm) → Keeping f → KeepingWith type (send comm a type f)
  unfolding send
  send-KeepingWith a type f keep s s' h r eq = elim (Called-cases (comm.send_msg a type s.world)) [
    | inl (w, ok) ↦
        keep (record s { world = w; sent = s.sent ++ type ∷ [] }) s'
          (laws.send a type s.world exit_success w h r ok) (ground (arith, ok, eq))
    | inr (inl (w, bad)) ↦ ground (
      arith,
      bad,
      eq,
      laws.prints (error_line "ERROR: Failed to send message" ∷ []) w
          (laws.send a type s.world exit_failure w h r bad),
    )
    | inr (inr (inl (w, waits))) ↦ ground (arith, waits, eq, laws.waits a type s.world w h r waits)
    | inr (inr (inr lost)) ↦ absurd (ground (arith, lost, eq))
  ]

  reported-Keeping : (type : MsgType) → Keeping (reported comm type)
  unfolding reported
  reported-Keeping error s s' h eq = ground arith
  reported-Keeping type s s' h eq =
      ground
        (arith, laws.prints (error_line "ERROR: Received an unexpected message" ∷ []) s.world h)

  unexpected-Keeping :
      (a : A) (content : String) (type : MsgType)
      → IsReport content
      → Keeping (unexpected comm a content type)
  unfolding unexpected IsReady
  unexpected-Keeping a content type ok s s' h eq =
      let c = laws.valid s.world h in
      let text = copy_string (codes content) (max_msg_size + zero_byte) in
      let d : Client = record (comm.client s.world) { msg_content = text } in
      let valid : IsValid d = record {
        username = c.username;
        channel_id = c.channel_id;
        secret = c.secret;
        display_name = c.display_name;
        msg_content = record { fits = ok.fits; chars = ok.chars };
      } in
      send-KeepingWith a err (reported comm type) (reported-Keeping type)
        (set_content comm content s) s' (laws.sets d s.world valid h)
        (subst (IsReady err) (sym (laws.reads d s.world)) ok) eq

  refuse-Keeping : (line : String) → Keeping (refuse comm line)
  refuse-Keeping line s s' h eq = ground (arith, laws.prints (error_line line ∷ []) s.world h)

  -- A state function on a prompt, where the user's input left what its message is built from.
  abbrev KeepingOn : InputType → MsgType → Step comm → Type 0
  KeepingOn i t f =
      (s s' : Session S)
      → P s.world
      → (i ≡ user → IsReady t (comm.client s.world))
      → reached (f s) ≡ some s'
      → P s'.world

  goto-Keeping : (to : Option StateFn) → Keeping (goto comm to)
  goto-Keeping to s s' h eq = ground arith

  succeed-Keeping : Keeping (succeed comm)
  succeed-Keeping s s' h eq = ground arith

  start-KeepingOn : (a : A) (i : InputType) (t : MsgType) → KeepingOn i t (start_prompt comm a i t)
  unfolding start_prompt
  start-KeepingOn a user auth s s' h r eq =
      send-KeepingWith a auth (goto comm (some state_auth)) (goto-Keeping (some state_auth))
        (processing comm true s) s' h (r refl) eq
  start-KeepingOn a user t s s' h r eq =
      ground (arith, refuse-Keeping "ERROR: Authentication required" s s' h)
  start-KeepingOn a server t s s' h r eq =
      ground (arith, unexpected-Keeping a "Invalid message received" t invalid-IsReport s s' h)

  auth-KeepingOn : (a : A) (i : InputType) (t : MsgType) → KeepingOn i t (auth_prompt comm a i t)
  unfolding auth_prompt
  auth-KeepingOn a user auth s s' h r eq =
      send-KeepingWith a auth (succeed comm) succeed-Keeping (processing comm true s) s' h (r refl)
        eq
  auth-KeepingOn a user t s s' h r eq =
      ground (arith, refuse-Keeping "ERROR: Authentication required" s s' h)
  auth-KeepingOn a server t s s' h r eq =
      ground (arith, unexpected-Keeping a "Server is not responding" t silent-IsReport s s' h)

  open-KeepingOn : (a : A) (i : InputType) (t : MsgType) → KeepingOn i t (open_prompt comm a i t)
  unfolding open_prompt
  open-KeepingOn a user msg s s' h r eq =
      send-KeepingWith a msg (succeed comm) succeed-Keeping s s' h (r refl) eq
  open-KeepingOn a user join s s' h r eq =
      send-KeepingWith a join (goto comm (some state_join)) (goto-Keeping (some state_join))
        (processing comm true s) s' h (r refl) eq
  open-KeepingOn a user t s s' h r eq =
      ground (arith, refuse-Keeping "ERROR: Invalid command" s s' h)
  open-KeepingOn a server t s s' h r eq =
      ground (arith, unexpected-Keeping a "Invalid message received" t invalid-IsReport s s' h)

  join-Keeping : (a : A) (t : MsgType) → Keeping (join_prompt comm a t)
  unfolding join_prompt
  join-Keeping a t s s' h eq =
      ground (arith, unexpected-Keeping a "Server is not responding" t silent-IsReport s s' h)

  with_prompt-Keeping :
      (x : Answers A R) (f : Prompt → Step comm)
      → ((p : Prompt) → KeepingOn p.input_type p.type (f p))
      → Keeping (with_prompt comm x f)
  unfolding with_prompt
  with_prompt-Keeping x f keep s s' h eq =
      let kept : (w : S)
          → left (await comm s.processing x.memory x.start x.wakeups s.world) ≡ some w
          → P w =
        λ w got. await-keeps comm P laws s.processing x.memory x.start x.wakeups s.world h got in
      elim (Awaited-cases (await comm s.processing x.memory x.start x.wakeups s.world)) [
        | inl (p, i, w, got) ↦
            keep p (record s { world = w; interrupt = s.interrupt || i; heard = s.heard ++ p ∷ [] })
              s' (kept w (ground (arith, got)))
              (await-Ready comm P laws s.processing x.memory x.start x.wakeups s.world h p i w got)
              (ground (arith, got, eq))
        | inr (inl (w, got)) ↦ ground (arith, got, eq, kept w (ground (arith, got)))
        | inr (inr got) ↦ absurd (ground (arith, got, eq))
      ]

  call-Keeping : (f : StateFn) (x : Answers A R) → Keeping (call comm f x)
  unfolding call IsReady
  call-Keeping state_start x =
      with_prompt-Keeping x (λ p. start_prompt comm x.sending p.input_type p.type)
        (λ p. start-KeepingOn x.sending p.input_type p.type)
  call-Keeping state_auth x =
      with_prompt-Keeping x (λ p. auth_prompt comm x.sending p.input_type p.type)
        (λ p. auth-KeepingOn x.sending p.input_type p.type)
  call-Keeping state_open x =
      with_prompt-Keeping x (λ p. open_prompt comm x.sending p.input_type p.type)
        (λ p. open-KeepingOn x.sending p.input_type p.type)
  call-Keeping state_join x =
      with_prompt-Keeping x (λ p. join_prompt comm x.sending p.type)
        (λ p s s' h r eq. join-Keeping x.sending p.type s s' h eq)
  call-Keeping state_interupt x =
      λ s s' h eq. send-KeepingWith x.sending bye (goto comm none) (goto-Keeping none) s s' h tt eq

  turn-Keeping : (f : StateFn) (x : Answers A R) → Keeping (turn comm f x)
  unfolding turn
  turn-Keeping f x s s' h eq =
      let b = s.interrupt || x.signal in
      let g = if not s.processing && b then state_interupt else f in
      call-Keeping g x (record s { interrupt = b; state = some g }) s' h eq

  run_from-Keeping : (res : Exit) (xs : List (Answers A R)) → Keeping (λ s. run_from comm res s xs)
  unfolding run_from
  run_from-Keeping exit_failure xs s s' h eq = ground arith
  run_from-Keeping exit_success [] s s' h eq = ground arith
  run_from-Keeping exit_success (x ∷ xs) s s' h eq = elim (Option-cases s.state) [
    | inl off ↦ ground (arith, off)
    | inr (f, at) ↦ elim (Result-cases (turn comm f x s)) [
      | inl (e1, s1, got) ↦
          run_from-Keeping e1 xs s1 s' (turn-Keeping f x s s1 h (ground (arith, got)))
            (ground (arith, at, got, eq))
      | inr (inl (s1, got)) ↦
          ground (arith, at, got, eq, turn-Keeping f x s s1 h (ground (arith, got)))
      | inr (inr got) ↦ absurd (ground (arith, at, got, eq))
    ]
  ]

  -- A property of the globals, of valid data of the client among them, that every call of the
  -- interface keeps, where a message that is sent has what it is built from, every session keeps
  -- from its start, to its end or as far as it has come.
  pub fsm-keeps :
      (w : S) (xs : List (Answers A R)) (s' : Session S)
      → P (start comm w).world
      → reached (fsm comm w xs) ≡ some s'
      → P s'.world
  unfolding fsm
  fsm-keeps w xs s' h eq = run_from-Keeping exit_success xs (start comm w) s' h eq
