-- ===== src/Session/NoFault.antt =====
-- A session never leaves its memory, where the calls of the interface do not.
use Prim.Native.String.{String}
use ipk_chat_client.Base.{
  ◌≡◌, ◌≢◌, inl, inr, true, ◌||◌, not, ◌&&◌, Option, none, some, List, [], ◌∷◌, ◌++◌, arith,
  Option-cases, if◌then◌else◌, All,
}
use ipk_chat_client.Common.{
  Exit, exit_success, exit_failure, MsgType, auth, join, msg, error, err, bye, error_line,
}
use ipk_chat_client.Fsm.Machine.{
  InputType, user, server, Prompt, StateFn, state_start, state_auth, state_open, state_join,
  state_interupt,
}
use ipk_chat_client.Comm.{Comm, Called-cases}
use ipk_chat_client.Comm.NoFault.{NoFault}
use ipk_chat_client.Prompt.{await, Awaited-cases}
use ipk_chat_client.Prompt.NoFault.{GoodWakeups, await_fine}
use ipk_chat_client.Session.{
  Session, Answers, Result, next, broken, Result-cases, Step, send, reported, unexpected,
  set_content, succeed, goto, refuse, start_prompt, auth_prompt, open_prompt, join_prompt,
  with_prompt, call, turn, run_from, start, fsm, processing,
}

-- What the system answers in a turn is good.
pub record GoodAnswers {A R : Type 0} (GoodA : A → Type 0) (GoodR : R → Type 0) (x : Answers A R)
    : Type 0 where
  pub sending : GoodA x.sending
  pub wakeups : GoodWakeups GoodR x.wakeups

module _ {S A R : Type 0} (comm : Comm S A R) (P : S → Type 0) (GoodA : A → Type 0)
    (GoodR : R → Type 0) (laws : NoFault comm P GoodA GoodR) where
  -- No fault, and globals with the property where the loop goes on.
  abbrev FineResult : Result S → Type 0
  FineResult r = (r ≢ broken) × ((s : Session S) → r ≡ next exit_success s → P s.world)

  abbrev Fine : Step comm → Type 0
  Fine f = (s : Session S) → P s.world → FineResult (f s)

  send-Fine :
      (a : A) (type : MsgType) (f : Step comm) → GoodA a → Fine f → Fine (send comm a type f)
  unfolding send
  send-Fine a type f g keep s h = elim (Called-cases (comm.send_msg a type s.world)) [
    | inl (w, ok) ↦
        let after =
          keep (record s { world = w; sent = s.sent ++ type ∷ [] })
            (laws.send a type s.world w g h ok) in
        (λ e. ground (arith, ok, after.0), λ s' e. ground (arith, ok, after.1 s'))
    | inr (inl (w, bad)) ↦ (λ e. ground (arith, bad), λ s' e. ground (arith, bad))
    | inr (inr (inl (w, waits))) ↦ (λ e. ground (arith, waits), λ s' e. ground (arith, waits))
    | inr (inr (inr lost)) ↦ absurd (laws.send_ends a type s.world g h lost)
  ]

  reported-Fine : (type : MsgType) → Fine (reported comm type)
  unfolding reported
  reported-Fine error s h = (λ e. ground arith, λ s' e. ground arith)
  reported-Fine type s h = (λ e. ground arith, λ s' e. ground arith)

  unexpected-Fine :
      (a : A) (content : String) (type : MsgType) → GoodA a → Fine (unexpected comm a content type)
  unfolding unexpected
  unexpected-Fine a content type g s h =
      send-Fine a err (reported comm type) g (reported-Fine type) (set_content comm content s)
        (laws.sets _ s.world h)

  refuse-Fine : (line : String) → Fine (refuse comm line)
  refuse-Fine line s h =
      let k = laws.prints (error_line line ∷ []) s.world h in
      (λ e. ground arith, λ s' e. ground (arith, k))

  goto-Fine : (to : Option StateFn) → Fine (goto comm to)
  goto-Fine to s h = (λ e. ground arith, λ s' e. ground (arith, h))

  succeed-Fine : Fine (succeed comm)
  succeed-Fine s h = (λ e. ground arith, λ s' e. ground (arith, h))

  start-Fine : (a : A) (i : InputType) (t : MsgType) → GoodA a → Fine (start_prompt comm a i t)
  unfolding start_prompt
  start-Fine a user auth g s h =
      send-Fine a auth (goto comm (some state_auth)) g (goto-Fine (some state_auth))
        (processing comm true s) h
  start-Fine a user t g s h =
      let refused = refuse-Fine "ERROR: Authentication required" s h in
      (λ e. ground (arith, refused.0), λ s' e. ground (arith, refused.1 s', h))
  start-Fine a server t g s h =
      let odd = unexpected-Fine a "Invalid message received" t g s h in
      (λ e. ground (arith, odd.0), λ s' e. ground (arith, odd.1 s', h))

  auth-Fine : (a : A) (i : InputType) (t : MsgType) → GoodA a → Fine (auth_prompt comm a i t)
  unfolding auth_prompt
  auth-Fine a user auth g s h =
      send-Fine a auth (succeed comm) g succeed-Fine (processing comm true s) h
  auth-Fine a user t g s h =
      let refused = refuse-Fine "ERROR: Authentication required" s h in
      (λ e. ground (arith, refused.0), λ s' e. ground (arith, refused.1 s', h))
  auth-Fine a server t g s h =
      let odd = unexpected-Fine a "Server is not responding" t g s h in
      (λ e. ground (arith, odd.0), λ s' e. ground (arith, odd.1 s', h))

  open-Fine : (a : A) (i : InputType) (t : MsgType) → GoodA a → Fine (open_prompt comm a i t)
  unfolding open_prompt
  open-Fine a user msg g s h = send-Fine a msg (succeed comm) g succeed-Fine s h
  open-Fine a user join g s h =
      send-Fine a join (goto comm (some state_join)) g (goto-Fine (some state_join))
        (processing comm true s) h
  open-Fine a user t g s h =
      let refused = refuse-Fine "ERROR: Invalid command" s h in
      (λ e. ground (arith, refused.0), λ s' e. ground (arith, refused.1 s', h))
  open-Fine a server t g s h =
      let odd = unexpected-Fine a "Invalid message received" t g s h in
      (λ e. ground (arith, odd.0), λ s' e. ground (arith, odd.1 s', h))

  join-Fine : (a : A) (t : MsgType) → GoodA a → Fine (join_prompt comm a t)
  unfolding join_prompt
  join-Fine a t g s h =
      let odd = unexpected-Fine a "Server is not responding" t g s h in
      (λ e. ground (arith, odd.0), λ s' e. ground (arith, odd.1 s', h))

  with_prompt-Fine :
      (x : Answers A R) (f : Prompt → Step comm)
      → GoodAnswers GoodA GoodR x
      → ((p : Prompt) → Fine (f p))
      → Fine (with_prompt comm x f)
  unfolding with_prompt
  with_prompt-Fine x f g keep s h =
      let fine =
        await_fine comm P GoodA GoodR laws s.processing x.memory x.start x.wakeups s.world g.wakeups
          h in
      elim (Awaited-cases (await comm s.processing x.memory x.start x.wakeups s.world)) [
        | inl (p, i, w, got) ↦
            let after =
              keep p
                (record s { world = w; interrupt = s.interrupt || i; heard = s.heard ++ p ∷ [] })
                (fine.1 p i w got) in
            (λ e. ground (arith, got, after.0), λ s' e. ground (arith, got, after.1 s'))
        | inr (inl (w, got)) ↦ (λ e. ground (arith, got), λ s' e. ground (arith, got))
        | inr (inr got) ↦ absurd (fine.0 got)
      ]

  call-Fine : (f : StateFn) (x : Answers A R) → GoodAnswers GoodA GoodR x → Fine (call comm f x)
  unfolding call
  call-Fine state_start x g =
      with_prompt-Fine x (λ p. start_prompt comm x.sending p.input_type p.type) g
        (λ p. start-Fine x.sending p.input_type p.type g.sending)
  call-Fine state_auth x g =
      with_prompt-Fine x (λ p. auth_prompt comm x.sending p.input_type p.type) g
        (λ p. auth-Fine x.sending p.input_type p.type g.sending)
  call-Fine state_open x g =
      with_prompt-Fine x (λ p. open_prompt comm x.sending p.input_type p.type) g
        (λ p. open-Fine x.sending p.input_type p.type g.sending)
  call-Fine state_join x g =
      with_prompt-Fine x (λ p. join_prompt comm x.sending p.type) g
        (λ p. join-Fine x.sending p.type g.sending)
  call-Fine state_interupt x g = send-Fine x.sending bye (goto comm none) g.sending (goto-Fine none)

  turn-Fine : (f : StateFn) (x : Answers A R) → GoodAnswers GoodA GoodR x → Fine (turn comm f x)
  unfolding turn
  turn-Fine f x g s h =
      let b = s.interrupt || x.signal in
      let to = if not s.processing && b then state_interupt else f in
      call-Fine to x g (record s { interrupt = b; state = some to }) h

  run_from_fine :
      (res : Exit) (xs : List (Answers A R)) (s : Session S)
      → All (GoodAnswers GoodA GoodR) xs
      → P s.world
      → run_from comm res s xs ≢ broken
  unfolding run_from
  run_from_fine exit_failure xs s g h e = ground arith
  run_from_fine exit_success [] s g h e = ground arith
  run_from_fine exit_success (x ∷ xs) s (g, gs) h e = elim (Option-cases s.state) [
    | inl off ↦ ground (arith, off)
    | inr (f, at) ↦
        let fine = turn-Fine f x g s h in
        elim (Result-cases (turn comm f x s)) [
          | inl (exit_success, s1, got) ↦
              run_from_fine exit_success xs s1 gs (fine.1 s1 got) (ground (arith, at, got, e))
          | inl (exit_failure, s1, got) ↦ ground (arith, at, got, e)
          | inr (inl (s1, got)) ↦ ground (arith, at, got, e)
          | inr (inr got) ↦ fine.0 got
        ]
  ]

  -- A session over an interface whose calls have no fault has none, whatever is typed, where what
  -- the system answers is good.
  pub fsm_fine :
      (w : S) (xs : List (Answers A R))
      → All (GoodAnswers GoodA GoodR) xs
      → P w
      → fsm comm w xs ≢ broken
  unfolding fsm start
  fsm_fine w xs g h = run_from_fine exit_success xs (start comm w) g (laws.sets _ w h)
