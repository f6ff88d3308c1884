-- ===== src/Session/Speech.antt =====
-- What a session says before the server has let the client in, also while it waits.
use ipk_chat_client.Base.{
  ◌≡◌, refl, sym, ◌∙◌, inl, inr, true, ◌||◌, not, ◌&&◌, Option, none, some, List, [], ◌∷◌, ◌++◌,
  arith, Option-cases, if◌then◌else◌,
}
use Prim.Native.String.{String}
use ipk_chat_client.Common.{
  Exit, exit_success, exit_failure, MsgType, auth, join, msg, error, err, bye,
}
use ipk_chat_client.Fsm.Machine as Machine
use ipk_chat_client.Fsm.Machine.{
  InputType, user, server, Prompt, StateFn, state_start, state_auth, state_open, state_join,
  state_interupt, Fsm, Event, ended, running,
}
use ipk_chat_client.Fsm.Speech.{any_reply, any_chat, chat_needs_reply}
use ipk_chat_client.Comm.{Comm, Called-cases}
use ipk_chat_client.Prompt.{await, Awaited-cases}
use ipk_chat_client.Session.{
  Session, Answers, Result-cases, reached, blocked, Step, send, goto, succeed, reported, unexpected,
  set_content, start_prompt, auth_prompt, open_prompt, join_prompt, with_prompt, call, turn,
  run_from, start, fsm, processing,
}
use ipk_chat_client.Session.Refine.{Agree}
use ipk_chat_client.Session.Runs.{any_positive, any_positive-append, turn-Called, fsm_refines}

module _ {S A R : Type 0} (comm : Comm S A R) where
  -- A step that never waits.
  abbrev Never : Step comm → Type 0
  Never f = (s s' : Session S) → f s ≡ blocked s' → ⊥

  -- A step that has not sent nor heard anything where it waits.
  abbrev Quiet : Step comm → Type 0
  Quiet f = (s s' : Session S) → f s ≡ blocked s' → (s'.sent ≡ s.sent) × (s'.heard ≡ s.heard)

  goto-Never : (to : Option StateFn) → Never (goto comm to)
  goto-Never to s s' h = ground arith

  succeed-Never : Never (succeed comm)
  succeed-Never s s' h = ground arith

  reported-Never : (type : MsgType) → Never (reported comm type)
  unfolding reported
  reported-Never error s s' h = ground arith
  reported-Never type s s' h = ground arith

  send-Quiet : (a : A) (type : MsgType) (f : Step comm) → Never f → Quiet (send comm a type f)
  unfolding send
  send-Quiet a type f never s s' h = elim (Called-cases (comm.send_msg a type s.world)) [
    | inl (w, ok) ↦
        absurd
          (never (record s { world = w; sent = s.sent ++ type ∷ [] }) s' (ground (arith, ok, h)))
    | inr (inl (w, bad)) ↦ absurd (ground (arith, bad, h))
    | inr (inr (inl (w, waits))) ↦ ground (arith, waits, h)
    | inr (inr (inr lost)) ↦ absurd (ground (arith, lost, h))
  ]

  unexpected-Quiet :
      (a : A) (content : String) (type : MsgType) → Quiet (unexpected comm a content type)
  unfolding unexpected
  unexpected-Quiet a content type s s' h =
      send-Quiet a err (reported comm type) (reported-Never type) (set_content comm content s) s' h

  start-Quiet : (a : A) (i : InputType) (t : MsgType) → Quiet (start_prompt comm a i t)
  unfolding start_prompt
  start-Quiet a user auth s s' h =
      send-Quiet a auth (goto comm (some state_auth)) (goto-Never (some state_auth))
        (processing comm true s) s' h
  start-Quiet a user t s s' h = absurd (ground arith)
  start-Quiet a server t s s' h =
      ground (arith, unexpected-Quiet a "Invalid message received" t s s')

  auth-Quiet : (a : A) (i : InputType) (t : MsgType) → Quiet (auth_prompt comm a i t)
  unfolding auth_prompt
  auth-Quiet a user auth s s' h =
      send-Quiet a auth (succeed comm) succeed-Never (processing comm true s) s' h
  auth-Quiet a user t s s' h = absurd (ground arith)
  auth-Quiet a server t s s' h =
      ground (arith, unexpected-Quiet a "Server is not responding" t s s')

  open-Quiet : (a : A) (i : InputType) (t : MsgType) → Quiet (open_prompt comm a i t)
  unfolding open_prompt
  open-Quiet a user msg s s' h = send-Quiet a msg (succeed comm) succeed-Never s s' h
  open-Quiet a user join s s' h =
      send-Quiet a join (goto comm (some state_join)) (goto-Never (some state_join))
        (processing comm true s) s' h
  open-Quiet a user t s s' h = absurd (ground arith)
  open-Quiet a server t s s' h =
      ground (arith, unexpected-Quiet a "Invalid message received" t s s')

  join-Quiet : (a : A) (t : MsgType) → Quiet (join_prompt comm a t)
  unfolding join_prompt
  join-Quiet a t s s' h = ground (arith, unexpected-Quiet a "Server is not responding" t s s')

  -- Where a call waits nothing more was sent, and what was heard before is heard.
  abbrev pub Still : Step comm → Type 0
  Still f =
      (s s' : Session S)
      → f s ≡ blocked s'
      → (s'.sent ≡ s.sent) × (any_positive s.heard ≡ true → any_positive s'.heard ≡ true)

  with_prompt-Still :
      (x : Answers A R) (f : Prompt → Step comm)
      → ((p : Prompt) → Quiet (f p))
      → Still (with_prompt comm x f)
  unfolding with_prompt
  with_prompt-Still x f quiet s s' h =
      elim (Awaited-cases (await comm s.processing x.memory x.start x.wakeups s.world)) [
        | inl (p, i, w, got) ↦
            let q =
              quiet p
                (record s { world = w; interrupt = s.interrupt || i; heard = s.heard ++ p ∷ [] }) s'
                (ground (arith, got, h)) in
            (q.0, λ k. ground (arith, q, k, any_positive-append s.heard p))
        | inr (inl (w, got)) ↦ ground (arith, got, h)
        | inr (inr got) ↦ absurd (ground (arith, got, h))
      ]

  call-Still : (f : StateFn) (x : Answers A R) → Still (call comm f x)
  unfolding call
  call-Still state_start x =
      with_prompt-Still x (λ p. start_prompt comm x.sending p.input_type p.type)
        (λ p. start-Quiet x.sending p.input_type p.type)
  call-Still state_auth x =
      with_prompt-Still x (λ p. auth_prompt comm x.sending p.input_type p.type)
        (λ p. auth-Quiet x.sending p.input_type p.type)
  call-Still state_open x =
      with_prompt-Still x (λ p. open_prompt comm x.sending p.input_type p.type)
        (λ p. open-Quiet x.sending p.input_type p.type)
  call-Still state_join x =
      with_prompt-Still x (λ p. join_prompt comm x.sending p.type)
        (λ p. join-Quiet x.sending p.type)
  call-Still state_interupt x = λ s s' h.
      let q = send-Quiet x.sending bye (goto comm none) (goto-Never none) s s' h in
      (q.0, λ k. ground (arith, q, k))

  pub turn-Still : (f : StateFn) (x : Answers A R) → Still (turn comm f x)
  unfolding turn
  turn-Still f x s s' h =
      let b = s.interrupt || x.signal in
      let g = if not s.processing && b then state_interupt else f in
      call-Still g x (record s { interrupt = b; state = some g }) s' h

  -- A run of the abstract machine that is as far as this one, which waits.
  abbrev Running : Exit → List Prompt → Fsm → Session S → Type 0
  Running res hs g s' =
      (events : List Event) × (g' : Fsm) × (Machine.run_from res g events ≡ running g')
      × (s'.sent ≡ g'.sent)
      × ((any_positive hs || any_reply events) ≡ true → any_positive s'.heard ≡ true)

  run_from-Running :
      (res : Exit) (hs : List Prompt) (s : Session S) (g : Fsm) (xs : List (Answers A R))
      (s' : Session S)
      → Agree S hs s g
      → run_from comm res s xs ≡ blocked s'
      → Running res hs g s'
  unfolding run_from Machine.run_from
  run_from-Running exit_failure hs s g xs s' v eq = absurd (ground arith)
  run_from-Running exit_success hs s g [] s' v eq = elim (Option-cases s.state) [
    | inl off ↦ absurd (ground (arith, off, eq))
    | inr (f, at) ↦
        ([], g, ground (arith, at, v), ground (arith, at, eq, v), λ k. ground (arith, at, eq, v, k))
  ]
  run_from-Running exit_success hs s g (x ∷ xs) s' v eq = elim (Option-cases s.state) [
    | inl off ↦ absurd (ground (arith, off, eq))
    | inr (f, at) ↦ elim (Result-cases (turn comm f x s)) [
      | inl (e1, s1, got) ↦
          let (b, (ev, hs1, flag, heard, (done, same))) = turn-Called comm f x hs s g e1 s1 v got in
          let (events, g', ran, sent, later) =
            run_from-Running e1 hs1 s1 (Machine.turn f ev g).1 xs s' same
              (ground (arith, at, got, eq)) in
          (
            ev ∷ events,
            g',
            ground (arith, v, at, done, ran),
            sent,
            λ k. later (ground (arith, heard, k)),
          )
      | inr (inl (s1, got)) ↦
          let q = turn-Still f x s s1 got in
          let same : s1 ≡ s' = ground (arith, at, got, eq) in
          (
            [],
            g,
            ground (arith, at, v),
            ground (arith, q, same, v),
            λ k. ground (arith, q, same, v, k),
          )
      | inr (inr got) ↦ absurd (ground (arith, at, got, eq))
    ]
  ]

  -- A session, with any variant of the protocol and whatever the system answers, that has sent a
  -- chat message or a request to join a channel, to its end or as far as it has come, has got a
  -- positive REPLY as a prompt.
  pub session_chat_needs_reply :
      (w : S) (xs : List (Answers A R)) (s' : Session S)
      → reached (fsm comm w xs) ≡ some s'
      → any_chat s'.sent ≡ true
      → any_positive s'.heard ≡ true
  unfolding fsm start Machine.fsm Machine.start
  session_chat_needs_reply w xs s' h spoken = elim (Result-cases (fsm comm w xs)) [
    | inl (e, s, got) ↦
        let same : s ≡ s' = ground (arith, got, h) in
        let (events, g, ran, st, flag, sent, heard) = fsm_refines comm w xs e s [] got in
        rw (sym same) (heard ∙ chat_needs_reply [] events (rw ran (rw (sym sent, same) spoken)))
    | inr (inl (s, got)) ↦
        let same : s ≡ s' = ground (arith, got, h) in
        let (events, g, ran, sent, heard) =
          run_from-Running exit_success [] (start comm w) (Machine.start []) xs s
            (record { state = refl; processing = refl; sent = refl; heard = refl }) got in
        rw (sym same) (heard (chat_needs_reply [] events (rw ran (rw (sym sent, same) spoken))))
    | inr (inr got) ↦ absurd (ground (arith, got, h))
  ]
