-- ===== src/Session/Parting.antt =====
-- How a session of src/fsm.c ends in success: with a BYE, of the one side or of the other.
use ipk_chat_client.Base.{
  ◌≡◌, ◌≢◌, refl, ◌⊎◌, inl, inr, sym, true, ◌||◌, not, ◌&&◌, none, some, List, [], ◌∷◌, ◌++◌, arith,
  Option-cases, if◌then◌else◌,
}
use Prim.Native.String.{String}
use ipk_chat_client.Common.{
  Exit, exit_success, exit_failure, MsgType, auth, join, msg, error, err, bye,
}
use ipk_chat_client.Fsm.Machine.{
  InputType, user, server, Prompt, StateFn, state_start, state_auth, state_open, state_join,
  state_interupt,
}
use ipk_chat_client.Comm.{Comm, Called-cases}
use ipk_chat_client.Prompt.{await, Awaited-cases}
use ipk_chat_client.Session.{
  Session, Answers, Result-cases, next, Step, send, goto, succeed, reported, unexpected,
  set_content, start_prompt, auth_prompt, open_prompt, join_prompt, with_prompt, call, turn,
  run_from, start, fsm, processing,
}

-- The last message sent is a BYE, or the last prompt that came is one.
abbrev pub HasParted : {S : Type 0} → Session S → Type 0
HasParted s =
    ((ts : List MsgType) × (s.sent ≡ ts ++ bye ∷ []))
    ⊎ ((ps : List Prompt) × (p : Prompt) × (s.heard ≡ ps ++ p ∷ []) × (p.type ≡ bye))

module _ {S A R : Type 0} (comm : Comm S A R) where
  -- A step that does not leave the loop with success.
  abbrev Stays : Step comm → Type 0
  Stays f =
      (s s' : Session S) (g : StateFn)
      → s.state ≡ some g
      → f s ≡ next exit_success s'
      → s'.state ≢ none

  goto-Stays : (to : StateFn) → Stays (goto comm (some to))
  goto-Stays to s s' g at h = ground arith

  succeed-Stays : Stays (succeed comm)
  succeed-Stays s s' g at h = ground (arith, at)

  reported-Stays : (type : MsgType) → Stays (reported comm type)
  unfolding reported
  reported-Stays error s s' g at h = absurd (ground arith)
  reported-Stays type s s' g at h = absurd (ground arith)

  send-Stays : (a : A) (type : MsgType) (f : Step comm) → Stays f → Stays (send comm a type f)
  unfolding send
  send-Stays a type f stays s s' g at h = elim (Called-cases (comm.send_msg a type s.world)) [
    | inl (w, ok) ↦
        stays (record s { world = w; sent = s.sent ++ type ∷ [] }) s' g at (ground (arith, ok, h))
    | inr (inl (w, bad)) ↦ absurd (ground (arith, bad, h))
    | inr (inr (inl (w, waits))) ↦ absurd (ground (arith, waits, h))
    | inr (inr (inr lost)) ↦ absurd (ground (arith, lost, h))
  ]

  unexpected-Stays :
      (a : A) (content : String) (type : MsgType) → Stays (unexpected comm a content type)
  unfolding unexpected
  unexpected-Stays a content type s s' g at h =
      send-Stays a err (reported comm type) (reported-Stays type) (set_content comm content s) s' g
        at h

  -- A step on a prompt of the type `t` leaves the loop with success only if it is a BYE.
  abbrev Quits : MsgType → Step comm → Type 0
  Quits t f =
      (s s' : Session S) (g : StateFn)
      → s.state ≡ some g
      → f s ≡ next exit_success s'
      → s'.state ≡ none
      → (t ≡ bye) × (s'.heard ≡ s.heard)

  start-Quits : (a : A) (i : InputType) (t : MsgType) → Quits t (start_prompt comm a i t)
  unfolding start_prompt
  start-Quits a user auth s s' g at h off = absurd (
      send-Stays a auth (goto comm (some state_auth)) (goto-Stays state_auth)
        (processing comm true s) s' g at h off)
  start-Quits a user t s s' g at h off = absurd (ground (arith, at))
  start-Quits a server t s s' g at h off =
      ground (arith, at, unexpected-Stays a "Invalid message received" t s s' g at)

  auth-Quits : (a : A) (i : InputType) (t : MsgType) → Quits t (auth_prompt comm a i t)
  unfolding auth_prompt
  auth-Quits a user auth s s' g at h off =
      absurd (send-Stays a auth (succeed comm) succeed-Stays (processing comm true s) s' g at h off)
  auth-Quits a user t s s' g at h off = absurd (ground (arith, at))
  auth-Quits a server t s s' g at h off =
      ground (arith, at, unexpected-Stays a "Server is not responding" t s s' g at)

  open-Quits : (a : A) (i : InputType) (t : MsgType) → Quits t (open_prompt comm a i t)
  unfolding open_prompt
  open-Quits a user msg s s' g at h off =
      absurd (send-Stays a msg (succeed comm) succeed-Stays s s' g at h off)
  open-Quits a user join s s' g at h off = absurd (
      send-Stays a join (goto comm (some state_join)) (goto-Stays state_join)
        (processing comm true s) s' g at h off)
  open-Quits a user t s s' g at h off = absurd (ground (arith, at))
  open-Quits a server t s s' g at h off =
      ground (arith, at, unexpected-Stays a "Invalid message received" t s s' g at)

  join-Quits : (a : A) (t : MsgType) → Quits t (join_prompt comm a t)
  unfolding join_prompt
  join-Quits a t s s' g at h off =
      ground (arith, at, unexpected-Stays a "Server is not responding" t s s' g at)

  -- A step that leaves the loop with success after a BYE.
  abbrev Parts : Step comm → Type 0
  Parts f =
      (s s' : Session S) (g : StateFn)
      → s.state ≡ some g
      → f s ≡ next exit_success s'
      → s'.state ≡ none
      → HasParted s'

  with_prompt-Parts :
      (x : Answers A R) (f : Prompt → Step comm)
      → ((p : Prompt) → Quits p.type (f p))
      → Parts (with_prompt comm x f)
  unfolding with_prompt
  with_prompt-Parts x f quits s s' g at h off =
      elim (Awaited-cases (await comm s.processing x.memory x.start x.wakeups s.world)) [
        | inl (p, i, w, got) ↦
            let q =
              quits p
                (record s { world = w; interrupt = s.interrupt || i; heard = s.heard ++ p ∷ [] }) s'
                g at (ground (arith, got, h)) off in
            inr (s.heard, p, q.1, q.0)
        | inr (inl (w, got)) ↦ absurd (ground (arith, got, h))
        | inr (inr got) ↦ absurd (ground (arith, got, h))
      ]

  leave-Parts : (a : A) → Parts (send comm a bye (goto comm none))
  unfolding send
  leave-Parts a s s' g at h off = elim (Called-cases (comm.send_msg a bye s.world)) [
    | inl (w, ok) ↦ inl (s.sent, ground (arith, ok, h))
    | inr (inl (w, bad)) ↦ absurd (ground (arith, bad, h))
    | inr (inr (inl (w, waits))) ↦ absurd (ground (arith, waits, h))
    | inr (inr (inr lost)) ↦ absurd (ground (arith, lost, h))
  ]

  call-Parts : (f : StateFn) (x : Answers A R) → Parts (call comm f x)
  unfolding call
  call-Parts state_start x =
      with_prompt-Parts x (λ p. start_prompt comm x.sending p.input_type p.type)
        (λ p. start-Quits x.sending p.input_type p.type)
  call-Parts state_auth x =
      with_prompt-Parts x (λ p. auth_prompt comm x.sending p.input_type p.type)
        (λ p. auth-Quits x.sending p.input_type p.type)
  call-Parts state_open x =
      with_prompt-Parts x (λ p. open_prompt comm x.sending p.input_type p.type)
        (λ p. open-Quits x.sending p.input_type p.type)
  call-Parts state_join x =
      with_prompt-Parts x (λ p. join_prompt comm x.sending p.type)
        (λ p. join-Quits x.sending p.type)
  call-Parts state_interupt x = leave-Parts x.sending

  turn-Parts : (f : StateFn) (x : Answers A R) → Parts (turn comm f x)
  unfolding turn
  turn-Parts f x s s' g at h off =
      let b = s.interrupt || x.signal in
      let chosen = if not s.processing && b then state_interupt else f in
      call-Parts chosen x (record s { interrupt = b; state = some chosen }) s' chosen refl h off

  run_from-HasParted :
      (res : Exit) (s : Session S) (xs : List (Answers A R)) (s' : Session S)
      → (res ≡ exit_success → s.state ≡ none → HasParted s)
      → run_from comm res s xs ≡ next exit_success s'
      → (s'.state ≡ none) × HasParted s'
  unfolding run_from
  run_from-HasParted exit_failure s xs s' v h = absurd (ground arith)
  run_from-HasParted exit_success s [] s' v h = elim (Option-cases s.state) [
    | inl off ↦ let same : s ≡ s' = ground (arith, off, h) in rw (sym same) (off, v refl off)
    | inr (f, at) ↦ absurd (ground (arith, at, h))
  ]
  run_from-HasParted exit_success s (x ∷ xs) s' v h = elim (Option-cases s.state) [
    | inl off ↦ let same : s ≡ s' = ground (arith, off, h) in rw (sym same) (off, v refl off)
    | inr (f, at) ↦ elim (Result-cases (turn comm f x s)) [
      | inl (e, s1, got) ↦
          run_from-HasParted e s1 xs s'
            (λ ok off. turn-Parts f x s s1 f at (ground (arith, ok, got)) off)
            (ground (arith, at, got, h))
      | inr (inl (s1, got)) ↦ absurd (ground (arith, at, got, h))
      | inr (inr got) ↦ absurd (ground (arith, at, got, h))
    ]
  ]

  -- A session, with any variant of the protocol and whatever the system answers, ends in success
  -- only with `state` NULL and after a BYE: the last message that it sent is one, or the last
  -- prompt that it got is one.
  pub fsm-HasParted :
      (w : S) (xs : List (Answers A R)) (s' : Session S)
      → fsm comm w xs ≡ next exit_success s'
      → (s'.state ≡ none) × HasParted s'
  unfolding fsm start
  fsm-HasParted w xs s' h =
      run_from-HasParted exit_success (start comm w) xs s' (λ ok off. absurd (ground arith)) h
