-- ===== src/Session/Refine.antt =====
-- The loop over the real prompt and the real interface follows the loop of Fsm.Machine, which gets
-- its prompts and the success of its sending from outside.
use Prim.Native.String.{String}
use ipk_chat_client.Base.{
  ◌≡◌, ◌⊎◌, inl, inr, Bool, true, false, Option, some, List, [], ◌∷◌, ◌++◌, arith,
}
use ipk_chat_client.Common.{Exit, MsgType, reply, auth, join, msg, nreply, error, local, err, bye}
use ipk_chat_client.Fsm.Machine as Machine
use ipk_chat_client.Fsm.Machine.{
  InputType, user, server, Prompt, StateFn, state_start, state_auth, state_open, state_join,
  state_interupt, Fsm, Event,
}
use ipk_chat_client.Comm.{Comm, Called-cases}
use ipk_chat_client.Session.{
  Session, next, send, reported, unexpected, start_prompt, auth_prompt, open_prompt, join_prompt,
  Step, set_content, goto, succeed, processing, goto, succeed, processing,
}

-- What the two machines agree on, after the prompts `hs`.
pub record Agree (S : Type 0) (hs : List Prompt) (s : Session S) (g : Fsm) : Type 0 where
  pub state : s.state ≡ g.state
  pub processing : s.processing ≡ g.processing
  pub sent : s.sent ≡ g.sent
  pub heard : s.heard ≡ hs

module _ {S A R : Type 0} (comm : Comm S A R) where
  -- A result of the one machine and a result of the other.
  abbrev pub Matches : List Prompt → Exit → Session S → Exit × Fsm → Type 0
  Matches hs e s r = (r.0 ≡ e) × Agree S hs s r.1

  -- A step that follows a step of the abstract machine, where that sends with success or without.
  abbrev pub Follows : Step comm → (Bool → Machine.Step) → Type 0
  Follows f h =
      (hs : List Prompt) (s : Session S) (g : Fsm) (e : Exit) (s' : Session S)
      → Agree S hs s g
      → f s ≡ next e s'
      → Matches hs e s' (h true g) ⊎ Matches hs e s' (h false g)

  -- The same, for a step without sending.
  abbrev pub Copies : Step comm → Machine.Step → Type 0
  Copies f h =
      (hs : List Prompt) (s : Session S) (g : Fsm) (e : Exit) (s' : Session S)
      → Agree S hs s g
      → f s ≡ next e s'
      → Matches hs e s' (h g)

  pub send-Follows :
      (a : A) (type : MsgType) (f : Step comm) (h : Machine.Step)
      → Copies f h
      → Follows (send comm a type f) (λ ok. Machine.send ok type h)
  unfolding send
  send-Follows a type f h copies hs s g e s' v eq =
      elim (Called-cases (comm.send_msg a type s.world)) [
        | inl (w, ok) ↦ inl (
            copies hs (record s { world = w; sent = s.sent ++ type ∷ [] })
              (record g { sent = g.sent ++ type ∷ [] }) e s' (ground (arith, v))
              (ground (arith, ok, eq)))
        | inr (inl (w, bad)) ↦ inr (ground (arith, bad))
        | inr (inr (inl (w, waits))) ↦ absurd (ground (arith, waits))
        | inr (inr (inr lost)) ↦ absurd (ground (arith, lost))
      ]

  reported-Copies : (type : MsgType) → Copies (reported comm type) (Machine.reported type)
  unfolding reported Machine.reported
  reported-Copies error hs s g e s' v h = grind arith
  reported-Copies type hs s g e s' v h = grind arith

  unexpected-Follows :
      (a : A) (content : String) (type : MsgType)
      → Follows (unexpected comm a content type) (λ ok. Machine.unexpected content ok type)
  unfolding unexpected Machine.unexpected
  unexpected-Follows a content type hs s g e s' v h =
      send-Follows a err (reported comm type) (Machine.reported type) (reported-Copies type) hs
        (set_content comm content s) _ e s' (ground (arith, v)) h

  pub goto-Copies : (to : Option StateFn) → Copies (goto comm to) (Machine.goto to)
  goto-Copies to hs s g e s' v h = ground (arith, v)

  succeed-Copies : Copies (succeed comm) Machine.succeed
  succeed-Copies hs s g e s' v h = ground (arith, v)

  pub start-Follows :
      (a : A) (i : InputType) (t : MsgType)
      → Follows (start_prompt comm a i t) (λ ok. Machine.start_prompt i t ok)
  unfolding start_prompt Machine.start_prompt
  start-Follows a user auth hs s g e s' v h =
      send-Follows a auth (goto comm (some state_auth)) (Machine.goto (some state_auth))
        (goto-Copies (some state_auth)) hs (processing comm true s) (Machine.processing true g) e s'
        (ground (arith, v)) h
  start-Follows a user t hs s g e s' v h = inl (ground (arith, v))
  start-Follows a server err hs s g e s' v h = inl (ground (arith, v))
  start-Follows a server bye hs s g e s' v h = inl (ground (arith, v))
  start-Follows a server local hs s g e s' v h = inl (ground (arith, v))
  start-Follows a server t hs s g e s' v h =
      unexpected-Follows a "Invalid message received" t hs s g e s' v h

  pub auth-Follows :
      (a : A) (i : InputType) (t : MsgType)
      → Follows (auth_prompt comm a i t) (λ ok. Machine.auth_prompt i t ok)
  unfolding auth_prompt Machine.auth_prompt
  auth-Follows a user auth hs s g e s' v h =
      send-Follows a auth (succeed comm) Machine.succeed succeed-Copies hs (processing comm true s)
        (Machine.processing true g) e s' (ground (arith, v)) h
  auth-Follows a user t hs s g e s' v h = inl (ground (arith, v))
  auth-Follows a server reply hs s g e s' v h = inl (ground (arith, v))
  auth-Follows a server nreply hs s g e s' v h = inl (ground (arith, v))
  auth-Follows a server err hs s g e s' v h = inl (ground (arith, v))
  auth-Follows a server bye hs s g e s' v h = inl (ground (arith, v))
  auth-Follows a server local hs s g e s' v h = inl (ground (arith, v))
  auth-Follows a server t hs s g e s' v h =
      unexpected-Follows a "Server is not responding" t hs s g e s' v h

  pub open-Follows :
      (a : A) (i : InputType) (t : MsgType)
      → Follows (open_prompt comm a i t) (λ ok. Machine.open_prompt i t ok)
  unfolding open_prompt Machine.open_prompt
  open-Follows a user msg hs s g e s' v h =
      send-Follows a msg (succeed comm) Machine.succeed succeed-Copies hs s g e s' v h
  open-Follows a user join hs s g e s' v h =
      send-Follows a join (goto comm (some state_join)) (Machine.goto (some state_join))
        (goto-Copies (some state_join)) hs (processing comm true s) (Machine.processing true g) e s'
        (ground (arith, v)) h
  open-Follows a user t hs s g e s' v h = inl (ground (arith, v))
  open-Follows a server err hs s g e s' v h = inl (ground (arith, v))
  open-Follows a server bye hs s g e s' v h = inl (ground (arith, v))
  open-Follows a server msg hs s g e s' v h = inl (ground (arith, v))
  open-Follows a server local hs s g e s' v h = inl (ground (arith, v))
  open-Follows a server t hs s g e s' v h =
      unexpected-Follows a "Invalid message received" t hs s g e s' v h

  pub join-Follows :
      (a : A) (t : MsgType) → Follows (join_prompt comm a t) (λ ok. Machine.join_prompt t ok)
  unfolding join_prompt Machine.join_prompt
  join-Follows a reply hs s g e s' v h = inl (ground (arith, v))
  join-Follows a nreply hs s g e s' v h = inl (ground (arith, v))
  join-Follows a err hs s g e s' v h = inl (ground (arith, v))
  join-Follows a bye hs s g e s' v h = inl (ground (arith, v))
  join-Follows a msg hs s g e s' v h = inl (ground (arith, v))
  join-Follows a local hs s g e s' v h = inl (ground (arith, v))
  join-Follows a t hs s g e s' v h =
      unexpected-Follows a "Server is not responding" t hs s g e s' v h
