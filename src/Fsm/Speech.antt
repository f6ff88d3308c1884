-- ===== src/Fsm/Speech.antt =====
-- What the client says before the server has let it in.
use ipk_chat_client.Base.{
  ℕ, Bool, true, false, ◌||◌, ◌≡◌, ◌⊎◌, inl, inr, refl, Option, some, List, [], ◌∷◌, ◌++◌, arith,
  Option-cases,
}
use ipk_chat_client.Common.{
  Exit, exit_success, exit_failure, MsgType, confirm, reply, auth, join, msg, err, bye,
}
use ipk_chat_client.Fsm.Machine.{
  user, server, Prompt, StateFn, state_start, state_open, state_join, Fsm, Event, unexpected,
  start_prompt, auth_prompt, open_prompt, join_prompt, call, turn, Run, ended, running, run_from,
  start, fsm,
}

-- A chat message or a request to join a channel.
abbrev pub is_chat : MsgType → Bool
is_chat msg = true
is_chat join = true
is_chat t = false

abbrev pub any_chat : List MsgType → Bool
any_chat [] = false
any_chat (t ∷ ts) = is_chat t || any_chat ts

any_chat-append : (ts us : List MsgType) → any_chat (ts ++ us) ≡ (any_chat ts || any_chat us)
any_chat-append [] us = refl
any_chat-append (t ∷ ts) us = ground (arith, any_chat-append ts us)

abbrev is_in : Option StateFn → Bool
is_in (some state_open) = true
is_in (some state_join) = true
is_in f = false

-- The client is in a channel or has spoken.
abbrev ahead : Fsm → Bool
ahead s = is_in s.state || any_chat s.sent

-- A positive answer of the server.
abbrev pub is_positive : Prompt → Bool
is_positive p = elim p.input_type [
  | server ↦ elim p.type [ confirm ↦ false | reply ↦ true | _ ↦ false ]
  | user ↦ false
]

abbrev pub is_reply : Event → Bool
is_reply e = is_positive e.prompt

abbrev pub any_reply : List Event → Bool
any_reply [] = false
any_reply (e ∷ events) = is_reply e || any_reply events

turn-ahead :
    (f : StateFn) (e : Event) (s : Fsm)
    → s.state ≡ some f
    → ahead (turn f e s).1 ≡ true
    → (ahead s ≡ true) ⊎ (is_reply e ≡ true)
unfolding turn call start_prompt auth_prompt open_prompt join_prompt unexpected
turn-ahead state_start e s at h = ground (
  arith,
  any_chat-append s.sent (auth ∷ []),
  any_chat-append s.sent (err ∷ []),
  any_chat-append s.sent (bye ∷ []),
)
turn-ahead f e s at h = ground (
  arith,
  any_chat-append s.sent (auth ∷ []),
  any_chat-append s.sent (err ∷ []),
  any_chat-append s.sent (bye ∷ []),
  any_chat-append s.sent (msg ∷ []),
  any_chat-append s.sent (join ∷ []),
)

-- The state in which a run ended or goes on.
abbrev pub final : Run → Fsm
final (ended x s) = s
final (running s) = s

or_true : (a : Bool) {b : Bool} → b ≡ true → (a || b) ≡ true
or_true true h = refl
or_true false h = h

run_from-ahead :
    (res : Exit) (s : Fsm) (events : List Event)
    → ahead (final (run_from res s events)) ≡ true
    → (ahead s ≡ true) ⊎ (any_reply events ≡ true)
unfolding run_from
run_from-ahead exit_failure s events h = inl h
run_from-ahead exit_success s [] h = elim (Option-cases s.state) [
  | inl null ↦ inl (ground (arith, null))
  | inr (f, at) ↦ inl (ground (arith, at))
]
run_from-ahead exit_success s (e ∷ events) h = elim (Option-cases s.state) [
  | inl null ↦ inl (ground (arith, null))
  | inr (f, at) ↦ elim (run_from-ahead (turn f e s).0 (turn f e s).1 events (ground (arith, at))) [
    | inl now ↦ elim (turn-ahead f e s at now) [
      | inl before ↦ inl before
      | inr by ↦ inr (ground (arith, by))
    ]
    | inr later ↦ inr (ground (arith, later))
  ]
]

-- Whatever the user types and the server sends, the client sends a chat message or a request to
-- join a channel only in a run in which the server has answered with a positive REPLY.
pub chat_needs_reply :
    (msg_content : List ℕ) (events : List Event)
    → any_chat (final (fsm msg_content events)).sent ≡ true
    → any_reply events ≡ true
unfolding fsm start
chat_needs_reply msg_content events h =
    elim (run_from-ahead exit_success (start msg_content) events
      (or_true (is_in (final (fsm msg_content events)).state) h)) [
        | inl early ↦ absurd (ground arith)
        | inr replied ↦ replied
      ]
