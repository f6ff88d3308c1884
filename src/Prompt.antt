-- ===== src/Prompt.antt =====
-- src/prompt.c: waiting for the user or the server, over the clock and the answers of `select`.
pub mod Deadline
pub mod Laws
pub mod Keeps
pub mod Ready
pub mod NoFault
use ipk_chat_client.Base.{
  ◌≡◌, refl, ◌⊎◌, inl, inr, ℕ, ◌+◌, Bool, true, false, ◌&&◌, not, Option, none, some, List, [], ◌∷◌,
  if◌then◌else◌, ltb, ◌==◌, ℤ, pos, negsuc, sub_ℕ, ◌+ℤ◌, ◌-ℤ◌, is_negative,
}
use ipk_chat_client.Common.{
  MsgType, confirm, reply, auth, join, msg, nreply, error, local, ping, err, bye, Out, error_line,
}
use ipk_chat_client.Input.{Line, Parsed, parse_user_input}
use ipk_chat_client.Fsm.Machine.{InputType, user, server, Prompt}
use ipk_chat_client.Comm.{Comm, fd_setsize, user_read}

-- What `gettimeofday` answers.
pub record Timeval : Type 0 where
  pub tv_sec : ℕ
  pub tv_usec : ℕ

-- The `timeval` handed to `select`.
pub record Remaining : Type 0 where
  pub tv_sec : ℤ
  pub tv_usec : ℤ

-- The elapsed seconds and microseconds, with the borrow.
unfoldable pub elapsed : Timeval → Timeval → Remaining
elapsed start now =
    let sec = sub_ℕ now.tv_sec start.tv_sec in
    let usec = sub_ℕ now.tv_usec start.tv_usec in
    if is_negative usec
    then record { tv_sec = sec -ℤ pos 1; tv_usec = usec +ℤ pos 1000000 }
    else record { tv_sec = sec; tv_usec = usec }

abbrev pub is_million : ℤ → Bool
is_million (pos n) = n == 1000000
is_million (negsuc n) = false

unfoldable pub calculate_remaining_time : Timeval → Timeval → Remaining
calculate_remaining_time start now =
    let e = elapsed start now in
    let sec = pos 4 -ℤ e.tv_sec in
    let usec = pos 1000000 -ℤ e.tv_usec in
    if is_million usec
    then record { tv_sec = sec +ℤ pos 1; tv_usec = pos 0 }
    else record { tv_sec = sec; tv_usec = usec }

-- How `select` comes back: with EINTR, with another error, with 0, or with the socket or standard
-- input ready.
pub data Selected : Type 0 where
  interrupted failed timed_out : Selected
  ready : Bool → Bool → Selected

-- One turn of the loop: the clock before `select`, its answer, and what the socket and the user
-- give then. An answer for standard input counts only where it is in the set.
pub record Wakeup (R : Type 0) : Type 0 where
  pub now : Timeval
  pub selected : Selected
  pub received : R
  pub typed : Line

-- `select` refuses a negative time.
unfoldable pub select : Bool → Timeval → Timeval → Selected → Selected
unfolding calculate_remaining_time
select processing start now answer =
    if processing && is_negative (calculate_remaining_time start now).tv_sec then failed else answer

-- The prompt, with whether `interrupt` was set; or the wakeups are over; or a fault.
pub data Awaited (S : Type 0) : Type 0 where
  prompted : Prompt → Bool → S → Awaited S
  asleep : S → Awaited S
  fault : Awaited S

-- The globals at the end of the call, or while it waits.
abbrev pub left : {S : Type 0} → Awaited S → Option S
left (prompted p ended s) = some s
left (asleep s) = some s
left fault = none

pub Awaited-cases :
    {S : Type 0} (a : Awaited S)
    → ((p : Prompt) × (ended : Bool) × (s : S) × (a ≡ prompted p ended s))
      ⊎ (((s : S) × (a ≡ asleep s)) ⊎ (a ≡ fault))
Awaited-cases (prompted p ended s) = inl (p, ended, s, refl)
Awaited-cases (asleep s) = inr (inl (s, refl))
Awaited-cases fault = inr (inr refl)

abbrev pub is_ping : MsgType → Bool
is_ping ping = true
is_ping _ = false

abbrev pub from_server : MsgType → Prompt
from_server type = record { input_type = server; type = type }

module _ {S A R : Type 0} (comm : Comm S A R) where
  -- `parse_user_input` on the globals.
  unfoldable pub read_user : Line → S → Awaited S
  read_user typed s = elim (parse_user_input typed (comm.client s)) [
    | none ↦ fault
    | some p ↦
        prompted (record { input_type = user; type = p.type }) p.interrupt (user_read comm p s)
  ]

  -- The loop, with `prompt.type` as it stands.
  unfoldable pub wait : Bool → Bool → Timeval → MsgType → List (Wakeup R) → S → Awaited S
  wait processing incomplete start type [] s = asleep s
  wait processing incomplete start type (w ∷ ws) s =
      elim (select processing start w.now w.selected) [
        | interrupted ↦ elim processing [
          | false ↦ prompted (from_server local) false s
          | true ↦ wait processing incomplete start type ws s
        ]
        | failed ↦ prompted (from_server type) false s
        | timed_out ↦ elim processing [
          | true ↦
              prompted (from_server error) false
                (comm.print (error_line "ERROR: Server is not responding" ∷ []) s)
          | false ↦ wait processing incomplete start type ws s
        ]
        | ready socket input ↦ elim socket [
          | true ↦ elim (comm.recv_msg w.received s) [
            | none ↦ fault
            | some r ↦ elim (is_ping r.0) [
              | true ↦ wait processing incomplete start r.0 ws r.1
              | false ↦ prompted (from_server r.0) false r.1
            ]
          ]
          | false ↦ elim (not processing && (not incomplete && input)) [
            | true ↦ read_user w.typed s
            | false ↦ wait processing incomplete start type ws s
          ]
        ]
      ]

  -- The loop with its `FD_SET(comm->socket, &fd_descs)`, which writes outside the set for a descriptor
  -- of `FD_SETSIZE` or more; the socket is the same at every turn.
  unfoldable pub wait_set : Bool → Bool → Timeval → MsgType → List (Wakeup R) → S → Awaited S
  wait_set processing incomplete start type ws s =
      if ltb comm.socket fd_setsize then wait processing incomplete start type ws s else fault

  -- `memory` says whether there is memory for a message that waits already.
  unfoldable pub await : Bool → Bool → Timeval → List (Wakeup R) → S → Awaited S
  await processing memory start ws s = elim (comm.check_previous_msg memory s) [
    | none ↦ fault
    | some r ↦ elim r.0 [
      | none ↦ wait_set processing (not (comm.buffer_is_empty r.1)) start confirm ws r.1
      | some type ↦
          if is_ping type
          then wait_set processing (not (comm.buffer_is_empty r.1)) start type ws r.1
          else prompted (from_server type) false r.1
    ]
  ]
