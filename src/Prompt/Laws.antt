-- ===== src/Prompt/Laws.antt =====
-- What a prompt can be.
use ipk_chat_client.Base.{
  ◌||◌, ◌≡◌, ◌≢◌, Bool, true, false, not, inl, inr, List, [], ◌∷◌, arith, All, Option-cases,
}
use ipk_chat_client.Common.{MsgType, confirm, ping}
use ipk_chat_client.Fsm.Machine.{user, server, Prompt}
use ipk_chat_client.Input.{Line, parse_user_input}
use ipk_chat_client.Comm.{Comm}
use ipk_chat_client.Prompt.{
  asleep, interrupted, timed_out, ready, Timeval, select, failed, Wakeup, prompted, is_ping, wait,
  wait_set, await, read_user,
}

module _ {S A R : Type 0} (comm : Comm S A R) where
  wait-server :
      (incomplete : Bool) (start : Timeval) (type : MsgType) (ws : List (Wakeup R)) (s : S)
      {p : Prompt} {i : Bool} {s' : S}
      → wait comm true incomplete start type ws s ≡ prompted p i s'
      → (p.input_type ≡ server) × (i ≡ false)
  unfolding wait
  wait-server incomplete start type [] s h = ground arith
  wait-server incomplete start type (w ∷ ws) s {p = p} {i = i} {s' = s'} h =
      elim (Option-cases (comm.recv_msg w.received s)) [
        | inl broken ↦
            ground (arith, broken, wait-server incomplete start type ws s {p = p} {i = i} {s' = s'})
        | inr (r, got) ↦ ground (
          arith,
          got,
          wait-server incomplete start type ws s {p = p} {i = i} {s' = s'},
          wait-server incomplete start r.0 ws r.1 {p = p} {i = i} {s' = s'},
        )
      ]

  -- While an answer of the server is awaited, no line of the user is taken: every prompt is of the
  -- server, and the end of standard input is not seen.
  pub await-server :
      (memory : Bool) (start : Timeval) (ws : List (Wakeup R)) (s : S) {p : Prompt} {i : Bool}
      {s' : S}
      → await comm true memory start ws s ≡ prompted p i s'
      → (p.input_type ≡ server) × (i ≡ false)
  unfolding await wait_set
  await-server memory start ws s {p = p} {i = i} {s' = s'} h =
      elim (Option-cases (comm.check_previous_msg memory s)) [
        | inl broken ↦ ground (arith, broken)
        | inr (r, got) ↦ ground (
          arith,
          got,
          wait-server (not (comm.buffer_is_empty r.1)) start confirm ws r.1 {p = p} {i = i}
              {s' = s'},
          wait-server (not (comm.buffer_is_empty r.1)) start ping ws r.1 {p = p} {i = i} {s' = s'},
        )
      ]

  -- `select` does not fail in this turn.
  abbrev pub Selects : Bool → Timeval → Wakeup R → Type 0
  Selects processing start w = select processing start w.now w.selected ≢ failed

  read_user-user :
      (typed : Line) (s : S) {p : Prompt} {i : Bool} {s' : S}
      → read_user comm typed s ≡ prompted p i s'
      → p.input_type ≡ user
  unfolding read_user
  read_user-user typed s {p = p} {i = i} {s' = s'} h =
      elim (Option-cases (parse_user_input typed (comm.client s))) [
        | inl lost ↦ absurd (ground (arith, lost, h))
        | inr (q, got) ↦ ground (arith, got, h)
      ]

  wait_no_ping :
      (processing incomplete : Bool) (start : Timeval) (type : MsgType) (ws : List (Wakeup R))
      (s : S) {p : Prompt} {i : Bool} {s' : S}
      → All (Selects processing start) ws
      → wait comm processing incomplete start type ws s ≡ prompted p i s'
      → p.input_type ≡ server
      → is_ping p.type ≡ false
  unfolding wait
  wait_no_ping processing incomplete start type [] s hs h e = ground arith
  wait_no_ping processing incomplete start type (w ∷ ws) s {p = p} {i = i} {s' = s'} hs h e =
      elim (Option-cases (comm.recv_msg w.received s)) [
        | inl broken ↦ ground (
          arith,
          broken,
          hs.0,
          wait_no_ping processing incomplete start type ws s {p = p} {i = i} {s' = s'} hs.1,
          read_user-user w.typed s {p = p} {i = i} {s' = s'},
        )
        | inr (r, got) ↦ ground (
          arith,
          got,
          hs.0,
          wait_no_ping processing incomplete start type ws s {p = p} {i = i} {s' = s'} hs.1,
          read_user-user w.typed s {p = p} {i = i} {s' = s'},
          wait_no_ping processing incomplete start r.0 ws r.1 {p = p} {i = i} {s' = s'} hs.1,
        )
      ]

  -- Unless `select` fails, no prompt is a PING of the server.
  pub await_no_ping :
      (processing memory : Bool) (start : Timeval) (ws : List (Wakeup R)) (s : S) {p : Prompt}
      {i : Bool} {s' : S}
      → All (Selects processing start) ws
      → await comm processing memory start ws s ≡ prompted p i s'
      → p.input_type ≡ server
      → is_ping p.type ≡ false
  unfolding await wait_set
  await_no_ping processing memory start ws s {p = p} {i = i} {s' = s'} hs h e =
      elim (Option-cases (comm.check_previous_msg memory s)) [
        | inl broken ↦ ground (arith, broken)
        | inr (r, got) ↦ ground (
          arith,
          got,
          wait_no_ping processing (not (comm.buffer_is_empty r.1)) start confirm ws r.1 {p = p}
              {i = i} {s' = s'} hs,
          wait_no_ping processing (not (comm.buffer_is_empty r.1)) start ping ws r.1 {p = p} {i = i}
              {s' = s'} hs,
        )
      ]

  -- `select` times out in this turn.
  abbrev pub times_out : Wakeup R → Bool
  times_out w = elim w.selected [
    | interrupted ↦ false
    | failed ↦ false
    | timed_out ↦ true
    | ready socket input ↦ false
  ]

  abbrev pub any_timeout : List (Wakeup R) → Bool
  any_timeout [] = false
  any_timeout (w ∷ ws) = times_out w || any_timeout ws

  wait_ends :
      (incomplete : Bool) (start : Timeval) (type : MsgType) (ws : List (Wakeup R)) (s s' : S)
      → any_timeout ws ≡ true
      → wait comm true incomplete start type ws s ≢ asleep s'
  unfolding wait select
  wait_ends incomplete start type [] s s' over h = ground arith
  wait_ends incomplete start type (w ∷ ws) s s' over h =
      elim (Option-cases (comm.recv_msg w.received s)) [
        | inl broken ↦ ground (arith, broken, wait_ends incomplete start type ws s s')
        | inr (r, got) ↦ ground (
          arith,
          got,
          wait_ends incomplete start type ws s s',
          wait_ends incomplete start r.0 ws r.1 s',
        )
      ]

  -- While an answer of the server is awaited, `await` waits no more once `select` has timed out,
  -- whatever woke it before, signals and PINGs among them: it has come back, unless a call of the
  -- interface was a fault.
  pub await_ends :
      (memory : Bool) (start : Timeval) (ws : List (Wakeup R)) (s s' : S)
      → any_timeout ws ≡ true
      → await comm true memory start ws s ≢ asleep s'
  unfolding await wait_set
  await_ends memory start ws s s' over h = elim (Option-cases (comm.check_previous_msg memory s)) [
    | inl broken ↦ ground (arith, broken)
    | inr (r, got) ↦ ground (
      arith,
      got,
      wait_ends (not (comm.buffer_is_empty r.1)) start confirm ws r.1 s',
      wait_ends (not (comm.buffer_is_empty r.1)) start ping ws r.1 s',
    )
  ]
