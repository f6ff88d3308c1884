-- ===== src/Prompt/Keeps.antt =====
-- What `await` keeps.
use ipk_chat_client.Base.{some, ◌≡◌, Bool, not, inl, inr, List, [], ◌∷◌, arith, Option-cases}
use ipk_chat_client.Common.{MsgType, confirm, ping, error_line}
use ipk_chat_client.Input.{Line, parse_user_input}
use ipk_chat_client.Comm.{Comm, Keeps, user_read-keeps}
use ipk_chat_client.Prompt.{left, Timeval, Wakeup, read_user, wait, wait_set, await}

module _ {S A R : Type 0} (comm : Comm S A R) (P : S → Type 0) (laws : Keeps comm P) where
  read_user-keeps :
      (typed : Line) (s : S) {s' : S} → P s → left (read_user comm typed s) ≡ some s' → P s'
  unfolding read_user
  read_user-keeps typed s {s' = s'} h e =
      elim (Option-cases (parse_user_input typed (comm.client s))) [
        | inl lost ↦ ground (arith, lost)
        | inr (p, got) ↦
            let kept = user_read-keeps comm P laws typed p s h got in ground (arith, got, kept)
      ]

  wait-keeps :
      (processing incomplete : Bool) (start : Timeval) (type : MsgType) (ws : List (Wakeup R))
      (s : S) {s' : S}
      → P s
      → left (wait comm processing incomplete start type ws s) ≡ some s'
      → P s'
  unfolding wait
  wait-keeps processing incomplete start type [] s h e = ground arith
  wait-keeps processing incomplete start type (w ∷ ws) s {s' = s'} h e =
      elim (Option-cases (comm.recv_msg w.received s)) [
        | inl broken ↦ ground (
          arith,
          broken,
          read_user-keeps w.typed s {s' = s'} h,
          laws.prints (error_line "ERROR: Server is not responding" ∷ []) s h,
          wait-keeps processing incomplete start type ws s {s' = s'} h,
        )
        | inr (r, got) ↦ ground (
          arith,
          got,
          read_user-keeps w.typed s {s' = s'} h,
          laws.prints (error_line "ERROR: Server is not responding" ∷ []) s h,
          laws.recv w.received s r.0 r.1 h,
          wait-keeps processing incomplete start type ws s {s' = s'} h,
          λ (k : P r.1). wait-keeps processing incomplete start r.0 ws r.1 {s' = s'} k,
        )
      ]

  -- What every call of the interface and every line of the user keep, `await` keeps, also while it
  -- waits.
  pub await-keeps :
      (processing memory : Bool) (start : Timeval) (ws : List (Wakeup R)) (s : S) {s' : S}
      → P s
      → left (await comm processing memory start ws s) ≡ some s'
      → P s'
  unfolding await wait_set
  await-keeps processing memory start ws s {s' = s'} h e =
      elim (Option-cases (comm.check_previous_msg memory s)) [
        | inl broken ↦ ground (arith, broken)
        | inr (r, got) ↦ ground (
          arith,
          got,
          laws.previous memory s r.0 r.1 h,
          λ (k : P r.1).
              wait-keeps processing (not (comm.buffer_is_empty r.1)) start confirm ws r.1 {s' = s'}
                k,
          λ (k : P r.1).
              wait-keeps processing (not (comm.buffer_is_empty r.1)) start ping ws r.1 {s' = s'} k,
        )
      ]
