-- ===== src/Prompt/Ready.antt =====
-- What a line of the user leaves for the message that it asks for.
use mathlib.Core.Path.{subst}
use ipk_chat_client.Base.{
  some, ◌≡◌, sym, ◌∙◌, inl, inr, Bool, not, List, [], ◌∷◌, arith, Option-cases,
}
use ipk_chat_client.Common.{MsgType, confirm, ping}
use ipk_chat_client.Fsm.Machine.{Prompt, user}
use ipk_chat_client.Input.{Line, Parsed, parse_user_input}
use ipk_chat_client.Input.Laws.{IsReady, parse_user_input-IsGood}
use ipk_chat_client.Comm.{Comm, Keeps, user_read}
use ipk_chat_client.Prompt.{Timeval, Wakeup, Awaited, prompted, read_user, wait, wait_set, await}

module _ {S A R : Type 0} (comm : Comm S A R) (P : S → Type 0) (laws : Keeps comm P) where
  -- A prompt of the user leaves what its message is built from.
  abbrev pub HasText : Prompt → S → Type 0
  HasText p s = p.input_type ≡ user → IsReady p.type (comm.client s)

  abbrev Ready : Awaited S → Type 0
  Ready a = (p : Prompt) (i : Bool) (s : S) → a ≡ prompted p i s → HasText p s

  user_read-IsReady :
      (typed : Line) (p : Parsed) (s : S)
      → P s
      → parse_user_input typed (comm.client s) ≡ some p
      → IsReady p.type (comm.client (user_read comm p s))
  user_read-IsReady typed p s h got =
      let same = laws.shows p.out (comm.with_client p.client s) ∙ laws.reads p.client s in
      subst (IsReady p.type) (sym same)
        ((parse_user_input-IsGood typed (comm.client s) (laws.valid s h)).1 p got).ready

  read_user-Ready : (typed : Line) (s : S) → P s → Ready (read_user comm typed s)
  unfolding read_user
  read_user-Ready typed s h p i s' e u =
      elim (Option-cases (parse_user_input typed (comm.client s))) [
        | inl lost ↦ absurd (ground (arith, lost, e))
        | inr (q, got) ↦
            let text = user_read-IsReady typed q s h got in
            let same : (p ≡ record { input_type = user; type = q.type })
                × (s' ≡ user_read comm q s) =
              ground (arith, got, e) in
            subst (λ (x : Prompt). IsReady x.type (comm.client s')) (sym same.0)
              (subst (λ x. IsReady q.type (comm.client x)) (sym same.1) text)
      ]

  wait-Ready :
      (processing incomplete : Bool) (start : Timeval) (type : MsgType) (ws : List (Wakeup R))
      (s : S)
      → P s
      → Ready (wait comm processing incomplete start type ws s)
  unfolding wait
  wait-Ready processing incomplete start type [] s h p i s' e u = ground arith
  wait-Ready processing incomplete start type (w ∷ ws) s h p i s' e u =
      elim (Option-cases (comm.recv_msg w.received s)) [
        | inl broken ↦ ground (
          arith,
          broken,
          u,
          e,
          read_user-Ready w.typed s h p i s',
          wait-Ready processing incomplete start type ws s h p i s',
        )
        | inr (r, got) ↦ ground (
          arith,
          got,
          u,
          e,
          read_user-Ready w.typed s h p i s',
          wait-Ready processing incomplete start type ws s h p i s',
          wait-Ready processing incomplete start r.0 ws r.1 (laws.recv w.received s r.0 r.1 h got) p
              i s',
        )
      ]

  -- Where `await` comes back with an input of the user, the client has what the message of its type
  -- is built from, after what every call of the interface keeps.
  pub await-Ready :
      (processing memory : Bool) (start : Timeval) (ws : List (Wakeup R)) (s : S)
      → P s
      → Ready (await comm processing memory start ws s)
  unfolding await wait_set
  await-Ready processing memory start ws s h p i s' e u =
      elim (Option-cases (comm.check_previous_msg memory s)) [
        | inl broken ↦ ground (arith, broken, e)
        | inr (r, got) ↦
            let k = laws.previous memory s r.0 r.1 h got in
            let waits = λ (t : MsgType).
              wait-Ready processing (not (comm.buffer_is_empty r.1)) start t ws r.1 k p i s' in
            ground (arith, got, u, e, waits confirm, waits ping)
      ]
