-- ===== src/Prompt/NoFault.antt =====
-- `await` never leaves its memory, where the calls of the interface do not.
use ipk_chat_client.Base.{
  true, inl, inr, Option-cases, lt→ltb, ◌≡◌, ◌≢◌, Bool, not, List, [], ◌∷◌, arith, All,
}
use ipk_chat_client.Common.{MsgType, confirm, ping, error_line}
use ipk_chat_client.Fsm.Machine.{Prompt}
use ipk_chat_client.Input.{Line, is_copied, parse_user_input}
use ipk_chat_client.Input.Laws.{parse_user_input-total}
use ipk_chat_client.Comm.{Comm, fd_setsize}
use ipk_chat_client.Comm.NoFault.{NoFault, user_read-fine}
use ipk_chat_client.Prompt.{
  Timeval, Wakeup, Awaited, prompted, fault, read_user, wait, wait_set, await,
}

-- What the socket gives at a turn is good, and `strdup` finds memory for what is typed.
pub record GoodWakeup {R : Type 0} (GoodR : R → Type 0) (w : Wakeup R) : Type 0 where
  pub received : GoodR w.received
  pub copied : is_copied w.typed ≡ true

abbrev pub GoodWakeups : {R : Type 0} → (R → Type 0) → List (Wakeup R) → Type 0
GoodWakeups GoodR ws = All (GoodWakeup GoodR) ws

module _ {S A R : Type 0} (comm : Comm S A R) (P : S → Type 0) (GoodA : A → Type 0)
    (GoodR : R → Type 0) (laws : NoFault comm P GoodA GoodR) where
  -- No fault, and a prompt comes with the property.
  abbrev pub FineAwait : Awaited S → Type 0
  FineAwait a = (a ≢ fault) × ((p : Prompt) (i : Bool) (s : S) → a ≡ prompted p i s → P s)

  read_user_fine :
      (typed : Line) (s : S) → is_copied typed ≡ true → P s → FineAwait (read_user comm typed s)
  unfolding read_user
  read_user_fine typed s copied h = elim (Option-cases (parse_user_input typed (comm.client s))) [
    | inl lost ↦ absurd (parse_user_input-total typed (comm.client s) copied lost)
    | inr (q, got) ↦
        let k = user_read-fine comm P GoodA GoodR laws q s h in
        (λ e. ground (arith, got), λ p i s' e. ground (arith, got, k))
  ]

  wait_fine :
      (processing incomplete : Bool) (start : Timeval) (type : MsgType) (ws : List (Wakeup R))
      (s : S)
      → GoodWakeups GoodR ws
      → P s
      → FineAwait (wait comm processing incomplete start type ws s)
  unfolding wait
  wait_fine processing incomplete start type [] s g h =
      (λ e. ground arith, λ p i s' e. ground arith)
  wait_fine processing incomplete start type (w ∷ ws) s (g, gs) h =
      let (t, s₁, got, k) = laws.recv w.received s g.received h in
      let silent = laws.prints (error_line "ERROR: Server is not responding" ∷ []) s h in
      let typed = read_user_fine w.typed s g.copied h in
      let again = wait_fine processing incomplete start type ws s gs h in
      let pinged = wait_fine processing incomplete start t ws s₁ gs k in
      (
        λ e. ground (arith, got, typed.0, again.0, pinged.0),
        λ p i s' e.
            ground (arith, got, silent, typed.1 p i s', k, h, again.1 p i s', pinged.1 p i s'),
      )

  -- From globals with the property, and with good answers of the socket, `await` has no fault, and
  -- where it gives a prompt the property holds still.
  pub await_fine :
      (processing memory : Bool) (start : Timeval) (ws : List (Wakeup R)) (s : S)
      → GoodWakeups GoodR ws
      → P s
      → FineAwait (await comm processing memory start ws s)
  unfolding await wait_set
  await_fine processing memory start ws s g h =
      let inside = lt→ltb comm.socket fd_setsize laws.socket in
      let (t, s₁, got, k) = laws.previous memory s h in
      let waits =
        λ (t : MsgType). wait_fine processing (not (comm.buffer_is_empty s₁)) start t ws s₁ g k in
      (
        λ e. ground (arith, got, inside, (waits confirm).0, (waits ping).0),
        λ p i s' e. ground (arith, got, inside, k, (waits confirm).1 p i s', (waits ping).1 p i s'),
      )
