-- ===== src/Session/Runs.antt =====
-- Whole runs of the loop over the real prompt, against runs of Fsm.Machine.
use ipk_chat_client.Base.{
  ℕ, ◌≡◌, refl, sym, ap, ◌∙◌, inl, inr, Bool, true, false, ◌||◌, not, ◌&&◌, none, some, List, [],
  ◌∷◌, ◌++◌, arith, Option-cases, if◌then◌else◌,
}
use ipk_chat_client.Common.{Exit, exit_success, exit_failure, local, bye}
use ipk_chat_client.Fsm.Machine as Machine
use ipk_chat_client.Fsm.Machine.{
  user, Prompt, StateFn, state_start, state_auth, state_open, state_join, state_interupt, Fsm,
  Event, ended,
}
use ipk_chat_client.Fsm.Speech.{is_positive, is_reply, any_reply}
use ipk_chat_client.Comm.{Comm}
use ipk_chat_client.Prompt.{await, Awaited-cases}
use ipk_chat_client.Session.{
  Session, Answers, next, Step, start_prompt, auth_prompt, open_prompt, join_prompt, with_prompt,
  call, turn, Result-cases, run_from, start, fsm, goto,
}
use ipk_chat_client.Session.Refine.{
  Agree, Matches, Follows, send-Follows, goto-Copies, start-Follows, auth-Follows, open-Follows,
  join-Follows,
}

abbrev pub any_positive : List Prompt → Bool
any_positive [] = false
any_positive (p ∷ ps) = is_positive p || any_positive ps

pub any_positive-append :
    (ps : List Prompt) (p : Prompt)
    → any_positive (ps ++ p ∷ []) ≡ (any_positive ps || is_positive p)
any_positive-append [] p = ground arith
any_positive-append (q ∷ ps) p = ground (arith, any_positive-append ps p)

module _ {S A R : Type 0} (comm : Comm S A R) where
  with_prompt-Follows :
      (x : Answers A R) (f : Prompt → Step comm) (h : Prompt → Bool → Machine.Step)
      → ((p : Prompt) → Follows comm (f p) (h p))
      → (hs : List Prompt) (s : Session S) (g : Fsm) (e : Exit) (s' : Session S) → Agree S hs s g
      → with_prompt comm x f s ≡ next e s'
      → (p : Prompt) × (ok : Bool) × Matches comm (hs ++ p ∷ []) e s' (h p ok g)
  unfolding with_prompt
  with_prompt-Follows x f h follow hs s g e s' v eq =
      elim (Awaited-cases (await comm s.processing x.memory x.start x.wakeups s.world)) [
        | inl (p, i, w, got) ↦
            elim (follow p (hs ++ p ∷ [])
              (record s { world = w; interrupt = s.interrupt || i; heard = s.heard ++ p ∷ [] }) g e
              s' (ground (arith, v)) (ground (arith, got, eq))) [
                | inl ok ↦ (p, true, ok)
                | inr bad ↦ (p, false, bad)
              ]
        | inr (inl (w, got)) ↦ absurd (ground (arith, got))
        | inr (inr got) ↦ absurd (ground (arith, got))
      ]

  -- An event under which the abstract machine does the same call, and the prompts heard by its end.
  abbrev pub Called : (Event → Machine.Step) → Bool → List Prompt → Fsm → Exit → Session S → Type 0
  Called h b hs g e s' =
      (ev : Event) × (hs' : List Prompt) × (ev.interrupt ≡ b)
      × (any_positive hs' ≡ (any_positive hs || is_reply ev))
      × Matches comm hs' e s' (h ev g)

  called_by :
      (h : Event → Machine.Step) (b : Bool) (hs : List Prompt) (g : Fsm) (e : Exit) (s' : Session S)
      → ((p : Prompt) × (ok : Bool) × Matches comm
            (hs ++ p ∷ [])
            e
            s'
            (h (record { interrupt = b; prompt = p; send_ok = ok }) g))
      → Called h b hs g e s'
  called_by h b hs g e s' (p, ok, same) = (
    record { interrupt = b; prompt = p; send_ok = ok },
    hs ++ p ∷ [],
    refl,
    any_positive-append hs p,
    same,
  )

  call-Called :
      (f : StateFn) (x : Answers A R) (b : Bool) (hs : List Prompt) (s : Session S) (g : Fsm)
      (e : Exit) (s' : Session S)
      → Agree S hs s g
      → call comm f x s ≡ next e s'
      → Called (Machine.call f) b hs g e s'
  unfolding call Machine.call
  call-Called state_start x b hs s g e s' v eq = called_by (Machine.call state_start) b hs g e s' (
      with_prompt-Follows x (λ p. start_prompt comm x.sending p.input_type p.type)
        (λ p. Machine.start_prompt p.input_type p.type)
        (λ p. start-Follows comm x.sending p.input_type p.type) hs s g e s' v eq)
  call-Called state_auth x b hs s g e s' v eq = called_by (Machine.call state_auth) b hs g e s' (
      with_prompt-Follows x (λ p. auth_prompt comm x.sending p.input_type p.type)
        (λ p. Machine.auth_prompt p.input_type p.type)
        (λ p. auth-Follows comm x.sending p.input_type p.type) hs s g e s' v eq)
  call-Called state_open x b hs s g e s' v eq = called_by (Machine.call state_open) b hs g e s' (
      with_prompt-Follows x (λ p. open_prompt comm x.sending p.input_type p.type)
        (λ p. Machine.open_prompt p.input_type p.type)
        (λ p. open-Follows comm x.sending p.input_type p.type) hs s g e s' v eq)
  call-Called state_join x b hs s g e s' v eq = called_by (Machine.call state_join) b hs g e s' (
      with_prompt-Follows x (λ p. join_prompt comm x.sending p.type)
        (λ p. Machine.join_prompt p.type) (λ p. join-Follows comm x.sending p.type) hs s g e s' v
        eq)
  call-Called state_interupt x b hs s g e s' v eq =
      let silent : Bool → Event = λ ok. record {
        interrupt = b;
        prompt = record { input_type = user; type = local };
        send_ok = ok;
      } in
      elim (send-Follows comm x.sending bye (goto comm none) (Machine.goto none)
        (goto-Copies comm none) hs s g e s' v eq) [
          | inl ok ↦ (silent true, hs, refl, ground arith, ok)
          | inr bad ↦ (silent false, hs, refl, ground arith, bad)
        ]

  pub turn-Called :
      (f : StateFn) (x : Answers A R) (hs : List Prompt) (s : Session S) (g : Fsm) (e : Exit)
      (s' : Session S)
      → Agree S hs s g
      → turn comm f x s ≡ next e s'
      → (b : Bool) × Called (Machine.turn f) b hs g e s'
  unfolding turn Machine.turn
  turn-Called f x hs s g e s' v eq =
      let b = s.interrupt || x.signal in
      let g' = if not s.processing && b then state_interupt else f in
      let (ev, hs', flag, heard, (done, same)) =
        call-Called g' x b hs (record s { interrupt = b; state = some g' })
          (record g { state = some g' }) e s' (ground (arith, v)) eq in
      let chosen_too : Machine.chosen f ev g ≡ g' = rw (flag, sym v.processing) refl in
      (b, (ev, hs', flag, heard, (rw chosen_too done, rw chosen_too same)))

  -- A run of the abstract machine that ends as this one does.
  abbrev Ended : Exit → List Prompt → Fsm → Exit → Session S → Type 0
  Ended res hs g e s' =
      (events : List Event) × (g' : Fsm) × (hs' : List Prompt) × (Machine.run_from res g events
        ≡ ended e g')
      × Agree S hs' s' g'
      × (any_positive hs' ≡ (any_positive hs || any_reply events))

  run_from-Ended :
      (res : Exit) (hs : List Prompt) (s : Session S) (g : Fsm) (xs : List (Answers A R)) (e : Exit)
      (s' : Session S)
      → Agree S hs s g
      → run_from comm res s xs ≡ next e s'
      → Ended res hs g e s'
  unfolding run_from Machine.run_from
  run_from-Ended exit_failure hs s g xs e s' v eq =
      ([], g, hs, ground (arith, eq, v), ground (arith, eq, v), ground arith)
  run_from-Ended exit_success hs s g [] e s' v eq = elim (Option-cases s.state) [
    | inl off ↦ ([], g, hs, ground (arith, off, eq, v), ground (arith, off, eq, v), ground arith)
    | inr (f, at) ↦ absurd (ground (arith, at))
  ]
  run_from-Ended exit_success hs s g (x ∷ xs) e s' v eq = elim (Option-cases s.state) [
    | inl off ↦ ([], g, hs, ground (arith, off, eq, v), ground (arith, off, eq, v), ground arith)
    | inr (f, at) ↦ elim (Result-cases (turn comm f x s)) [
      | inl (e1, s1, got) ↦
          let (b, (ev, hs1, flag, heard, (done, same))) = turn-Called f x hs s g e1 s1 v got in
          let (events, g', hs', ran, agree, later) =
            run_from-Ended e1 hs1 s1 (Machine.turn f ev g).1 xs e s' same
              (ground (arith, at, got, eq)) in
          (
            ev ∷ events,
            g',
            hs',
            ground (arith, v, at, done, ran),
            agree,
            ground (arith, later, heard),
          )
      | inr (inl (s1, got)) ↦ absurd (ground (arith, at, got, eq))
      | inr (inr got) ↦ absurd (ground (arith, at, got, eq))
    ]
  ]

  -- A session over the real prompt, with any variant of the protocol and whatever the system
  -- answers, that ends does what the abstract machine does under some sequence of events: it ends
  -- with the same result, in the same state, with the same flag, after the same messages; and it
  -- has heard a positive REPLY exactly if one of the events is one.
  pub fsm_refines :
      (w : S) (xs : List (Answers A R)) (e : Exit) (s' : Session S) (msg_content : List ℕ)
      → fsm comm w xs ≡ next e s'
      → (events : List Event) × (g : Fsm) × (Machine.fsm msg_content events ≡ ended e g)
        × (s'.state ≡ g.state)
        × (s'.processing ≡ g.processing)
        × (s'.sent ≡ g.sent)
        × (any_positive s'.heard ≡ any_reply events)
  unfolding fsm start Machine.fsm Machine.start
  fsm_refines w xs e s' msg_content h =
      let (events, g, hs, ran, agree, heard) =
        run_from-Ended exit_success [] (start comm w) (Machine.start msg_content) xs e s'
          (record { state = refl; processing = refl; sent = refl; heard = refl }) h in
      (
        events,
        g,
        ran,
        agree.state,
        agree.processing,
        agree.sent,
        ap any_positive agree.heard ∙ heard,
      )
