-- ===== src/Session/Interrupted.antt =====
-- What a session of src/fsm.c says after Ctrl+C.
use ipk_chat_client.Base.{◌≡◌, ◌⊎◌, Bool, true, ◌||◌, none, List, [], ◌∷◌, ◌++◌}
use Prim.Native.String.{String}
use ipk_chat_client.Common.{Exit, exit_failure, MsgType, err, bye}
use ipk_chat_client.Fsm.Machine.{Prompt}
use ipk_chat_client.Comm.{Comm}
use ipk_chat_client.Session.{Session, Answers, next, Step}

-- Nothing more was sent, or one ERR, or one BYE.
abbrev pub LastWords : List MsgType → List MsgType → Type 0
LastWords before after =
    (after ≡ before) ⊎ ((after ≡ before ++ err ∷ []) ⊎ (after ≡ before ++ bye ∷ []))

module _ {S A R : Type 0} (comm : Comm S A R) where
  -- The loop goes on in silence, or it ends, after an ERR or after a BYE.
  abbrev Said : Session S → Exit → Session S → Type 0
  Said s e s' =
      ((s'.sent ≡ s.sent) × (s'.interrupt ≡ true))
      ⊎ (((s'.sent ≡ s.sent ++ err ∷ []) × (e ≡ exit_failure))
          ⊎ ((s'.sent ≡ s.sent ++ bye ∷ []) × (s'.state ≡ none)))

  abbrev Says : Step comm → Type 0
  Says f = (s s' : Session S) (e : Exit) → s.interrupt ≡ true → f s ≡ next e s' → Said s e s'

  -- SIGINT has come, before the turn or by its start.
  abbrev pub is_caught : Session S → List (Answers A R) → Bool
  is_caught s [] = s.interrupt
  is_caught s (x ∷ xs) = s.interrupt || x.signal
