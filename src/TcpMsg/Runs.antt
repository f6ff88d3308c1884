-- ===== src/TcpMsg/Runs.antt =====
-- Sequences of calls of `tcp_recv_msg` and `tcp_check_previous`: how the stream is read.
use mathlib.Core.Path.{subst}
use ipk_chat_client.Base.{
  ℕ, ◌≡◌, refl, ap, sym, ◌∙◌, Option, none, some, List, [], ◌∷◌, ◌++◌, append_assoc, append-nil,
  ◌>>=◌, HasNoNul,
}
use ipk_chat_client.Common.{MsgType}
use ipk_chat_client.Buffer.Laws.{IsValid, pending}
use ipk_chat_client.TcpMsg.Lines.{lines, resume, lines-append}
use ipk_chat_client.TcpMsg.Process.{Tcp, tcp_process_msg}
use ipk_chat_client.TcpMsg.Calls.{
  TcpCall, received, checked, tcp_call, bytes, Fits, heard, types, printed, IsRead, waiting-IsRead,
  tcp_call_lem,
}

unfoldable pub tcp_calls : List TcpCall → Tcp → Option (List MsgType × Tcp)
tcp_calls [] s = some ([], s)
tcp_calls (c ∷ cs) s = tcp_call c s >>= λ p. tcp_calls cs p.1 >>= λ q. some (heard p.0 ++ q.0, q.1)

-- Every call of a sequence fits where it comes.
unfoldable pub FitAll : List TcpCall → Tcp → Type 0
FitAll [] s = Unit
FitAll (c ∷ cs) s = Fits c s × elim (tcp_call c s) [ none ↦ Unit | some p ↦ FitAll cs p.1 ]

printed-append : (ls ls' : List (List ℕ)) → printed (ls ++ ls') ≡ printed ls ++ printed ls'
printed-append [] ls' = refl
printed-append (l ∷ ls) ls' =
    rw (printed-append ls ls') (sym (append_assoc (tcp_process_msg l).1 (printed ls) (printed ls')))

IsRead-trans :
    {s s' s'' : Tcp} (d e : List ℕ) (ls ls' : List (List ℕ))
    → IsRead s s' d ls
    → IsRead s' s'' e ls'
    → IsRead s s'' (d ++ e) (ls ++ ls')
IsRead-trans {s} {s'} {s''} d e ls ls' p q = record {
  valid = q.valid;
  no_nul = q.no_nul;
  prints =
      q.prints
      ∙ rw (p.prints, printed-append ls ls') (append_assoc s.out (printed ls) (printed ls'));
  cut =
      let waits = pending s.buffer in
      let waits' = pending s'.buffer in
      let last = lines (pending s''.buffer) in
      ap lines (sym (append_assoc waits d e))
      ∙ lines-append (waits ++ d) e
      ∙ ap (λ c. resume c e) p.cut
      ∙ ap (λ c. (c, (lines ((lines waits').1 ++ e)).1))
          (append_assoc ls (lines waits').0 (lines ((lines waits').1 ++ e)).0)
      ∙ ap (λ c. (ls ++ c.0, c.1)) (sym (lines-append waits' e) ∙ q.cut)
      ∙ ap (λ c. (c, last.1)) (sym (append_assoc ls ls' last.0));
}

types-append : (ls ls' : List (List ℕ)) → types (ls ++ ls') ≡ types ls ++ types ls'
types-append [] ls' = refl
types-append (l ∷ ls) ls' = ap (λ ts. (tcp_process_msg l).0 ∷ ts) (types-append ls ls')

bytes-cons : (c : TcpCall) (cs : List TcpCall) → bytes (c ∷ cs) ≡ bytes (c ∷ []) ++ bytes cs
bytes-cons (received d) cs = ap (λ b. b ++ bytes cs) (sym (append-nil d))
bytes-cons checked cs = refl

-- A sequence of calls that fit, on a valid buffer in which no NUL waits, never faults. It parses
-- lines that come as one whole from cutting the waiting and the received bytes at every CRLF, in
-- this order: the lines parsed, and then the ones still in the buffer, are exactly these, and the
-- bytes behind them wait. The types reported and the texts printed are those of the lines parsed.
-- So no byte is lost, repeated or reordered, however the stream was split into segments.
pub tcp_calls-lines :
    (cs : List TcpCall) (s : Tcp)
    → IsValid s.buffer
    → HasNoNul (pending s.buffer)
    → FitAll cs s
    → (s' : Tcp) × (ls : List (List ℕ)) × (tcp_calls cs s ≡ some (types ls, s'))
      × IsRead s s' (bytes cs) ls
unfolding tcp_calls FitAll
tcp_calls-lines [] s v n f =
    let same = sym (append-nil (pending s.buffer)) in
    (s, [], refl, waiting-IsRead s s [] v (subst HasNoNul same n) same refl)
tcp_calls-lines (c ∷ cs) s v n (f, fs) =
    let (o, s₁, ls, call, reported, read) = tcp_call_lem c s v n f in
    let (s₂, ls', calls, reads) = tcp_calls-lines cs s₁ read.valid read.no_nul (rw call at fs) in
    (
      s₂,
      ls ++ ls',
      rw (call, calls, reported, types-append ls ls') refl,
      rw (bytes-cons c cs) (IsRead-trans (bytes (c ∷ [])) (bytes cs) ls ls' read reads),
    )
