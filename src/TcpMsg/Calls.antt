-- ===== src/TcpMsg/Calls.antt =====
-- One call of `tcp_recv_msg` or `tcp_check_previous`, and what it reads of the stream.
use mathlib.Core.Path.{subst}
use ipk_chat_client.Base.{
  ℕ, zero, ◌+◌, ◌<◌, ◌≡◌, ◌≢◌, refl, sym, ◌∙◌, inl, inr, true, false, Option, Option-cases, none,
  some, List, [], ◌∷◌, ◌++◌, map, arith, ◌==◌, if◌then◌else◌, length, append-nil, ◌>>=◌, HasNoNul,
  All-append, All-of_append,
}
use ipk_chat_client.Common.{MsgType, local, type_code, Out, buffer_size}
use ipk_chat_client.Buffer.Laws.{IsValid, pending, split_line, next_line}
use ipk_chat_client.TcpMsg.{
  parse_reply, parse_nreply, parse_unexpected, parse_msg, parse_err, parse_bye, msg_temp,
}
use ipk_chat_client.TcpMsg.Lines.{lines, lines-some, split_line-append}
use ipk_chat_client.TcpMsg.Process.{
  process_with, Tcp, data_of, tcp_process_msg, tcp_check_previous, tcp_recv_msg,
}
use ipk_chat_client.TcpMsg.Stream.{
  IsParsed, tcp_check_previous_lem, tcp_check_previous_incomplete, tcp_recv_msg_line,
  tcp_recv_msg_incomplete,
}

-- A call, with the bytes that `recv` writes.
pub data TcpCall : Type 0 where
  received : List ℕ → TcpCall
  checked : TcpCall

-- A call by the interface, with memory for what it needs: the type it reports, if it reports one.
unfoldable pub tcp_call : TcpCall → Tcp → Option (Option MsgType × Tcp)
tcp_call (received d) s = tcp_recv_msg true true (data_of d) s >>= λ p. some (some p.0, p.1)
tcp_call checked s = tcp_check_previous true s

-- The bytes received by a sequence of calls.
abbrev pub bytes : List TcpCall → List ℕ
bytes [] = []
bytes (received d ∷ cs) = d ++ bytes cs
bytes (checked ∷ cs) = bytes cs

-- What `recv` and the block allow a call to receive: 1 to 65534 bytes, no NUL, and not as many as
-- fill the block exactly.
abbrev pub Fits : TcpCall → Tcp → Type 0
Fits (received d) s =
    HasNoNul d
    × (0 < length d)
    × (length d < buffer_size)
    × (s.buffer.msg_len + length d ≢ s.buffer.size)
Fits checked s = Unit

-- The types that the calls report: LOCAL means that there is no message yet.
abbrev pub heard : Option MsgType → List MsgType
heard none = []
heard (some t) = if type_code t == type_code local then [] else t ∷ []

-- The types and the output of a sequence of lines.
abbrev pub types : List (List ℕ) → List MsgType
types ls = map (λ l. (tcp_process_msg l).0) ls

abbrev pub printed : List (List ℕ) → List Out
printed [] = []
printed (l ∷ ls) = (tcp_process_msg l).1 ++ printed ls

next_line-some :
    (s l rest : List ℕ)
    → split_line s ≡ some (l, rest)
    → next_line s ≡ (some (l ++ zero ∷ []), rest)
unfolding next_line
next_line-some s l rest h = ground (arith, h)

next_line-none : (s : List ℕ) → split_line s ≡ none → next_line s ≡ (none, s)
unfolding next_line
next_line-none s h = ground (arith, h)

-- No line is reported as LOCAL.
tcp_process_msg-ne-local :
    (l : List ℕ) → (type_code (tcp_process_msg l).0 == type_code local) ≡ false
unfolding tcp_process_msg process_with msg_temp parse_reply parse_nreply parse_unexpected parse_msg
    parse_err parse_bye type_code
tcp_process_msg-ne-local l = ground arith

heard_type : (l : List ℕ) → heard (some (tcp_process_msg l).0) ≡ (tcp_process_msg l).0 ∷ []
heard_type l = rw (tcp_process_msg-ne-local l) refl

-- From `s` to `s'` the bytes `d` came, and the lines `ls` were parsed.
pub record IsRead (s s' : Tcp) (d : List ℕ) (ls : List (List ℕ)) : Type 0 where
  pub valid : IsValid s'.buffer
  pub no_nul : HasNoNul (pending s'.buffer)
  pub prints : s'.out ≡ s.out ++ printed ls
  pub cut :
      lines (pending s.buffer ++ d)
      ≡ (ls ++ (lines (pending s'.buffer)).0, (lines (pending s'.buffer)).1)

-- A call that parses the line `l`.
IsParsed-IsRead :
    (s s' : Tcp) (d l rest : List ℕ)
    → HasNoNul rest
    → split_line (pending s.buffer ++ d) ≡ some (l, rest)
    → IsParsed s s' l rest
    → IsRead s s' d (l ∷ [])
IsParsed-IsRead s s' d l rest n h p = record {
  valid = p.valid;
  no_nul = rw p.waits n;
  prints = rw append-nil p.prints;
  cut = rw p.waits (lines-some (pending s.buffer ++ d) l rest h);
}

-- A call that finds no complete line.
pub waiting-IsRead :
    (s s' : Tcp) (d : List ℕ)
    → IsValid s'.buffer
    → HasNoNul (pending s.buffer ++ d)
    → pending s'.buffer ≡ pending s.buffer ++ d
    → s'.out ≡ s.out
    → IsRead s s' d []
waiting-IsRead s s' d v n w o = record {
  valid = v;
  no_nul = rw w n;
  prints = o ∙ sym (append-nil s.out);
  cut = rw w refl;
}

-- What one call does.
abbrev pub Called : TcpCall → Tcp → Type 0
Called c s =
    (o : Option MsgType) × (s' : Tcp) × (ls : List (List ℕ)) × (tcp_call c s ≡ some (o, s'))
    × (heard o ≡ types ls)
    × IsRead s s' (bytes (c ∷ [])) ls

received-Called :
    (d : List ℕ) (s : Tcp)
    → IsValid s.buffer
    → HasNoNul (pending s.buffer)
    → Fits (received d) s
    → Called (received d) s
unfolding tcp_call type_code
received-Called d s v n (nd, pos, small, ne) =
    let all = pending s.buffer ++ d in
    let clean = All-append (λ c. 0 < c) (pending s.buffer) d n nd in
    rw (append-nil d) (elim (Option-cases (split_line all)) [
      | inl e ↦
          let (s', call, v', w, o) =
            tcp_recv_msg_incomplete s d v nd pos small ne (next_line-none all e) in
          (some local, s', [], rw call refl, refl, waiting-IsRead s s' d v' clean w o)
      | inr ((l, rest), e) ↦
          let (nl, nr) =
            All-of_append (λ c. 0 < c) l rest
              (subst HasNoNul (split_line-append all l rest e) clean) in
          let (s', call, p) =
            tcp_recv_msg_line s d l rest v nd pos small ne nl (next_line-some all l rest e) in
          (
            some (tcp_process_msg l).0,
            s',
            l ∷ [],
            rw call refl,
            heard_type l,
            IsParsed-IsRead s s' d l rest nr e p,
          )
    ])

checked-Called : (s : Tcp) → IsValid s.buffer → HasNoNul (pending s.buffer) → Called checked s
unfolding tcp_call
checked-Called s v n =
    let all = pending s.buffer in
    elim (Option-cases (split_line all)) [
      | inl e ↦
          let (s', call, v', w, o) = tcp_check_previous_incomplete s v (next_line-none all e) in
          (
            none,
            s',
            [],
            call,
            refl,
            waiting-IsRead s s' [] v' (rw (append-nil all) n) (w ∙ sym (append-nil all)) o,
          )
      | inr ((l, rest), e) ↦
          let (nl, nr) =
            All-of_append (λ c. 0 < c) l rest (subst HasNoNul (split_line-append all l rest e) n) in
          let (s', call, p) = tcp_check_previous_lem s l rest v nl (next_line-some all l rest e) in
          (
            some (tcp_process_msg l).0,
            s',
            l ∷ [],
            call,
            heard_type l,
            IsParsed-IsRead s s' [] l rest nr (rw (append-nil all) e) p,
          )
    ]

pub tcp_call_lem :
    (c : TcpCall) (s : Tcp) → IsValid s.buffer → HasNoNul (pending s.buffer) → Fits c s → Called c s
tcp_call_lem (received d) s v n f = received-Called d s v n f
tcp_call_lem checked s v n f = checked-Called s v n
