-- ===== src/CommUdp/Received.antt =====
-- What the reception of one datagram adds to that of those behind it.
use ipk_chat_client.Base.{
  ℕ, ◌≡◌, refl, ap, sym, ◌∙◌, inl, inr, Bool, true, false, Bool-cases, some, List, [], ◌∷◌, ◌++◌,
  map, arith, ◌==◌, if◌then◌else◌, append_assoc, append-nil,
}
use ipk_chat_client.Common.{MsgType, confirm, local, type_code, Out}
use ipk_chat_client.MsgIdList.Laws as IdLaws
use ipk_chat_client.MsgIdList.Laws.{elem, ids}
use ipk_chat_client.UdpMsg.Frames.{header}
use ipk_chat_client.CommUdp.State.{Udp}
use ipk_chat_client.CommUdp.Process.{msg_table, udp_recv_msg}
use ipk_chat_client.CommUdp.Receive.{acknowledged, recv_is_process, ids-acknowledged}
use ipk_chat_client.CommUdp.Known.{Datagram, id, IsKnown, round, fresh, reading, process_from-Read}

-- The CONFIRM for each datagram but for a CONFIRM.
abbrev pub confirms : List Datagram → List (List ℕ)
confirms [] = []
confirms (d ∷ ds) = if d.type == 0 then confirms ds else header confirm (id d) ∷ confirms ds

abbrev pub printed : List (MsgType × List Out) → List Out
printed [] = []
printed (p ∷ ps) = p.1 ++ printed ps

abbrev is_local : MsgType → Bool
is_local t = type_code t == type_code local

-- The types reported, without LOCAL, which stands for no message.
abbrev pub heard : List MsgType → List MsgType
heard [] = []
heard (t ∷ ts) = if is_local t then heard ts else t ∷ heard ts

-- From `s` to `s'` the datagrams `ds` were received, with the results `ps` for those with a new id.
pub record IsReceived (ds : List Datagram) (ps : List (MsgType × List Out)) (s s' : Udp)
    : Type 0 where
  pub valid : IdLaws.IsValid s'.ids
  pub seen : ids s'.ids ≡ ids s.ids ++ map id (fresh (ids s.ids) ds)
  pub read : map (reading msg_table s.client) (fresh (ids s.ids) ds) ≡ map some ps
  pub prints : s'.out ≡ s.out ++ printed ps
  pub confirmed : s'.sent ≡ s.sent ++ confirms ds
  pub same_client : s'.client ≡ s.client
  pub same_queue : s'.queue ≡ s.queue

-- One call: the ids that it adds, and what it prints.
pub record IsStep (d : Datagram) (new : List ℕ) (out : List Out) (s s' : Udp) : Type 0 where
  seen : ids s'.ids ≡ ids s.ids ++ new
  prints : s'.out ≡ s.out ++ out
  confirmed : s'.sent ≡ s.sent ++ confirms (d ∷ [])
  same_client : s'.client ≡ s.client
  same_queue : s'.queue ≡ s.queue

pub acknowledged-IsStep : (d : Datagram) (s : Udp) → IsStep d [] [] s (acknowledged d.type (id d) s)
acknowledged-IsStep d s = elim (Bool-cases (d.type == 0)) [
  | inl is_confirm ↦ record {
    seen = rw is_confirm (sym (append-nil (ids s.ids)));
    prints = rw is_confirm (sym (append-nil s.out));
    confirmed = rw is_confirm (sym (append-nil s.sent));
    same_client = rw is_confirm refl;
    same_queue = rw is_confirm refl;
  }
  | inr other ↦ record {
    seen = rw other (sym (append-nil (ids s.ids)));
    prints = rw other (sym (append-nil s.out));
    confirmed = rw other refl;
    same_client = rw other refl;
    same_queue = rw other refl;
  }
]

confirms-cons :
    (d : Datagram) (ds : List Datagram) → confirms (d ∷ ds) ≡ confirms (d ∷ []) ++ confirms ds
confirms-cons d ds = ground arith

IsStep-sent :
    (d : Datagram) (ds : List Datagram) {new : List ℕ} {out : List Out} {s s₁ : Udp} (s' : Udp)
    → IsStep d new out s s₁
    → s'.sent ≡ s₁.sent ++ confirms ds
    → s'.sent ≡ s.sent ++ confirms (d ∷ ds)
IsStep-sent d ds {s = s} s' c e =
    e ∙ rw (c.confirmed, confirms-cons d ds) (append_assoc s.sent (confirms (d ∷ [])) (confirms ds))

-- A datagram whose id was seen, and those behind it.
pub again-IsReceived :
    (d : Datagram) (ds : List Datagram) (ps : List (MsgType × List Out)) (s s₁ s' : Udp)
    → elem (id d) (ids s.ids) ≡ true
    → IsStep d [] [] s s₁
    → IsReceived ds ps s₁ s'
    → IsReceived (d ∷ ds) ps s s'
again-IsReceived d ds ps s s₁ s' old c r =
    let same = c.seen ∙ append-nil (ids s.ids) in
    record {
      valid = r.valid;
      seen = rw old (rw same at r.seen);
      read = rw old (rw (same, c.same_client) at r.read);
      prints = r.prints ∙ rw (c.prints, append-nil s.out) refl;
      confirmed = IsStep-sent d ds s' c r.confirmed;
      same_client = r.same_client ∙ c.same_client;
      same_queue = r.same_queue ∙ c.same_queue;
    }

-- A datagram with a new id, and those behind it.
pub new-IsReceived :
    (d : Datagram) (ds : List Datagram) (p : MsgType × List Out) (ps : List (MsgType × List Out))
    (s s₁ s' : Udp)
    → elem (id d) (ids s.ids) ≡ false
    → reading msg_table s.client d ≡ some p
    → IsStep d (id d ∷ []) p.1 s s₁
    → IsReceived ds ps s₁ s'
    → IsReceived (d ∷ ds) (p ∷ ps) s s'
new-IsReceived d ds p ps s s₁ s' new e c r =
    let later = fresh (ids s.ids ++ id d ∷ []) ds in
    record {
      valid = r.valid;
      seen = rw new (rw c.seen at r.seen ∙ append_assoc (ids s.ids) (id d ∷ []) (map id later));
      read = rw (new, e) (ap (λ xs. some p ∷ xs) (rw (c.seen, c.same_client) at r.read));
      prints = r.prints ∙ rw c.prints (append_assoc s.out p.1 (printed ps));
      confirmed = IsStep-sent d ds s' c r.confirmed;
      same_client = r.same_client ∙ c.same_client;
      same_queue = r.same_queue ∙ c.same_queue;
    }

-- A call for a datagram with a new id.
pub new-IsStep :
    (d : Datagram) (p : MsgType × List Out) (s : Udp)
    → IsKnown d
    → IdLaws.IsValid s.ids
    → elem (id d) (ids s.ids) ≡ false
    → reading msg_table s.client d ≡ some p
    → (s' : Udp) × (udp_recv_msg (round d) s ≡ some (p.0, s'))
      × IdLaws.IsValid s'.ids
      × IsStep d (id d ∷ []) p.1 s s'
new-IsStep d p s k v new e =
    let s₁ = acknowledged d.type (id d) s in
    let a = acknowledged-IsStep d s in
    let same : s₁.ids ≡ s.ids = ids-acknowledged d.type (id d) s in
    let (s', call, v', seen, out, sent, client, queue) =
      process_from-Read msg_table d p s₁ (rw same v) (rw same new) (rw a.same_client e) in
    (
      s',
      recv_is_process (round d) s d.type d.high d.low d.rest refl refl refl ∙ call,
      v',
      record {
        seen = seen ∙ rw same refl;
        prints = out ∙ rw a.prints (ap (λ o. o ++ p.1) (append-nil s.out));
        confirmed = sent ∙ a.confirmed;
        same_client = client ∙ a.same_client;
        same_queue = queue ∙ a.same_queue;
      },
    )
