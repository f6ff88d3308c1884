-- ===== src/CommUdp/Once.antt =====
-- Any sequence of received datagrams: each id is parsed once.
use ipk_chat_client.Base.{
  ◌≡◌, refl, sym, inl, inr, Bool-cases, some, List, [], ◌∷◌, map, append-nil, All,
}
use ipk_chat_client.Common.{MsgType, local, type_code, Out}
use ipk_chat_client.MsgIdList.Laws as IdLaws
use ipk_chat_client.MsgIdList.Laws.{elem, ids}
use ipk_chat_client.CommUdp.State.{Udp}
use ipk_chat_client.CommUdp.Receive.{udp_recv_msg_duplicate, acknowledged, ids-acknowledged}
use ipk_chat_client.CommUdp.Known.{Datagram, id, IsKnown, round, udp_recv_all, reading-total}
use ipk_chat_client.CommUdp.Received.{
  heard, IsReceived, acknowledged-IsStep, again-IsReceived, new-IsReceived, new-IsStep,
}

-- From a valid id list, when nothing of the system fails, any sequence of datagrams of known types
-- that are shorter than the buffer is received without an access outside a block. The datagrams
-- parsed are exactly the first ones with an id that is not in the list yet, in order: the types
-- reported, but for LOCAL, and the lines printed are those of their parsers, and their ids join
-- the list. Every datagram but a CONFIRM is confirmed, the others with its id too; the client's
-- data and the queue are as they were.
pub udp_recv_all-IsReceived :
    (ds : List Datagram) (s : Udp)
    → All IsKnown ds
    → IdLaws.IsValid s.ids
    → (ts : List MsgType) × (ps : List (MsgType × List Out)) × (s' : Udp) × (udp_recv_all ds s
        ≡ some (ts, s'))
      × (heard ts ≡ heard (map (λ p. p.0) ps))
      × IsReceived ds ps s s'
unfolding udp_recv_all type_code
udp_recv_all-IsReceived [] s k v = (
  [],
  [],
  s,
  refl,
  refl,
  record {
    valid = v;
    seen = sym (append-nil (ids s.ids));
    read = refl;
    prints = sym (append-nil s.out);
    confirmed = sym (append-nil s.sent);
    same_client = refl;
    same_queue = refl;
  },
)
udp_recv_all-IsReceived (d ∷ ds) s (k, ks) v = elim (Bool-cases (elem (id d) (ids s.ids))) [
  | inl old ↦
      let s₁ = acknowledged d.type (id d) s in
      let call =
        udp_recv_msg_duplicate (round d) s d.type d.high d.low d.rest refl refl refl k.known v
          old in
      let (ts, ps, s', calls, types, r) =
        udp_recv_all-IsReceived ds s₁ ks (rw (ids-acknowledged d.type (id d) s) v) in
      (
        local ∷ ts,
        ps,
        s',
        rw (call, calls) refl,
        types,
        again-IsReceived d ds ps s s₁ s' old (acknowledged-IsStep d s) r,
      )
  | inr new ↦
      let (p, e) = reading-total s.client d k in
      let (s₁, call, v', c) = new-IsStep d p s k v new e in
      let (ts, ps, s', calls, types, r) = udp_recv_all-IsReceived ds s₁ ks v' in
      (
        p.0 ∷ ts,
        p ∷ ps,
        s',
        rw (call, calls) refl,
        rw types refl,
        new-IsReceived d ds p ps s s₁ s' new e c r,
      )
]
