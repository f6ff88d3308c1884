-- ===== src/Comm/UdpKeeps/Sending.antt =====
-- What the changes of the globals keep, sending over UDP keeps.
use mathlib.Core.Path.{subst}
use ipk_chat_client.Base.{
  ap, ◌∙◌, ◌<◌, ℕ, ◌+◌, ◌≡◌, refl, Bool, true, false, not, ◌&&◌, Option, none, some, List, [], ◌∷◌,
  ◌++◌, arith, if◌then◌else◌, ◌==◌, leb, length, get_elem?,
}
use ipk_chat_client.Common.{Exit, exit_failure, MsgType}
use ipk_chat_client.Input.Laws.{IsReady}
use ipk_chat_client.MsgIdList.{list_contains, list_append}
use ipk_chat_client.MsgIdList.Recorded.{list_append-IsRecorded}
use ipk_chat_client.Queue.{queue_add}
use ipk_chat_client.Queue.Laws as Queue
use ipk_chat_client.Queue.Laws.{queue_add-IsValid}
use ipk_chat_client.UdpMsg.Build.{udp_build_msg}
use ipk_chat_client.UdpMsg.Parse.{to_uint16}
use ipk_chat_client.CommUdp.State.{Udp, Round, send_confirm, recv_buffer}
use ipk_chat_client.CommUdp.Process.{udp_recv_msg, udp_check_previous}
use ipk_chat_client.CommUdp.Send.{
  Turn, return, timeout, aside, Outcome, done, waiting, fault, put_aside, keep_datagram, next_id,
  take_datagram, receive, turn, send_loop, udp_send_msg,
}
use ipk_chat_client.Comm.{Called, Keeps, returned}
use ipk_chat_client.Comm.After.{
  after_bind, after_result, after_test, after_if, after_exit, After_holds,
}
use ipk_chat_client.Comm.Variants.{called, udp_comm}
use ipk_chat_client.Comm.UdpKeeps.{
  Stable, to_uint16-lt, Q, send_confirm-P, udp_recv_msg-Q, udp_check_previous-Q,
}

module _ (P : Udp → Type 0) (Good : List ℕ → Type 0) (laws : Stable P Good) where
  put_aside-Q :
      (r : Round) (buffer : List ℕ) (n id : ℕ) (s : Udp)
      → id < 65536
      → P s
      → Q P Good laws (put_aside r buffer n id s)
  unfolding put_aside
  put_aside-Q r buffer n id s small h =
      after_result (Q P Good laws) (list_contains s.ids id) _ tt (λ seen found.
        after_test (Q P Good laws) seen (λ _. h)
          (λ new.
            after_result (Q P Good laws) (queue_add r.copy_allocated buffer n s.queue) _ tt
              (λ added got.
                let s' = record s { queue = added.1 } in
                let keep = λ (v : Queue.IsValid s.queue).
                  queue_add-IsValid s.queue r.copy_allocated added.0 buffer n v got in
                let h' = laws.queue added.1 s keep h in
                after_if (Q P Good laws) added.0
                  (after_result (Q P Good laws) (list_append r.list_grown id s.ids) _ tt
                    (λ stored done.
                      let recorded =
                        list_append-IsRecorded s.ids id r.list_grown stored small
                          (found ∙ ap some new) done in
                      let h'' = laws.ids stored.1 s' recorded h' in
                      after_exit (Q P Good laws) stored.0 h'' h''))
                  h')))

  keep_datagram-Q :
      (r : Round) (buffer : List ℕ) (n type id : ℕ) (s : Udp)
      → id < 65536
      → P s
      → Q P Good laws (keep_datagram r buffer n type id s)
  unfolding keep_datagram
  keep_datagram-Q r buffer n type id s small h =
      let h' = send_confirm-P P Good laws r id s h in
      after_if (Q P Good laws) (type == 0) (put_aside-Q r buffer n id s small h) (
        after_exit (Q P Good laws) (send_confirm r id s).0
          (put_aside-Q r buffer n id (send_confirm r id s).1 small h') h')

  next_id-P : (s : Udp) → P s → P (next_id s)
  next_id-P s h =
      let v = laws.valid s h in
      laws.client _ s
        (record {
          username = v.username;
          channel_id = v.channel_id;
          secret = v.secret;
          display_name = v.display_name;
          msg_content = v.msg_content;
        })
        h

  take_datagram-Q : (r : Round) (s : Udp) → P s → Q P Good laws (take_datagram r s)
  unfolding take_datagram
  take_datagram-Q r s h =
      let buffer = recv_buffer b'0' r.datagram in
      let b_rcv = length r.datagram in
      after_bind (Q P Good laws) (get_elem? buffer 0) _ tt (λ type.
        after_result (Q P Good laws) (to_uint16 buffer 1) _ tt (λ id read.
          after_if (Q P Good laws) (b_rcv == 3 && (type == 0 && s.client.msg_id == id))
            (next_id-P s h)
            (keep_datagram-Q r buffer b_rcv type id s (to_uint16-lt buffer 1 read) h)))

  received :
      (again : Bool) (d : List ℕ) (s : Udp) (o : Option (Turn × Udp))
      → P s
      → Q P Good laws o
      → Q P Good laws (elim d [
        | [] ↦ if again then some (timeout, s) else some (return exit_failure, s)
        | _ ∷ _ ↦ o
      ])
  received again [] s o h q = after_if (Q P Good laws) again h h
  received again (c ∷ d) s o h q = q

  turn-Q :
      (frame : List ℕ) (resend : Bool) (r : Round) (s : Udp)
      → Good frame
      → P s
      → Q P Good laws (turn frame resend r s)
  unfolding turn receive
  turn-Q frame resend r s good h =
      let s' = if resend then record s { sent = s.sent ++ frame ∷ [] } else s in
      let h' = after_if P resend (laws.sends frame s good h) h in
      after_if (Q P Good laws) (resend && not r.frame_sent) h
        (received r.errno_again r.datagram s' (take_datagram r s') h' (take_datagram-Q r s' h'))

  -- How a call of `udp_send_msg` leaves the globals, or finds them while it waits.
  abbrev Ended : Outcome → Type 0
  Ended (done e s) = P s
  Ended (waiting s) = P s
  Ended fault = Unit

  after_turn :
      (limit : ℕ) (frame : List ℕ) (i : ℕ) (rounds : List Round) (o : Option (Turn × Udp))
      → ((i' : ℕ) (resend : Bool) (s : Udp)
          → P s
          → Ended (send_loop limit frame i' resend s rounds))
      → Q P Good laws o
      → Ended (elim o [
        | none ↦ fault
        | some (t, s') ↦ elim t [
          | return e ↦ done e s'
          | timeout ↦ send_loop limit frame (i + 1) true s' rounds
          | aside ↦ send_loop limit frame i false s' rounds
        ]
      ])
  after_turn limit frame i rounds none more q = tt
  after_turn limit frame i rounds (some (return e, s)) more q = q
  after_turn limit frame i rounds (some (timeout, s)) more q = more (i + 1) true s q
  after_turn limit frame i rounds (some (aside, s)) more q = more i false s q

  within_limit :
      (b : Bool) (x y : Outcome) → Ended x → Ended y → Ended (elim b [ false ↦ x | true ↦ y ])
  within_limit false x y h k = h
  within_limit true x y h k = k

  send_loop-Ended :
      (limit : ℕ) (frame : List ℕ) (i : ℕ) (resend : Bool) (s : Udp) (rounds : List Round)
      → Good frame
      → P s
      → Ended (send_loop limit frame i resend s rounds)
  unfolding send_loop
  send_loop-Ended limit frame i resend s [] good h = after_if Ended (leb i limit) h h
  send_loop-Ended limit frame i resend s (r ∷ rounds) good h =
      within_limit (leb i limit) (done exit_failure s) _ h (
        after_turn limit frame i rounds (turn frame resend r s)
          (λ i' resend' s' h'. send_loop-Ended limit frame i' resend' s' rounds good h')
          (turn-Q frame resend r s good h))

  built_or_not :
      (limit : ℕ) (s : Udp) (rounds : List Round) (o : Option (Option (List ℕ × ℕ)))
      → ((d : List ℕ) (n : ℕ) → o ≡ some (some (d, n)) → Good d)
      → P s
      → Ended (elim o [
        | none ↦ fault
        | some o ↦ elim o [
          | none ↦ done exit_failure s
          | some f ↦ send_loop limit f.0 0 true s rounds
        ]
      ])
  built_or_not limit s rounds none good h = tt
  built_or_not limit s rounds (some none) good h = h
  built_or_not limit s rounds (some (some f)) good h =
      send_loop-Ended limit f.0 0 true s rounds (good f.0 f.1 refl) h

  udp_send_msg-Ended :
      (limit : ℕ) (allocated : Bool) (type : MsgType) (s : Udp) (rounds : List Round)
      → P s
      → IsReady type s.client
      → Ended (udp_send_msg limit allocated type s rounds)
  unfolding udp_send_msg
  udp_send_msg-Ended limit allocated type s rounds h ready =
      built_or_not limit s rounds (udp_build_msg allocated type s.client)
        (λ d n built. laws.builds allocated type s.client d n (laws.valid s h) ready built) h

  called_holds : (o : Outcome) (e : Exit) (s : Udp) → Ended o → called o ≡ returned e s → P s
  unfolding called
  called_holds (done e' s') e s h eq = subst P (ground arith) h
  called_holds (waiting s') e s h eq = absurd (ground arith)
  called_holds fault e s h eq = absurd (ground arith)

  called_waits : (o : Outcome) (s : Udp) → Ended o → called o ≡ Called.waiting s → P s
  unfolding called
  called_waits (done e s') s h eq = absurd (ground arith)
  called_waits (waiting s') s h eq = subst P (ground arith) h
  called_waits fault s h eq = absurd (ground arith)

  -- What every change keeps, the interface over UDP keeps.
  pub udp_comm-Keeps : (fd limit : ℕ) → Keeps (udp_comm fd limit) P
  unfolding udp_comm
  udp_comm-Keeps fd limit = record {
    send = λ a type s e s' h ready eq.
        called_holds (udp_send_msg limit a.allocated type s a.rounds) e s'
          (udp_send_msg-Ended limit a.allocated type s a.rounds h ready) eq;
    waits = λ a type s s' h ready eq.
        called_waits (udp_send_msg limit a.allocated type s a.rounds) s'
          (udp_send_msg-Ended limit a.allocated type s a.rounds h ready) eq;
    recv = λ r s type s' h eq.
        After_holds P (udp_recv_msg r s) type s' (udp_recv_msg-Q P Good laws r s h) eq;
    previous = λ memory s type s' h eq.
        After_holds P (udp_check_previous s) type s' (udp_check_previous-Q P Good laws s h) eq;
    valid = laws.valid;
    sets = laws.client;
    prints = λ out s h. laws.out (s.out ++ out) s h;
    reads = λ c s. refl;
    shows = λ out s. refl;
  }
