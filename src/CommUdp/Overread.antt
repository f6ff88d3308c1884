-- ===== src/CommUdp/Overread.antt =====
-- A datagram that waits in the queue is a block of just its bytes, so a text without its NUL is
-- read past the end of that block.
use ipk_chat_client.Base.{
  ℕ, ◌<◌, ◌≡◌, ap, ◌∙◌, true, false, none, some, List, ◌∷◌, arith, length, take_of_length_le,
  le_refl, HasNoNul,
}
use ipk_chat_client.Common.{type_code}
use ipk_chat_client.Queue.{Msg, queue_front}
use ipk_chat_client.Queue.Laws as QueueLaws
use ipk_chat_client.Queue.Laws.{contents, copied, length-contents, queue_front_refines}
use ipk_chat_client.Queue.Fifo.{pop}
use ipk_chat_client.Queue.Runs.{view-eq-some}
use ipk_chat_client.UdpMsg.Parse.{udp_parse_msg}
use ipk_chat_client.UdpMsg.Sound.{is_valid_msg_err-unterminated}
use ipk_chat_client.CommUdp.State.{Udp}
use ipk_chat_client.CommUdp.Process.{
  msg_table, store_and_parse, process_from, udp_process_msg, udp_check_previous,
}

module _ (high low : ℕ) (text : List ℕ) where
  abbrev datagram : List ℕ
  datagram = 4 ∷ high ∷ low ∷ text

  process_unterminated :
      (s : Udp)
      → HasNoNul text
      → 0 < length text
      → udp_process_msg true datagram (length datagram) false s ≡ none
  unfolding udp_process_msg process_from msg_table store_and_parse udp_parse_msg type_code
  process_unterminated s n h =
      ground
        (arith, is_valid_msg_err-unterminated 4 high low text (length datagram) n (omega arith))

  -- A queued MSG with bytes behind its header but no NUL among them makes `udp_check_previous` read
  -- past its block, when it is the oldest of a valid queue.
  pub udp_check_previous-overread :
      (s : Udp) (later : List Msg)
      → QueueLaws.IsValid s.queue
      → contents s.queue ≡ copied datagram (length datagram) ∷ later
      → HasNoNul text
      → 0 < length text
      → udp_check_previous s ≡ none
  unfolding udp_check_previous pop
  udp_check_previous-overread s later v holds n h =
      let (q, call, _) =
        view-eq-some (queue_front s.queue) (some (copied datagram (length datagram))) later
          (queue_front_refines s.queue v ∙ ap (λ c. some (pop c)) holds) in
      let whole = take_of_length_le (length datagram) datagram (le_refl (length datagram)) in
      ground (
        arith,
        call,
        whole,
        process_unterminated (record s { queue = q }) n h,
        length-contents s.queue,
        ap length holds,
      )
