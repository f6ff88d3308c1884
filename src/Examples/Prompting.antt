-- ===== src/Examples/Prompting.antt =====
-- Waiting for a prompt.
use ipk_chat_client.Base.{
  ◌≢◌, ◌+◌, ◌*◌, ◌<◌, pos_part, neg_part, ◌-ℤ◌, ◌+ℤ◌, ◌≡◌, refl, ◌∷◌, [], codes, arith, true, false,
}
use ipk_chat_client.Common.{error_line, confirm, error}
use ipk_chat_client.Prompt.{
  asleep, elapsed, select, Timeval, Wakeup, prompted, from_server, await, wait, wait_set,
  calculate_remaining_time, ready, timed_out,
}
use ipk_chat_client.Prompt.Deadline.{micro, calculate_remaining_time_lem, wait_too_late}
use ipk_chat_client.Prompt.Laws.{await_ends}
use ipk_chat_client.CommUdp.State.{Udp, Round}
use ipk_chat_client.Comm.Variants.{udp_comm}
use ipk_chat_client.Examples.Data.{globals, confirming}
use ipk_chat_client.CommUdp.Process.{udp_check_previous}
use ipk_chat_client.Input.{line}

abbrev noon : Timeval
noon = record { tv_sec = 100; tv_usec = 900000 }

abbrev later : Timeval
later = record { tv_sec = 102; tv_usec = 100000 }

calculate_remaining_time_lem_example :
    let r = calculate_remaining_time noon later in
    (1000000 * pos_part r.tv_sec + pos_part r.tv_usec + micro later
      ≡ 5000000 + micro noon + 1000000 * neg_part r.tv_sec)
    × (neg_part r.tv_usec ≡ 0)
    × (pos_part r.tv_usec < 1000000)
calculate_remaining_time_lem_example =
    calculate_remaining_time_lem noon later (omega arith) (omega arith)

-- A datagram is ready, but too late.
abbrev late : Wakeup Round
late = record {
  now = record { tv_sec = 106; tv_usec = 0 };
  selected = ready true false;
  received = record confirming { datagram = 253 ∷ 0 ∷ 9 ∷ [] };
  typed = line (codes "hi\n");
}

wait_too_late_example :
    wait (udp_comm 3 3) true false noon confirm (late ∷ []) globals
    ≡ prompted (from_server confirm) false globals
wait_too_late_example =
    wait_too_late (udp_comm 3 3) false noon confirm late [] globals (omega arith) (omega arith)
      (omega arith)

-- No answer comes.
abbrev over : Wakeup Round
over = record late { now = later; selected = timed_out }

abbrev told : Udp
told = record globals { out = error_line "ERROR: Server is not responding" ∷ [] }

silence :
    await (udp_comm 3 3) true true noon (over ∷ []) globals
    ≡ prompted (from_server error) false told
unfolding await wait_set udp_comm udp_check_previous wait select ◌-ℤ◌ elapsed ◌+ℤ◌
    calculate_remaining_time
silence = refl

await_ends_example : await (udp_comm 3 3) true true noon (over ∷ []) globals ≢ asleep globals
await_ends_example = await_ends (udp_comm 3 3) true noon (over ∷ []) globals globals refl
