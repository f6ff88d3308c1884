-- ===== src/Examples/Data.antt =====
-- The client and the globals that the examples share.
use ipk_chat_client.Base.{◌∷◌, [], codes, arith, refl, true, false}
use ipk_chat_client.Common.{Client}
use ipk_chat_client.MsgIdList as MsgIdList
use ipk_chat_client.MsgIdList.Laws as IdLaws
use ipk_chat_client.Queue as Queue
use ipk_chat_client.Queue.Laws as QueueLaws
use ipk_chat_client.CommUdp.State.{Udp, Round}
use ipk_chat_client.CommUdp.Valid.{IsValid}

abbrev pub alice : Client
alice = record {
  msg_id = 7;
  username = codes "alice";
  channel_id = codes "general";
  secret = codes "key";
  display_name = codes "Al";
  msg_content = codes "hi there";
}

abbrev pub globals : Udp
globals = record { client = alice; ids = MsgIdList.empty; queue = Queue.empty; sent = []; out = [] }

pub ids-IsValid : IdLaws.IsValid MsgIdList.empty
ids-IsValid = record { block = refl; within = omega arith }

pub queue-IsValid : QueueLaws.IsValid Queue.empty
queue-IsValid = record {
  slots = refl;
  front_in = omega arith;
  end_at = refl;
  size_in = omega arith;
}

pub globals-IsValid : IsValid globals
globals-IsValid = record { ids = ids-IsValid; queue = queue-IsValid }

-- A CONFIRM of the client's message.
abbrev pub confirming : Round
confirming = record {
  frame_sent = true;
  datagram = 0 ∷ 0 ∷ 7 ∷ [];
  errno_again = false;
  confirm_allocated = true;
  confirm_sent = true;
  copy_allocated = true;
  list_grown = true;
}

abbrev pub silent : Round
silent = record confirming { datagram = []; errno_again = true }

-- A message of the server with the id 5.
abbrev pub greeting : Round
greeting = record confirming { datagram = 4 ∷ 0 ∷ 5 ∷ codes "Bo" }
