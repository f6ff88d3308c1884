-- ===== src/Examples/Lines.antt =====
-- Lines of input.
use ipk_chat_client.Base.{true, some, none, ◌≢◌, ℕ, ◌≡◌, List, codes, arith}
use ipk_chat_client.Common.{auth}
use ipk_chat_client.Input.{Parsed, is_copied, line, done, parse_user_input}
use ipk_chat_client.Input.Laws.{IsGood, parse_user_input-IsGood}
use ipk_chat_client.Input.Commands.{auth_command}
use ipk_chat_client.Examples.Data.{alice}

abbrev typed : List ℕ
typed = codes "/auth bob pass Bob\n"

parse_user_input-IsGood_example :
    (is_copied (line typed) ≡ true → parse_user_input (line typed) alice ≢ none)
    × ((p : Parsed) → parse_user_input (line typed) alice ≡ some p → IsGood alice p)
parse_user_input-IsGood_example = parse_user_input-IsGood (line typed) alice (record {
  username = record { fits = omega arith; chars = ground arith };
  channel_id = record { fits = omega arith; chars = ground arith };
  secret = record { fits = omega arith; chars = ground arith };
  display_name = record { nonempty = omega arith; fits = omega arith; chars = ground arith };
  msg_content = record { fits = omega arith; chars = ground arith };
})

auth_command_example :
    parse_user_input (line typed) alice
    ≡ some (
        done auth (record alice {
          username = codes "bob";
          secret = codes "pass";
          display_name = codes "Bob";
        }))
auth_command_example =
    auth_command alice (codes "bob") (codes "pass") (codes "Bob")
      (record { nonempty = omega arith; fits = omega arith; chars = ground arith })
      (record { nonempty = omega arith; fits = omega arith; chars = ground arith })
      (record { nonempty = omega arith; fits = omega arith; chars = ground arith })
