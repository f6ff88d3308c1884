-- ===== src/TcpMsg/Process.antt =====
-- The building of a TCP message in src/tcp_msg.c, and what src/comm_tcp.c does with a line.
use ipk_chat_client.Base.{
  ℕ, ◌-◌, Bool, Option, none, some, List, [], ◌∷◌, ◌++◌, ◌==◌, ltb, if◌then◌else◌, length,
  replicate, c_string, ◌>>=◌,
}
use ipk_chat_client.Common.{
  Exit, exit_success, exit_failure, MsgType, auth, join, msg, error, local, err, bye, type_code,
  Out, error_line, Client, buffer_size,
}
use ipk_chat_client.Buffer.{MsgBuffer, buffer_append, buffer_get_msg}
use ipk_chat_client.TcpMsg.{TcpMsgTemp, msg_temp, snprintf, strncasecmp_eq, refuse, Parsed}

-- The template of a type.
unfoldable pub find_temp : List TcpMsgTemp → MsgType → Option (List ℕ)
find_temp [] type = none
find_temp (t ∷ ts) type =
    let rest = find_temp ts type in if type_code t.type == type_code type then some t.temp else rest

-- The strings for the conversions; `none` for a type outside the switch.
unfoldable pub temp_args : MsgType → Client → Option (List (List ℕ))
temp_args err c = some (c.display_name ∷ c.msg_content ∷ [])
temp_args msg c = some (c.display_name ∷ c.msg_content ∷ [])
temp_args auth c = some (c.username ∷ c.display_name ∷ c.secret ∷ [])
temp_args join c = some (c.channel_id ∷ c.display_name ∷ [])
temp_args bye c = some (c.display_name ∷ [])
temp_args _ c = none

-- The string of the block and its length, or NULL.
unfoldable pub tcp_build_msg : Bool → MsgType → Client → Option (List ℕ × ℕ)
tcp_build_msg allocated type c = find_temp msg_temp type >>= λ temp. temp_args type c >>= λ args.
    let text = snprintf temp args in if allocated then some (text, length text) else none

-- The globals that the TCP functions change, with the lines sent.
pub record Tcp : Type 0 where
  pub client : Client
  pub buffer : MsgBuffer
  pub sent : List (List ℕ)
  pub out : List Out

-- `whole`: `send` takes the whole line.
unfoldable pub tcp_send_msg : Bool → Bool → MsgType → Tcp → Exit × Tcp
tcp_send_msg allocated whole type s = elim (tcp_build_msg allocated type s.client) [
  | none ↦ (exit_failure, s)
  | some m ↦
      if whole then (exit_success, record s { sent = s.sent ++ m.0 ∷ [] }) else (exit_failure, s)
]

-- The loop over the table: the first entry whose template starts as the line does parses it.
unfoldable pub process_with : List TcpMsgTemp → List ℕ → Parsed
process_with [] buffer = refuse "ERROR: Unknown massage received"
process_with (t ∷ ts) buffer =
    let rest = process_with ts buffer in
    if strncasecmp_eq buffer t.temp t.len then t.parse_func buffer else rest

unfoldable pub tcp_process_msg : List ℕ → Parsed
tcp_process_msg buffer = process_with msg_temp buffer

-- A block of the stream buffer, parsed as the string that it holds.
unfoldable pub process_block : List ℕ → Tcp → Option (MsgType × Tcp)
process_block block s = c_string block >>= λ text.
    let p = tcp_process_msg text in some (p.0, record s { out = s.out ++ p.1 })

-- One call of `recv`: bytes, none where the server closed, or the result -1.
pub data Received : Type 0 where
  data_of : List ℕ → Received
  broken : Received

-- The result -1 is kept in a `size_t` and so passes the test: then `copy` gets the size 0, and
-- `strncpy` no bound at all. That is a fault.
unfoldable pub tcp_recv_msg : Bool → Bool → Received → Tcp → Option (MsgType × Tcp)
tcp_recv_msg grown allocated broken s = none
tcp_recv_msg grown allocated (data_of d) s =
    if ltb 0 (length d)
    then (buffer_append grown (d ++ replicate (buffer_size - length d) 0) (length d) s.buffer
        >>= λ r.
            let s' = record s { buffer = r.1 } in
            if r.0
            then (buffer_get_msg allocated s'.buffer >>= λ m.
                let s'' = record s' { buffer = m.1 } in
                elim m.0 [ none ↦ some (local, s'') | some block ↦ process_block block s'' ])
            else some (
              error,
              record s' { out = s.out ++ error_line "ERROR: realloc failed in buffer" ∷ [] },
            ))
    else some (error, record s { out = s.out ++ error_line "ERROR: recv fault" ∷ [] })

-- The type goes through the pointer argument; `none` inside is the result `false`.
unfoldable pub tcp_check_previous : Bool → Tcp → Option (Option MsgType × Tcp)
tcp_check_previous allocated s = buffer_get_msg allocated s.buffer >>= λ m.
    let s' = record s { buffer = m.1 } in
    elim m.0 [
      | none ↦ some (none, s')
      | some block ↦ process_block block s' >>= λ p. some (some p.0, p.1)
    ]
