-- ===== src/TcpMsg/Roundtrip.antt =====
-- What a client sends over TCP is read back as it was sent.
use ipk_chat_client.Base.{ℕ, ◌≡◌, refl, inl, true, some, List, [], ◌∷◌, ◌++◌, codes, length}
use ipk_chat_client.Common.{
  MsgType, msg, err, bye, message, error_from, max_name_size, max_msg_size, Client, type_code,
}
use ipk_chat_client.Common.Laws.{IsPrintable, IsContentChar, IsText}
use ipk_chat_client.TcpMsg.{Parsed, snprintf, msg_temp}
use ipk_chat_client.TcpMsg.Process.{find_temp, temp_args, tcp_build_msg, tcp_process_msg}
use ipk_chat_client.TcpMsg.Grammar.{Alike, nil, cons, named, msg_line, err_line, bye_line}
use ipk_chat_client.TcpMsg.Accept.{tcp_process_msg-Line}

Alike-self : (s : List ℕ) → Alike s s
Alike-self [] = nil
Alike-self (c ∷ s) = cons refl (Alike-self s)

-- The client sends a line for the type, and a client that gets the line takes it as `p`.
abbrev pub ReadsBack : MsgType → Client → Parsed → Type 0
ReadsBack type c p =
    (l : List ℕ) × (tcp_build_msg true type c ≡ some (l, length l)) × (tcp_process_msg l ≡ p)

-- With memory for the line, what a client with a valid printable display name and a valid content
-- sends over TCP as MSG, as ERR or as BYE is taken, by a client that gets it, as a message of the
-- same type, with that name and, but for BYE, that content.
pub tcp_process-build :
    (c : Client)
    → IsText IsPrintable max_name_size c.display_name
    → IsText IsContentChar max_msg_size c.msg_content
    → ReadsBack msg c (msg, message c.display_name c.msg_content ∷ [])
      × ReadsBack err c (err, error_from c.display_name c.msg_content ∷ [])
      × ReadsBack bye c (bye, [])
unfolding tcp_build_msg msg_temp find_temp temp_args snprintf type_code
tcp_process-build c hn ht =
    let name = c.display_name in
    let t = c.msg_content in
    let body = name ++ (codes " IS " ++ (t ++ codes "\r\n")) in
    let parts = inl (named name (codes " IS ") t [] hn (Alike-self (codes " IS ")) ht) in
    (
      (
        codes "MSG FROM " ++ body,
        refl,
        tcp_process_msg-Line
            (msg_line (codes "MSG FROM ") body name t (Alike-self (codes "MSG FROM ")) parts),
      ),
      (
        codes "ERR FROM " ++ body,
        refl,
        tcp_process_msg-Line
            (err_line (codes "ERR FROM ") body name t (Alike-self (codes "ERR FROM ")) parts),
      ),
      (
        codes "BYE FROM " ++ (name ++ codes "\r\n"),
        refl,
        tcp_process_msg-Line
            (bye_line (codes "BYE FROM ") name [] (Alike-self (codes "BYE FROM ")) hn),
      ),
    )
