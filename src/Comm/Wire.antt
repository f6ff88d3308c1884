-- ===== src/Comm/Wire.antt =====
-- What the client may put on the wire, written down without the code: the types it sends, the texts
-- that each of them carries, and how UDP and TCP lay them out.
use mathlib.Core.Path.{subst}
use ipk_chat_client.Base.{
  ℕ, ◌≡◌, ◌≢◌, inl, inr, Option-cases, true, false, Bool, Option, some, List, [], ◌∷◌, ◌++◌, arith,
  codes,
}
use ipk_chat_client.Common.{
  MsgType, confirm, auth, join, msg, err, bye, Client, max_name_size, max_secret_size, max_msg_size,
  type_code,
}
use ipk_chat_client.Common.Laws.{IsIdChar, IsPrintable, IsContentChar, IsText}
use ipk_chat_client.Input.Laws.{IsValid, IsReady}
use ipk_chat_client.UdpMsg.Build.{build_header, udp_build_msg}
use ipk_chat_client.UdpMsg.Frames.{frame, sent_fields, udp_build_msg_lem}
use ipk_chat_client.CommUdp.Safety.{udp_build_msg-null}
use ipk_chat_client.TcpMsg.{msg_temp, snprintf}
use ipk_chat_client.TcpMsg.Process.{find_temp, temp_args, tcp_build_msg}

-- The texts of a message of each type: a CONFIRM has none, and the other types that are not here
-- are never sent.
abbrev pub Allowed : MsgType → List (List ℕ) → Type 0
Allowed confirm [] = Unit
Allowed auth (username ∷ display_name ∷ secret ∷ []) =
    IsText IsIdChar max_name_size username
    × IsText IsPrintable max_name_size display_name
    × IsText IsIdChar max_secret_size secret
Allowed join (channel_id ∷ display_name ∷ []) =
    IsText IsIdChar max_name_size channel_id × IsText IsPrintable max_name_size display_name
Allowed msg (display_name ∷ content ∷ []) =
    IsText IsPrintable max_name_size display_name × IsText IsContentChar max_msg_size content
Allowed err (display_name ∷ content ∷ []) =
    IsText IsPrintable max_name_size display_name × IsText IsContentChar max_msg_size content
Allowed bye (display_name ∷ []) = IsText IsPrintable max_name_size display_name
Allowed type texts = ⊥

same_texts : {x y : List (List ℕ)} → ◌≡◌ {A = Option (List (List ℕ))} (some x) (some y) → x ≡ y
same_texts h = ground arith

sent_fields-Allowed :
    (type : MsgType) (c : Client) (texts : List (List ℕ))
    → IsValid c
    → IsReady type c
    → sent_fields type c ≡ some texts
    → Allowed type texts
unfolding IsReady
sent_fields-Allowed auth c texts v r h =
    subst (Allowed auth) (same_texts h) (r.0, v.display_name, r.1)
sent_fields-Allowed join c texts v r h = subst (Allowed join) (same_texts h) (r, v.display_name)
sent_fields-Allowed msg c texts v r h = subst (Allowed msg) (same_texts h) (v.display_name, r)
sent_fields-Allowed err c texts v r h = subst (Allowed err) (same_texts h) (v.display_name, r)
sent_fields-Allowed bye c texts v r h = subst (Allowed bye) (same_texts h) v.display_name
sent_fields-Allowed type c texts v r h = absurd (ground arith)

-- A datagram is the header of an allowed message with its texts, each with its NUL.
abbrev pub IsDatagram : List ℕ → Type 0
IsDatagram d =
    (type : MsgType) × (id : ℕ) × (texts : List (List ℕ)) × Allowed type texts
    × (d ≡ frame type id texts)

-- The line of a message of each type.
abbrev pub line : MsgType → List (List ℕ) → List ℕ
line auth (username ∷ display_name ∷ secret ∷ []) =
    codes "AUTH "
    ++ (username
        ++ (codes " AS " ++ (display_name ++ (codes " USING " ++ (secret ++ codes "\r\n")))))
line join (channel_id ∷ display_name ∷ []) =
    codes "JOIN " ++ (channel_id ++ (codes " AS " ++ (display_name ++ codes "\r\n")))
line msg (display_name ∷ content ∷ []) =
    codes "MSG FROM " ++ (display_name ++ (codes " IS " ++ (content ++ codes "\r\n")))
line err (display_name ∷ content ∷ []) =
    codes "ERR FROM " ++ (display_name ++ (codes " IS " ++ (content ++ codes "\r\n")))
line bye (display_name ∷ []) = codes "BYE FROM " ++ (display_name ++ codes "\r\n")
line type texts = []

-- A line is the line of an allowed message that is no CONFIRM.
abbrev pub IsLine : List ℕ → Type 0
IsLine l =
    (type : MsgType) × (texts : List (List ℕ)) × Allowed type texts
    × (type ≢ confirm)
    × (l ≡ line type texts)

pub build_header-IsDatagram :
    (allocated : Bool) (id : ℕ) (d : List ℕ)
    → build_header allocated confirm id 0 ≡ some d
    → IsDatagram d
unfolding build_header
build_header-IsDatagram allocated id d h = (confirm, id, [], tt, ground arith)

pub udp_build_msg-IsDatagram :
    (allocated : Bool) (type : MsgType) (c : Client) (d : List ℕ) (n : ℕ)
    → IsValid c
    → IsReady type c
    → udp_build_msg allocated type c ≡ some (some (d, n))
    → IsDatagram d
udp_build_msg-IsDatagram true type c d n v r h = elim (Option-cases (sent_fields type c)) [
  | inl null ↦ absurd (ground (arith, udp_build_msg_lem type c, null, h))
  | inr (texts, found) ↦ (
    type,
    c.msg_id,
    texts,
    sent_fields-Allowed type c texts v r found,
    ground (arith, udp_build_msg_lem type c, found, h),
  )
]
udp_build_msg-IsDatagram false type c d n v r h =
    absurd (ground (arith, udp_build_msg-null type c, h))

built_text :
    {x l : List ℕ} {m n : ℕ} → ◌≡◌ {A = Option (List ℕ × ℕ)} (some (x, m)) (some (l, n)) → l ≡ x
built_text h = ground arith

pub tcp_build_msg-IsLine :
    (allocated : Bool) (type : MsgType) (c : Client) (l : List ℕ) (n : ℕ)
    → IsValid c
    → IsReady type c
    → tcp_build_msg allocated type c ≡ some (l, n)
    → IsLine l
unfolding tcp_build_msg find_temp temp_args msg_temp snprintf type_code IsReady
tcp_build_msg-IsLine true auth c l n v r h = (
  auth,
  c.username ∷ c.display_name ∷ c.secret ∷ [],
  (r.0, v.display_name, r.1),
  λ e. ground arith,
  built_text h,
)
tcp_build_msg-IsLine true join c l n v r h =
    (join, c.channel_id ∷ c.display_name ∷ [], (r, v.display_name), λ e. ground arith, built_text h)
tcp_build_msg-IsLine true msg c l n v r h =
    (msg, c.display_name ∷ c.msg_content ∷ [], (v.display_name, r), λ e. ground arith, built_text h)
tcp_build_msg-IsLine true err c l n v r h =
    (err, c.display_name ∷ c.msg_content ∷ [], (v.display_name, r), λ e. ground arith, built_text h)
tcp_build_msg-IsLine true bye c l n v r h =
    (bye, c.display_name ∷ [], v.display_name, λ e. ground arith, built_text h)
tcp_build_msg-IsLine allocated type c l n v r h = absurd (ground arith)
