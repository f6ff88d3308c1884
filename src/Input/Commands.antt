-- ===== src/Input/Commands.antt =====
-- The commands of the user and the lines that are not commands.
use ipk_chat_client.Base.{
  some, ap, ℕ, ◌≤◌, ◌<◌, ◌≡◌, ◌↔◌, refl, false, List, [], ◌∷◌, inl, inr, ◌++◌, arith, ltb, length,
  take, All-mono, codes, take_of_length_le, length-take, lt→ltb, ltb→lt, Bool-cases,
}
use ipk_chat_client.Common.{
  Client, auth, msg, max_name_size, max_secret_size, max_msg_size, buffer_size,
  is_valid_msg_content,
}
use ipk_chat_client.Common.Laws.{
  IsIdChar, IsPrintable, IsContentChar, IsText, is_valid_alphanum_underscore_iff,
  is_valid_printable_iff, is_valid_msg_content_iff,
}
use ipk_chat_client.Input.{
  line, done, invalid, parse_auth, run_command, command, parse_text, parse_words, parse_user_input,
}
use ipk_chat_client.Input.Laws.{copy_all}
use ipk_chat_client.Input.Words.{IsWordChar, IsWord, unwords, parse_user_input-unwords}

id-IsWord : {n : ℕ} {s : List ℕ} → IsText IsIdChar n s → IsWord s
id-IsWord {s = s} t = record {
  nonempty = t.nonempty;
  chars =
      All-mono IsIdChar IsWordChar s (λ c h. (ground arith, λ e. ground arith, λ e. ground arith))
        t.chars;
}

name-IsWord : {n : ℕ} {s : List ℕ} → IsText IsPrintable n s → IsWord s
name-IsWord {s = s} t = record {
  nonempty = t.nonempty;
  chars =
      All-mono IsPrintable IsWordChar s
        (λ c h. (ground arith, λ e. ground arith, λ e. ground arith)) t.chars;
}

literal-IsWord : IsWord (codes "/auth")
literal-IsWord = record { nonempty = omega arith; chars = ground arith }

parse_auth_valid :
    (c : Client) (u s d : List ℕ)
    → IsText IsIdChar max_name_size u
    → IsText IsIdChar max_secret_size s
    → IsText IsPrintable max_name_size d
    → parse_auth (u ∷ s ∷ d ∷ []) c
      ≡ done auth (record c { username = u; secret = s; display_name = d })
unfolding parse_auth
parse_auth_valid c u s d hu hs hd = ground (
  arith,
  (is_valid_alphanum_underscore_iff u max_name_size).1 hu,
  (is_valid_alphanum_underscore_iff s max_secret_size).1 hs,
  (is_valid_printable_iff d max_name_size).1 hd,
  take_of_length_le 20 u hu.fits,
  take_of_length_le 128 s hs.fits,
  take_of_length_le 20 d hd.fits,
)

-- The line `/auth u s d` with a valid name, secret and display name is read as AUTH, with exactly
-- these three in the client's data, all other data as before and nothing printed.
pub auth_command :
    (c : Client) (u s d : List ℕ)
    → IsText IsIdChar max_name_size u
    → IsText IsIdChar max_secret_size s
    → IsText IsPrintable max_name_size d
    → parse_user_input (line (unwords (codes "/auth" ∷ u ∷ s ∷ d ∷ []) ++ 10 ∷ [])) c
      ≡ some (done auth (record c { username = u; secret = s; display_name = d }))
unfolding parse_words run_command command
auth_command c u s d hu hs hd =
    rw
      (parse_user_input-unwords (codes "/auth" ∷ u ∷ s ∷ d ∷ []) c
        (literal-IsWord, (id-IsWord hu, (id-IsWord hs, (name-IsWord hd, tt)))))
      (ap some (parse_auth_valid c u s d hu hs hd))

-- A line that is not a command, of 1 to 65535 printable bytes, is taken as a message: its first
-- 60000 bytes are the content, all other data stays, and a notice is printed exactly when it was
-- longer.
pub parse_text-cut :
    (s : List ℕ) (c : Client)
    → IsText IsContentChar buffer_size s
    → let p = parse_text s c in
      (p.type ≡ msg)
      × (p.client ≡ record c { msg_content = take max_msg_size s })
      × ((p.out ≡ []) ↔ (length s ≤ max_msg_size))
unfolding parse_text
parse_text-cut s c t =
    let ok = (is_valid_msg_content_iff s buffer_size).1 t in
    elim (Bool-cases (ltb max_msg_size (length s))) [
      | inl long ↦
          let lt = ltb→lt max_msg_size (length s) long in
          rw
            (
              ok,
              long,
              copy_all (take max_msg_size s) max_msg_size
                  (omega (arith, length-take {0} max_msg_size s)),
            )
            (refl, refl, (λ h. absurd (ground arith), λ h. absurd (omega arith)))
      | inr short ↦
          let le : length s ≤ max_msg_size = ground (arith, short) in
          rw (ok, short, copy_all s max_msg_size le) (refl, refl, (λ h. le, λ h. refl))
    ]

-- A longer line is refused whole, though every byte of it may be sent: nothing is cut, and the
-- client's data stays.
pub long_line_refused :
    (s : List ℕ) (c : Client)
    → buffer_size < length s
    → parse_text s c ≡ invalid "ERROR: Invalid message" c
unfolding parse_text is_valid_msg_content
long_line_refused s c long =
    let no : is_valid_msg_content s buffer_size ≡ false =
      rw (lt→ltb buffer_size (length s) long) refl in
    rw no refl
