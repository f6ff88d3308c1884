-- ===== src/Input/Laws.antt =====
-- What a line of input leaves in the client's data.
use mathlib.Core.Path.{subst}
use ipk_chat_client.Base.{
  ◌≢◌, Option, none, some, strcmp_eq, ℕ, zero, suc, ◌+◌, ◌-◌, ◌≤◌, ◌<◌, ◌≡◌, refl, Bool, true,
  false, ◌||◌, not, List, [], ◌∷◌, arith, ltb, ◌==◌, if◌then◌else◌, length, take, take_of_length_le,
  length-take, All, codes,
}
use ipk_chat_client.Common.{
  MsgType, auth, join, msg, err, Client, max_name_size, max_secret_size, max_msg_size, buffer_size,
  copy_string, is_valid_alphanum_underscore, is_valid_printable, is_valid_msg_content,
}
use Prim.Native.String.{String}
use ipk_chat_client.Common.Laws.{
  IsIdChar, IsPrintable, IsContentChar, IsText, is_valid_alphanum_underscore_iff,
  is_valid_printable_iff, is_valid_msg_content_iff,
}
use ipk_chat_client.Input.{
  Line, line, uncopied, end_of_file, failed, is_copied, parse_copy, Parsed, invalid, parse_auth,
  parse_join, parse_rename, parse_help, command, run_command, parse_text, parse_words,
  parse_user_input, strip_newline, strtok,
}

-- A text of at most `n` bytes that all satisfy `P`.
pub record IsWithin (P : ℕ → Type 0) (n : ℕ) (s : List ℕ) : Type 0 where
  pub fits : length s ≤ n
  pub chars : All P s

-- Every field holds what the protocol allows in it, or nothing; the display name is there always.
pub record IsValid (c : Client) : Type 0 where
  pub username : IsWithin IsIdChar max_name_size c.username
  pub channel_id : IsWithin IsIdChar max_name_size c.channel_id
  pub secret : IsWithin IsIdChar max_secret_size c.secret
  pub display_name : IsText IsPrintable max_name_size c.display_name
  pub msg_content : IsWithin IsContentChar max_msg_size c.msg_content

-- What a message of a type is built from, but for the display name, is there.
unfoldable pub IsReady : MsgType → Client → Type 0
IsReady auth c = IsText IsIdChar max_name_size c.username × IsText IsIdChar max_secret_size c.secret
IsReady join c = IsText IsIdChar max_name_size c.channel_id
IsReady msg c = IsText IsContentChar max_msg_size c.msg_content
IsReady err c = IsText IsContentChar max_msg_size c.msg_content
IsReady t c = Unit

-- What is shown of a parser's result: the client stays valid, keeps its message id, has what the
-- type needs, and the type is one of five.
pub record IsGood (c : Client) (p : Parsed) : Type 0 where
  pub valid : IsValid p.client
  pub same_id : p.client.msg_id ≡ c.msg_id
  pub ready : IsReady p.type p.client

pub copy_all : (s : List ℕ) (n : ℕ) → length s ≤ n → copy_string s (n + 1) ≡ s
copy_all s n h = let e : (n + 1) - 1 ≡ n = omega arith in rw e (take_of_length_le n s h)

IsText-IsWithin : {P : ℕ → Type 0} {n : ℕ} {s : List ℕ} → IsText P n s → IsWithin P n s
IsText-IsWithin t = record { fits = t.fits; chars = t.chars }

invalid-IsGood : (text : String) (c : Client) → IsValid c → IsGood c (invalid text c)
unfolding IsReady
invalid-IsGood text c v = record { valid = v; same_id = refl; ready = tt }

copied_text :
    {P : ℕ → Type 0} {n : ℕ} {s : List ℕ} → IsText P n s → IsText P n (copy_string s (n + 1))
copied_text {n = n} {s = s} t = rw (copy_all s n t.fits) t

if-IsGood :
    (b : Bool) {c : Client} {p q : Parsed}
    → (b ≡ true → IsGood c p)
    → (b ≡ false → IsGood c q)
    → IsGood c (if b then p else q)
if-IsGood true f g = f refl
if-IsGood false f g = g refl

id_text :
    {n : ℕ} (s : List ℕ)
    → is_valid_alphanum_underscore s n ≡ true
    → IsText IsIdChar n (copy_string s (n + 1))
id_text {n = n} s h = copied_text ((is_valid_alphanum_underscore_iff s n).0 h)

name_text :
    {n : ℕ} (s : List ℕ)
    → is_valid_printable s n ≡ true
    → IsText IsPrintable n (copy_string s (n + 1))
name_text {n = n} s h = copied_text ((is_valid_printable_iff s n).0 h)

parse_auth-IsGood : (args : List (List ℕ)) (c : Client) → IsValid c → IsGood c (parse_auth args c)
unfolding parse_auth IsReady
parse_auth-IsGood (u ∷ s ∷ d ∷ []) c v =
    if-IsGood
      (not (is_valid_alphanum_underscore u max_name_size)
        || (not (is_valid_alphanum_underscore s max_secret_size) || not (is_valid_printable d 20)))
      (λ bad. invalid-IsGood "ERROR: Invalid /auth" c v)
      (λ ok.
        let tu = id_text {n = max_name_size} u (ground arith) in
        let ts = id_text {n = max_secret_size} s (ground arith) in
        let td = name_text {n = max_name_size} d (ground arith) in
        record {
          valid = record {
            username = IsText-IsWithin tu;
            channel_id = v.channel_id;
            secret = IsText-IsWithin ts;
            display_name = td;
            msg_content = v.msg_content;
          };
          same_id = refl;
          ready = (tu, ts);
        })
parse_auth-IsGood args c v = invalid-IsGood "ERROR: Invalid /auth" c v

parse_join-IsGood : (args : List (List ℕ)) (c : Client) → IsValid c → IsGood c (parse_join args c)
unfolding parse_join IsReady
parse_join-IsGood (t ∷ []) c v =
    if-IsGood (not (is_valid_alphanum_underscore t max_name_size))
      (λ bad. invalid-IsGood "ERROR: Invalid /join" c v)
      (λ ok.
        let tc = id_text {n = max_name_size} t (ground arith) in
        record {
          valid = record {
            username = v.username;
            channel_id = IsText-IsWithin tc;
            secret = v.secret;
            display_name = v.display_name;
            msg_content = v.msg_content;
          };
          same_id = refl;
          ready = tc;
        })
parse_join-IsGood args c v = invalid-IsGood "ERROR: Invalid /join" c v

parse_rename-IsGood :
    (args : List (List ℕ)) (c : Client) → IsValid c → IsGood c (parse_rename args c)
unfolding parse_rename IsReady
parse_rename-IsGood (d ∷ []) c v =
    if-IsGood (not (is_valid_printable d max_name_size))
      (λ bad. invalid-IsGood "ERROR: Invalid /rename" c v)
      (λ ok.
        let td = name_text {n = max_name_size} d (ground arith) in
        record {
          valid = record {
            username = v.username;
            channel_id = v.channel_id;
            secret = v.secret;
            display_name = td;
            msg_content = v.msg_content;
          };
          same_id = refl;
          ready = tt;
        })
parse_rename-IsGood args c v = invalid-IsGood "ERROR: Invalid /rename" c v

parse_help-IsGood : (args : List (List ℕ)) (c : Client) → IsValid c → IsGood c (parse_help args c)
unfolding parse_help IsReady
parse_help-IsGood [] c v = record { valid = v; same_id = refl; ready = tt }
parse_help-IsGood args c v = invalid-IsGood "ERROR: Invalid /help" c v

run_command-IsGood :
    (name : List ℕ) (args : List (List ℕ)) (c : Client)
    → IsValid c
    → IsGood c (run_command command name args c)
unfolding run_command command
run_command-IsGood name args c v =
    if-IsGood (strcmp_eq name (codes "/auth")) (λ u. parse_auth-IsGood args c v)
      (λ u.
        if-IsGood (strcmp_eq name (codes "/join")) (λ u. parse_join-IsGood args c v)
          (λ u.
            if-IsGood (strcmp_eq name (codes "/rename")) (λ u. parse_rename-IsGood args c v)
              (λ u.
                if-IsGood (strcmp_eq name (codes "/help")) (λ u. parse_help-IsGood args c v)
                  (λ u. invalid-IsGood "ERROR: Invalid command" c v))))

All-take : (P : ℕ → Type 0) (n : ℕ) (s : List ℕ) → All P s → All P (take n s)
All-take P zero s h = tt
All-take P (suc n) [] h = tt
All-take P (suc n) (c ∷ s) (h, hs) = (h, All-take P n s hs)

cut_text :
    {P : ℕ → Type 0} (n : ℕ) {k : ℕ} (s : List ℕ)
    → 1 ≤ n
    → n < length s
    → IsText P k s
    → IsText P n (take n s)
cut_text {P = P} n s pos h t = record {
  nonempty = omega (arith, length-take {0} n s);
  fits = omega (arith, length-take {0} n s);
  chars = All-take P n s t.chars;
}

parse_text-IsGood : (s : List ℕ) (c : Client) → IsValid c → IsGood c (parse_text s c)
unfolding parse_text IsReady
parse_text-IsGood s c v =
    if-IsGood (not (is_valid_msg_content s buffer_size))
      (λ bad. invalid-IsGood "ERROR: Invalid message" c v)
      (λ ok.
        let t : IsText IsContentChar buffer_size s =
          (is_valid_msg_content_iff s buffer_size).0 (ground arith) in
        if-IsGood (ltb max_msg_size (length s))
          (λ long.
            let cut = cut_text max_msg_size s (omega arith) (ground arith) t in
            let tc = copied_text cut in
            record {
              valid = record {
                username = v.username;
                channel_id = v.channel_id;
                secret = v.secret;
                display_name = v.display_name;
                msg_content = IsText-IsWithin tc;
              };
              same_id = refl;
              ready = tc;
            })
          (λ short.
            let all : IsText IsContentChar max_msg_size s = record {
              nonempty = t.nonempty;
              fits = ground arith;
              chars = t.chars;
            } in
            let tc = copied_text all in
            record {
              valid = record {
                username = v.username;
                channel_id = v.channel_id;
                secret = v.secret;
                display_name = v.display_name;
                msg_content = IsText-IsWithin tc;
              };
              same_id = refl;
              ready = tc;
            }))

-- The result is good, where the parser comes back.
abbrev GoodResult : Client → Option Parsed → Type 0
GoodResult c none = Unit
GoodResult c (some p) = IsGood c p

parse_copy-Good : (o : Option (List ℕ)) (c : Client) → IsValid c → GoodResult c (parse_copy o c)
unfolding parse_copy
parse_copy-Good none c v = tt
parse_copy-Good (some s) c v = parse_text-IsGood s c v

either-Good :
    (b : Bool) (c : Client) (x y : Option Parsed)
    → GoodResult c x
    → GoodResult c y
    → GoodResult c (if b then x else y)
either-Good true c x y h k = h
either-Good false c x y h k = k

parse_words-Good :
    (ws : List (List ℕ)) (o : Option (List ℕ)) (c : Client)
    → IsValid c
    → GoodResult c (parse_words ws o c)
unfolding parse_words
parse_words-Good [] o c v = parse_copy-Good o c v
parse_words-Good ([] ∷ args) o c v = parse_copy-Good o c v
parse_words-Good ((b ∷ w) ∷ args) o c v =
    either-Good (b == b'/') c _ _ (run_command-IsGood (b ∷ w) args c v) (parse_copy-Good o c v)

parse_user_input-Good : (l : Line) (c : Client) → IsValid c → GoodResult c (parse_user_input l c)
unfolding parse_user_input IsReady
parse_user_input-Good end_of_file c v = record { valid = v; same_id = refl; ready = tt }
parse_user_input-Good failed c v = record { valid = v; same_id = refl; ready = tt }
parse_user_input-Good (line bytes) c v =
    parse_words-Good (take 5 (strtok (strip_newline bytes))) (some (strip_newline bytes)) c v
parse_user_input-Good (uncopied bytes) c v =
    parse_words-Good (take 5 (strtok (strip_newline bytes))) none c v

parse_words-total :
    (ws : List (List ℕ)) (s : List ℕ) (c : Client) → parse_words ws (some s) c ≢ none
unfolding parse_words parse_copy
parse_words-total [] s c e = ground arith
parse_words-total ([] ∷ args) s c e = ground arith
parse_words-total ((b ∷ w) ∷ args) s c e = ground arith

-- Unless `strdup` fails, the parser of a line comes back without a fault.
pub parse_user_input-total :
    (l : Line) (c : Client) → is_copied l ≡ true → parse_user_input l c ≢ none
unfolding parse_user_input
parse_user_input-total end_of_file c h e = ground arith
parse_user_input-total failed c h e = ground arith
parse_user_input-total (line bytes) c h e =
    parse_words-total (take 5 (strtok (strip_newline bytes))) (strip_newline bytes) c e
parse_user_input-total (uncopied bytes) c h e = ground arith

result-IsGood :
    {c : Client} (r : Option Parsed) {p : Parsed} → GoodResult c r → r ≡ some p → IsGood c p
result-IsGood none h e = absurd (ground arith)
result-IsGood {c = c} (some q) h e = subst (IsGood c) (ground arith) h

-- Whatever is read, the parser comes back unless `strdup` fails; and where it comes back, a valid
-- client stays valid, with its message id, and has what the message of the type that is returned is
-- built from: for AUTH a name and a secret, for JOIN a channel, for MSG and ERR a content, each not
-- empty, of allowed characters and within its length.
pub parse_user_input-IsGood :
    (l : Line) (c : Client)
    → IsValid c
    → (is_copied l ≡ true → parse_user_input l c ≢ none)
      × ((p : Parsed) → parse_user_input l c ≡ some p → IsGood c p)
parse_user_input-IsGood l c v = (
  parse_user_input-total l c,
  λ p e. result-IsGood (parse_user_input l c) {p = p} (parse_user_input-Good l c v) e,
)
