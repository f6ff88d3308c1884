-- ===== src/Comm.antt =====
-- lib/comm.h: the interface to the two variants of the protocol, over what the system answers.
pub mod Variants
pub mod After
pub mod Wire
pub mod Framing
pub mod UdpKeeps
pub mod WireKeeps
pub mod NoFault
pub mod UdpNoFault
use ipk_chat_client.Input.{Line, Parsed, parse_user_input}
use ipk_chat_client.Input.Laws.{IsValid, IsReady, parse_user_input-IsGood}
use ipk_chat_client.Base.{ℕ, ◌≡◌, refl, ◌⊎◌, inl, inr, Bool, Option, some, List}
use ipk_chat_client.Common.{Exit, exit_success, exit_failure, MsgType, Out, Client}

-- The end of a call that may wait for ever, or run outside its memory.
pub data Called (S : Type 0) : Type 0 where
  returned : Exit → S → Called S
  waiting : S → Called S
  fault : Called S

pub Called-cases :
    {S : Type 0} (c : Called S)
    → ((s : S) × (c ≡ returned exit_success s))
      ⊎ (((s : S) × (c ≡ returned exit_failure s)) ⊎ (((s : S) × (c ≡ waiting s)) ⊎ (c ≡ fault)))
Called-cases (returned exit_success s) = inl (s, refl)
Called-cases (returned exit_failure s) = inr (inl (s, refl))
Called-cases (waiting s) = inr (inr (inl (s, refl)))
Called-cases fault = inr (inr (inr refl))

-- FD_SETSIZE of the C library.
abbrev pub fd_setsize : ℕ
fd_setsize = 1024

-- `comm_t` without its flag, on the globals `S`; `A` is what the system answers
-- during a call of `send_msg`, `R` during a call of `recv_msg`, and a Boolean says whether the
-- memory for a waiting message is there. The client's data and the printed lines are among the
-- globals, and so is the stream buffer, if the variant fills it.
pub record Comm (S A R : Type 0) : Type 0 where
  pub socket : ℕ
  pub send_msg : A → MsgType → S → Called S
  pub recv_msg : R → S → Option (MsgType × S)
  pub check_previous_msg : Bool → S → Option (Option MsgType × S)
  pub buffer_is_empty : S → Bool
  pub client : S → Client
  pub with_client : Client → S → S
  pub print : List Out → S → S

module _ {S A R : Type 0} (comm : Comm S A R) where
  -- The globals after a `parse_user_input` with the result `p`, which prints what it prints.
  abbrev pub user_read : Parsed → S → S
  user_read p s = comm.print p.out (comm.with_client p.client s)

  -- A property of the globals, of valid data of the client among them, that every call keeps unless
  -- it runs outside its memory, where a message that is sent has what it is built from.
  pub record Keeps (P : S → Type 0) : Type 0 where
    pub send :
        (a : A) (type : MsgType) (s : S) (e : Exit) (s' : S)
        → P s
        → IsReady type (comm.client s)
        → comm.send_msg a type s ≡ returned e s'
        → P s'
    pub waits :
        (a : A) (type : MsgType) (s s' : S)
        → P s
        → IsReady type (comm.client s)
        → comm.send_msg a type s ≡ waiting s'
        → P s'
    pub recv :
        (r : R) (s : S) (type : MsgType) (s' : S) → P s → comm.recv_msg r s ≡ some (type, s') → P s'
    pub previous :
        (memory : Bool) (s : S) (type : Option MsgType) (s' : S)
        → P s
        → comm.check_previous_msg memory s ≡ some (type, s')
        → P s'
    pub valid : (s : S) → P s → IsValid (comm.client s)
    pub sets : (c : Client) (s : S) → IsValid c → P s → P (comm.with_client c s)
    pub prints : (out : List Out) (s : S) → P s → P (comm.print out s)
    pub reads : (c : Client) (s : S) → comm.client (comm.with_client c s) ≡ c
    pub shows : (out : List Out) (s : S) → comm.client (comm.print out s) ≡ comm.client s

  -- A line of the user keeps it too.
  pub user_read-keeps :
      (P : S → Type 0) (laws : Keeps P) (typed : Line) (p : Parsed) (s : S)
      → P s
      → parse_user_input typed (comm.client s) ≡ some p
      → P (user_read p s)
  user_read-keeps P laws typed p s h got =
      let good = (parse_user_input-IsGood typed (comm.client s) (laws.valid s h)).1 p got in
      laws.prints p.out (comm.with_client p.client s) (laws.sets p.client s good.valid h)
