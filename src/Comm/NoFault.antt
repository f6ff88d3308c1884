-- ===== src/Comm/NoFault.antt =====
-- Calls of the interface that never leave their memory, where the answers of the system are good.
use ipk_chat_client.Base.{◌≡◌, ◌≢◌, ◌<◌, Bool, Option, some, List}
use ipk_chat_client.Common.{exit_success, MsgType, Client, Out}
use ipk_chat_client.Input.{Parsed}
use ipk_chat_client.Comm.{Comm, fd_setsize, returned, fault, user_read}

module _ {S A R : Type 0} (comm : Comm S A R) where
  -- A property of the globals that keeps the calls inside their memory, where `GoodA` and `GoodR`
  -- hold of the answers. A `send_msg` that fails need not keep it.
  pub record NoFault (P : S → Type 0) (GoodA : A → Type 0) (GoodR : R → Type 0) : Type 0 where
    pub socket : comm.socket < fd_setsize
    pub send_ends :
        (a : A) (type : MsgType) (s : S) → GoodA a → P s → comm.send_msg a type s ≢ fault
    pub send :
        (a : A) (type : MsgType) (s s' : S)
        → GoodA a
        → P s
        → comm.send_msg a type s ≡ returned exit_success s'
        → P s'
    pub recv :
        (r : R) (s : S)
        → GoodR r
        → P s
        → (type : MsgType) × (s' : S) × (comm.recv_msg r s ≡ some (type, s')) × P s'
    pub previous :
        (memory : Bool) (s : S)
        → P s
        → (type : Option MsgType) × (s' : S) × (comm.check_previous_msg memory s ≡ some (type, s'))
          × P s'
    pub sets : (c : Client) (s : S) → P s → P (comm.with_client c s)
    pub prints : (out : List Out) (s : S) → P s → P (comm.print out s)

  pub user_read-fine :
      (P : S → Type 0) (GoodA : A → Type 0) (GoodR : R → Type 0) (laws : NoFault P GoodA GoodR)
      (p : Parsed) (s : S)
      → P s
      → P (user_read comm p s)
  user_read-fine P GoodA GoodR laws p s h =
      laws.prints p.out (comm.with_client p.client s) (laws.sets p.client s h)
