-- ===== src/Comm/After.antt =====
-- What holds of the globals after a call that may be a fault.
use mathlib.Core.Path.{subst}
use ipk_chat_client.Base.{
  ◌≡◌, refl, arith, Bool, true, false, Option, none, some, if◌then◌else◌, ◌>>=◌,
}
use ipk_chat_client.Common.{Exit, exit_success, exit_failure, MsgType}

-- A call that comes back leaves globals with the property `P`.
abbrev pub After : {X S : Type 0} → (S → Type 0) → Option (X × S) → Type 0
After P none = Unit {0}
After P (some r) = P r.1

pub after_bind :
    {X Y : Type 0} (Q : Option Y → Type 0) (o : Option X) (f : X → Option Y)
    → Q none
    → ((x : X) → Q (f x))
    → Q (o >>= f)
after_bind Q none f n k = n
after_bind Q (some x) f n k = k x

-- The same, for a call whose continuation needs what it gave.
pub after_result :
    {X Y : Type 0} (Q : Option Y → Type 0) (o : Option X) (f : X → Option Y)
    → Q none
    → ((x : X) → o ≡ some x → Q (f x))
    → Q (o >>= f)
after_result Q none f n k = n
after_result Q (some x) f n k = k x refl

-- The same, for a test whose branches need its answer.
pub after_test :
    {Y : Type 0} (Q : Y → Type 0) (b : Bool) {x y : Y}
    → (b ≡ true → Q x)
    → (b ≡ false → Q y)
    → Q (if b then x else y)
after_test Q true h k = h refl
after_test Q false h k = k refl

pub after_if :
    {Y : Type 0} (Q : Y → Type 0) (b : Bool) {x y : Y} → Q x → Q y → Q (if b then x else y)
after_if Q true h k = h
after_if Q false h k = k

pub after_exit :
    {Y : Type 0} (Q : Y → Type 0) (e : Exit) {x y : Y}
    → Q x
    → Q y
    → Q (elim e [ exit_success ↦ x | exit_failure ↦ y ])
after_exit Q exit_success h k = h
after_exit Q exit_failure h k = k

-- The type of a message that was there already.
pub After-some :
    {S : Type 0} (P : S → Type 0) (o : Option (MsgType × S))
    → After P o
    → After {X = Option MsgType} P (o >>= λ p. some (some p.0, p.1))
After-some P none h = tt
After-some P (some r) h = h

pub After_holds :
    {X S : Type 0} (P : S → Type 0) (o : Option (X × S)) (x : X) (s : S)
    → After P o
    → o ≡ some (x, s)
    → P s
After_holds P none x s h e = absurd (ground arith)
After_holds P (some r) x s h e = subst P (ground arith) h
