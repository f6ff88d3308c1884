-- ===== src/Prompt/Deadline.antt =====
-- The five seconds in which the server has to answer.
use ipk_chat_client.Base.{
  ℕ, ◌+◌, ◌*◌, ◌<◌, ◌≡◌, ◌≢◌, refl, ◌↔◌, inl, inr, Bool, true, false, List, ◌∷◌, arith, ltb, lt→ltb,
  Bool-cases, pos, negsuc, sub_ℕ, ◌+ℤ◌, ◌-ℤ◌, +ℤ_parts, -ℤ_parts, parts_apart, is_negative_iff, ℤ,
  is_negative, pos_part, neg_part,
}
use ipk_chat_client.Common.{MsgType}
use ipk_chat_client.Comm.{Comm}
use ipk_chat_client.Prompt.{
  Timeval, elapsed, calculate_remaining_time, is_million, select, failed, Wakeup, prompted,
  from_server, wait,
}

-- A time in microseconds.
abbrev pub micro : Timeval → ℕ
micro t = 1000000 * t.tv_sec + t.tv_usec

-- A proper time has fewer than a million microseconds.
abbrev pub IsProper : Timeval → Type 0
IsProper t = t.tv_usec < 1000000

elapsed_lem :
    (start now : Timeval)
    → IsProper start
    → IsProper now
    → let e = elapsed start now in
      (1000000 * pos_part e.tv_sec + pos_part e.tv_usec + micro start
        ≡ micro now + 1000000 * neg_part e.tv_sec)
      × (neg_part e.tv_usec ≡ 0)
      × (pos_part e.tv_usec < 1000000)
unfolding elapsed
elapsed_lem start now h k =
    let sec = sub_ℕ now.tv_sec start.tv_sec in
    let usec = sub_ℕ now.tv_usec start.tv_usec in
    elim (Bool-cases (is_negative usec)) [
      | inl borrow ↦ ground (
        arith,
        borrow,
        -ℤ_parts sec (pos 1),
        +ℤ_parts usec (pos 1000000),
        parts_apart (usec +ℤ pos 1000000),
      )
      | inr plain ↦ ground (arith, plain)
    ]

is_million_iff : (z : ℤ) → (is_million z ≡ true) ↔ (pos_part z ≡ 1000000)
is_million_iff (pos n) = ground arith
is_million_iff (negsuc n) = ground arith

-- The remaining time is five seconds less the time that has passed, also where that is negative or
-- the clock was set back, and its microseconds are from 0 to 999999.
pub calculate_remaining_time_lem :
    (start now : Timeval)
    → IsProper start
    → IsProper now
    → let r = calculate_remaining_time start now in
      (1000000 * pos_part r.tv_sec + pos_part r.tv_usec + micro now
        ≡ 5000000 + micro start + 1000000 * neg_part r.tv_sec)
      × (neg_part r.tv_usec ≡ 0)
      × (pos_part r.tv_usec < 1000000)
unfolding calculate_remaining_time
calculate_remaining_time_lem start now h k =
    let e = elapsed start now in
    let found = elapsed_lem start now h k in
    let sec = pos 4 -ℤ e.tv_sec in
    let usec = pos 1000000 -ℤ e.tv_usec in
    elim (Bool-cases (is_million usec)) [
      | inl whole ↦ rw whole (
          omega (
            arith,
            found,
            -ℤ_parts (pos 4) e.tv_sec,
            +ℤ_parts sec (pos 1),
            -ℤ_parts (pos 1000000) e.tv_usec,
            (is_million_iff usec).0 whole,
            parts_apart usec,
          ))
      | inr part ↦
          let less : pos_part usec ≢ 1000000 = λ e. cc ((is_million_iff usec).1 e, part) in
          rw part (
            omega (
              arith,
              found,
              -ℤ_parts (pos 4) e.tv_sec,
              -ℤ_parts (pos 1000000) e.tv_usec,
              parts_apart usec,
              less,
            ))
    ]

-- `select` gets a time that it accepts exactly if at most five seconds have passed.
pub remaining-is_negative :
    (start now : Timeval)
    → IsProper start
    → IsProper now
    → is_negative (calculate_remaining_time start now).tv_sec
      ≡ ltb (micro start + 5000000) (micro now)
remaining-is_negative start now h k = ground (
  arith,
  calculate_remaining_time_lem start now h k,
  is_negative_iff (calculate_remaining_time start now).tv_sec,
  parts_apart (calculate_remaining_time start now).tv_sec,
)

module _ {S A R : Type 0} (comm : Comm S A R) where
  -- If more than five seconds have passed while an answer is awaited, for whatever reason, `select`
  -- fails whatever comes: the prompt is the type that was there before, 0 or PING, and neither the
  -- lack of an answer is reported nor is the socket read.
  pub wait_too_late :
      (incomplete : Bool) (start : Timeval) (type : MsgType) (w : Wakeup R) (ws : List (Wakeup R))
      (s : S)
      → IsProper start
      → IsProper w.now
      → micro start + 5000000 < micro w.now
      → wait comm true incomplete start type (w ∷ ws) s ≡ prompted (from_server type) false s
  unfolding wait select
  wait_too_late incomplete start type w ws s h k late =
      let negative = remaining-is_negative start w.now h k in
      let past = lt→ltb (micro start + 5000000) (micro w.now) late in
      let refused : select true start w.now w.selected ≡ failed = rw (negative, past) refl in
      ground (arith, refused)
