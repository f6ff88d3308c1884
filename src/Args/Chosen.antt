-- ===== src/Args/Chosen.antt =====
-- Where the numbers of an accepted command line come from.
use ipk_chat_client.Base.{ℕ, ◌≤◌, ◌≡◌, ◌⊎◌, true, some, List, [], ◌∷◌, Option}
use ipk_chat_client.Args.{
  Parameters, Args, Opt, p_option, d_option, r_option, strtol, uint16_max, uint8_max,
}

-- The text is wholly a number for `strtol`, in the range from 0 to `max`: `n`.
pub record IsNumber (max : ℕ) (text : List ℕ) (n : ℕ) : Type 0 where
  pub whole : (strtol text).endptr ≡ []
  pub value : (strtol text).magnitude ≡ n
  pub no_sign : (strtol text).negative ≡ true → n ≡ 0
  pub bound : n ≤ max

abbrev pub IsIn : Opt → List Opt → Type 0
IsIn o [] = ⊥
IsIn o (x ∷ xs) = (o ≡ x) ⊎ IsIn o xs

-- The option is not there, with whatever argument.
abbrev pub IsAbsent : (Option (List ℕ) → Opt) → List Opt → Type 0
IsAbsent o os = (arg : List ℕ) → IsIn (o (some arg)) os → ⊥

-- The option is not there and the value after the options is the one before, or an argument of the
-- option gives it.
abbrev pub Chosen :
    {X : Type 0} → (Option (List ℕ) → Opt) → (List ℕ → X → Type 0) → List Opt → X → X → Type 0
Chosen o gives os before after =
    ((after ≡ before) × IsAbsent o os) ⊎ ((arg : List ℕ) × IsIn (o (some arg)) os × gives arg after)

abbrev pub IsPort : List ℕ → List ℕ → Type 0
IsPort arg port = (port ≡ arg) × ((n : ℕ) × IsNumber uint16_max arg n)

-- What the options make of the parameters.
pub record Choice (os : List Opt) (x x' : Parameters) : Type 0 where
  pub timeout : Chosen d_option (IsNumber uint16_max) os x.timeout x'.timeout
  pub retransmissions : Chosen r_option (IsNumber uint8_max) os x.retransmissions x'.retransmissions
  pub port : Chosen p_option IsPort os x.port x'.port
