-- ===== src/Args/Laws.antt =====
-- What an accepted command line holds.

use ipk_chat_client.Base.{
  ◌≡◌, Bool, true, false, ◌&&◌, ◌||◌, not, if◌then◌else◌, inl, inr, some, List, [], ◌∷◌, arith,
  Option-cases,
}
use ipk_chat_client.Args.{
  Args, Opt, t_option, s_option, h_option, is_set, process_opt, process_opts, check_args,
  help_shown, exit_failed, accepted, no_args, process_args,
}

-- Which options are among those of the command line.
abbrev pub names_t : Opt → Bool
names_t (t_option arg) = true
names_t o = false

abbrev pub names_s : Opt → Bool
names_s (s_option arg) = true
names_s o = false

abbrev pub names_h : Opt → Bool
names_h h_option = true
names_h o = false

abbrev pub any : (Opt → Bool) → List Opt → Bool
any test [] = false
any test (o ∷ os) = test o || any test os

abbrev pub all : (Opt → Bool) → List Opt → Bool
all test [] = true
all test (o ∷ os) = test o && all test os

-- What the flags say after some options.
record Flags (os : List Opt) (a a' : Args) : Type 0 where
  protocol : a'.protocol_set ≡ (a.protocol_set || any names_t os)
  server : is_set a'.parameters.ip_or_domain ≡ (is_set a.parameters.ip_or_domain || any names_s os)
  help : a'.help_set ≡ (a.help_set || any names_h os)
  only : a'.only_opt ≡ (a.only_opt && all names_h os)

process_opt-Flags :
    (o : Opt) (a : Args) {a' : Args} → process_opt o a ≡ some a' → Flags (o ∷ []) a a'
unfolding process_opt
process_opt-Flags (t_option arg) a h = grind arith
process_opt-Flags o a h = grind arith

Flags-cons :
    (o : Opt) (os : List Opt) {a b c : Args}
    → Flags (o ∷ []) a b
    → Flags os b c
    → Flags (o ∷ os) a c
Flags-cons (t_option arg) os f g = ground (arith, f, g)
Flags-cons o os f g = ground (arith, f, g)

process_opts-Flags :
    (os : List Opt) (a : Args) {a' : Args} → process_opts os a ≡ some a' → Flags os a a'
unfolding process_opts
process_opts-Flags [] a h = grind arith
process_opts-Flags (o ∷ os) a {a' = a'} h = elim (Option-cases (process_opt o a)) [
  | inl refused ↦ absurd (ground (arith, refused))
  | inr (b, step) ↦
      Flags-cons o os (process_opt-Flags o a step)
        (process_opts-Flags os b {a' = a'} (ground (arith, step)))
]

-- Once every option was taken, the help is shown exactly if there are options `-h` and no others,
-- and the parameters are accepted exactly if there is no `-h`, a `-t` and a `-s` are there, and
-- nothing stands behind the options.
pub process_args_lem :
    (os : List Opt) (extra : Bool) (a : Args)
    → process_opts os no_args ≡ some a
    → process_args os extra ≡ (
        if any names_h os
        then if all names_h os then help_shown else exit_failed
        else if any names_t os && (any names_s os && not extra)
        then accepted a.parameters
        else exit_failed)
unfolding process_args check_args no_args
process_args_lem os extra a h = ground (arith, h, process_opts-Flags os no_args h)
