-- ===== src/Args/Order.antt =====
-- The order of the options does not matter.

use mathlib.Core.List.Permᴰ.{Permᴰ}
use mathlib.Core.List.{Perm}
use mathlib.Core.Logic.{∥∥₁_elim}
use ipk_chat_client.Base.{
  ℕ, ◌≡◌, refl, ap, ◌∙◌, Bool, true, Option, none, some, List, [], ◌∷◌, arith, ◌>>=◌, inl, inr,
  Option-cases,
}
use ipk_chat_client.Args.{
  Args, Opt, t_option, s_option, p_option, d_option, r_option, check_optarg_and_redef, process_opt,
  process_opts, check_args, no_args, process_args, Processed, exit_failed,
}

abbrev after : Option Args → Opt → Option Args
after r o = r >>= λ a. process_opt o a

-- A second value for an option is refused.
check_set : (x : Option (List ℕ)) → check_optarg_and_redef x true ≡ none
unfolding check_optarg_and_redef
check_set none = refl
check_set (some []) = refl
check_set (some (c ∷ x)) = ground arith

-- Two options have the same effect in either order: both are refused in either, or neither is.
process_opt_swap : (o o' : Opt) (a : Args) → after (process_opt o a) o' ≡ after (process_opt o' a) o
unfolding process_opt
process_opt_swap (t_option x) (t_option y) a = ground (arith, check_set x, check_set y)
process_opt_swap (s_option x) (s_option y) a = ground (arith, check_set x, check_set y)
process_opt_swap (p_option x) (p_option y) a = ground (arith, check_set x, check_set y)
process_opt_swap (d_option x) (d_option y) a = ground (arith, check_set x, check_set y)
process_opt_swap (r_option x) (r_option y) a = ground (arith, check_set x, check_set y)
process_opt_swap o o' a = ground arith

-- Two options and then others, as a bind of the first two.
then_opts :
    (o p : Opt) (l : List Opt) (a : Args)
    → (after (process_opt o a) p >>= λ b. process_opts l b) ≡ process_opts (o ∷ p ∷ l) a
unfolding process_opts
then_opts o p l a = elim (Option-cases (process_opt o a)) [
  | inl refused ↦ rw refused refl
  | inr (b, step) ↦ rw step refl
]

Args-set : IsSet (Option Args)
Args-set = hlevel

process_opts-Permᴰ :
    {os os' : List Opt} → Permᴰ os os' → (a : Args) → process_opts os a ≡ process_opts os' a
unfolding process_opts
process_opts-Permᴰ Permᴰ.nil a = refl
process_opts-Permᴰ (Permᴰ.cons {a = o} {b = o'} {l₁ = l} {l₂ = l'} same rest) a =
    rw same (elim (Option-cases (process_opt o' a)) [
      | inl refused ↦ rw refused refl
      | inr (b, step) ↦ rw step (process_opts-Permᴰ rest b)
    ])
process_opts-Permᴰ (Permᴰ.swap {a = o} {b = p} {a' = o'} {b' = p'} {l = l} e e') a =
    rw (e, e', ← then_opts p' o' l a, ← then_opts o' p' l a, process_opt_swap p' o' a) refl
process_opts-Permᴰ (Permᴰ.trans x y) a = process_opts-Permᴰ x a ∙ process_opts-Permᴰ y a

-- Whatever options are given, and whether they are accepted or refused, the outcome is the same in
-- every order of them.
pub process_args-perm :
    {os os' : List Opt} (extra : Bool)
    → Perm os os'
    → process_args os extra ≡ process_args os' extra
unfolding process_args
process_args-perm extra p =
    ap finish (∥∥₁_elim p (Args-set _ _) (λ d. process_opts-Permᴰ d no_args))
  where
    finish : Option Args → Processed
    finish r = elim r [ none ↦ exit_failed | some a ↦ check_args extra a ]
