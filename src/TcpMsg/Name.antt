-- ===== src/TcpMsg/Name.antt =====
-- The display name of a line: what `sscanf` with `%20s` and `match` make of it.
use mathlib.Core.Path.{subst}
use ipk_chat_client.Base.{
  skip_spaces, ℕ, zero, suc, ◌<◌, ◌≤◌, ◌≡◌, refl, ap, sym, ◌∙◌, ◌⊎◌, inl, inr, Bool-cases,
  Option-cases, true, some, List, [], ◌∷◌, ◌++◌, arith, length, take, drop, take-append-drop, All,
  length-take, length-drop, length-append, codes, isspace,
}
use ipk_chat_client.Common.{max_name_size, max_msg_size, is_valid_printable}
use ipk_chat_client.Common.Laws.{IsPrintable, IsContentChar, IsText, is_valid_printable_iff}
use ipk_chat_client.TcpMsg.{match, scan_word, sscanf_name, content, name_content}
use ipk_chat_client.TcpMsg.Grammar.{
  Alike, nil, cons, Named, named, Unnamed, unnamed, match-Alike, match_sound,
}
use ipk_chat_client.TcpMsg.Content.{content-append, content_sound}

-- The first byte of ` IS ` is a space in either case.
space_first : {k : List ℕ} → Alike k (codes " IS ") → (r : List ℕ) × (k ≡ 32 ∷ r)
space_first (cons {c} {s = s} h hs) = (s, ground arith)

scan_word-append :
    (n : ℕ) (name rest : List ℕ)
    → All IsPrintable name
    → length name ≤ n
    → scan_word n (name ++ 32 ∷ rest) ≡ name
unfolding scan_word
scan_word-append zero [] rest h le = refl
scan_word-append (suc n) [] rest h le = refl
scan_word-append zero (c ∷ name) rest h le = absurd (omega arith)
scan_word-append (suc n) (c ∷ name) rest (h, hs) le =
    ground (arith, scan_word-append n name rest hs (omega arith))

sscanf_name-append :
    (name rest : List ℕ)
    → IsText IsPrintable max_name_size name
    → sscanf_name (name ++ 32 ∷ rest) ≡ some name
unfolding sscanf_name skip_spaces
sscanf_name-append [] rest t = absurd (omega (arith, t.nonempty))
sscanf_name-append (c ∷ name) rest t =
    ground (arith, t.chars.0, scan_word-append 20 (c ∷ name) rest t.chars t.fits)

-- A name, ` IS ` and a content are read.
pub name_content-Named : {b name t : List ℕ} → Named b name t → name_content b ≡ some (name, t)
unfolding name_content
name_content-Named (named name k t rest hn a ht) =
    let (r, e) = space_first a in
    let more : 0 < length (t ++ 13 ∷ 10 ∷ rest) =
      omega (arith, length-append {0} t (13 ∷ 10 ∷ rest)) in
    let found = match-Alike name k (codes " IS ") (t ++ 13 ∷ 10 ∷ rest) a more in
    let read : sscanf_name (name ++ (k ++ (t ++ 13 ∷ 10 ∷ rest))) ≡ some name =
      rw e (sscanf_name-append name (r ++ (t ++ 13 ∷ 10 ∷ rest)) hn) in
    rw (read, (is_valid_printable_iff name max_name_size).1 hn, found, content-append t rest ht)
      refl

-- A word is no longer than what stands before the next space.
length-scan_word : (n : ℕ) (a r : List ℕ) → length (scan_word n (a ++ 32 ∷ r)) ≤ length a
unfolding scan_word
length-scan_word zero a r = omega arith
length-scan_word (suc n) [] r = omega arith
length-scan_word (suc n) (c ∷ a) r = ground (arith, length-scan_word n a r)

-- Either white space alone stands before a space, and is skipped with it, or the word read is
-- no longer than what stands there.
word_before :
    (n : ℕ) (a r : List ℕ)
    → (All (λ c. isspace c ≡ true) a × (skip_spaces (a ++ 32 ∷ r) ≡ skip_spaces r))
      ⊎ (length (scan_word n (skip_spaces (a ++ 32 ∷ r))) ≤ length a)
unfolding skip_spaces
word_before n [] r = inl (tt, refl)
word_before n (c ∷ a) r = elim (Bool-cases (isspace c)) [
  | inl space ↦ elim (word_before n a r) [
    | inl (all, e) ↦ inl ((space, all), rw space e)
    | inr short ↦ inr (rw space (omega (arith, short)))
  ]
  | inr word ↦ inr (rw word (length-scan_word n (c ∷ a) r))
]

scan_word-prefix : (n : ℕ) (s : List ℕ) → s ≡ scan_word n s ++ drop (length (scan_word n s)) s
unfolding scan_word
scan_word-prefix zero s = refl
scan_word-prefix (suc n) [] = refl
scan_word-prefix (suc n) (c ∷ s) = ground (arith, scan_word-prefix n s)

-- What is known of the parts of a text that was read as a name and a content.
record Parts (b name t : List ℕ) : Type 0 where
  word : name ≡ scan_word 20 (skip_spaces b)
  valid_name : IsText IsPrintable max_name_size name
  valid_content : IsText IsContentChar max_msg_size t
  keyword : List ℕ
  alike : Alike keyword (codes " IS ")
  rest : List ℕ
  behind : drop (length name) b ≡ keyword ++ (t ++ 13 ∷ 10 ∷ rest)

sscanf_name-word : (b w : List ℕ) → sscanf_name b ≡ some w → w ≡ scan_word 20 (skip_spaces b)
unfolding sscanf_name
sscanf_name-word b w h = ground (arith, h)

name_content-Parts : (b name t : List ℕ) → name_content b ≡ some (name, t) → Parts b name t
unfolding name_content
name_content-Parts b name t h = elim (Option-cases (sscanf_name b)) [
  | inl e ↦ absurd (ground (arith, e, h))
  | inr (w, e) ↦ elim (Bool-cases (is_valid_printable w max_name_size)) [
    | inr wrong ↦ absurd (ground (arith, e, wrong, h))
    | inl valid ↦ elim (Option-cases (match b (codes " IS ") (length w))) [
      | inl m ↦ absurd (ground (arith, e, valid, m, h))
      | inr (b', m) ↦ elim (Option-cases (content b')) [
        | inl x ↦ absurd (ground (arith, e, valid, m, x, h))
        | inr (u, x) ↦
            let (k, a, found) = match_sound b (codes " IS ") b' (length w) m in
            let (ht, (rest, ended)) = content_sound b' u x in
            let same : (w ≡ name) × (u ≡ t) = ground (arith, e, valid, m, x, h) in
            let parts : Parts b w u = record {
              word = sscanf_name-word b w e;
              valid_name = (is_valid_printable_iff w max_name_size).0 valid;
              valid_content = ht;
              keyword = k;
              alike = a;
              rest = rest;
              behind = found ∙ ap (λ r. k ++ r) ended;
            } in
            subst (λ x. Parts b x t) same.0 (subst (λ y. Parts b w y) same.1 parts)
      ]
    ]
  ]
]

-- Where the text does not begin with white space the name is its first word.
Parts-Named : (b name t : List ℕ) → Parts b name t → skip_spaces b ≡ b → Named b name t
Parts-Named b name t p plain =
    let whole : b ≡ name ++ drop (length name) b = rw (p.word, plain) (scan_word-prefix 20 b) in
    subst (λ x. Named x name t) (sym (whole ∙ ap (λ r. name ++ r) p.behind))
      (named name p.keyword t p.rest p.valid_name p.alike p.valid_content)

letters :
    {k : List ℕ}
    → Alike k (codes " IS ")
    → (i : ℕ) × (s : ℕ) × (k ≡ 32 ∷ i ∷ s ∷ 32 ∷ []) × Alike (i ∷ s ∷ []) (codes "IS")
letters (cons {c = a} h (cons {c = i} h₁ (cons {c = s} h₂ (cons {c = b} h₃ nil)))) =
    let first : a ≡ 32 = ground arith in
    let last : b ≡ 32 = ground arith in (i, s, rw (first, last) refl, cons h₁ (cons h₂ nil))

two_letters :
    {i s : ℕ} (y : List ℕ)
    → Alike (i ∷ s ∷ []) (codes "IS")
    → scan_word 20 (skip_spaces (i ∷ s ∷ 32 ∷ y)) ≡ i ∷ s ∷ []
unfolding scan_word skip_spaces
two_letters y (cons h (cons h' nil)) = ground arith

-- Where it begins with white space, only `IS` in the place of the name is read.
Unnamed-of_word :
    (c i s : ℕ) (a t rest : List ℕ)
    → isspace c ≡ true
    → Alike (i ∷ s ∷ []) (codes "IS")
    → IsText IsContentChar max_msg_size t
    → All (λ c. isspace c ≡ true) a
    → length a ≡ 1
    → Unnamed (c ∷ (a ++ (32 ∷ i ∷ s ∷ 32 ∷ (t ++ 13 ∷ 10 ∷ rest)))) (i ∷ s ∷ []) t
Unnamed-of_word c i s [] t rest space k ht all len = absurd (omega (arith, len))
Unnamed-of_word c i s (c' ∷ []) t rest space k ht all len = unnamed c c' i s t rest space all.0 k ht
Unnamed-of_word c i s (c' ∷ d ∷ a) t rest space k ht all len = absurd (omega (arith, len))

Parts-Unnamed :
    (c i s : ℕ) (a name t rest : List ℕ)
    → isspace c ≡ true
    → Alike (i ∷ s ∷ []) (codes "IS")
    → IsText IsContentChar max_msg_size t
    → name ≡ scan_word 20 (skip_spaces (a ++ (32 ∷ i ∷ s ∷ 32 ∷ (t ++ 13 ∷ 10 ∷ rest))))
    → suc (length a) ≡ length name
    → Unnamed (c ∷ (a ++ (32 ∷ i ∷ s ∷ 32 ∷ (t ++ 13 ∷ 10 ∷ rest)))) name t
Parts-Unnamed c i s a name t rest space k ht word len =
    elim (word_before 20 a (i ∷ s ∷ 32 ∷ (t ++ 13 ∷ 10 ∷ rest))) [
      | inr short ↦ absurd (omega (arith, short, len, ap length word))
      | inl (all, e) ↦
          let same : name ≡ i ∷ s ∷ [] = word ∙ rw e (two_letters (t ++ 13 ∷ 10 ∷ rest) k) in
          rw same
            (Unnamed-of_word c i s a t rest space k ht all (omega (arith, len, ap length same)))
    ]

-- A text cut where something stands behind.
cut_at :
    (m : ℕ) (b r : List ℕ)
    → drop m b ≡ r
    → 0 < length r
    → (b ≡ take m b ++ r) × (length (take m b) ≡ m)
cut_at m b r e pos = (
  rw e at (sym (take-append-drop m b)),
  omega (arith, length-take m b, length-drop m b, ap length e),
)

space-Unnamed :
    (c : ℕ) (b name t : List ℕ) → isspace c ≡ true → Parts (c ∷ b) name t → Unnamed (c ∷ b) name t
unfolding skip_spaces
space-Unnamed c b [] t space p = absurd (omega (arith, p.valid_name.nonempty))
space-Unnamed c b (d ∷ name) t space p =
    let (i, s, keyword, k) = letters p.alike in
    let r = 32 ∷ i ∷ s ∷ 32 ∷ (t ++ 13 ∷ 10 ∷ p.rest) in
    let behind : drop (length name) b ≡ r = p.behind ∙ rw keyword refl in
    let (cut, len) = cut_at (length name) b r behind (omega arith) in
    let word : d ∷ name ≡ scan_word 20 (skip_spaces b) = p.word ∙ rw space refl in
    let a = take (length name) b in
    subst (λ x. Unnamed (c ∷ x) (d ∷ name) t) (sym cut)
      (Parts-Unnamed c i s a (d ∷ name) t p.rest space k p.valid_content
        (word ∙ ap (λ x. scan_word 20 (skip_spaces x)) cut) (ap suc len))

-- Whatever is read as a name and a content is a name, ` IS ` and a content, or two bytes of white
-- space, ` IS ` and a content, read as the name `IS`.
pub name_content_sound :
    (b name t : List ℕ) → name_content b ≡ some (name, t) → Named b name t ⊎ Unnamed b name t
name_content_sound [] name t h =
    absurd (unfold name_content sscanf_name skip_spaces scan_word in ground (arith, h))
name_content_sound (c ∷ b) name t h =
    let p = name_content-Parts (c ∷ b) name t h in
    elim (Bool-cases (isspace c)) [
      | inr plain ↦ inl (Parts-Named (c ∷ b) name t p (unfold skip_spaces in rw plain refl))
      | inl space ↦ inr (space-Unnamed c b name t space p)
    ]

skip_two :
    (v w : ℕ) (x : List ℕ)
    → isspace v ≡ true
    → isspace w ≡ true
    → skip_spaces (v ∷ w ∷ 32 ∷ x) ≡ skip_spaces x
unfolding skip_spaces
skip_two v w x hv hw = rw (hv, hw) refl

sscanf_name-Unnamed :
    (v w i s : ℕ) (y : List ℕ)
    → isspace v ≡ true
    → isspace w ≡ true
    → Alike (i ∷ s ∷ []) (codes "IS")
    → sscanf_name (v ∷ w ∷ 32 ∷ i ∷ s ∷ 32 ∷ y) ≡ some (i ∷ s ∷ [])
unfolding sscanf_name
sscanf_name-Unnamed v w i s y hv hw k =
    rw (skip_two v w (i ∷ s ∷ 32 ∷ y) hv hw, two_letters y k) refl

is_name :
    {i s : ℕ} → Alike (i ∷ s ∷ []) (codes "IS") → IsText IsPrintable max_name_size (i ∷ s ∷ [])
is_name (cons h (cons h' nil)) = record {
  nonempty = omega arith;
  fits = omega arith;
  chars = ground arith;
}

spaced : {i s : ℕ} → Alike (i ∷ s ∷ []) (codes "IS") → Alike (32 ∷ i ∷ s ∷ 32 ∷ []) (codes " IS ")
spaced (cons h (cons h' nil)) = cons refl (cons h (cons h' (cons refl nil)))

-- Two bytes of white space, ` IS ` and a content are read so.
pub name_content-Unnamed : {b name t : List ℕ} → Unnamed b name t → name_content b ≡ some (name, t)
unfolding name_content
name_content-Unnamed (unnamed v w i s t rest hv hw k ht) =
    let x = t ++ 13 ∷ 10 ∷ rest in
    let more : 0 < length x = omega (arith, length-append {0} t (13 ∷ 10 ∷ rest)) in
    let found = match-Alike (v ∷ w ∷ []) (32 ∷ i ∷ s ∷ 32 ∷ []) (codes " IS ") x (spaced k) more in
    let valid = (is_valid_printable_iff (i ∷ s ∷ []) max_name_size).1 (is_name k) in
    rw (sscanf_name-Unnamed v w i s x hv hw k, valid, found, content-append t rest ht) refl
