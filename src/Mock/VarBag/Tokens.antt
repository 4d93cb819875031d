-- ===== src/Mock/VarBag/Tokens.antt =====
-- Splitting a template into tokens loses nothing.
use sentinel_api_platform.Prelude.{
  ℕ, zero, suc, ◌≤◌, ◌+◌, ◌≡◌, refl, sym, ap, ◌∙◌, String, Bool, true, some, inl, inr, Option-cases,
  Bool-cases, arith, nat_eq,
}
use mathlib.Core.List.{List}
use mathlib.Core.Bool.{◌&&◌}
use text.Mathlib.TextEquality.{codes_equal}
use Prim.Native.Char.{Char, code}
use Prim.Native.String.{[], ◌∷◌, ◌++◌}
use text.Mathlib.TextLemmas.{nil-append, cons-append, append_assoc}
use sentinel_api_platform.Mock.VarBag.{
  Piece, plain, token, take_while, drop_while, after_two, match_end, match_at, is_empty, chars,
  tokens_from, tokens, is_blank, is_name_char,
}

-- The text of a piece, and of a list of pieces.
abbrev pub piece_text : Piece → String
piece_text (plain c) = c ∷ []
piece_text (token full name) = full

abbrev pub source : List Piece → String
source List.[] = []
source (List.◌∷◌ p ps) = piece_text p ++ source ps

take_while-append-drop_while : (p : ℕ → Bool) (s : String) → take_while p s ++ drop_while p s ≡ s
take_while-append-drop_while p [] = nil-append []
take_while-append-drop_while p (c ∷ s) = elim (Bool-cases (p (code c))) [
  | inl e ↦ rw e (rw cons-append (rw (take_while-append-drop_while p s)))
  | inr e ↦ rw e (nil-append (c ∷ s))
]

pub chars-append : (s t : String) → chars (s ++ t) ≡ chars s + chars t
chars-append [] t = rw nil-append (omega arith)
chars-append (c ∷ s) t = rw cons-append (omega (arith, chars-append s t))

two : (k : Char) (s : String) → (k ∷ k ∷ []) ++ s ≡ k ∷ k ∷ s
two k s = rw (cons-append, cons-append, nil-append)

same_char : (c k : Char) → nat_eq (code c) (code k) ≡ true → c ≡ k
same_char c k h = codes_equal c k (ground arith)

after_two-eq :
    (k : Char) (s rest : String) → after_two (code k) s ≡ some rest → s ≡ (k ∷ k ∷ []) ++ rest
after_two-eq k [] rest h = cc
after_two-eq k (c ∷ []) rest h = cc
after_two-eq k (c ∷ d ∷ s) rest h =
    elim (Bool-cases (nat_eq (code c) (code k) && nat_eq (code d) (code k))) [
      | inl e ↦
          let first : nat_eq (code c) (code k) ≡ true = ground arith in
          let second : nat_eq (code d) (code k) ≡ true = ground arith in
          let same : s ≡ rest = ground arith in
          rw (same_char c k first, same_char d k second, same) (sym (two k rest))
      | inr e ↦ ground arith
    ]

after_two-chars : (k : ℕ) (s rest : String) → after_two k s ≡ some rest → chars s ≡ chars rest + 2
after_two-chars k [] rest h = cc
after_two-chars k (c ∷ []) rest h = cc
after_two-chars k (c ∷ d ∷ s) rest h = let same : s ≡ rest = ground arith in rw same (omega arith)

drop_while-chars : (p : ℕ → Bool) (s : String) → chars (drop_while p s) ≤ chars s
drop_while-chars p [] = omega arith
drop_while-chars p (c ∷ s) = ground (arith, drop_while-chars p s)

abbrev brace : Char
brace = "{"

abbrev close : Char
close = "}"

match_end-source :
    (front name s : String) (t : Piece) (rest : String)
    → match_end front name s ≡ some (t, rest)
    → piece_text t ++ rest ≡ front ++ (name ++ s)
unfolding match_end
match_end-source front name s t rest h =
    elim (Option-cases (after_two b'}' (drop_while is_blank s))) [
      | inl e ↦ ground arith
      | inr (r, e) ↦
          let blanks = take_while is_blank s in
          let full = front ++ (name ++ (blanks ++ "}}")) in
          let found : (t ≡ token full name) × (rest ≡ r) = ground arith in
          let split : s ≡ blanks ++ ("}}" ++ r) =
            sym (take_while-append-drop_while is_blank s)
            ∙ ap (λ u. blanks ++ u) (after_two-eq close (drop_while is_blank s) r e) in
          rw (found.0, found.1)
            (append_assoc front _ r
              ∙ ap (λ u. front ++ u) (append_assoc name _ r)
              ∙ ap (λ u. front ++ (name ++ u)) (append_assoc blanks "}}" r ∙ sym split))
    ]

match_at-source :
    (s : String) (t : Piece) (rest : String)
    → match_at s ≡ some (t, rest)
    → piece_text t ++ rest ≡ s
unfolding match_at
match_at-source s t rest h = elim (Option-cases (after_two b'{' s)) [
  | inl e ↦ ground arith
  | inr (inner, e) ↦
      let body = drop_while is_blank inner in
      let name = take_while is_name_char body in
      elim (Bool-cases (is_empty name)) [
        | inl nameless ↦ ground arith
        | inr named ↦
            let front = "{{" ++ take_while is_blank inner in
            let ended : match_end front name (drop_while is_name_char body) ≡ some (t, rest) =
              ground arith in
            match_end-source front name (drop_while is_name_char body) t rest ended
            ∙ ap (λ u. front ++ u) (take_while-append-drop_while is_name_char body)
            ∙ append_assoc "{{" (take_while is_blank inner) body
            ∙ ap (λ u. "{{" ++ u) (take_while-append-drop_while is_blank inner)
            ∙ sym (after_two-eq brace s inner e)
      ]
]

match_end-chars :
    (front name s : String) (t : Piece) (rest : String)
    → match_end front name s ≡ some (t, rest)
    → chars rest + 2 ≤ chars s
unfolding match_end
match_end-chars front name s t rest h =
    elim (Option-cases (after_two b'}' (drop_while is_blank s))) [
      | inl e ↦ ground arith
      | inr (r, e) ↦
          let same : rest ≡ r = ground arith in
          rw same (
            omega (
              arith,
              after_two-chars b'}' (drop_while is_blank s) r e,
              drop_while-chars is_blank s,
            ))
    ]

match_at-chars :
    (s : String) (t : Piece) (rest : String)
    → match_at s ≡ some (t, rest)
    → chars rest + 2 ≤ chars s
unfolding match_at
match_at-chars s t rest h = elim (Option-cases (after_two b'{' s)) [
  | inl e ↦ ground arith
  | inr (inner, e) ↦
      let body = drop_while is_blank inner in
      let name = take_while is_name_char body in
      elim (Bool-cases (is_empty name)) [
        | inl nameless ↦ ground arith
        | inr named ↦
            let front = "{{" ++ take_while is_blank inner in
            let after = drop_while is_name_char body in
            let ended : match_end front name after ≡ some (t, rest) = ground arith in
            omega (
              arith,
              match_end-chars front name after t rest ended,
              drop_while-chars is_name_char body,
              drop_while-chars is_blank inner,
              after_two-chars b'{' s inner e,
            )
      ]
]

source-tokens_from : (n : ℕ) (s : String) → chars s ≤ n → source (tokens_from n s) ≡ s
unfolding tokens_from
source-tokens_from zero [] h = refl
source-tokens_from zero (c ∷ s) h = absurd (omega arith)
source-tokens_from (suc n) [] h = refl
source-tokens_from (suc n) (c ∷ s) h = elim (Option-cases (match_at (c ∷ s))) [
  | inl e ↦
      rw (e, tokens_from)
        (rw (source-tokens_from n s (omega arith)) (rw cons-append (rw nil-append)))
  | inr ((t, rest), e) ↦
      rw (e, tokens_from)
        (rw (source-tokens_from n rest (omega (arith, match_at-chars (c ∷ s) t rest e)))
          (match_at-source (c ∷ s) t rest e))
]

-- The pieces of a template, put together again, are the template: the matches do not overlap,
-- nothing between them is lost, and the scan never runs out of fuel.
pub source-tokens : (template : String) → source (tokens template) ≡ template
unfolding tokens
source-tokens template = source-tokens_from (chars template) template (omega arith)
