-- ===== src/Mock/Matcher/Order.antt =====
-- The order in which rules are preferred: the higher score, then the lower priority, then the
-- smaller id; and what one challenge in `PickBest` does.
use sentinel_api_platform.Prelude.{
  ℤ, pos, negsuc, String, Bool, true, false, ◌&&◌, ◌||◌, ◌≡◌, refl, ◌⊎◌, inl, inr, arith, nat_eq,
  ltb, int_lt, int_eq, str_lt,
}
use sentinel_api_platform.Mock.Matcher.{ScoredRule, challenge}

-- `x` comes strictly before `y`.
abbrev pub outranks : ScoredRule → ScoredRule → Bool
outranks x y =
    ltb y.score x.score
    || (nat_eq x.score y.score
        && (int_lt x.rule.priority y.rule.priority
            || (int_eq x.rule.priority y.rule.priority && str_lt x.rule.id y.rule.id)))

pub str_lt_irrefl : (s : String) → str_lt s s ≡ false
unfolding str_lt
str_lt_irrefl String.[] = refl
str_lt_irrefl (String.◌∷◌ c s) = ground (arith, str_lt_irrefl s)

pub str_not_lt_trans :
    (a b c : String) → str_lt a b ≡ false → str_lt b c ≡ false → str_lt a c ≡ false
unfolding str_lt
str_not_lt_trans String.[] String.[] c h k = k
str_not_lt_trans String.[] (String.◌∷◌ y b) c h k = ground arith
str_not_lt_trans (String.◌∷◌ x a) b String.[] h k = refl
str_not_lt_trans (String.◌∷◌ x a) String.[] (String.◌∷◌ z c) h k = ground arith
str_not_lt_trans (String.◌∷◌ x a) (String.◌∷◌ y b) (String.◌∷◌ z c) h k =
    ground (arith, str_not_lt_trans a b c)

int_not_lt_trans : (a b c : ℤ) → int_lt a b ≡ false → int_lt b c ≡ false → int_lt a c ≡ false
int_not_lt_trans (pos a) (pos b) (pos c) h k = ground arith
int_not_lt_trans a b c h k = ground arith

int_eq_of_not_lt :
    (a b c : ℤ)
    → int_lt a b ≡ false
    → int_lt b c ≡ false
    → int_eq a c ≡ true
    → (int_eq a b ≡ true) × (int_eq b c ≡ true)
int_eq_of_not_lt (pos a) (pos b) (pos c) h k e = ground arith
int_eq_of_not_lt a b c h k e = ground arith

-- "Does not come before" is transitive.
pub outranks_not_trans :
    (x y z : ScoredRule) → outranks x y ≡ false → outranks y z ≡ false → outranks x z ≡ false
outranks_not_trans x y z h k = ground (
  arith,
  int_not_lt_trans x.rule.priority y.rule.priority z.rule.priority,
  int_eq_of_not_lt x.rule.priority y.rule.priority z.rule.priority,
  str_not_lt_trans x.rule.id y.rule.id z.rule.id,
)

int_lt_irrefl : (a : ℤ) → int_lt a a ≡ false
int_lt_irrefl (pos a) = ground arith
int_lt_irrefl (negsuc a) = ground arith

pub outranks_irrefl : (x : ScoredRule) → outranks x x ≡ false
outranks_irrefl x = ground (arith, int_lt_irrefl x.rule.priority, str_lt_irrefl x.rule.id)

str_lt_asymm : (a b : String) → str_lt a b ≡ true → str_lt b a ≡ false
unfolding str_lt
str_lt_asymm a String.[] h = cc
str_lt_asymm String.[] (String.◌∷◌ y b) h = refl
str_lt_asymm (String.◌∷◌ x a) (String.◌∷◌ y b) h = ground (arith, str_lt_asymm a b)

int_lt_asymm : (a b : ℤ) → int_lt a b ≡ true → int_lt b a ≡ false
int_lt_asymm (pos a) (pos b) h = ground arith
int_lt_asymm a b h = ground arith

outranks_asymm : (x y : ScoredRule) → outranks x y ≡ true → outranks y x ≡ false
outranks_asymm x y h = ground (
  arith,
  int_lt_asymm x.rule.priority y.rule.priority,
  int_eq_of_not_lt x.rule.priority y.rule.priority x.rule.priority,
  int_lt_irrefl x.rule.priority,
  str_lt_asymm x.rule.id y.rule.id,
)

-- The candidate with the reason that a tie decided by the ids is given.
abbrev pub by_id : ScoredRule → ScoredRule
by_id cand = record cand { reason = "tie-break-by-id" }

-- A challenge gives the candidate where it comes first, and the best so far otherwise.
pub challenge_cases :
    (best cand : ScoredRule)
    → ((outranks cand best ≡ true)
        × ((challenge best cand ≡ cand) ⊎ (challenge best cand ≡ by_id cand)))
      ⊎ ((outranks cand best ≡ false) × (challenge best cand ≡ best))
unfolding challenge
challenge_cases best cand = ground arith

-- The winner of a challenge is before neither of the two.
pub challenge_wins :
    (best cand : ScoredRule)
    → (outranks best (challenge best cand) ≡ false) × (outranks cand (challenge best cand) ≡ false)
challenge_wins best cand = elim (challenge_cases best cand) [
  | inl (wins, inl e) ↦ rw e (outranks_asymm cand best wins, outranks_irrefl cand)
  | inl (wins, inr e) ↦ rw e (outranks_asymm cand best wins, outranks_irrefl cand)
  | inr (loses, e) ↦ rw e (outranks_irrefl best, loses)
]
