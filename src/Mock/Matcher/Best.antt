-- ===== src/Mock/Matcher/Best.antt =====
-- `PickBest` against what it promises.
use sentinel_api_platform.Prelude.{
  ℕ, zero, suc, ◌<◌, ◌≡◌, refl, ◌↔◌, ◌⊎◌, inl, inr, false, String, Option, none, some, List, [],
  ◌∷◌, arith, All, All-at,
}
use sentinel_api_platform.Prelude.Checked.{Checked, good, bad, Checked-cases}
use mathlib.Core.List.{Memᴰ}
use sentinel_api_platform.Json.{Std}
use sentinel_api_platform.Model.{MockRule}
use sentinel_api_platform.Mock.Matcher.{
  MatchRequest, ScoredRule, BadMatchJson, score_rule, challenge, challenge_any, next_best,
  pick_from, pick_best,
}
use sentinel_api_platform.Mock.Matcher.Order.{
  outranks, outranks_not_trans, outranks_irrefl, challenge_cases, challenge_wins,
}

abbrev pub scored : MockRule → ℕ → String → ScoredRule
scored r score reason = record { rule = r; score = score; reason = reason }

-- Nothing comes before the result; without a result there is nothing.
abbrev pub NotBefore : ScoredRule → Option ScoredRule → Type 0
NotBefore x none = ⊥
NotBefore x (some b) = outranks x b ≡ false

-- A rule's score as `score_rule` gives it: an error ends the search, 0 is no match, and a match
-- does not come before the result.
abbrev pub Beaten : Option ScoredRule → MockRule → Checked BadMatchJson (ℕ × String) → Type 0
Beaten res r (bad e) = ⊥
Beaten res r (good (score, reason)) = (score ≡ 0) ⊎ NotBefore (scored r score reason) res

abbrev Keeps : Option ScoredRule → Option ScoredRule → Type 0
Keeps none res = Unit
Keeps (some b) res = NotBefore b res

Keeps-self : (best res : Option ScoredRule) → best ≡ res → Keeps best res
Keeps-self none res h = tt
Keeps-self (some b) res h = rw (← h) (outranks_irrefl b)

module _ (std : Std) (req : MatchRequest) where
  NotBefore-trans :
      (x y : ScoredRule) (res : Option ScoredRule)
      → outranks x y ≡ false
      → NotBefore y res
      → NotBefore x res
  NotBefore-trans x y (some b) h k = outranks_not_trans x y b h k
  NotBefore-trans x y none h k = k

  Keeps-challenge :
      (best : Option ScoredRule) (cand : ScoredRule) (res : Option ScoredRule)
      → NotBefore (challenge_any best cand) res
      → Keeps best res × NotBefore cand res
  Keeps-challenge none cand res h = (tt, h)
  Keeps-challenge (some b) cand res h =
      let (kept, beaten) = challenge_wins b cand in
      (
        NotBefore-trans b (challenge b cand) res kept h,
        NotBefore-trans cand (challenge b cand) res beaten h,
      )

  pick_from-Beaten :
      (best : Option ScoredRule) (rules : List MockRule) (res : Option ScoredRule)
      → pick_from std req best rules ≡ good res
      → Keeps best res × All (λ r. Beaten res r (score_rule std req r)) rules
  unfolding pick_from
  pick_from-Beaten best [] res h = (Keeps-self best res (ground arith), tt)
  pick_from-Beaten best (r ∷ rs) res h = elim (Checked-cases (score_rule std req r)) [
    | inl (e, eq) ↦ ground arith
    | inr ((zero, reason), eq) ↦
        let (kept, later) = pick_from-Beaten best rs res (rw (eq, pick_from) at h) in
        (kept, (rw eq (inl refl), later))
    | inr ((suc n, reason), eq) ↦
        let cand = scored r (suc n) reason in
        let (kept, later) =
          pick_from-Beaten (some (challenge_any best cand)) rs res (rw (eq, pick_from) at h) in
        let (kept', beaten) = Keeps-challenge best cand res kept in
        (kept', (rw eq (inr beaten), later))
  ]

-- A result that is a match, but for its reason.
abbrev pub IsMatch : Std → MatchRequest → List MockRule → ScoredRule → Type 0
IsMatch std req rules b =
    Memᴰ b.rule rules
    × (0 < b.score)
    × ((reason : String) × (score_rule std req b.rule ≡ good (b.score, reason)))

module _ (std : Std) (req : MatchRequest) (P : ScoredRule → Type 0) where
  -- What holds of every match in the list, whatever its reason, holds of the result.
  abbrev OnMatches : List MockRule → Type 0
  OnMatches = All λ r.
      (n : ℕ) (reason given : String)
      → score_rule std req r ≡ good (suc n, reason)
      → P (scored r (suc n) given)

  abbrev OnResult : Option ScoredRule → Type 0
  OnResult none = Unit
  OnResult (some b) = (given : String) → P (record b { reason = given })

  OnResult-challenge :
      (best : Option ScoredRule) (cand : ScoredRule)
      → OnResult best
      → ((given : String) → P (record cand { reason = given }))
      → OnResult (some (challenge_any best cand))
  OnResult-challenge none cand h k = k
  OnResult-challenge (some b) cand h k = elim (challenge_cases b cand) [
    | inl (_, inl e) ↦ rw e k
    | inl (_, inr e) ↦ rw e k
    | inr (_, e) ↦ rw e h
  ]

  pick_from-OnResult :
      (best : Option ScoredRule) (rules : List MockRule) (res : Option ScoredRule)
      → OnMatches rules
      → OnResult best
      → pick_from std req best rules ≡ good res
      → OnResult res
  unfolding pick_from
  pick_from-OnResult best [] res all start h = let e : best ≡ res = ground arith in rw (← e) start
  pick_from-OnResult best (r ∷ rs) res (here, later) start h =
      elim (Checked-cases (score_rule std req r)) [
        | inl (e, eq) ↦ ground arith
        | inr ((zero, reason), eq) ↦
            pick_from-OnResult best rs res later start (rw (eq, pick_from) at h)
        | inr ((suc n, reason), eq) ↦
            let cand = scored r (suc n) reason in
            pick_from-OnResult (some (challenge_any best cand)) rs res later
              (OnResult-challenge best cand start (λ given. here n reason given eq))
              (rw (eq, pick_from) at h)
      ]

OnMatches-IsMatch :
    (std : Std) (req : MatchRequest) (seen rules : List MockRule)
    → ((r : MockRule) → Memᴰ r rules → Memᴰ r seen)
    → OnMatches std req (IsMatch std req seen) rules
OnMatches-IsMatch std req seen [] sub = tt
OnMatches-IsMatch std req seen (r ∷ rs) sub = (
  λ n reason given eq. (sub r (Memᴰ.head refl), omega arith, (reason, eq)),
  OnMatches-IsMatch std req seen rs (λ x m. sub x (Memᴰ.tail m)),
)

-- The result is one of the candidates with its own score above zero, and no candidate with a
-- positive score comes before it.
pub pick_best-some :
    (std : Std) (req : MatchRequest) (rules : List MockRule) (b : ScoredRule)
    → pick_best std req rules ≡ good (some b)
    → IsMatch std req rules b × All (λ r. Beaten (some b) r (score_rule std req r)) rules
unfolding pick_best
pick_best-some std req rules b h = (
  pick_from-OnResult std req (IsMatch std req rules) none rules (some b)
      (OnMatches-IsMatch std req rules rules (λ x m. m)) tt h b.reason,
  (pick_from-Beaten std req none rules (some b) h).1,
)

module _ (std : Std) (req : MatchRequest) where
  abbrev pub IsNoMatch : MockRule → Type 0
  IsNoMatch r = (reason : String) × (score_rule std req r ≡ good (0, reason))

  Beaten-none :
      (r : MockRule) (c : Checked BadMatchJson (ℕ × String))
      → Beaten none r c
      → (reason : String) × (c ≡ good (0, reason))
  Beaten-none r (bad e) h = absurd h
  Beaten-none r (good (score, reason)) (inl z) = (reason, rw z)
  Beaten-none r (good (score, reason)) (inr n) = absurd n

  All-IsNoMatch :
      (rules : List MockRule)
      → All (λ r. Beaten none r (score_rule std req r)) rules
      → All IsNoMatch rules
  All-IsNoMatch [] h = tt
  All-IsNoMatch (r ∷ rs) (h, hs) = (Beaten-none r (score_rule std req r) h, All-IsNoMatch rs hs)

  pick_from-IsNoMatch :
      (rules : List MockRule) → All IsNoMatch rules → pick_from std req none rules ≡ good none
  unfolding pick_from
  pick_from-IsNoMatch [] h = refl
  pick_from-IsNoMatch (r ∷ rs) ((reason, e), hs) = rw e (pick_from-IsNoMatch rs hs)

  -- There is no result and no error exactly when every candidate scores 0.
  pub pick_best-none_iff :
      (rules : List MockRule) → (pick_best std req rules ≡ good none) ↔ All IsNoMatch rules
  unfolding pick_best
  pick_best-none_iff rules = (
    λ h. All-IsNoMatch rules (pick_from-Beaten std req none rules none h).1,
    pick_from-IsNoMatch rules,
  )

  pick_from-bad :
      (best : Option ScoredRule) (rules : List MockRule) (e : BadMatchJson)
      → pick_from std req best rules ≡ bad e
      → (r : MockRule) × Memᴰ r rules × (score_rule std req r ≡ bad e)
  unfolding pick_from
  pick_from-bad best [] e h = ground arith
  pick_from-bad best (r ∷ rs) e h = elim (Checked-cases (score_rule std req r)) [
    | inl (e', eq) ↦ let same : e' ≡ e = ground arith in (r, Memᴰ.head refl, rw (← same) eq)
    | inr (result, eq) ↦
        let (x, m, bad_x) =
          pick_from-bad (next_best best r result) rs e (rw (eq, pick_from) at h) in
        (x, Memᴰ.tail m, bad_x)
  ]

  pick_from-good :
      (best : Option ScoredRule) (rules : List MockRule) (res : Option ScoredRule)
      → pick_from std req best rules ≡ good res
      → All (λ r. (result : ℕ × String) × (score_rule std req r ≡ good result)) rules
  unfolding pick_from
  pick_from-good best [] res h = tt
  pick_from-good best (r ∷ rs) res h = elim (Checked-cases (score_rule std req r)) [
    | inl (e, eq) ↦ ground arith
    | inr (result, eq) ↦
        ((result, eq), pick_from-good (next_best best r result) rs res (rw (eq, pick_from) at h))
  ]

  -- A search fails with the error of one of the candidates, and it fails whenever some candidate
  -- has an invalid `match_json`: such a rule is never skipped.
  pub pick_best-bad :
      (rules : List MockRule)
      → ((e : BadMatchJson)
          → pick_best std req rules ≡ bad e
          → (r : MockRule) × Memᴰ r rules × (score_rule std req r ≡ bad e))
        × ((r : MockRule) (e : BadMatchJson)
            → Memᴰ r rules
            → score_rule std req r ≡ bad e
            → (e' : BadMatchJson) × (pick_best std req rules ≡ bad e'))
  unfolding pick_best
  pick_best-bad rules = (
    pick_from-bad none rules,
    λ r e m h. elim (Checked-cases (pick_from std req none rules)) [
      | inl failed ↦ failed
      | inr (res, found) ↦
          let (result, scored_r) =
            All-at (λ r. (result : ℕ × String) × (score_rule std req r ≡ good result)) rules
              (pick_from-good none rules res found) m in
          cc
    ],
  )
