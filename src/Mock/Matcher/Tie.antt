-- ===== src/Mock/Matcher/Tie.antt =====
-- The reason "tie-break-by-id", and the order of the candidates.
use sentinel_api_platform.Prelude.{
  ℕ, zero, suc, ◌≡◌, Bool, false, ◌&&◌, ◌||◌, ◌⊎◌, inl, inr, String, Option, none, some, List, [],
  ◌∷◌, arith, All, int_lt, int_eq, str_lt,
}
use sentinel_api_platform.Prelude.Checked.{good, Checked-cases}
use sentinel_api_platform.Json.{Std}
use sentinel_api_platform.Model.{MockRule}
use sentinel_api_platform.Mock.Matcher.{
  MatchRequest, ScoredRule, score_rule, challenge, next_best, pick_from, pick_best,
}
use sentinel_api_platform.Mock.Matcher.Best.{scored}

-- `r` stands before `q` by priority and id.
abbrev pub precedes : MockRule → MockRule → Bool
precedes r q = int_lt r.priority q.priority || (int_eq r.priority q.priority && str_lt r.id q.id)

-- The order in which `MockRuleRepo.ListByProject` returns the rules: `priority ASC, id ASC`.
abbrev pub IsOrdered : List MockRule → Type 0
IsOrdered [] = Unit
IsOrdered (r ∷ rs) = All (λ q. precedes q r ≡ false) rs × IsOrdered rs

-- The reason of the result is that of its own score.
abbrev pub HasOwnReason : Std → MatchRequest → Option ScoredRule → Type 0
HasOwnReason std req none = Unit
HasOwnReason std req (some b) = score_rule std req b.rule ≡ good (b.score, b.reason)

abbrev Leads : Option ScoredRule → List MockRule → Type 0
Leads none rs = Unit
Leads (some b) rs = All (λ q. precedes q b.rule ≡ false) rs

challenge_of_later :
    (best cand : ScoredRule)
    → precedes cand.rule best.rule ≡ false
    → (challenge best cand ≡ cand) ⊎ (challenge best cand ≡ best)
unfolding challenge
challenge_of_later best cand h = ground arith

module _ (std : Std) (req : MatchRequest) where
  next_best-HasOwnReason :
      (best : Option ScoredRule) (r : MockRule) (rs : List MockRule) (result : ℕ × String)
      → score_rule std req r ≡ good result
      → HasOwnReason std req best
      → Leads best (r ∷ rs)
      → IsOrdered (r ∷ rs)
      → HasOwnReason std req (next_best best r result) × Leads (next_best best r result) rs
  next_best-HasOwnReason none r rs (zero, reason) e own lead ord = (tt, tt)
  next_best-HasOwnReason none r rs (suc n, reason) e own lead ord = (e, ord.0)
  next_best-HasOwnReason (some b) r rs (zero, reason) e own lead ord = (own, lead.1)
  next_best-HasOwnReason (some b) r rs (suc n, reason) e own lead ord =
      elim (challenge_of_later b (scored r (suc n) reason) lead.0) [
        | inl eq ↦ rw eq (e, ord.0)
        | inr eq ↦ rw eq (own, lead.1)
      ]

  pick_from-HasOwnReason :
      (best : Option ScoredRule) (rules : List MockRule) (res : Option ScoredRule)
      → HasOwnReason std req best
      → Leads best rules
      → IsOrdered rules
      → pick_from std req best rules ≡ good res
      → HasOwnReason std req res
  unfolding pick_from
  pick_from-HasOwnReason best [] res own lead ord h =
      let e : best ≡ res = ground arith in rw (← e) own
  pick_from-HasOwnReason best (r ∷ rs) res own lead ord h =
      elim (Checked-cases (score_rule std req r)) [
        | inl (e, eq) ↦ ground arith
        | inr (result, eq) ↦
            let (own', lead') = next_best-HasOwnReason best r rs result eq own lead ord in
            pick_from-HasOwnReason (next_best best r result) rs res own' lead' ord.1
              (rw (eq, pick_from) at h)
      ]

-- On candidates in the order in which the repository lists them, the result keeps the reason that
-- its own fields gave: no tie is ever reported as decided by the id.
pub pick_best-HasOwnReason :
    (std : Std) (req : MatchRequest) (rules : List MockRule) (b : ScoredRule)
    → IsOrdered rules
    → pick_best std req rules ≡ good (some b)
    → score_rule std req b.rule ≡ good (b.score, b.reason)
unfolding pick_best
pick_best-HasOwnReason std req rules b ord h =
    pick_from-HasOwnReason std req none rules (some b) tt tt ord h
