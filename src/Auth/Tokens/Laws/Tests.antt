-- ===== src/Auth/Tokens/Laws/Tests.antt =====
-- The theorems on refresh tokens at a table in memory.
use sentinel_api_platform.Prelude.{
  sym, ◌≡◌, refl, String, Bool, false, ◌&&◌, ◌==◌, none, List, [], ◌∷◌, All, arith, if◌then◌else◌,
}
use sentinel_api_platform.Errs.{record_not_found}
use sentinel_api_platform.Effects.{ok_injective, Result, ok, err, is_ok}
use sentinel_api_platform.Model.{RefreshToken}
use sentinel_api_platform.Auth.Tokens.{Table, is_active, consume, owner_of, revoke_all_for_user}
use sentinel_api_platform.Auth.Tokens.Laws.{
  change, count, TableLaws, consume_once, logout_leaves_none,
}

abbrev first_of : (RefreshToken → Bool) → List RefreshToken → Result RefreshToken
first_of p [] = err record_not_found
first_of p (t ∷ ts) = if p t then ok t else first_of p ts

abbrev memory : Table (List RefreshToken)
memory = record {
  insert = λ t ts. (ok tt, t ∷ ts);
  update_where = λ p f ts. (ok (count p ts), change p f ts);
  first_where = λ p ts. (first_of p ts, ts);
}

abbrev laws : TableLaws memory
laws = record {
  rows = λ ts. ts;
  update_rows = λ p f ts n h. refl;
  update_count = λ p f ts n h. sym (ok_injective h);
  first_keeps = λ p ts. refl;
}

-- The hash of the tests is the token itself.
abbrev hash : String → String
hash raw = raw

abbrev ann_token : RefreshToken
ann_token = record {
  id = "t1";
  user_id = "ann";
  token_hash = "abc";
  expires_at = 100;
  revoked_at = none;
  ip = "";
  user_agent = "";
}

consume_run : (consume memory hash 5 "abc" (ann_token ∷ [])).0 ≡ ok "ann"
unfolding consume owner_of
consume_run = refl

consume_once_example :
    is_ok (consume memory hash 7 "abc" (consume memory hash 5 "abc" (ann_token ∷ [])).1).0 ≡ false
consume_once_example =
    consume_once memory laws hash "abc" "ann" 5 7 (ann_token ∷ []) (omega arith) consume_run

logout_run : (revoke_all_for_user memory hash 5 "ann" (ann_token ∷ [])).0 ≡ ok 1
unfolding revoke_all_for_user
logout_run = refl

logout_leaves_none_example :
    All
      (λ t. (t.user_id == "ann" && is_active 7 t) ≡ false)
      (revoke_all_for_user memory hash 5 "ann" (ann_token ∷ [])).1
logout_leaves_none_example =
    logout_leaves_none memory laws hash "ann" 5 7 1 (ann_token ∷ []) (omega arith) logout_run
