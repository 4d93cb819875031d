-- ===== src/Mock/VarBag/Laws.antt =====
-- The bag over a Redis server: what is set is read back, and what a substitution returns.
mod Tests
use sentinel_api_platform.Prelude.{
  ℕ, ◌≡◌, ◌≢◌, refl, sym, ap, ◌∙◌, ◌⊎◌, inl, inr, String, Bool, true, false, Option, none, some,
  Option-cases, Bool-cases, arith, if◌then◌else◌,
}
use mathlib.Core.List
use mathlib.Core.List.{List}
use mathlib.Core.Path.{fun_ext}
use Prim.Native.String.{[], ◌∷◌, ◌++◌}
use text.Mathlib.TextLemmas.{nil-append, cons-append}
use sentinel_api_platform.Effects.{Result, ok, err, Result-cases, wrap, map_err-state, map_err-ok}
use sentinel_api_platform.Json.{lookup}
use sentinel_api_platform.Mock.VarBag.{
  Redis, Bag, redis_bag, Piece, plain, token, has_token, tokens, render, var_key, get, set, get_all,
  substitute,
}
use sentinel_api_platform.Mock.VarBag.Tokens.{source, source-tokens}

-- What Redis documents of the four commands, by the value of a field of a hash.
pub record RedisLaws {S : Type 0} (redis : Redis S) : Type 0 where
  pub value : S → String → String → Option String
  pub hget_value :
      (k f : String) (s : S) (v : Option String) → (redis.hget k f s).0 ≡ ok v → v ≡ value s k f
  pub hget_keeps : (k f : String) (s : S) → value (redis.hget k f s).1 ≡ value s
  pub expire_keeps : (k : String) (s : S) → value (redis.expire k s).1 ≡ value s
  pub hgetall_value :
      (k : String) (s : S) (m : List (String × String))
      → (redis.hgetall k s).0 ≡ ok m
      → (f : String) → lookup f m ≡ value s k f
  pub hgetall_keeps : (k : String) (s : S) → value (redis.hgetall k s).1 ≡ value s
  pub hset_value :
      (k f v : String) (s : S)
      → (redis.hset_expire k f v s).0 ≡ ok tt
      → value (redis.hset_expire k f v s).1 k f ≡ some v
  pub hset_other :
      (k f v : String) (s : S) (k' f' : String)
      → (k ≢ k') ⊎ (f ≢ f')
      → value (redis.hset_expire k f v s).1 k' f' ≡ value s k' f'

module _ {S : Type 0} (redis : Redis S) (laws : RedisLaws redis) where
  open laws use {value}

  get-value :
      (slug session name : String) (s : S) (found : Option String)
      → (get redis slug session name s).0 ≡ ok found
      → found ≡ value s (var_key slug session) name
  unfolding get
  get-value slug session name s found h =
      let key = var_key slug session in
      elim (Result-cases (redis.hget key name s).0) [
        | inl (some v, e) ↦
            let same : found ≡ some v = ground arith in same ∙ laws.hget_value key name s (some v) e
        | inl (none, e) ↦
            let same : found ≡ none = ground arith in same ∙ laws.hget_value key name s none e
        | inr (e, failed) ↦ ground arith
      ]

  -- Where Redis keeps its laws, after a successful `Set` a `Get` of the same name that succeeds gives the value just written,
  -- and a `Get` of another name in the same session gives what the bag held before.
  pub get-set :
      (slug session name v other : String) (s : S) (found : Option String)
      → (set redis slug session name v s).0 ≡ ok tt
      → (get redis slug session other (set redis slug session name v s).1).0 ≡ ok found
      → ((other ≡ name) → found ≡ some v)
        × ((other ≢ name) → found ≡ value s (var_key slug session) other)
  unfolding set
  get-set slug session name v other s found written h =
      let key = var_key slug session in
      let after = (set redis slug session name v s).1 in
      let read = get-value slug session other after found h in
      let wrote = map_err-state (wrap "varbag hset+expire: ") (redis.hset_expire key name v) s in
      let sent =
        map_err-ok (wrap "varbag hset+expire: ") (redis.hset_expire key name v) s tt written in
      let read' : found ≡ value (redis.hset_expire key name v s).1 key other =
        read ∙ ap (λ t. value t key other) wrote in
      (
        λ same.
            read'
            ∙ ap (value (redis.hset_expire key name v s).1 key) same
            ∙ laws.hset_value key name v s sent,
        λ ne. read' ∙ laws.hset_other key name v s key other (inr (λ q. ne (sym q))),
      )

  get_all-value :
      (slug session : String) (s : S) (m : List (String × String))
      → (get_all redis slug session s).0 ≡ ok m
      → (f : String) → lookup f m ≡ value s (var_key slug session) f
  unfolding get_all
  get_all-value slug session s m h f =
      let key = var_key slug session in
      elim (Result-cases (redis.hgetall key s).0) [
        | inl (List.[], e) ↦
            let same : m ≡ List.[] = ground arith in rw same (laws.hgetall_value key s List.[] e f)
        | inl (List.◌∷◌ x xs, e) ↦
            let same : m ≡ List.◌∷◌ x xs = ground arith in
            rw same (laws.hgetall_value key s (List.◌∷◌ x xs) e f)
        | inr (e, failed) ↦ ground arith
      ]

  render-plain :
      (bag : String → Option String) (ps : List Piece)
      → has_token ps ≡ false
      → render bag ps ≡ source ps
  unfolding render
  render-plain bag List.[] h = refl
  render-plain bag (List.◌∷◌ (plain c) ps) h =
      rw (render-plain bag ps h) (rw cons-append (rw nil-append))
  render-plain bag (List.◌∷◌ (token full name) ps) h = cc

  pub substitute-value :
      (slug session template : String) (s : S) (out : String)
      → (substitute redis slug session template s).0 ≡ ok out
      → out ≡ render (value s (var_key slug session)) (tokens template)
  unfolding substitute
  substitute-value slug session template s out h = elim (Bool-cases (has_token (tokens template))) [
    | inl some_token ↦ elim (Result-cases (get_all redis slug session s).0) [
      | inl (m, e) ↦
          let same : out ≡ render (λ name. lookup name m) (tokens template) = ground arith in
          same
          ∙ ap (λ bag. render bag (tokens template)) (fun_ext (get_all-value slug session s m e))
      | inr (e, failed) ↦ ground arith
    ]
    | inr no_token ↦
        let same : out ≡ template = ground arith in
        same
        ∙ sym (source-tokens template)
        ∙ sym (render-plain (value s (var_key slug session)) (tokens template) no_token)
  ]

-- No name of a token has a value.
abbrev pub AllUnknown : (String → Option String) → List Piece → Type 0
AllUnknown bag List.[] = Unit
AllUnknown bag (List.◌∷◌ (plain c) ps) = AllUnknown bag ps
AllUnknown bag (List.◌∷◌ (token full name) ps) = (bag name ≡ none) × AllUnknown bag ps

render-AllUnknown :
    (bag : String → Option String) (ps : List Piece) → AllUnknown bag ps → render bag ps ≡ source ps
unfolding render
render-AllUnknown bag List.[] h = refl
render-AllUnknown bag (List.◌∷◌ (plain c) ps) h =
    rw (render-AllUnknown bag ps h) (rw cons-append (rw nil-append))
render-AllUnknown bag (List.◌∷◌ (token full name) ps) (e, h) =
    rw (e, render) (rw (render-AllUnknown bag ps h))

-- Where Redis keeps its laws, a substitution that succeeds leaves the template as it is where the bag holds none of the names
-- of its tokens.
pub substitute_unknown :
    {S : Type 0} (redis : Redis S) (laws : RedisLaws redis) (slug session template : String) (s : S)
    (out : String)
    → AllUnknown (laws.value s (var_key slug session)) (tokens template)
    → (substitute redis slug session template s).0 ≡ ok out
    → out ≡ template
substitute_unknown redis laws slug session template s out unknown h =
    substitute-value redis laws slug session template s out h
    ∙ render-AllUnknown _ (tokens template) unknown
    ∙ source-tokens template

-- What a client of the bag relies on, for one session.
pub record BagLaws {S : Type 0} (bag : Bag S) (slug session : String) : Type 0 where
  pub value : S → String → Option String
  pub set_value :
      (name v : String) (s : S)
      → (bag.set slug session name v s).0 ≡ ok tt
      → value (bag.set slug session name v s).1 name ≡ some v
  pub set_other :
      (name v : String) (s : S) (other : String)
      → name ≢ other
      → value (bag.set slug session name v s).1 other ≡ value s other

module _ {S : Type 0} (redis : Redis S) (laws : RedisLaws redis) (slug session : String) where
  open laws use {value}

  pub set-value :
      (name v : String) (s : S)
      → (set redis slug session name v s).0 ≡ ok tt
      → value (set redis slug session name v s).1 (var_key slug session) name ≡ some v
  unfolding set
  set-value name v s h =
      let key = var_key slug session in
      let call = redis.hset_expire key name v in
      let context = wrap "varbag hset+expire: " in
      ap (λ t. value t key name) (map_err-state context call s)
      ∙ laws.hset_value key name v s (map_err-ok context call s tt h)

  pub set-other :
      (name v : String) (s : S) (other : String)
      → name ≢ other
      → value (set redis slug session name v s).1 (var_key slug session) other
        ≡ value s (var_key slug session) other
  unfolding set
  set-other name v s other ne =
      let key = var_key slug session in
      ap (λ t. value t key other)
        (map_err-state (wrap "varbag hset+expire: ") (redis.hset_expire key name v) s)
      ∙ laws.hset_other key name v s key other (inr ne)

  -- The bag over Redis meets what its clients rely on.
  unfoldable pub redis_bag-BagLaws : BagLaws (redis_bag redis) slug session
  unfolding redis_bag
  redis_bag-BagLaws = record {
    value = λ s name. value s (var_key slug session) name;
    set_value = set-value;
    set_other = set-other;
  }
