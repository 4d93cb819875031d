-- ===== src/Mock/VarBag/Memory.antt =====
-- A Redis server in memory that never fails, which meets the laws that the bag relies on.
use sentinel_api_platform.Prelude.{
  ◌≡◌, refl, sym, ap, ◌≢◌, ◌⊎◌, String, Option, some, List, ◌∷◌, ◌==◌, eq_iff, eq_refl, arith,
  if◌then◌else◌,
}
use sentinel_api_platform.Effects.{ok}
use sentinel_api_platform.Json.{lookup}
use sentinel_api_platform.Mock.VarBag.{Redis}
use sentinel_api_platform.Mock.VarBag.Laws.{RedisLaws}

-- The fields of each hash, the newest first.
abbrev pub Hashes : Type 0
Hashes = String → List (String × String)

abbrev pub hset : String → String → String → Hashes → Hashes
hset k f v s k' = if k == k' then (f, v) ∷ s k' else s k'

abbrev pub memory : Redis Hashes
memory = record {
  hget = λ k f s. (ok (lookup f (s k)), s);
  hset_expire = λ k f v s. (ok tt, hset k f v s);
  hgetall = λ k s. (ok (s k), s);
  expire = λ k s. (ok tt, s);
}

pub hset-lookup_self : (k f v : String) (s : Hashes) → lookup f (hset k f v s k) ≡ some v
hset-lookup_self k f v s = simp eq_refl

pub hset-lookup_other :
    (k f v : String) (s : Hashes) (k' f' : String)
    → (k ≢ k') ⊎ (f ≢ f')
    → lookup f' (hset k f v s k') ≡ lookup f' (s k')
hset-lookup_other k f v s k' f' h = ground (arith, eq_iff k k', eq_iff f f')

pub hget_lookup :
    (k f : String) (s : Hashes) (v : Option String)
    → (memory.hget k f s).0 ≡ ok v
    → v ≡ lookup f (s k)
hget_lookup k f s v h = ground arith

pub hgetall_lookup :
    (k : String) (s : Hashes) (m : List (String × String))
    → (memory.hgetall k s).0 ≡ ok m
    → (f : String) → lookup f m ≡ lookup f (s k)
hgetall_lookup k s m h f = let same : s k ≡ m = ground arith in ap (lookup f) (sym same)

abbrev pub memory_laws : RedisLaws memory
memory_laws = record {
  value = λ s k f. lookup f (s k);
  hget_value = hget_lookup;
  hget_keeps = λ k f s. refl;
  expire_keeps = λ k s. refl;
  hgetall_value = hgetall_lookup;
  hgetall_keeps = λ k s. refl;
  hset_value = λ k f v s h. hset-lookup_self k f v s;
  hset_other = hset-lookup_other;
}
