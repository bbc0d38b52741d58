-- ===== src/Infra/Redis.antt =====
-- The Redis server that the locks stand on, as far as the source calls it: `SET key value NX EX`,
-- `GET`, `EXPIRE`, `TTL`, `DELETE`, and the passing of seconds. A client is a parameter of the
-- code; `IsLawful` is what the commands are documented to do.
use lingshu_round.Prelude.{
  ℕ, ◌-◌, String, ◌≡◌, Bool, true, false, Option, none, some, leb, if◌then◌else◌,
}
use lingshu_round.Prelude.{◌==◌, string_eq, is_some, contains, List, starts_with}

-- a value and the seconds it has left
pub record Entry : Type 0 where
  pub value : String
  pub ttl : ℕ

pub record RedisClient : Type 1 where
  pub State : Type 0
  pub entry : State → String → Option Entry
  pub set_nx : String → String → ℕ → State → State
  pub expire : String → ℕ → State → State
  pub delete : String → State → State
  pub advance : ℕ → State → State
  -- `SCAN cursor MATCH prefix*`: the next cursor, and some of the keys
  pub scan : ℕ → String → State → ℕ × List String
  pub publish : String → String → State → State

-- what is left of an entry after `n` seconds
abbrev pub aged : ℕ → Option Entry → Option Entry
aged n none = none
aged n (some e) = if leb e.ttl n then none else some (record e { ttl = e.ttl - n })

abbrev pub with_ttl : ℕ → Option Entry → Option Entry
with_ttl n none = none
with_ttl n (some e) = some (record e { ttl = n })

abbrev pub value_of : Option Entry → Option String
value_of none = none
value_of (some e) = some e.value

abbrev pub ttl_of : Option Entry → Option ℕ
ttl_of none = none
ttl_of (some e) = some e.ttl

pub record IsLawful (R : RedisClient) : Type 0 where
  pub entry-set_nx :
      (k v : String) (n : ℕ) (s : R.State) (j : String)
      → R.entry (R.set_nx k v n s) j ≡ (
          if is_some (R.entry s k)
          then R.entry s j
          else if j == k
          then some (record { value = v; ttl = n })
          else R.entry s j)
  pub entry-expire :
      (k : String) (n : ℕ) (s : R.State) (j : String)
      → R.entry (R.expire k n s) j ≡ (if j == k then with_ttl n (R.entry s j) else R.entry s j)
  pub entry-delete :
      (k : String) (s : R.State) (j : String)
      → R.entry (R.delete k s) j ≡ (if j == k then none else R.entry s j)
  pub entry-publish :
      (channel message : String) (s : R.State) (j : String)
      → R.entry (R.publish channel message s) j ≡ R.entry s j
  pub scan_matches :
      (cursor : ℕ) (prefix : String) (s : R.State) (j : String)
      → contains (R.scan cursor prefix s).1 j ≡ true
      → starts_with j prefix ≡ true
  pub entry-advance :
      (n : ℕ) (s : R.State) (j : String) → R.entry (R.advance n s) j ≡ aged n (R.entry s j)

module _ (R : RedisClient) where
  -- `redis.get(key)`
  abbrev pub get : String → R.State → Option String
  get k s = value_of (R.entry s k)

  -- `redis.set(key, value, nx=True, ex=ttl)`: true if the key was free
  abbrev pub set : String → String → ℕ → R.State → Bool × R.State
  set k v n s = (if is_some (R.entry s k) then false else true, R.set_nx k v n s)

  -- `redis.ttl(key)`
  abbrev pub ttl : String → R.State → Option ℕ
  ttl k s = ttl_of (R.entry s k)
