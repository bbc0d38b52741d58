-- ===== src/Data/Schema/Age.antt =====
-- How old a schema from the cache can be.
use lingshu_round.Prelude.{
  ℕ, ◌+◌, ◌<◌, String, ◌<>◌, ◌≡◌, refl, ◌⊎◌, inl, inr, subst, true, false, Option, none, some, List,
  [], ◌∷◌, arith, if◌then◌else◌, ◌==◌, string_eq, ltb, starts_with, Bool-cases,
}
use lingshu_round.Prelude.Dict.{lookup, lookup-insert, lookup-nil}
use lingshu_round.Infra.Exec.{Result, ok, err}
use lingshu_round.Data.Schema.{
  SchemaInfo, OntologyReads, CacheEntry, Cache, cache_key, live, load_schema, keep, get_schema,
  invalidate,
}

-- a call of the loader: the clock, what the ontology service answers, the type and the tenant
pub data Call : Type 0 where
  read : ℕ → OntologyReads → String → String → Call
  invalidation : String → Call

unfoldable pub perform : Call → Cache → Cache
perform (read now O type_rid tenant_id) c = (get_schema now O type_rid tenant_id c).1
perform (invalidation tenant_id) c = invalidate tenant_id c

-- the cache after the calls, the last of which comes first in the list
unfoldable pub after : List Call → Cache
unfolding perform
after [] = []
after (c ∷ cs) = perform c (after cs)

-- The schema was loaded under the key by one of the calls, at a time that `at` accepts, and the
-- tenant of the key was not invalidated since.
abbrev Loaded : (ℕ → Type 0) → String → SchemaInfo → List Call → Type 0
Loaded at key schema [] = ⊥
Loaded at key schema (read t O type_rid tenant_id ∷ cs) =
    ((cache_key tenant_id type_rid ≡ key) × (load_schema t O type_rid tenant_id ≡ ok schema) × at t)
    ⊎ Loaded at key schema cs
Loaded at key schema (invalidation tenant_id ∷ cs) =
    (starts_with key (tenant_id <> ":") ≡ false) × Loaded at key schema cs

-- the schema was loaded less than five minutes before `now`
abbrev pub LoadedSince : ℕ → String → SchemaInfo → List Call → Type 0
LoadedSince now = Loaded (λ t. now < t + 300)

lookup-invalidate :
    (key tenant_id : String) (c : Cache)
    → lookup key (invalidate tenant_id c)
      ≡ (if starts_with key (tenant_id <> ":") then none else lookup key c)
unfolding invalidate lookup
lookup-invalidate key tenant_id [] = ground arith
lookup-invalidate key tenant_id ((k, e) ∷ c) = ground (arith, lookup-invalidate key tenant_id c)

Loaded-mono :
    (at at' : ℕ → Type 0) (key : String) (schema : SchemaInfo) (cs : List Call)
    → ((t : ℕ) → at t → at' t)
    → Loaded at key schema cs
    → Loaded at' key schema cs
Loaded-mono at at' key schema [] h l = l
Loaded-mono at at' key schema (read t O type_rid tenant_id ∷ cs) h (inl (e, e', l)) =
    inl (e, e', h t l)
Loaded-mono at at' key schema (read t O type_rid tenant_id ∷ cs) h (inr l) =
    inr (Loaded-mono at at' key schema cs h l)
Loaded-mono at at' key schema (invalidation tenant_id ∷ cs) h (other, l) =
    (other, Loaded-mono at at' key schema cs h l)

-- an entry is a schema that was loaded 300 seconds before it expires
abbrev IsLoaded : CacheEntry → String → List Call → Type 0
IsLoaded e key cs = Loaded (λ t. e.expires_at ≡ t + 300) key e.schema cs

module _ (now : ℕ) (O : OntologyReads) (type_rid tenant_id : String) (cs : List Call) where
  kept-IsLoaded :
      (key : String) (c : Cache) (r : Result SchemaInfo) (e : CacheEntry)
      → load_schema now O type_rid tenant_id ≡ r
      → ((e : CacheEntry) → lookup key c ≡ some e → IsLoaded e key cs)
      → lookup key (keep now O (cache_key tenant_id type_rid) r c).1 ≡ some e
      → IsLoaded e key (read now O type_rid tenant_id ∷ cs)
  kept-IsLoaded key c (err x) e loads old found = inr (old e found)
  kept-IsLoaded key c (ok schema) e loads old found =
      let entry : CacheEntry = record { schema = schema; expires_at = now + 300 } in
      elim (Bool-cases (key == cache_key tenant_id type_rid)) [
        | inl same ↦
            let e' : entry ≡ e =
              ground (arith, lookup-insert key (cache_key tenant_id type_rid) entry c) in
            inl (ground arith, ground arith, ground arith)
        | inr other ↦
            inr (old e (ground (arith, lookup-insert key (cache_key tenant_id type_rid) entry c)))
      ]

  read-IsLoaded :
      (key : String) (c : Cache) (o : Option SchemaInfo) (e : CacheEntry)
      → ((e : CacheEntry) → lookup key c ≡ some e → IsLoaded e key cs)
      → lookup key
          (elim o as (λ _. Result SchemaInfo × Cache) [
            | some schema ↦ (ok schema, c)
            | none ↦
                keep now O (cache_key tenant_id type_rid) (load_schema now O type_rid tenant_id) c
          ]).1
        ≡ some e
      → IsLoaded e key (read now O type_rid tenant_id ∷ cs)
  read-IsLoaded key c (some schema) e old found = inr (old e found)
  read-IsLoaded key c none e old found = kept-IsLoaded key c _ e refl old found

-- Every entry was loaded by one of the calls.
after-IsLoaded :
    (cs : List Call) (key : String) (e : CacheEntry)
    → lookup key (after cs) ≡ some e
    → IsLoaded e key cs
unfolding after get_schema
after-IsLoaded [] key e found = ground (arith, lookup-nil {V = CacheEntry} key)
after-IsLoaded (read now O type_rid tenant_id ∷ cs) key e found =
    read-IsLoaded now O type_rid tenant_id cs key (after cs)
      (live now (lookup (cache_key tenant_id type_rid) (after cs))) e (after-IsLoaded cs key) found
after-IsLoaded (invalidation tenant_id ∷ cs) key e found = (
  ground (arith, lookup-invalidate key tenant_id (after cs)),
  after-IsLoaded cs key e (ground (arith, lookup-invalidate key tenant_id (after cs))),
)

kept_answer :
    (now : ℕ) (O : OntologyReads) (key : String) (r : Result SchemaInfo) (c : Cache)
    (schema : SchemaInfo)
    → (keep now O key r c).0 ≡ ok schema
    → r ≡ ok schema
kept_answer now O key (ok s) c schema answer = answer
kept_answer now O key (err e) c schema answer = answer

given_live :
    (now : ℕ) (e : CacheEntry) (next : Result SchemaInfo × Cache) (c : Cache) (schema : SchemaInfo)
    → ltb now e.expires_at ≡ true
    → (elim (live now (some e)) as (λ _. Result SchemaInfo × Cache) [
      | some schema ↦ (ok schema, c)
      | none ↦ next
    ]).0
      ≡ ok schema
    → e.schema ≡ schema
given_live now e next c schema fresh answer = ground arith

answer_since :
    (now : ℕ) (O : OntologyReads) (type_rid tenant_id : String) (cs : List Call)
    (o : Option CacheEntry) (schema : SchemaInfo)
    → ((e : CacheEntry) → o ≡ some e → IsLoaded e (cache_key tenant_id type_rid) cs)
    → (elim (live now o) as (λ _. Result SchemaInfo × Cache) [
      | some schema ↦ (ok schema, after cs)
      | none ↦
          keep now O
            (cache_key tenant_id type_rid)
            (load_schema now O type_rid tenant_id)
            (after cs)
    ]).0
      ≡ ok schema
    → LoadedSince now (cache_key tenant_id type_rid) schema (read now O type_rid tenant_id ∷ cs)
answer_since now O type_rid tenant_id cs none schema old answer =
    inl (refl, kept_answer now O _ _ (after cs) schema answer, omega arith)
answer_since now O type_rid tenant_id cs (some e) schema old answer =
    elim (Bool-cases (ltb now e.expires_at)) [
      | inl fresh ↦ inr (
          subst (λ s. LoadedSince now (cache_key tenant_id type_rid) s cs)
            (given_live now e
              (keep now O (cache_key tenant_id type_rid) (load_schema now O type_rid tenant_id)
                (after cs))
              (after cs) schema fresh answer)
            (Loaded-mono (λ t. e.expires_at ≡ t + 300) (λ t. now < t + 300)
              (cache_key tenant_id type_rid) e.schema cs (λ t at. ground arith) (old e refl)))
      | inr late ↦ inl (
        refl,
        kept_answer now O (cache_key tenant_id type_rid) (load_schema now O type_rid tenant_id)
            (after cs) schema (ground arith),
        omega arith,
      )
    ]

-- A schema that the loader gives was loaded under the same key of type and tenant, just now or less
-- than five minutes before, and after the last invalidation of the tenant, whatever calls came
-- before.
pub get_schema-LoadedSince :
    (now : ℕ) (O : OntologyReads) (type_rid tenant_id : String) (cs : List Call)
    (schema : SchemaInfo)
    → (get_schema now O type_rid tenant_id (after cs)).0 ≡ ok schema
    → LoadedSince now (cache_key tenant_id type_rid) schema (read now O type_rid tenant_id ∷ cs)
unfolding get_schema
get_schema-LoadedSince now O type_rid tenant_id cs schema answer =
    answer_since now O type_rid tenant_id cs (lookup (cache_key tenant_id type_rid) (after cs))
      schema (after-IsLoaded cs (cache_key tenant_id type_rid)) answer
