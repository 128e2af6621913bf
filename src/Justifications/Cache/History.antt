-- ===== src/Justifications/Cache/History.antt =====
-- The cache against its history.
use rdf_reasoner_konclude.Base.{
  ◌≡◌, refl, ap, ◌∙◌, List, [], ◌∷◌, if◌then◌else◌, Option, none, some, nat_eq, pair_eq, ◌==◌,
}
use rdf_reasoner_konclude.Base.Ints.{ℤ, int_eq}
use rdf_reasoner_konclude.Base.Dicts.{lookup-assign}
use rdf_reasoner_konclude.Justifications.Cache.{
  EntailmentType, classification, type_eq, Key, JustificationCache, empty_cache, insert_typed,
  insert_default, lookup_typed, clear,
}

-- The calls that change the cache.
pub data CacheCall : Type 0 where
  typed : ℤ → ℤ → EntailmentType → List ℤ → CacheCall
  untyped : ℤ → ℤ → List ℤ → CacheCall
  wiped : CacheCall

unfoldable pub run_cache_call : CacheCall → JustificationCache → JustificationCache
run_cache_call (typed sub super type tags) cache = insert_typed sub super type tags cache
run_cache_call (untyped sub super tags) cache = insert_default sub super tags cache
run_cache_call wiped cache = clear cache

-- The calls from the last to the first.
unfoldable pub run_history : List CacheCall → JustificationCache
run_history [] = empty_cache
run_history (c ∷ earlier) = run_cache_call c (run_history earlier)

abbrev pub at_key : ℤ → ℤ → EntailmentType → Key
at_key sub super type = (sub, (super, type))

-- What was inserted last under a key, and not cleared since.
abbrev pub latest : Key → List CacheCall → Option (List ℤ)
latest key [] = none
latest key (typed sub super type tags ∷ earlier) =
    let before = latest key earlier in if at_key sub super type == key then some tags else before
latest key (untyped sub super tags ∷ earlier) =
    let before = latest key earlier in
    if at_key sub super classification == key then some tags else before
latest key (wiped ∷ earlier) = none

-- After any calls on an empty cache, a lookup finds the tags that the last insertion under its key
-- left, if there was one since the last `clear`; the insertion without a type counts as one for
-- classification.
pub lookup_typed-latest :
    (calls : List CacheCall) (sub super : ℤ) (type : EntailmentType)
    → lookup_typed sub super type (run_history calls) ≡ latest (sub, (super, type)) calls
unfolding lookup_typed run_history run_cache_call insert_typed insert_default clear
lookup_typed-latest [] sub super type = refl
lookup_typed-latest (typed a b t tags ∷ earlier) sub super type =
    lookup-assign (a, (b, t)) (sub, (super, type)) tags (run_history earlier).entries
    ∙ ap (λ rest. if at_key a b t == at_key sub super type then some tags else rest)
        (lookup_typed-latest earlier sub super type)
lookup_typed-latest (untyped a b tags ∷ earlier) sub super type =
    lookup-assign (a, (b, classification)) (sub, (super, type)) tags (run_history earlier).entries
    ∙ ap (λ rest. if at_key a b classification == at_key sub super type then some tags else rest)
        (lookup_typed-latest earlier sub super type)
lookup_typed-latest (wiped ∷ earlier) sub super type = refl
