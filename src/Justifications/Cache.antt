-- ===== src/Justifications/Cache.antt =====
-- src/JustificationCache.h: the cache of the tags that a proof used. The locks are left out: each
-- method holds its lock from beginning to end, so the methods run one after the other.
pub mod History
use rdf_reasoner_konclude.Base.{
  ap, nat_beq_iff, ℕ, ◌≡◌, ◌↔◌, refl, List, [], ◌∷◌, Bool, true, false, ◌&&◌, Option, none, some,
  length, Eq, nat_eq, pair_eq, ◌==◌, arith,
}
use rdf_reasoner_konclude.Base.Ints.{ℤ, int_eq}
use rdf_reasoner_konclude.Base.Dicts.{lookup, assign}

pub data EntailmentType : Type 0 where
  classification realization property_subsumption : EntailmentType

-- the enumerator's value
abbrev pub type_value : EntailmentType → ℕ
type_value classification = 0
type_value realization = 1
type_value property_subsumption = 2

type_value_injective : (s t : EntailmentType) → type_value s ≡ type_value t → s ≡ t
type_value_injective classification classification e = refl
type_value_injective classification realization e = absurd (cc)
type_value_injective classification property_subsumption e = absurd (cc)
type_value_injective realization classification e = absurd (cc)
type_value_injective realization realization e = refl
type_value_injective realization property_subsumption e = absurd (cc)
type_value_injective property_subsumption classification e = absurd (cc)
type_value_injective property_subsumption realization e = absurd (cc)
type_value_injective property_subsumption property_subsumption e = refl

pub same_type_iff : (s t : EntailmentType) → ((type_value s == type_value t) ≡ true) ↔ (s ≡ t)
same_type_iff s t = (
  λ h. type_value_injective s t ((nat_beq_iff (type_value s) (type_value t)).0 h),
  λ e. (nat_beq_iff (type_value s) (type_value t)).1 (ap type_value e),
)

instance abbrev pub type_eq : Eq EntailmentType
type_eq = record { beq = λ s t. type_value s == type_value t; beq_iff = same_type_iff }

-- Key: subTag, superTag, type
abbrev pub Key : Type 0
Key = ℤ × (ℤ × EntailmentType)

pub record JustificationCache : Type 0 where
  pub entries : List (Key × List ℤ)

abbrev pub empty_cache : JustificationCache
empty_cache = record { entries = [] }

unfoldable pub insert_typed :
    ℤ → ℤ → EntailmentType → List ℤ → JustificationCache → JustificationCache
insert_typed sub super type tags cache = record {
  entries = assign (sub, (super, type)) tags cache.entries;
}

unfoldable pub insert_default : ℤ → ℤ → List ℤ → JustificationCache → JustificationCache
insert_default sub super tags cache = record {
  entries = assign (sub, (super, classification)) tags cache.entries;
}

unfoldable pub lookup_typed : ℤ → ℤ → EntailmentType → JustificationCache → Option (List ℤ)
lookup_typed sub super type cache = lookup (sub, (super, type)) cache.entries

unfoldable pub lookup_default : ℤ → ℤ → JustificationCache → Option (List ℤ)
lookup_default sub super cache = lookup (sub, (super, classification)) cache.entries

unfoldable pub clear : JustificationCache → JustificationCache
clear cache = record { entries = [] }

unfoldable pub size : JustificationCache → ℕ
size cache = length cache.entries
