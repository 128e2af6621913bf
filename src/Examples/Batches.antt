-- ===== src/Examples/Batches.antt =====
-- The scan for the features that the reasoner adds by itself, at small inputs.
use mathlib.Core.List.{Memᴰ}
use mathlib.Core.Path.{sym, subst}
use rdf_reasoner_konclude.Base.{
  zero, suc, ◌++◌, ℕ, ◌≡◌, refl, ◌+◌, ◌^◌, ◌<◌, List, [], ◌∷◌, nat_eq, list_eq, pair_eq,
}
use rdf_reasoner_konclude.Base.Entries.{values_of}
use rdf_reasoner_konclude.Wire.Table.{Text}
use rdf_reasoner_konclude.Wire.Emit.{Triple}
use rdf_reasoner_konclude.Wire.Intern.{id_index, id_tag}
use rdf_reasoner_konclude.Scan.Terms.{bytes, is_named, is_term, find_term, text_at}
use rdf_reasoner_konclude.Scan.Lines.{rdf_type_iri, sub_class_of_iri}
use rdf_reasoner_konclude.Scan.Batch.{
  BatchMaps, no_maps, batch_vocabulary, batch_maps, is_blank, is_literal, property_indices,
  role_assertions, role_key, MinCardinality,
}
use rdf_reasoner_konclude.Scan.Batch.Lists.{
  list_members, walk_cells, scan_one_of, scan_disjoint_unions,
}
use rdf_reasoner_konclude.Scan.Batch.Lists.Walk.{
  Walks, RdfList, end, cell, list_members-Walks, list_members_of_RdfList,
}
use rdf_reasoner_konclude.Scan.Batch.SomeValues.{
  scan_some, index_some, confirmed_some, entry_properties,
}
use rdf_reasoner_konclude.Scan.Batch.MinCards.{
  scan_mins, index_mins, confirmed_mins, positive_stoi, skip_spaces, digits_value,
}
use rdf_reasoner_konclude.Scan.Batch.Backing.{BatchBacked}
use rdf_reasoner_konclude.Scan.Batch.Roles.{objects_of, role_assertions-objects, IsPlain}
use rdf_reasoner_konclude.Scan.Batch.Whole.{scan_batch, scan_batch-BatchBacked, scan_batch-positive}

abbrev letters : List Text
letters = bytes "a" ∷ bytes "b" ∷ bytes "c" ∷ []

-- Blank nodes 8 and 9 with their type tag; a list that runs in a circle, and one that ends.
abbrev node_8 : ℕ
node_8 = 1073741824 + 8

abbrev node_9 : ℕ
node_9 = 1073741824 + 9

abbrev circle : BatchMaps
circle = record no_maps {
  firsts = (node_8, 0) ∷ (node_9, 1) ∷ [];
  rests = (node_8, node_9) ∷ (node_9, node_8) ∷ [];
}

abbrev chain : BatchMaps
chain = record circle { rests = (node_8, node_9) ∷ (node_9, 7) ∷ [] }

list_members-Walks_example : Walks letters circle [] node_8 (list_members letters circle node_8)
list_members-Walks_example = list_members-Walks letters circle node_8

circle_members : list_members letters circle node_8 ≡ bytes "a" ∷ bytes "b" ∷ []
unfolding list_members walk_cells is_named id_tag
circle_members = refl

chain-RdfList : RdfList letters chain node_8 (0 ∷ 1 ∷ [])
unfolding is_named id_tag
chain-RdfList = cell 0 node_9 (1 ∷ []) refl refl refl (cell 1 7 [] refl refl refl (end refl))

list_members_of_RdfList_example : list_members letters chain node_8 ≡ bytes "a" ∷ bytes "b" ∷ []
list_members_of_RdfList_example =
    list_members_of_RdfList letters chain node_8 (0 ∷ 1 ∷ []) chain-RdfList

letters-IsPlain : (i : ℕ) → IsPlain (text_at letters i)
letters-IsPlain zero = refl
letters-IsPlain (suc zero) = refl
letters-IsPlain (suc (suc zero)) = refl
letters-IsPlain (suc (suc (suc i))) = refl

-- a and c have b to c, and a has c to c.
abbrev assertions : List Triple
assertions = (0, (1, 2)) ∷ (0, (2, 2)) ∷ (2, (1, 2)) ∷ []

role_assertions-objects_example :
    values_of
      (bytes "a" ++ (0 ∷ bytes "b"))
      (role_assertions letters (property_indices letters (bytes "b" ∷ [])) assertions [])
    ≡ objects_of letters (bytes "a") (bytes "b") assertions
role_assertions-objects_example =
    role_assertions-objects letters (bytes "b" ∷ []) (refl, (refl, (refl, tt))) letters-IsPlain
      (bytes "a") (bytes "b") refl assertions []

objects_of_test : objects_of letters (bytes "a") (bytes "b") assertions ≡ bytes "c" ∷ []
unfolding objects_of id_index id_tag
objects_of_test = refl

-- c (5) is below the restriction 8 to at least two values of p (6); 7 is the number.
abbrev names : List Text
names =
    rdf_type_iri
    ∷ bytes "http://www.w3.org/2002/07/owl#Restriction"
    ∷ bytes "http://www.w3.org/2002/07/owl#onProperty"
    ∷ bytes "http://www.w3.org/2002/07/owl#minCardinality"
    ∷ sub_class_of_iri
    ∷ bytes "c"
    ∷ bytes "p"
    ∷ bytes "2"
    ∷ bytes "_:r"
    ∷ []

abbrev number : ℕ
number = 2147483648 + 7

abbrev statements : List Triple
statements = (node_8, (0, 1)) ∷ (node_8, (2, 6)) ∷ (node_8, (3, number)) ∷ (5, (4, node_8)) ∷ []

abbrev at_least_two : MinCardinality
at_least_two = record {
  class_iri = bytes "c";
  property_iri = bytes "p";
  least = 2;
  on_class_iri = [];
}

scan_batch-BatchBacked_example :
    BatchBacked names
      (text_at names)
      (batch_vocabulary names)
      statements
      (scan_batch names (text_at names) statements [])
scan_batch-BatchBacked_example = scan_batch-BatchBacked names (text_at names) statements []

found_at_least_two :
    (scan_batch names (text_at names) statements []).min_card_restrictions ≡ at_least_two ∷ []
unfolding scan_batch batch_vocabulary batch_maps find_term is_named is_term is_blank is_literal
    id_index id_tag scan_one_of scan_disjoint_unions scan_some index_some confirmed_some
    entry_properties scan_mins index_mins confirmed_mins positive_stoi skip_spaces digits_value
    property_indices role_assertions role_key
found_at_least_two = refl

scan_batch-positive_example : (0 < 2) × (2 < 2 ^ 31)
scan_batch-positive_example =
    scan_batch-positive names (text_at names) statements [] at_least_two
      (subst (Memᴰ at_least_two) (sym found_at_least_two) (Memᴰ.head refl))
