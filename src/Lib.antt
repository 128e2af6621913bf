-- ===== src/Lib.antt =====
-- The reasoner wrapper of this repository, src/KoncludeReasoner.cpp. A `KoncludeReasoner` takes
-- RDF triples in a binary format, keeps a digest of them, loads them into the Konclude reasoner
-- when a verb needs it, and writes what was inferred into a buffer of the same format.
--
-- The parts, and where they are modelled:
--
-- Base: numbers, lists, options, sets and maps. Numbers are native naturals; a word of 32 or 64
-- bits keeps its wrap-around as a remainder (Base/Words). A std::unordered_set is a list without
-- repetitions (Base/Sets), a std::unordered_map an association list (Base/Dicts).
-- Wire: the format. Wire/Table is the string table [count][offsets][bytes], built by
-- `InternTable::build` and decoded by `buildOntology` and `syncBuffers`. Wire/Intern is
-- `InternTable::intern`: an id has a string index in its low 30 bits and a term type above them.
-- Wire/Emit is `emitTriple`, Wire/Buffer the assembly of the result buffer at the end of
-- `buildInferredTripleBuffer`, Wire/Buffer/Decode is `resultAsSortedNTriples`.
-- Content: what `syncBuffers` makes of its arguments. Content/Check has its tests of the buffers,
-- Content/Literal `normaliseLiteral` and the literal decoder of `buildOntology`, Content/Hash
-- `mix64` and `hashBytes`, Content/Digest the term memo and the set of hashes.
-- Scan: the scan of `buildOntology` for equivalent properties, different individuals and
-- complementary classes, which can find an ontology inconsistent without running Konclude.
-- Scan/Functional is its scan for functional properties with several fillers. Scan/Prescan is the
-- scan before the triples are inserted: its parts Domains, Restrictions and Intersections have the
-- code, Rules the rules by which it may conclude a type, and Whole the scan as a whole. Scan/Batch
-- is the scan behind the insertion: Batch fills the maps, Lists walks the lists of owl:oneOf and
-- owl:disjointUnionOf, SomeValues and MinCards collect restrictions, Roles is about role assertions, Backing says what each result
-- rests on, and Whole composes them. Scan/Lines has the texts of justifications.
-- Session: the object. Session/State has the fields of `Impl`, its `reset`, the load and
-- `runPipeline`; Session/Sync has `syncBuffers`; Session/Verbs has `ensureBuilt`,
-- `classification`, `realization`, `consistency` and the public `reset`. Session/Invariant says
-- what holds between calls, Session/Reach which states calls reach and what follows for them,
-- Session/Queries has `isSubClassOf`, `isSatisfiableClass`, `isInstanceOf` and
-- `buildUnsatisfiableClassBuffer`.
-- Infer: what `buildInferredTripleBuffer` adds from the scans alone. Infer/Spread is its loop for
-- owl:someValuesFrom, Infer/Output the emission of the types that it finds, of disjoint unions and
-- of sameAs pairs. Infer/Axioms is `parseNTriplesToAxiomIndices`, Infer/Memberships the emission
-- of the types that the scans have found, with their justifications. Infer/Cardinality is the
-- search for fillers that differ pairwise, with the names of Konclude's individuals as an
-- argument.
-- Justifications: Justifications/Cache is src/JustificationCache.h.
-- Stall: src/compat/KonStall.h, the counters by which a wait notices that nothing happens. Each
-- atomic load and store is a step, `Stall` has the steps of working threads and those of the waiting
-- thread, Stall/Waiting runs them in any order. All threads see one order of the steps, and the
-- thresholds do not change during a wait.
-- Examples: tests, and each theorem at a concrete input.
--
-- Konclude and the Redland library are not part of this repository. Session/Kernel names what the
-- wrapper takes from them as fields of a record `Kernel`: a fresh ontology, the load of buffers
-- into an ontology, the run of a list of processing steps, and readers of the result. Nothing is
-- assumed of them; the number of the reset and of the call is an argument, so that they need not
-- repeat themselves.
--
-- Bounds: `std::to_string` of a term type has fuel for ten digits, which every 32-bit number has
-- at most. The loop of `resultAsSortedNTriples` has the length of the buffer as fuel, and each
-- round reads twelve bytes. Memory behind the end of a given list reads as 0. The walk along an
-- RDF list has as many rounds as there are cells with a first, and one more: no cell is visited
-- twice. The walk of the pre-scan has the source's 100 rounds. The loop for owl:someValuesFrom has
-- one round more than there are pairs of a value and a filler class: each round but the last finds
-- such a pair. The counters of generations and calls, machine integers in the source, do not wrap
-- around.
--
-- The order of an association list stands for the order in which an unordered_map is iterated,
-- which C++ leaves open.
--
-- Not modelled: the insertion of the statements by `buildOntology`, which needs a model of the
-- calls of Redland, and the results of its scans as fields of the session; the collection of all
-- other inferred triples and their justifications from Konclude's taxonomy and realization, the
-- N-Triples reader of the debugging harness, output for tracing, timing, and the release of
-- memory. Nor are the changed copies of Konclude's sources under src/compat/overrides, the
-- vendored hash map src/compat/robin_hood.h, and the Qt replacements in src/compat/QtCompat.h.
pub mod Base
pub mod Wire
pub mod Content
pub mod Scan
pub mod Session
pub mod Infer
pub mod Justifications
pub mod Stall
pub mod Examples
