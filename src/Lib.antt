-- ===== src/Lib.antt =====
-- Verification of the tea compiler.
--
-- The program reads a source text, cuts it into tokens with a table that was generated from regular
-- expressions, parses the tokens, checks names and types, and translates the result to an
-- intermediate representation, on which passes run. The paths below are from the root of the
-- repository.
--
-- Sources models src/sources. Sources/Location is SourceLocation.h: a position is a file number and
-- an offset below 2 ^ 32, and its arithmetic wraps. Sources/View is the class SourceView of
-- SourceManager.h: a text is the list of its bytes, and the unchecked operator[] gives `none`
-- outside of it. Sources/Manager is load_text and get_file_view of SourceManager.cpp: a loaded file
-- is the list of its bytes, and its number is its position.
--
-- Lexis models src/lexis. Lexis/Token is Token.h, Lexis/Jump is table/LexicalAutomatonState.h, and
-- Lexis/Analyzer is LexicalAnalyzer.cpp: get_token_internal, set_source_view and next_token on a
-- record of the table, the location, the view and the current token. An access outside of the text
-- or the table is the value `fault`. The loop over the symbols runs on the fuel `length text + 2`,
-- one round for each byte, one for the end and one past it; the loop of next_token on a round for
-- each position left. Lexis/WellFormed says what is asked of a table: rows of 128 jumps, targets
-- that exist, no token that goes on at the end, and no empty token. Lexis/Compact is the last part
-- of table/LexicalAutomatonGenerator.cpp, which leaves out states that only finish. Lexis/Automaton
-- is remove_dead_ends of automata/FiniteAutomata.cpp, on the fuel of 129 rounds for each node; a
-- jump of -1 is `none`.
--
-- Lexis/Nfa is the visitor of automata/NonDeterministicFiniteAutomata.cpp that builds the automaton of an
-- expression: a pointer to a node is its address, which a counter gives out in the order of the
-- allocations. Nfa/Words says which words an expression has and Nfa/Run what a run is, both apart from
-- the construction. Lexis/EmptyJumps is do_empty_jumps of the header, on a round for each node.
-- Lexis/Subset is automata/parts/NonDeterministicToDeterministic.cpp, whose sets are lists of addresses
-- without repetition; 2 to the power of the number of nodes rounds are enough, since no two sets in its
-- map have the same members. Lexis/Minimal is automata/parts/DeterministicToMinimal.cpp, on two rounds
-- for each pair of nodes: a new mark fills one place of the matrix for each pair that it queues.
-- Minimal/Expression is FiniteAutomata(regex).get_minimal(), as table/LexicalAutomatonGenerator.cpp
-- calls it.
--
-- Lexis/Regex is regex/RegexParser.cpp and the nodes of RegexNodes.h: an iterator splits the text,
-- the exceptions are the errors, and a read or a write that the language leaves undefined is
-- `undefined`. The loops and the recursion run on the length of the text, which is shown to be
-- enough. Lexis/TableSerializer is table/LexicalTableSerializer.cpp. Serializer is
-- utils/Serializer.h, which it builds on: a number of 64 bits is eight bytes, and a stream is the
-- list of its bytes.
--
-- Bitset models src/passes/analysis/dominators/DynamicBitset.h. A block is the list of its 64 bits,
-- the lowest first, as on a little-endian machine, where the first byte of a block holds its lowest
-- bits. The exception of an index out of bounds is `none`.
--
-- Syntax models src/syntax/lr and src/syntax/grammar. Syntax/TokensBitset is TokensBitset.h,
-- Syntax/Recovery is the class RecoveryTree of LRParser.cpp, and Syntax/Parser is one round of the
-- loop of LRParser::parse on a record of its stacks, errors, tree and tokens; parse_loop repeats it
-- on fuel, since the loop does not always end. A stack is a list whose head is its back. The tables
-- are any tables, the builders of nodes are a parameter, and the lexical analyzer is the stream of
-- its tokens, which goes on with END. A `fault` is an access outside of a stack or a table.
-- Syntax/TableSerializer is LRTableSerializer.cpp.
--
-- Syntax/Grammar models src/syntax/grammar: productions and rules of GrammarProduction.h and
-- Grammar.h, add_rule in Syntax/Grammar, the checks for nonterminals that derive nothing and those
-- that derive the empty text in Grammar/Checks, the walk from the start and `check` in
-- Grammar/Walks, and the reduced productions in Grammar/Reduction. The map of the rules is a list
-- of entries, and its sets are lists without repetition. Derivation says what a grammar derives,
-- apart from the loops. The loops run on a round for each entry, and the walk on one for each
-- nonterminal that the rules mention.
--
-- Compilation models src/compilation. Compilation/Types is types/Type.h with
-- utils/PointersStorage.h: the storage is the list of the types that were allocated, and a pointer
-- to a type is its position. The hash set is modelled by what it is for, a search by operator==.
-- Compilation/Semantics is the visitors of one expression in semantics: the types of the operands
-- are given, an error that is reported to the user is `scold`, and an access that the source does
-- not check is `fault`. The category UNKNOWN, which no expression has once it was visited, is left
-- out.
--
-- Compilation/Mangler is mangling/Mangler.cpp, with its substitutions as an explicit state. The
-- recursion over the types runs on fuel: where a type is made of older ones, its position in the
-- storage and one more is enough. Compilation/Imports is inject_type of semantics/NameLookup.cpp,
-- which does not always end, on any fuel; the pools of strings are a function between identifiers.
-- Compilation/Scopes is Scope.h, SymbolInfo.h and SymbolInfo.cpp with name_lookup of
-- semantics/NameLookup.cpp: a pointer to a scope is its position, and the loops over the parents
-- run on the count of the scopes, which is enough where a scope is made behind its parent.
--
-- Prelude holds the lists, arrays, sets and tests over the native numbers, and Tests runs the
-- models and applies the theorems to concrete inputs.
--
-- Not modelled: remove_empty_jumps with remove_unreachable_nodes, which nothing calls, the product of
-- the automata of all tokens, the LR tables, declarations and the import of symbols, the passes, and
-- everything that only reads input or prints. The generation of the intermediate representation calls
-- LLVM throughout.
pub mod Prelude
pub mod Sources
pub mod Serializer
pub mod Bitset
pub mod Lexis
pub mod Syntax
pub mod Compilation
pub mod Tests
