-- ===== src/Symbols.antt =====
-- src/symbols.c: a table of `symbol_table_size` chains, each of which starts with an entry of the table.
-- Where the name of that entry is NULL, the chain is empty, but the entry may have a value. `memory`
-- tells of a call whether `malloc` gives what the call asks for; a value outside the table is `none`.
pub mod Found
use simpio.Base.{
  ℕ, ◌+◌, ◌*◌, ◌%◌, ◌^◌, Bool, true, false, ◌&&◌, Option, none, some, List, [], ◌∷◌, ◌++◌, ◌==◌,
  if◌then◌else◌, get_or, set, map,
}

abbrev pub symbol_table_size : ℕ
symbol_table_size = 100

pub record Symbol : Type 0 where
  pub name : List ℕ
  pub value : List ℕ
  pub symbol_type : ℕ

abbrev pub new_symbol : List ℕ → List ℕ → ℕ → Symbol
new_symbol name value s_type = record { name = name; value = value; symbol_type = s_type }

pub record Chain : Type 0 where
  pub unnamed : Option (List ℕ)
  pub symbols : List Symbol

abbrev pub no_chain : Chain
no_chain = record { unnamed = none; symbols = [] }

-- `djb2_hash`: `unsigned long` has 64 bits, and the characters are unsigned.
unfoldable pub hash_from : ℕ → List ℕ → ℕ
hash_from hash [] = hash
hash_from hash (c ∷ cs) = hash_from ((hash * 33 + c) % 2 ^ 64) cs

abbrev pub hash_index : List ℕ → ℕ
hash_index name = hash_from 5381 name % symbol_table_size

-- `strcmp(a, b) == 0`.
unfoldable pub same_string : List ℕ → List ℕ → Bool
same_string [] [] = true
same_string [] (y ∷ ys) = false
same_string (x ∷ xs) [] = false
same_string (x ∷ xs) (y ∷ ys) = x == y && same_string xs ys

abbrev pub is_symbol : List ℕ → ℕ → Symbol → Bool
is_symbol name s_type s = same_string name s.name && s.symbol_type == s_type

abbrev pub is_named : List ℕ → Symbol → Bool
is_named name s = same_string name s.name

-- The loops along a chain.
unfoldable pub find_in : (Symbol → Bool) → List Symbol → Option (List ℕ)
find_in test [] = none
find_in test (s ∷ ss) = let rest = find_in test ss in if test s then some s.value else rest

unfoldable pub update_in : (Symbol → Bool) → List ℕ → List Symbol → Option (List Symbol)
update_in test value [] = none
update_in test value (s ∷ ss) =
    let rest = update_in test value ss in
    if test s
    then some (record s { value = value } ∷ ss)
    else elim rest [ none ↦ none | some ss' ↦ some (s ∷ ss') ]

abbrev pub find_chain : (Symbol → Bool) → Chain → Option (List ℕ)
find_chain test c = elim c.symbols [ [] ↦ c.unnamed | _ ∷ _ ↦ find_in test c.symbols ]

-- `symbols_init`: only the names.
unfoldable pub symbols_init : List Chain → List Chain
symbols_init = map (λ (c : Chain). record c { symbols = [] })

abbrev pub chain_of : List ℕ → List Chain → Chain
chain_of name table = get_or table (hash_index name) no_chain

-- Without memory, an entry of the table keeps the value it had, and a chain its symbols. With it, the
-- texts are copied as they are; the NUL that C stores after the last byte asked for is not modelled.
unfoldable pub symbols_new : Bool → List ℕ → List ℕ → ℕ → List Chain → Option (List ℕ) × List Chain
symbols_new memory name value s_type table =
    let c = chain_of name table in
    if memory
    then (
      some value,
      set table (hash_index name)
          (record c { symbols = c.symbols ++ (new_symbol name value s_type ∷ []) }),
    )
    else (elim c.symbols [ [] ↦ c.unnamed | _ ∷ _ ↦ none ], table)

unfoldable pub symbols_find : List ℕ → ℕ → List Chain → Option (List ℕ)
symbols_find name s_type table = find_chain (is_symbol name s_type) (chain_of name table)

unfoldable pub symbols_find_any_type : List ℕ → List Chain → Option (List ℕ)
symbols_find_any_type name table = find_chain (is_named name) (chain_of name table)

-- `symbols_update`, with memory: at an empty chain it stores the value, but no name.
unfoldable pub symbols_update : List ℕ → List ℕ → ℕ → List Chain → List Chain
symbols_update name value s_type table =
    let c = chain_of name table in
    elim c.symbols [
      | [] ↦ set table (hash_index name) (record c { unnamed = some value })
      | _ ∷ _ ↦ elim (update_in (is_symbol name s_type) value c.symbols) [
        | some ss ↦ set table (hash_index name) (record c { symbols = ss })
        | none ↦ (symbols_new true name value s_type table).1
      ]
    ]
