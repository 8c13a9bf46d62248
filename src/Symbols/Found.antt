-- ===== src/Symbols/Found.antt =====
-- What `symbols_find` finds after `symbols_new` and after `symbols_update`.
use simpio.Base.{
  ℕ, ◌<◌, ◌≡◌, refl, ap, ◌∙◌, arith, Bool, true, false, Option, none, some, List, [], ◌∷◌, ◌++◌,
  ◌==◌, if◌then◌else◌, length, get_or, set, get_or-set_self,
}
use simpio.Symbols.{
  Symbol, Chain, new_symbol, no_chain, hash_index, same_string, is_symbol, update_in, find_in,
  find_chain, chain_of, symbols_new, symbols_find, symbols_update,
}

same_number : (n : ℕ) → (n == n) ≡ true
same_number n = ground arith

same_self : (s : List ℕ) → same_string s s ≡ true
unfolding same_string
same_self [] = refl
same_self (c ∷ cs) = rw (same_number c, same_self cs) refl

find_in-append :
    (test : Symbol → Bool) (ss : List Symbol) (s : Symbol)
    → find_in test ss ≡ none
    → test s ≡ true
    → find_in test (ss ++ (s ∷ [])) ≡ some s.value
unfolding find_in
find_in-append test [] s h e = rw (e) refl
find_in-append test (x ∷ ss) s h e = choose (test x) (find_in test ss) h (find_in-append test ss s)
  where
    choose :
        (b : Bool) (rest : Option (List ℕ))
        → (if b then some x.value else rest) ≡ none
        → (rest ≡ none → test s ≡ true → find_in test (ss ++ (s ∷ [])) ≡ some s.value)
        → (if b then some x.value else find_in test (ss ++ (s ∷ []))) ≡ some s.value
    choose true rest h ih = absurd (ground arith)
    choose false rest h ih = ih h e

find_chain-append :
    (test : Symbol → Bool) (c : Chain) (s : Symbol)
    → find_in test c.symbols ≡ none
    → test s ≡ true
    → find_chain test (record c { symbols = c.symbols ++ (s ∷ []) }) ≡ some s.value
find_chain-append test c s h e = choose c.symbols (find_in-append test c.symbols s h e)
  where
    choose :
        (ss : List Symbol)
        → find_in test (ss ++ (s ∷ [])) ≡ some s.value
        → find_chain test (record c { symbols = ss ++ (s ∷ []) }) ≡ some s.value
    choose [] k = k
    choose (x ∷ ss) k = k

is_symbol-new :
    (name value : List ℕ) (s_type : ℕ) → is_symbol name s_type (new_symbol name value s_type) ≡ true
is_symbol-new name value s_type = rw (same_self name, same_number s_type) refl

hash_index-bound : (name : List ℕ) → hash_index name < 100
hash_index-bound name = omega arith

-- A new symbol, of a name and a type that its chain does not have yet, is found with its value.
pub find-new :
    (name value : List ℕ) (s_type : ℕ) (table : List Chain)
    → length table ≡ 100
    → find_in (is_symbol name s_type) (chain_of name table).symbols ≡ none
    → symbols_find name s_type (symbols_new true name value s_type table).1 ≡ some value
unfolding symbols_find symbols_new
find-new name value s_type table l h =
    let c = chain_of name table in
    let s = new_symbol name value s_type in
    ap (find_chain (is_symbol name s_type)) (
      get_or-set_self table (hash_index name) (record c { symbols = c.symbols ++ (s ∷ []) })
        no_chain (omega (arith, l, hash_index-bound name)))
    ∙ find_chain-append (is_symbol name s_type) c s h (is_symbol-new name value s_type)

-- `symbols_update` at an empty chain stores the value without a name: whatever name and type has the
-- same hash finds it.
pub find-update :
    (name other value : List ℕ) (s_type other_type : ℕ) (table : List Chain)
    → length table ≡ 100
    → (chain_of name table).symbols ≡ []
    → hash_index other ≡ hash_index name
    → symbols_find other other_type (symbols_update name value s_type table) ≡ some value
unfolding symbols_find symbols_update
find-update name other value s_type other_type table l e q =
    let c = chain_of name table in
    let stored = set table (hash_index name) (record c { unnamed = some value }) in
    let test = is_symbol other other_type in
    ap (symbols_find other other_type) (
      ap
        (λ ss. elim ss as (λ x. List Chain) [
          | [] ↦ stored
          | _ ∷ _ ↦ elim (update_in (is_symbol name s_type) value c.symbols) as (λ x. List Chain) [
            | some ss' ↦ set table (hash_index name) (record c { symbols = ss' })
            | none ↦ (symbols_new true name value s_type table).1
          ]
        ])
        e)
    ∙ ap (λ i. find_chain test (get_or stored i no_chain)) q
    ∙ ap (find_chain test) (
        get_or-set_self table (hash_index name) (record c { unnamed = some value }) no_chain
          (omega (arith, l, hash_index-bound name)))
    ∙ ap (λ ss. find_chain test (record { unnamed = some value; symbols = ss })) e
