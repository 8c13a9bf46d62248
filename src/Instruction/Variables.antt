-- ===== src/Instruction/Variables.antt =====
-- The variables of user programs in src/instruction.c: a table of `num_vars` entries, searched by name.
-- A name is the list of its characters, without the NUL; the empty name marks a free entry.
use simpio.Base.{
  ℕ, zero, suc, ◌≤◌, ◌≡◌, refl, ap, ◌∙◌, Bool, true, false, ◌&&◌, Option, none, some, List, [], ◌∷◌,
  ◌==◌, if◌then◌else◌, length, arith,
}

abbrev pub symbol_max : ℕ
symbol_max = 32

abbrev pub num_vars : ℕ
num_vars = 10

-- `user_variable_t`.
pub record Variable : Type 0 where
  pub name : List ℕ
  pub value : ℕ
  pub has_value : Bool

-- `strncmp(a, b, n) == 0`.
pub same_name : ℕ → List ℕ → List ℕ → Bool
same_name zero a b = true
same_name (suc n) [] [] = true
same_name (suc n) [] (y ∷ ys) = false
same_name (suc n) (x ∷ xs) [] = false
same_name (suc n) (x ∷ xs) (y ∷ ys) = x == y && same_name n xs ys

-- `snprintf(to, n + 1, "%s", from)`: at most `n` characters arrive.
pub truncated : ℕ → List ℕ → List ℕ
truncated zero s = []
truncated (suc n) [] = []
truncated (suc n) (x ∷ xs) = x ∷ truncated n xs

abbrev pub is_undefined : Variable → Bool
is_undefined v = elim v.name [ [] ↦ true | _ ∷ _ ↦ false ]

abbrev pub no_variable : Variable
no_variable = record { name = []; value = 0; has_value = false }

-- `instruction_vars_init`: a value stays in its entry.
pub vars_init : List Variable → List Variable
vars_init [] = []
vars_init (v ∷ vs) = record v { has_value = false; name = [] } ∷ vars_init vs

pub var_set : List ℕ → ℕ → List Variable → Bool × List Variable
var_set name val [] = (false, [])
var_set name val (v ∷ vs) =
    let (found, rest) = var_set name val vs in
    if same_name symbol_max v.name name
    then (true, record v { value = val; has_value = true } ∷ vs)
    else (found, v ∷ rest)

-- The first free entry takes the name; its old value is not cleared.
unfoldable pub var_define : List ℕ → List Variable → Bool × List Variable
var_define name [] = (false, [])
var_define name (v ∷ vs) =
    let (found, rest) = var_define name vs in
    if is_undefined v then (true, record v { name = truncated 31 name } ∷ vs) else (found, v ∷ rest)

pub var_undefine : List ℕ → List Variable → Bool × List Variable
var_undefine name [] = (false, [])
var_undefine name (v ∷ vs) =
    let (found, rest) = var_undefine name vs in
    if same_name symbol_max v.name name
    then (true, record v { name = [] } ∷ vs)
    else (found, v ∷ rest)

-- `none` where the C function returns false and leaves `*value`.
pub var_get : List ℕ → List Variable → Option ℕ
var_get name [] = none
var_get name (v ∷ vs) =
    let rest = var_get name vs in
    if same_name symbol_max v.name name then if v.has_value then some v.value else none else rest

-- A variable that can be set reads back as what it was set to, and every other variable as before.
pub var_get-var_set :
    (name : List ℕ) (val : ℕ) (vars : List Variable)
    → (var_set name val vars).0 ≡ true
    → var_get name (var_set name val vars).1 ≡ some val
unfolding var_get var_set
var_get-var_set name val [] h = absurd (ground arith)
var_get-var_set name val (v ∷ vs) h = ground (arith, var_get-var_set name val vs)

-- Setting a variable fails, and changes nothing, exactly if no entry has the name.
abbrev pub has_name : List ℕ → List Variable → Bool
has_name name [] = false
has_name name (v ∷ vs) =
    let rest = has_name name vs in if same_name symbol_max v.name name then true else rest

pub var_set-fails :
    (name : List ℕ) (val : ℕ) (vars : List Variable)
    → has_name name vars ≡ false
    → var_set name val vars ≡ (false, vars)
unfolding var_set
var_set-fails name val [] h = refl
var_set-fails name val (v ∷ vs) h = ground (arith, var_set-fails name val vs)

pub var_set-has_name :
    (name : List ℕ) (val : ℕ) (vars : List Variable)
    → (var_set name val vars).0 ≡ has_name name vars
unfolding var_set
var_set-has_name name val [] = refl
var_set-has_name name val (v ∷ vs) = ground (arith, var_set-has_name name val vs)

truncated_lem : (n : ℕ) (s : List ℕ) → length s ≤ n → truncated n s ≡ s
unfolding truncated
truncated_lem zero [] h = refl
truncated_lem zero (x ∷ xs) h = absurd (omega arith)
truncated_lem (suc n) [] h = refl
truncated_lem (suc n) (x ∷ xs) h = ap (λ t. x ∷ t) (truncated_lem n xs (omega arith))

same_name_self : (n : ℕ) (s : List ℕ) → same_name n s s ≡ true
unfolding same_name
same_name_self zero s = refl
same_name_self (suc n) [] = refl
same_name_self (suc n) (x ∷ xs) = ground (arith, same_name_self n xs)

var_define-has_name :
    (name : List ℕ) (vars : List Variable)
    → length name ≤ 31
    → (var_define name vars).0 ≡ true
    → has_name name (var_define name vars).1 ≡ true
unfolding var_define
var_define-has_name name [] short h = absurd (ground arith)
var_define-has_name name (v ∷ vs) short h = ground (
  arith,
  truncated_lem 31 name short,
  same_name_self symbol_max name,
  var_define-has_name name vs short,
)

-- A variable of at most 31 characters that has been defined can be set, and then reads back as what it
-- was set to.
pub var_get-var_define :
    (name : List ℕ) (val : ℕ) (vars : List Variable)
    → length name ≤ 31
    → (var_define name vars).0 ≡ true
    → var_get name (var_set name val (var_define name vars).1).1 ≡ some val
var_get-var_define name val vars short h =
    var_get-var_set name val (var_define name vars).1
      (var_set-has_name name val (var_define name vars).1 ∙ var_define-has_name name vars short h)
