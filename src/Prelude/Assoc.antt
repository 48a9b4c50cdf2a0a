-- ===== src/Prelude/Assoc.antt =====
-- Go maps with text keys, as association lists. The order in which Go walks a map is unspecified;
-- here it is the order of the list.
use goraft.Prelude.{
  String, List, [], ◌∷◌, Option, none, some, Bool, true, false, ◌≡◌, str_eq, eq_iff, if◌then◌else◌,
  arith,
}

abbrev pub Entries {ℓ} : Type ℓ → Type ℓ
Entries V = List (String × V)

-- m[key], with the test for presence
unfoldable pub lookup {ℓ} : {V : Type ℓ} → String → Entries V → Option V
lookup key ((name, value) ∷ rest) = if str_eq name key then some value else lookup key rest
lookup key [] = none

-- m[key] = value
unfoldable pub insert {ℓ} : {V : Type ℓ} → String → V → Entries V → Entries V
insert key value ((name, old) ∷ rest) =
    if str_eq name key then (key, value) ∷ rest else (name, old) ∷ insert key value rest
insert key value [] = (key, value) ∷ []

-- delete(m, key)
unfoldable pub remove {ℓ} : {V : Type ℓ} → String → Entries V → Entries V
remove key ((name, value) ∷ rest) =
    let others = remove key rest in if str_eq name key then others else (name, value) ∷ others
remove key [] = []

unfoldable pub has_key {ℓ} : {V : Type ℓ} → String → Entries V → Bool
unfolding lookup
has_key key entries = elim (lookup key entries) [ none ↦ false | some value ↦ true ]

-- The entries before and after agree but at one key.
pub lookup-insert {ℓ} :
    {V : Type ℓ} (key asked : String) (value : V) (entries : Entries V)
    → lookup asked (insert key value entries)
      ≡ (if str_eq key asked then some value else lookup asked entries)
unfolding lookup insert
lookup-insert key asked value ((name, old) ∷ rest) = ground (
  arith,
  lookup-insert key asked value rest,
  eq_iff name key,
  eq_iff name asked,
  eq_iff key asked,
)
lookup-insert key asked value [] = ground arith

pub lookup-remove {ℓ} :
    {V : Type ℓ} (key asked : String) (entries : Entries V)
    → lookup asked (remove key entries) ≡ (if str_eq key asked then none else lookup asked entries)
unfolding lookup remove
lookup-remove key asked ((name, old) ∷ rest) =
    ground
      (arith, lookup-remove key asked rest, eq_iff name key, eq_iff name asked, eq_iff key asked)
lookup-remove key asked [] = ground arith
