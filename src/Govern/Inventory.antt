-- ===== src/Govern/Inventory.antt =====
-- The tool inventory (govern/governor.go: Declare, register, HookedTools, dedupe, Attestation).
use mitrity_go.Base.{
  ◌∙◌, same_iff, eq_of_same, true, false, not, ◌&&◌, ◌||◌, Bytes, List, [], ◌∷◌, ◌++◌, ◌≡◌, refl,
  arith, same, is_empty, Bool-cases, inl, inr, if◌then◌else◌,
}
use mitrity_go.Std.Sort.{insert, sort, less_bytes}
use mitrity_go.Govern.Governor.{declare, register, hooked_tools, attestation}
use mitrity_go.Govern.State.{Governor, contains, dedupe}

-- No name is there twice.
abbrev pub IsUnique : List Bytes → Type 0
IsUnique [] = Unit
IsUnique (x ∷ xs) = (contains xs x ≡ false) × IsUnique xs

contains-append :
    (xs ys : List Bytes) (name : Bytes)
    → contains (xs ++ ys) name ≡ (contains xs name || contains ys name)
unfolding contains
contains-append [] ys name = refl
contains-append (x ∷ xs) ys name = ground (arith, contains-append xs ys name)

pub contains-snoc :
    (xs : List Bytes) (x name : Bytes)
    → contains (xs ++ x ∷ []) name ≡ (contains xs name || same x name)
unfolding contains
contains-snoc xs x name = ground (arith, contains-append xs (x ∷ []) name)

pub contains_known :
    (xs : List Bytes) (x name : Bytes)
    → contains xs x ≡ true
    → contains xs name ≡ (contains xs name || same x name)
contains_known xs x name h = ground (arith, eq_of_same x name)

pub append-IsUnique :
    (xs : List Bytes) (name : Bytes)
    → IsUnique xs
    → contains xs name ≡ false
    → IsUnique (xs ++ name ∷ [])
unfolding contains
append-IsUnique [] name h e = (refl, tt)
append-IsUnique (x ∷ xs) name (fresh, h) e = (
  ground (arith, contains-append xs (name ∷ []) x, same_iff x name, same_iff name x),
  append-IsUnique xs name h (ground arith),
)

pub dedupe-IsUnique :
    (names existing : List Bytes) → IsUnique existing → IsUnique (dedupe existing names)
unfolding dedupe
dedupe-IsUnique [] existing h = h
dedupe-IsUnique (name ∷ names) existing h =
    dedupe-IsUnique names
      (if not (is_empty name) && not (contains existing name)
        then existing ++ name ∷ []
        else existing)
      (elim (Bool-cases (not (is_empty name) && not (contains existing name))) [
        | inl e ↦ rw (e) (append-IsUnique existing name h (ground arith))
        | inr e ↦ rw (e) h
      ])

pub contains-dedupe :
    (existing names : List Bytes) (name : Bytes)
    → contains (dedupe existing names) name
      ≡ (contains existing name || (not (is_empty name) && contains names name))
unfolding dedupe contains
contains-dedupe existing [] name = ground arith
contains-dedupe existing (x ∷ names) name = ground (
  arith,
  contains-dedupe
      (if not (is_empty x) && not (contains existing x) then existing ++ x ∷ [] else existing) names
      name,
  contains-append existing (x ∷ []) name,
  eq_of_same x name,
)

contains-insert :
    (a : Bytes) (l : List Bytes) (name : Bytes)
    → contains (insert less_bytes a l) name ≡ contains (a ∷ l) name
unfolding contains insert
contains-insert a [] name = refl
contains-insert a (b ∷ l) name = ground (arith, contains-insert a l name)

pub contains-sort :
    (l : List Bytes) (name : Bytes) → contains (sort less_bytes l) name ≡ contains l name
unfolding contains sort
contains-sort [] name = refl
contains-sort (a ∷ l) name =
    contains-insert a (sort less_bytes l) name ∙ ground (arith, contains-sort l name)

-- When no tool is in the inventory twice, Declare keeps it so, and makes the attestation list the
-- tools before and the non-empty names declared, and no other.
pub declare-Inventory :
    (names : List Bytes) (g : Governor)
    → IsUnique g.hooked
    → IsUnique (declare names g).hooked
      × ((name : Bytes)
          → contains (attestation (declare names g)).hooked_tools name
            ≡ (contains g.hooked name || (not (is_empty name) && contains names name)))
unfolding declare attestation hooked_tools
declare-Inventory names g h = (
  dedupe-IsUnique names g.hooked h,
  λ name. contains-sort (dedupe g.hooked names) name ∙ contains-dedupe g.hooked names name,
)

-- When no tool is in the inventory twice, registering one keeps it so, tells whether the name was
-- new, and makes the attestation list this tool and the ones before, and no other.
pub register-Inventory :
    (tool : Bytes) (g : Governor)
    → IsUnique g.hooked
    → IsUnique (register tool g).1.hooked
      × ((register tool g).0 ≡ not (contains g.hooked tool))
      × ((name : Bytes)
          → contains (attestation (register tool g).1).hooked_tools name
            ≡ (contains g.hooked name || same tool name))
unfolding register attestation hooked_tools
register-Inventory tool g h = elim (Bool-cases (contains g.hooked tool)) [
  | inl e ↦
      rw (e) (h, refl, λ name. contains-sort g.hooked name ∙ contains_known g.hooked tool name e)
  | inr e ↦ rw (e) (
    append-IsUnique g.hooked tool h e,
    refl,
    λ name. contains-sort (g.hooked ++ tool ∷ []) name ∙ contains-snoc g.hooked tool name,
  )
]
