-- ===== src/Govern/Toolset.antt =====
-- The inventory as a set of names (govern/governor.go: Declare, register, HookedTools, Attestation).
use mitrity_go.Base.{
  fun_ext, Bool, true, false, not, ◌&&◌, ◌||◌, Bytes, List, [], ◌∷◌, ◌≡◌, refl, sym, ap, ◌∙◌, arith,
  same, same_iff, same_refl, eq_of_same, is_empty, Bool-cases, inl, inr, if◌then◌else◌,
}
use mitrity_go.Std.Sort.{insert, sort, less_bytes}
use mitrity_go.Std.Sort.Laws.{less_bytes-IsStrict, less_bytes_total, insert-insert}
use mitrity_go.Govern.Governor.{hashed_document, declare, register, hooked_tools, attestation}
use mitrity_go.Govern.State.{Governor, contains}
use mitrity_go.Govern.Inventory.{
  register-Inventory, contains_known, declare-Inventory, IsUnique, contains-dedupe, contains-snoc,
}

-- The same names.
abbrev pub SameTools : List Bytes → List Bytes → Type 0
SameTools xs ys = (name : Bytes) → contains xs name ≡ contains ys name

remove : Bytes → List Bytes → List Bytes
remove x [] = []
remove x (y ∷ ys) = if same y x then remove x ys else y ∷ remove x ys

contains-remove :
    (x : Bytes) (ys : List Bytes) (name : Bytes)
    → contains (remove x ys) name ≡ (contains ys name && not (same x name))
unfolding contains remove
contains-remove x [] name = refl
contains-remove x (y ∷ ys) name =
    ground (arith, contains-remove x ys name, same_iff x name, same_iff y x, same_iff y name)

remove-IsUnique : (x : Bytes) (ys : List Bytes) → IsUnique ys → IsUnique (remove x ys)
unfolding remove
remove-IsUnique x [] h = h
remove-IsUnique x (y ∷ ys) (fresh, h) = elim (Bool-cases (same y x)) [
  | inl e ↦ rw (e) (remove-IsUnique x ys h)
  | inr e ↦ rw (e) (ground (arith, contains-remove x ys y), remove-IsUnique x ys h)
]

remove_absent : (x : Bytes) (ys : List Bytes) → contains ys x ≡ false → remove x ys ≡ ys
unfolding contains remove
remove_absent x [] h = refl
remove_absent x (y ∷ ys) h = ground (arith, remove_absent x ys)

sort-remove :
    (x : Bytes) (ys : List Bytes)
    → IsUnique ys
    → contains ys x ≡ true
    → sort less_bytes ys ≡ insert less_bytes x (sort less_bytes (remove x ys))
unfolding contains remove sort
sort-remove x [] u h = cc
sort-remove x (y ∷ ys) (fresh, u) h = elim (Bool-cases (same y x)) [
  | inl e ↦
      let e' = eq_of_same y x e in
      rw (e, remove_absent x ys (ground (arith)))
        (ap (λ z. insert less_bytes z (sort less_bytes ys)) e')
  | inr e ↦ rw (e) (
      ap (insert less_bytes y) (sort-remove x ys u (ground arith))
      ∙ insert-insert less_bytes less_bytes-IsStrict y x (sort less_bytes (remove x ys))
          (less_bytes_total y x e))
]

-- A sorted list of names depends on the set of the names only.
pub sort-SameTools :
    (xs ys : List Bytes)
    → IsUnique xs
    → IsUnique ys
    → SameTools xs ys
    → sort less_bytes xs ≡ sort less_bytes ys
unfolding contains sort
sort-SameTools [] [] u v h = refl
sort-SameTools [] (y ∷ ys) u v h = ground (arith, h y, same_refl y)
sort-SameTools (x ∷ xs) ys (fresh, u) v h =
    ap (insert less_bytes x) (
      sort-SameTools xs (remove x ys) u (remove-IsUnique x ys v)
        (λ name. ground (arith, h name, contains-remove x ys name, same_iff x name)))
    ∙ sym (sort-remove x ys v (ground (arith, h x, same_refl x)))

-- A change of the inventory: a call of Declare, or a tool that is wrapped or called for the first
-- time.
pub data Change : Type 0 where
  declaring : List Bytes → Change
  registering : Bytes → Change

abbrev pub perform : Change → Governor → Governor
perform (declaring names) g = declare names g
perform (registering tool) g = (register tool g).1

abbrev pub perform_all : List Change → Governor → Governor
perform_all [] g = g
perform_all (c ∷ cs) g = perform_all cs (perform c g)

-- The specification: the inventory is a set of names, and a change is a union.
abbrev pub NameSet : Type 0
NameSet = Bytes → Bool

abbrev pub name_set : Governor → NameSet
name_set g name = contains g.hooked name

abbrev pub named : Change → NameSet
named (declaring names) name = not (is_empty name) && contains names name
named (registering tool) name = same tool name

abbrev pub union : NameSet → NameSet → NameSet
union s t name = s name || t name

abbrev pub union_all : List Change → NameSet → NameSet
union_all [] s = s
union_all (c ∷ cs) s = union_all cs (union s (named c))

perform-IsUnique : (c : Change) (g : Governor) → IsUnique g.hooked → IsUnique (perform c g).hooked
perform-IsUnique (declaring names) g h = (declare-Inventory names g h).0
perform-IsUnique (registering tool) g h = (register-Inventory tool g h).0

name_set-perform :
    (c : Change) (g : Governor) → name_set (perform c g) ≡ union (name_set g) (named c)
unfolding declare register
name_set-perform (declaring names) g = fun_ext (λ name. contains-dedupe g.hooked names name)
name_set-perform (registering tool) g = elim (Bool-cases (contains g.hooked tool)) [
  | inl e ↦ rw (e, perform) (fun_ext (λ name. contains_known g.hooked tool name e))
  | inr e ↦ rw (e, perform) (fun_ext (λ name. contains-snoc g.hooked tool name))
]

perform_hooked :
    (c : Change) (g : Governor) → perform c g ≡ record g { hooked = (perform c g).hooked }
unfolding declare register
perform_hooked (declaring names) g = refl
perform_hooked (registering tool) g = elim (Bool-cases (contains g.hooked tool)) [
  | inl e ↦ rw (e, perform) refl
  | inr e ↦ rw (e, perform) refl
]

perform_all-IsUnique :
    (cs : List Change) (g : Governor) → IsUnique g.hooked → IsUnique (perform_all cs g).hooked
perform_all-IsUnique [] g h = h
perform_all-IsUnique (c ∷ cs) g h = perform_all-IsUnique cs (perform c g) (perform-IsUnique c g h)

name_set-perform_all :
    (cs : List Change) (g : Governor) → name_set (perform_all cs g) ≡ union_all cs (name_set g)
name_set-perform_all [] g = refl
name_set-perform_all (c ∷ cs) g =
    name_set-perform_all cs (perform c g) ∙ ap (union_all cs) (name_set-perform c g)

perform_all_hooked :
    (cs : List Change) (g : Governor)
    → perform_all cs g ≡ record g { hooked = (perform_all cs g).hooked }
perform_all_hooked [] g = refl
perform_all_hooked (c ∷ cs) g =
    perform_all_hooked cs (perform c g)
    ∙ ap (λ (h : Governor). record h { hooked = (perform_all cs (perform c g)).hooked })
        (perform_hooked c g)

attestation_sorted :
    (g : Governor) (xs ys : List Bytes)
    → sort less_bytes xs ≡ sort less_bytes ys
    → attestation (record g { hooked = xs }) ≡ attestation (record g { hooked = ys })
unfolding attestation hashed_document hooked_tools
attestation_sorted g xs ys h = rw (h) refl

-- The inventory refines a set of names: when no tool is in it twice, after any calls of Declare
-- and register it holds the union of the names before, the tools registered and the non-empty
-- names declared; and two sequences of calls whose unions are equal give equal attestations, the
-- hash included, in whatever order and however often they name a tool.
pub perform_all-NameSet :
    (cs ds : List Change) (g : Governor)
    → IsUnique g.hooked
    → union_all cs (name_set g) ≡ union_all ds (name_set g)
    → (name_set (perform_all cs g) ≡ union_all cs (name_set g))
      × (attestation (perform_all cs g) ≡ attestation (perform_all ds g))
perform_all-NameSet cs ds g u e = (
  name_set-perform_all cs g,
  ap attestation (perform_all_hooked cs g)
      ∙ attestation_sorted g (perform_all cs g).hooked (perform_all ds g).hooked (
          sort-SameTools (perform_all cs g).hooked (perform_all ds g).hooked
            (perform_all-IsUnique cs g u) (perform_all-IsUnique ds g u)
            (λ name.
              ap (λ (t : NameSet). t name)
                (name_set-perform_all cs g ∙ e ∙ sym (name_set-perform_all ds g))))
      ∙ sym (ap attestation (perform_all_hooked ds g)),
)
