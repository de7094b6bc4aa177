-- ===== src/Readdir/Cursor.antt =====
-- The cursor of an open directory: an element of the table's list, or NULL behind the last.
use cinquain_meta.Common.{
  ◌≡◌, ◌≢◌, refl, subst, ◌∙◌, ap, inl, inr, true, false, some, List, [], ◌∷◌, ◌++◌, ◌==◌, arith,
  Bool-cases,
}
use cinquain_meta.Containers.{Ptr, null, Library}
use cinquain_meta.Memory.{State}
use cinquain_meta.Fsnode.Chain.{elem}
use cinquain_meta.Dir.{first}
use cinquain_meta.Readdir.{from_cursor}
use cinquain_meta.Readdir.Listing.{AllVisitable}
use cinquain_meta.Readdir.Loop.{Suffix}

-- no element twice
abbrev pub Distinct : List Ptr → Type 0
Distinct [] = Unit
Distinct (p ∷ l) = (elem p l ≡ false) × Distinct l

elem-append : (p : Ptr) (before rest : List Ptr) → elem p (before ++ p ∷ rest) ≡ true
elem-append p [] rest = ground arith
elem-append p (q ∷ before) rest = ground (arith, elem-append p before rest)

pub from_cursor-null : (l : List Ptr) → from_cursor null l ≡ some []
unfolding from_cursor
from_cursor-null [] = refl
from_cursor-null (p ∷ l) = refl

-- The cursor at an element leads back to the list from that element on.
from_cursor-member :
    (before : List Ptr) (p : Ptr) (rest : List Ptr)
    → Distinct (before ++ p ∷ rest)
    → p ≢ null
    → from_cursor p (before ++ p ∷ rest) ≡ some (p ∷ rest)
unfolding from_cursor
from_cursor-member [] p rest d ne = ground arith
from_cursor-member (q ∷ before) p rest d ne =
    ground (arith, from_cursor-member before p rest d.1, elem-append p before rest)

append_nil : (l : List Ptr) → l ≡ l ++ []
append_nil [] = refl
append_nil (p ∷ l) = ap (λ (m : List Ptr). p ∷ m) (append_nil l)

append_assoc : (a b c : List Ptr) → a ++ (b ++ c) ≡ (a ++ b) ++ c
append_assoc [] b c = refl
append_assoc (p ∷ a) b c = ap (λ (m : List Ptr). p ∷ m) (append_assoc a b c)

pub Suffix-trans : (l m n : List Ptr) → Suffix m l → Suffix n m → Suffix n l
Suffix-trans l m n (a, e) (b, e') =
    (a ++ b, e ∙ ap (λ (k : List Ptr). a ++ k) e' ∙ append_assoc a b n)

some_inj : {l m : List Ptr} → some l ≡ some m → l ≡ m
some_inj e = cc

pub from_cursor-Suffix :
    (cursor : Ptr) (l rest : List Ptr) → from_cursor cursor l ≡ some rest → Suffix rest l
unfolding from_cursor
from_cursor-Suffix cursor [] rest e = elim (Bool-cases (cursor == null)) [
  | inl end ↦ ([], ground arith)
  | inr lost ↦ absurd (ground arith)
]
from_cursor-Suffix cursor (p ∷ l) rest e = elim (Bool-cases (cursor == null)) [
  | inl end ↦
      let none_left : [] ≡ rest = ground arith in
      (p ∷ l, append_nil (p ∷ l) ∙ ap (λ (m : List Ptr). (p ∷ l) ++ m) none_left)
  | inr on ↦ elim (Bool-cases (p == cursor)) [
    | inl here ↦ let all_left : p ∷ l ≡ rest = ground arith in ([], all_left)
    | inr further ↦
        let later : from_cursor cursor l ≡ some rest = ground arith in
        let (before, e') = from_cursor-Suffix cursor l rest later in
        (p ∷ before, ap (λ (m : List Ptr). p ∷ m) e')
  ]
]

module _ ⦃u : Library⦄ (s : State) (path : List Ptr) where
  pub AllVisitable-Suffix :
      (before rest : List Ptr) → AllVisitable s path (before ++ rest) → AllVisitable s path rest
  AllVisitable-Suffix [] rest all = all
  AllVisitable-Suffix (p ∷ before) rest all = AllVisitable-Suffix before rest all.1

  -- The first element of a suffix is NULL at the end, and an element elsewhere, which is not NULL.
  pub from_cursor-first :
      (l rest : List Ptr)
      → Distinct l
      → AllVisitable s path l
      → Suffix rest l
      → from_cursor (first rest) l ≡ some rest
  from_cursor-first l [] d all (before, e) = from_cursor-null l
  from_cursor-first l (p ∷ rest) d all (before, e) =
      let all' = AllVisitable-Suffix before (p ∷ rest) (subst (AllVisitable s path) e all) in
      rw e (from_cursor-member before p rest (subst Distinct e d) all'.0.0)
