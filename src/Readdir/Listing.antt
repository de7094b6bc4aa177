-- ===== src/Readdir/Listing.antt =====
-- The entries of a directory that a file system sees, in the order of the table, and cinq_readdir's
-- loop over them.
use cinquain_meta.Common.{
  ℕ, ◌+◌, ◌≡◌, ◌≢◌, refl, ◌∙◌, ap, ◌⊎◌, Bool, Option, none, some, List, [], ◌∷◌, ◌++◌, ◌==◌,
  if◌then◌else◌, arith, inc32, dec32,
}
use cinquain_meta.Containers.{Ptr, null, by_ptr, Library}
use cinquain_meta.Memory.{State, Cnode, Tag, Inode}
use cinquain_meta.Memory.Actions.{ret, update}
use cinquain_meta.Cnode.Nearest.{nearest, inode_of}
use cinquain_meta.Dir.{drop_cnode, hold_cnode}
use cinquain_meta.Readdir.{Dirent, dt_type, move_cnode}

abbrev pub Cnodes : Type 0
Cnodes = Ptr → Option Cnode

-- a cnode but for its count of open directories
abbrev pub uncounted : Option Cnode → Option Cnode
uncounted none = none
uncounted (some c) = some (record c { ci_count = 0 })

abbrev pub SameCnodes : Cnodes → Cnodes → Type 0
SameCnodes g h = (q : Ptr) → uncounted (g q) ≡ uncounted (h q)

-- an entry before it has an offset
pub record Entry : Type 0 where
  pub name : List ℕ
  pub ino : ℕ
  pub type : ℕ

abbrev pub entry_of : Cnode → Inode → Entry
entry_of c i = record { name = c.ci_name; ino = i.i_ino; type = dt_type i }

-- What filldir makes of a list of entries: the last `dirent`, the next offset, and the entries that
-- are left, from the first that it does not take.
module _ {D : Type 0} (filldir : D → Dirent → D × Bool) where
  abbrev pub offer : D → ℕ → Entry → D × Bool
  offer dirent f_pos e =
      filldir dirent (record { name = e.name; offset = f_pos; ino = e.ino; type = e.type })

  abbrev pub fill : D → ℕ → List Entry → D × ℕ × List Entry
  fill dirent f_pos [] = (dirent, f_pos, [])
  fill dirent f_pos (e ∷ l) =
      let taken = offer dirent f_pos e in
      let rest = fill taken.0 (f_pos + 1) l in if taken.1 then rest else (taken.0, f_pos, e ∷ l)

module _ ⦃u : Library⦄ (s : State) (path : List Ptr) where
  -- the inode that the file system with this chain of ancestors sees at a cnode
  abbrev pub seen_at : Cnode → Ptr
  seen_at c = inode_of s (nearest (λ fs. u.find (by_ptr fs) c.ci_tags) path)

  abbrev pub entry_at : Option Cnode → List Entry
  entry_at none = []
  entry_at (some c) =
      if seen_at c == null
      then []
      else elim (s.inodes (seen_at c)) [ none ↦ [] | some i ↦ entry_of c i ∷ [] ]

  -- the entries of a list of cnodes
  abbrev pub listing : List Ptr → List Entry
  listing [] = []
  listing (p ∷ l) = entry_at (s.cnodes p) ++ listing l

  -- A cnode that a walk over the children may meet: its tags are tags, the inode seen is one.
  abbrev pub Visitable : Ptr → Type 0
  Visitable p =
      (p ≢ null)
      × (c : Cnode) × (s.cnodes p ≡ some c)
      × ((fs : Ptr)
          → u.find (by_ptr fs) c.ci_tags ≢ null
          → (t : Tag) × (s.tags (u.find (by_ptr fs) c.ci_tags) ≡ some t))
      × ((seen_at c ≡ null) ⊎ ((seen_at c ≢ null) × (i : Inode) × (s.inodes (seen_at c) ≡ some i)))

  abbrev pub AllVisitable : List Ptr → Type 0
  AllVisitable [] = Unit
  AllVisitable (p ∷ l) = Visitable p × AllVisitable l

module _ (s : State) where
  -- the memory with other cnodes
  abbrev pub with_cnodes : Cnodes → State
  with_cnodes g = record s { cnodes = g }

  counted_of :
      (o : Option Cnode) (c : Cnode)
      → uncounted o ≡ uncounted (some c)
      → (n : ℕ) × (o ≡ some (record c { ci_count = n }))
  counted_of none c e = absurd (ground arith)
  counted_of (some d) c e = (d.ci_count, ground arith)

  pub counted :
      (g h : Cnodes) (p : Ptr) (c : Cnode)
      → SameCnodes g h
      → h p ≡ some c
      → (n : ℕ) × (g p ≡ some (record c { ci_count = n }))
  counted g h p c same at = counted_of (g p) c (same p ∙ ap uncounted at)

  pub SameCnodes-trans : (f g h : Cnodes) → SameCnodes f g → SameCnodes g h → SameCnodes f h
  SameCnodes-trans f g h same same' q = same q ∙ same' q

  pub drop_cnode-run :
      (g : Cnodes) (p : Ptr) (c : Cnode)
      → p ≢ null
      → g p ≡ some c
      → (g' : Cnodes) × (drop_cnode p (with_cnodes g) ≡ ret tt (with_cnodes g')) × SameCnodes g' g
  drop_cnode-run g p c ne at = (
    update g p (some (record c { ci_count = dec32 c.ci_count })),
    ground arith,
    λ q. ground arith,
  )

  pub hold_cnode-run :
      (g : Cnodes) (p : Ptr) (c : Cnode)
      → p ≢ null
      → g p ≡ some c
      → (g' : Cnodes) × (hold_cnode p (with_cnodes g) ≡ ret tt (with_cnodes g')) × SameCnodes g' g
  hold_cnode-run g p c ne at = (
    update g p (some (record c { ci_count = inc32 c.ci_count })),
    ground arith,
    λ q. ground arith,
  )

  -- move_cursor from a cnode to the one behind it, if there is one
  pub move_cnode-run :
      ⦃u : Library⦄ (path : List Ptr) (g : Cnodes) (p : Ptr) (l : List Ptr)
      → SameCnodes g s.cnodes
      → AllVisitable s path (p ∷ l)
      → (g' : Cnodes) × (move_cnode p l (with_cnodes g) ≡ ret tt (with_cnodes g'))
        × SameCnodes g' s.cnodes
  move_cnode-run path g p [] same ((ne, c, at, _, _), _) =
      let (n, at') = counted g s.cnodes p c same at in
      let (g1, ran, same1) = drop_cnode-run g p (record c { ci_count = n }) ne at' in
      (g1, rw ran refl, SameCnodes-trans g1 g s.cnodes same1 same)
  move_cnode-run path g p (r ∷ l) same ((ne, c, at, _, _), ((ne', d, at_r, _, _), _)) =
      let (n, at') = counted g s.cnodes p c same at in
      let (g1, ran1, same1) = drop_cnode-run g p (record c { ci_count = n }) ne at' in
      let all1 = SameCnodes-trans g1 g s.cnodes same1 same in
      let (m, at_r') = counted g1 s.cnodes r d all1 at_r in
      let (g2, ran2, same2) = hold_cnode-run g1 r (record d { ci_count = m }) ne' at_r' in
      (g2, rw ran1 ran2, SameCnodes-trans g2 g1 s.cnodes same2 all1)
