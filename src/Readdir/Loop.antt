-- ===== src/Readdir/Loop.antt =====
-- cinq_readdir's loop over the children of a directory against the list of their entries.
use cinquain_meta.Common.{
  ℕ, ◌+◌, ◌<◌, ◌≡◌, ◌≢◌, refl, sym, subst, ◌∙◌, ap, inl, inr, Bool, true, false, some, List, [],
  ◌∷◌, ◌++◌, ◌==◌, arith, length, Bool-cases,
}
use cinquain_meta.Containers.{Ptr, null, Library}
use cinquain_meta.Memory.{State, Cnode, Inode}
use cinquain_meta.Memory.Actions.{ret}
use cinquain_meta.Fsnode.Chain.{parent_of, Chain}
use cinquain_meta.Cnode.{cnode_lookup_inode}
use cinquain_meta.Cnode.Nearest.{lookup-nearest}
use cinquain_meta.Dir.{first}
use cinquain_meta.Readdir.{Dirent, fill_children}
use cinquain_meta.Readdir.Listing.{
  Cnodes, SameCnodes, Entry, entry_of, offer, fill, seen_at, listing, AllVisitable, with_cnodes,
  counted, move_cnode-run,
}

-- The elements of a list from `p` on are `rest`.
abbrev pub Suffix : List Ptr → List Ptr → Type 0
Suffix rest l = (before : List Ptr) × (l ≡ before ++ rest)

module _ ⦃u : Library⦄ {D : Type 0} (filldir : D → Dirent → D × Bool) (s : State) (fs : Ptr)
    (path : List Ptr) (ch : Chain (parent_of s) fs path) (fuel : ℕ)
    (enough : length path < fuel) where
  -- The loop over `l` stops where `fill` stops over `es`, with what `fill` gives, and with the cursor
  -- at a cnode from which on the entries are those that are left.
  abbrev pub Outcome : Cnodes → D → ℕ → List Ptr → List Entry → Type 0
  Outcome g dirent f_pos l es =
      let f = fill filldir dirent f_pos es in
      (g' : Cnodes) × (rest : List Ptr) × (fill_children filldir fuel fs dirent f_pos l
          (with_cnodes s g)
        ≡ ret (f.0, f.1, first rest) (with_cnodes s g'))
      × SameCnodes g' s.cnodes
      × Suffix rest l
      × (listing s path rest ≡ f.2)

  hidden_step :
      (g : Cnodes) (dirent : D) (f_pos : ℕ) (p : Ptr) (l : List Ptr)
      → SameCnodes g s.cnodes
      → AllVisitable s path (p ∷ l)
      → cnode_lookup_inode fuel p fs (with_cnodes s g) ≡ ret null (with_cnodes s g)
      → ((g1 : Cnodes) → SameCnodes g1 s.cnodes → Outcome g1 dirent f_pos l (listing s path l))
      → Outcome g dirent f_pos (p ∷ l) (listing s path l)
  unfolding fill_children
  hidden_step g dirent f_pos p l same all looked next =
      let (g1, moved, same1) = move_cnode-run s path g p l same all in
      let (g2, rest, ran, same2, (before, e), left) = next g1 same1 in
      (g2, rest, rw (looked, moved) ran, same2, (p ∷ before, ap (λ (m : List Ptr). p ∷ m) e), left)

  module _ (g : Cnodes) (dirent : D) (f_pos : ℕ) (p : Ptr) (l : List Ptr) (c : Cnode) (n : ℕ)
      (i : Inode) (same : SameCnodes g s.cnodes) (all : AllVisitable s path (p ∷ l))
      (at : g p ≡ some (record c { ci_count = n })) (ne : seen_at s path c ≢ null)
      (at_i : s.inodes (seen_at s path c) ≡ some i)
      (looked : cnode_lookup_inode fuel p fs (with_cnodes s g)
        ≡ ret (seen_at s path c) (with_cnodes s g)) where
    taken_step :
        (offer filldir dirent f_pos (entry_of c i)).1 ≡ true
        → ((g1 : Cnodes)
            → SameCnodes g1 s.cnodes
            → Outcome g1
                (offer filldir dirent f_pos (entry_of c i)).0
                (f_pos + 1)
                l
                (listing s path l))
        → Outcome g dirent f_pos (p ∷ l) (entry_of c i ∷ listing s path l)
    unfolding fill_children
    taken_step took next =
        let (g1, moved, same1) = move_cnode-run s path g p l same all in
        let (g2, rest, ran, same2, (before, e), left) = next g1 same1 in
        let visible : (seen_at s path c == null) ≡ false = ground arith in
        rw took (
          g2,
          rest,
          rw (looked, visible, at, at_i, took, moved) ran,
          same2,
          (p ∷ before, ap (λ (m : List Ptr). p ∷ m) e),
          left,
        )

    refused_step :
        (offer filldir dirent f_pos (entry_of c i)).1 ≡ false
        → listing s path (p ∷ l) ≡ entry_of c i ∷ listing s path l
        → Outcome g dirent f_pos (p ∷ l) (entry_of c i ∷ listing s path l)
    unfolding fill_children
    refused_step refused entries =
        let visible : (seen_at s path c == null) ≡ false = ground arith in
        rw refused
          (g, p ∷ l, rw (looked, visible, at, at_i, refused) refl, same, ([], refl), entries)

  -- The loop, over any list of cnodes that it can visit.
  pub children-Outcome :
      (g : Cnodes) (dirent : D) (f_pos : ℕ) (l : List Ptr)
      → SameCnodes g s.cnodes
      → AllVisitable s path l
      → Outcome g dirent f_pos l (listing s path l)
  unfolding fill_children
  children-Outcome g dirent f_pos [] same all = (g, [], refl, same, ([], refl), refl)
  children-Outcome g dirent f_pos (p ∷ l) same ((p_ne, c, at, live, seen), more) =
      let all : AllVisitable s path (p ∷ l) = ((p_ne, c, at, live, seen), more) in
      let (n, at_g) = counted s g s.cnodes p c same at in
      let looked =
        lookup-nearest (with_cnodes s g) p (record c { ci_count = n }) at_g fuel fs path ch enough
          live in
      elim seen [
        | inl hidden ↦
            let shut : (seen_at s path c == null) ≡ true = ground arith in
            let entries : listing s path (p ∷ l) ≡ listing s path l = rw (at, shut) refl in
            subst (λ es. Outcome g dirent f_pos (p ∷ l) es) (sym entries)
              (hidden_step g dirent f_pos p l same all
                (looked ∙ ap (λ v. ret v (with_cnodes s g)) hidden)
                (λ g1 same1. children-Outcome g1 dirent f_pos l same1 more))
        | inr (ne, i, at_i) ↦
            let shown : (seen_at s path c == null) ≡ false = ground arith in
            let entries : listing s path (p ∷ l) ≡ entry_of c i ∷ listing s path l =
              rw (at, shown, at_i) refl in
            subst (λ es. Outcome g dirent f_pos (p ∷ l) es) (sym entries)
              (elim (Bool-cases (offer filldir dirent f_pos (entry_of c i)).1) [
                | inl took ↦
                    taken_step g dirent f_pos p l c n i same all at_g ne at_i looked took
                      (λ g1 same1.
                        children-Outcome g1 (offer filldir dirent f_pos (entry_of c i)).0
                          (f_pos + 1) l same1 more)
                | inr refused ↦
                    refused_step g dirent f_pos p l c n i same all at_g ne at_i looked refused
                      entries
              ])
      ]
