-- ===== src/Readdir.antt =====
-- file.c: cinq_readdir. The callback `filldir` is a parameter, a function of what it has collected in
-- `dirent` and of the next entry; it says whether it took the entry.
pub mod Listing
pub mod Loop
pub mod Cursor
pub mod Resume
pub mod Position
use cinquain_meta.Common.{
  ℕ, zero, suc, ◌+◌, Bool, true, false, Option, none, some, List, [], ◌∷◌, ◌==◌, if◌then◌else◌,
}
use cinquain_meta.Containers.{Ptr, null, elements, Library}
use cinquain_meta.File.{File}
use cinquain_meta.Memory.{Inode, meta_fs}
use cinquain_meta.Memory.Actions.{
  M, fault, pure, skip, ◌>>=◌, ◌>>◌, tag_at, cnode_at, inode_at, dentry_at, fsnode_at,
}
use cinquain_meta.Vfs.{file_type}
use cinquain_meta.Tag.{i_cnode, inode_meta_root}
use cinquain_meta.Cnode.{cnode_lookup_inode}
use cinquain_meta.Dir.{first, hold_tag, drop_tag, hold_cnode, drop_cnode}

-- the arguments of filldir: name, offset, inode number and type
pub record Dirent : Type 0 where
  pub name : List ℕ
  pub offset : ℕ
  pub ino : ℕ
  pub type : ℕ

abbrev pub dt_type : Inode → ℕ
dt_type i = file_type i.i_mode

abbrev pub dt_dir : ℕ
dt_dir = 4

abbrev pub dot : List ℕ
dot = 0x2e ∷ []

abbrev pub dot_dot : List ℕ
dot_dot = 0x2e ∷ 0x2e ∷ []

-- The elements from the cursor on; `none` where the cursor is not among them.
unfoldable pub from_cursor : Ptr → List Ptr → Option (List Ptr)
from_cursor cursor [] = if cursor == null then some [] else none
from_cursor cursor (p ∷ l) =
    let rest = from_cursor cursor l in
    if cursor == null then some [] else if p == cursor then some (p ∷ l) else rest

parent_ino : Ptr → M ℕ
parent_ino dentry = do
  d ← dentry_at dentry
  p ← dentry_at d.d_parent
  i ← inode_at p.d_inode
  pure i.i_ino

-- the inode number of ".."
unfoldable pub dot_dot_ino : ⦃u : Library⦄ → ℕ → Bool → Ptr → Ptr → Ptr → M ℕ
unfolding parent_ino
dot_dot_ino fuel meta dentry cnode fs = if meta then parent_ino dentry else do
  c ← cnode_at cnode
  parent ← cnode_lookup_inode fuel c.ci_parent fs
  i ← inode_at parent
  pure i.i_ino

-- move_cursor, for a tag and for a cnode, with the elements behind the cursor
abbrev pub move_tag : Ptr → List Ptr → M (Unit {0})
move_tag cur rest = do drop_tag cur; hold_tag (first rest)

abbrev pub move_cnode : Ptr → List Ptr → M (Unit {0})
move_cnode cur rest = do drop_cnode cur; hold_cnode (first rest)

module _ {D : Type 0} (filldir : D → Dirent → D × Bool) where
  -- the loop over the tags of the root: every file system but META_FS
  unfoldable pub fill_tags : D → ℕ → List Ptr → M (D × ℕ × Ptr)
  fill_tags dirent f_pos [] = pure (dirent, f_pos, null)
  fill_tags dirent f_pos (cursor ∷ l) = do
    t ← tag_at cursor
    if t.t_fs == meta_fs then (do move_tag cursor l; fill_tags dirent f_pos l) else (do
      fs ← fsnode_at t.t_fs
      i ← inode_at t.t_inode
      let (dirent', taken) =
          filldir dirent
            (record { name = fs.fs_name; offset = f_pos; ino = i.i_ino; type = dt_dir })
      if taken
          then (do move_tag cursor l; fill_tags dirent' (f_pos + 1) l)
          else pure (dirent', f_pos, cursor))

  module _ ⦃u : Library⦄ where
    -- the loop over the children: those that the file system sees
    unfoldable pub fill_children : ℕ → Ptr → D → ℕ → List Ptr → M (D × ℕ × Ptr)
    fill_children fuel fs dirent f_pos [] = pure (dirent, f_pos, null)
    fill_children fuel fs dirent f_pos (cursor ∷ l) = do
      target ← cnode_lookup_inode fuel cursor fs
      if target == null then (do move_cnode cursor l; fill_children fuel fs dirent f_pos l) else (do
        c ← cnode_at cursor
        i ← inode_at target
        let (dirent', taken) =
            filldir dirent
              (record { name = c.ci_name; offset = f_pos; ino = i.i_ino; type = dt_type i })
        if taken
            then (do move_cnode cursor l; fill_children fuel fs dirent' (f_pos + 1) l)
            else pure (dirent', f_pos, cursor))

    -- the `for` loop, from the cursor on
    unfoldable pub fill_from : ℕ → Bool → Ptr → D → ℕ → Ptr → List Ptr → M (D × ℕ × Ptr)
    unfolding from_cursor fill_tags fill_children
    fill_from fuel meta fs dirent f_pos cursor l = elim (from_cursor cursor l) [
      | none ↦ (λ _. fault)
      | some rest ↦
          if meta then fill_tags dirent f_pos rest else fill_children fuel fs dirent f_pos rest
    ]

    -- the label `default`: a position of 2 takes the cursor to the first element
    unfoldable pub fill_entries : ℕ → Bool → Ptr → Ptr → D → ℕ → Ptr → M (D × ℕ × Ptr)
    unfolding fill_from
    fill_entries fuel meta cnode fs dirent f_pos private_data = do
      c ← cnode_at cnode
      let l = if meta then elements c.ci_tags else elements c.ci_children
      if f_pos == 2
          then (do
            (if meta
                then (do drop_tag private_data; hold_tag (first l))
                else do drop_cnode private_data; hold_cnode (first l))
            fill_from fuel meta fs dirent f_pos (first l) l)
          else fill_from fuel meta fs dirent f_pos private_data l

    -- the label 1
    unfoldable pub fill_dot_dot : ℕ → Bool → Ptr → Ptr → Ptr → D → Ptr → M (D × ℕ × Ptr)
    unfolding dot_dot_ino fill_entries
    fill_dot_dot fuel meta dentry cnode fs dirent private_data = do
      ino ← dot_dot_ino fuel meta dentry cnode fs
      let (dirent', taken) =
          filldir dirent (record { name = dot_dot; offset = 1; ino = ino; type = dt_dir })
      if taken
          then fill_entries fuel meta cnode fs dirent' 2 private_data
          else pure (dirent', 1, private_data)

    -- the label 0
    unfoldable pub fill_dot : ℕ → Bool → Ptr → Ptr → Ptr → Ptr → D → Ptr → M (D × ℕ × Ptr)
    unfolding fill_dot_dot
    fill_dot fuel meta dentry inode cnode fs dirent private_data = do
      i ← inode_at inode
      let (dirent', taken) =
          filldir dirent (record { name = dot; offset = 0; ino = i.i_ino; type = dt_dir })
      if taken
          then fill_dot_dot fuel meta dentry cnode fs dirent' private_data
          else pure (dirent', 0, private_data)

    unfoldable pub cinq_readdir : ℕ → File → D → M (D × File)
    unfolding i_cnode inode_meta_root fill_dot fill_dot_dot fill_entries
    cinq_readdir fuel filp dirent = do
      d ← dentry_at filp.f_dentry
      cnode ← i_cnode d.d_inode
      meta ← inode_meta_root d.d_inode
      (dirent', f_pos, cursor) ←
          (if filp.f_pos == 0
            then fill_dot fuel meta filp.f_dentry d.d_inode cnode d.d_fsdata dirent
                filp.private_data
            else if filp.f_pos == 1
            then fill_dot_dot fuel meta filp.f_dentry cnode d.d_fsdata dirent filp.private_data
            else fill_entries fuel meta cnode d.d_fsdata dirent filp.f_pos filp.private_data)
      pure (dirent', record filp { f_pos = f_pos; private_data = cursor })
