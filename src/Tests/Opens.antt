-- ===== src/Tests/Opens.antt =====
-- Open directories and files, at the concrete memory.
use cinquain_meta.Common.{
  ◌≡◌, refl, inl, inr, Bool, true, false, Option, List, [], ◌∷◌, if◌then◌else◌, arith, length, ltb,
}
use cinquain_meta.Containers.{Ptr, assoc}
use cinquain_meta.Containers.Laws.{plain_lists}
use cinquain_meta.File.{File, blank_file}
use cinquain_meta.Memory.{Cnode, meta_fs, dir_fops}
use cinquain_meta.Memory.Actions.{ret}
use cinquain_meta.Readdir.{Dirent, cinq_readdir}
use cinquain_meta.Readdir.Listing.{Entry, Cnodes, SameCnodes, fill, with_cnodes, Visitable}
use cinquain_meta.Readdir.Resume.{OpenDir, Left, at_dot, dot_entry, dot_dot_entry, children}
use cinquain_meta.Readdir.Position.{cinq_readdir-fill}
use cinquain_meta.Dir.{cinq_dir_open, cinq_dir_release, dir_target, cinq_dir_lseek}
use cinquain_meta.Dir.Open.{cinq_dir_open-cinq_dir_release}
use cinquain_meta.Dir.Seek.{Sought, cinq_dir_lseek-Left, cinq_dir_lseek-fault}
use cinquain_meta.Errno.{ok}
use cinquain_meta.Memory.Actions.{fault}
use cinquain_meta.Tests.{
  dir_cnode, dir_dentry, dir_inode, dir_tag, file_cnode, file_inode, file_tag, memory, sub_cnode,
  sub_dentry, sub_inode, sub_tag,
}
use cinquain_meta.Tests.Trees.{way_b}

-- a buffer for three entries
abbrev three : List Dirent → Dirent → List Dirent × Bool
three l d = if ltb (length l) 3 then (d ∷ l, true) else (l, false)

abbrev opened : File
opened = record blank_file { f_dentry = 56; f_op = dir_fops; private_data = 21 }

file_visit : Visitable memory (11 ∷ 10 ∷ []) 21
unfolding assoc
file_visit = (
  omega arith,
  file_cnode,
  refl,
  λ fs found. (file_tag, ground arith),
  inr (omega arith, file_inode, refl),
)

sub_visit : Visitable memory (11 ∷ 10 ∷ []) 22
unfolding assoc
sub_visit = (
  omega arith,
  sub_cnode,
  refl,
  λ fs found. (sub_tag, ground arith),
  inr (omega arith, sub_inode, refl),
)

unfoldable directory : OpenDir memory 56 (11 ∷ 10 ∷ [])
unfolding assoc meta_fs
directory = record {
  entry = dir_dentry;
  inode = dir_inode;
  tag = dir_tag;
  cnode = dir_cnode;
  at_dentry = refl;
  at_inode = refl;
  at_tag = refl;
  plain = omega arith;
  at_cnode = refl;
  above = dir_cnode;
  at_above = refl;
  live = λ fs found. (dir_tag, ground arith);
  above_inode = dir_inode;
  at_above_inode = refl;
  chain = way_b;
  distinct = (refl, (refl, tt));
  visitable = (file_visit, (sub_visit, tt));
}

-- three entries are taken: the dots and `f`
readdir-fill_example :
    (g' : Cnodes) × (cursor : Ptr) × (cinq_readdir three 3 opened [] memory
      ≡ ret
          (
            (fill three [] 0 (
                dot_entry memory 56 (11 ∷ 10 ∷ []) directory
                ∷ dot_dot_entry memory 56 (11 ∷ 10 ∷ []) directory
                ∷ children memory 56 (11 ∷ 10 ∷ []) directory)).0,
            record opened { f_pos = 3; private_data = cursor },
          )
          (with_cnodes memory g'))
    × SameCnodes g' memory.cnodes
    × Left memory 56
        (11 ∷ 10 ∷ [])
        directory
        3
        cursor
        (record { name = 0x64 ∷ []; ino = 34; type = 4 } ∷ [])
unfolding directory assoc
readdir-fill_example =
    cinq_readdir-fill three memory 56 (11 ∷ 10 ∷ []) directory 3 (omega arith) memory.cnodes opened
      []
      (dot_entry memory 56 (11 ∷ 10 ∷ []) directory
        ∷ dot_dot_entry memory 56 (11 ∷ 10 ∷ []) directory
        ∷ children memory 56 (11 ∷ 10 ∷ []) directory)
      (λ q. refl) refl (at_dot refl refl (inr (omega arith, file_cnode, refl)))

-- to the entry behind `f`, and on an empty directory
lseek-Left_example :
    (g' : Cnodes) × (cursor : Ptr) × (es : List Entry) × (cinq_dir_lseek 3 opened 3 0 memory
      ≡ ret (ok (record opened { f_pos = 3; private_data = cursor })) (with_cnodes memory g'))
    × SameCnodes g' memory.cnodes
    × Left memory 56 (11 ∷ 10 ∷ []) directory 3 cursor es
    × Sought memory 56 (11 ∷ 10 ∷ []) directory 1 cursor es
unfolding directory assoc dir_target
lseek-Left_example =
    cinq_dir_lseek-Left memory 56 (11 ∷ 10 ∷ []) directory 3 (omega arith) memory.cnodes opened 3 0
      3 (λ q. refl) refl (inr (omega arith, file_cnode, refl)) (λ e. absurd (ground (arith, e)))
      refl (omega arith) (omega arith)

unfoldable empty_directory : OpenDir memory 54 (11 ∷ 10 ∷ [])
unfolding assoc meta_fs
empty_directory = record {
  entry = sub_dentry;
  inode = sub_inode;
  tag = sub_tag;
  cnode = sub_cnode;
  at_dentry = refl;
  at_inode = refl;
  at_tag = refl;
  plain = omega arith;
  at_cnode = refl;
  above = dir_cnode;
  at_above = refl;
  live = λ fs found. (dir_tag, ground arith);
  above_inode = dir_inode;
  at_above_inode = refl;
  chain = way_b;
  distinct = tt;
  visitable = tt;
}

lseek-fault_example : cinq_dir_lseek 3 (record blank_file { f_dentry = 54 }) 2 0 memory ≡ fault
unfolding empty_directory dir_target
lseek-fault_example =
    cinq_dir_lseek-fault memory 54 (11 ∷ 10 ∷ []) empty_directory 3 (omega arith) memory.cnodes
      (record blank_file { f_dentry = 54 }) 2 0 2 (λ q. refl) refl (inl refl) refl refl refl
      (omega arith) (omega arith)

open-release_example :
    (cursor : Ptr) × (g g' : Ptr → Option Cnode) × (cinq_dir_open opened memory
      ≡ ret (ok (record opened { private_data = cursor })) (with_cnodes memory g))
    × SameCnodes g memory.cnodes
    × Left memory 56 (11 ∷ 10 ∷ []) directory 0 cursor (
        dot_entry memory 56 (11 ∷ 10 ∷ []) directory
        ∷ dot_dot_entry memory 56 (11 ∷ 10 ∷ []) directory
        ∷ children memory 56 (11 ∷ 10 ∷ []) directory)
    × (cinq_dir_release (record opened { private_data = cursor }) (with_cnodes memory g)
        ≡ ret (ok (record opened { private_data = cursor })) (with_cnodes memory g'))
    × ((q : Ptr) → g' q ≡ memory.cnodes q)
unfolding directory
open-release_example =
    cinq_dir_open-cinq_dir_release memory 56 (11 ∷ 10 ∷ []) directory opened refl (omega arith)
      (λ c at. ground (arith, at))
