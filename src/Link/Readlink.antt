-- ===== src/Link/Readlink.antt =====
-- generic_readlink of vfs.c, with vfs_readlink_ and nd_get_link of vfs.h. A buffer is a function from
-- its indices to bytes; `buflen` is the bit pattern of an `int`.
use cinquain_meta.Common.{
  ℕ, zero, suc, ◌<◌, ◌≤◌, ◌≡◌, refl, Option, none, some, List, [], ◌∷◌, ltb, if◌then◌else◌, arith,
  length,
}
use cinquain_meta.Containers.{Ptr}
use cinquain_meta.Memory.{
  State, Dentry, Inode, Tag, InodeOperations, empty_iops, dir_iops, file_iops, symlink_iops,
}
use cinquain_meta.Memory.Actions.{M, ret, fault, pure, ◌>>=◌, inode_at, dentry_at}
use cinquain_meta.Tag.{i_tag}
use cinquain_meta.Link.{cinq_follow_link}

-- link[j]
abbrev pub byte_at : List ℕ → ℕ → ℕ
byte_at [] j = 0
byte_at (c ∷ link) zero = c
byte_at (c ∷ link) (suc j) = byte_at link j

-- strncpy(buffer, link, len), for a `len` that is at most the length of the string
abbrev pub strncpy : (ℕ → ℕ) → List ℕ → ℕ → ℕ → ℕ
strncpy buffer link len j = if ltb j len then byte_at link j else buffer j

-- strlen of a link that is NULL is a fault.
unfoldable pub vfs_readlink : (ℕ → ℕ) → ℕ → Option (List ℕ) → M (ℕ × (ℕ → ℕ))
vfs_readlink buffer buflen none = λ _. fault
vfs_readlink buffer buflen (some link) =
    let len = if ltb buflen (length link) then buflen else length link in
    pure (len, strncpy buffer link len)

-- i_op->follow_link, and the link that nd_get_link then gives; a call through NULL where there is none
abbrev pub follow_link_of : InodeOperations → Ptr → M (Option (List ℕ))
follow_link_of empty_iops dentry = λ _. fault
follow_link_of dir_iops dentry = λ _. fault
follow_link_of file_iops dentry = λ _. fault
follow_link_of symlink_iops dentry = cinq_follow_link dentry

-- The cookie is NULL, and there is no put_link.
unfoldable pub generic_readlink : Ptr → (ℕ → ℕ) → ℕ → M (ℕ × (ℕ → ℕ))
unfolding cinq_follow_link vfs_readlink
generic_readlink dentry buffer buflen = do
  d ← dentry_at dentry
  i ← inode_at d.d_inode
  link ← follow_link_of i.i_op dentry
  vfs_readlink buffer buflen link

strncpy-byte_at :
    (buffer : ℕ → ℕ) (link : List ℕ) (len j : ℕ)
    → j < len
    → strncpy buffer link len j ≡ byte_at link j
strncpy-byte_at buffer link len j h = ground arith

strncpy_rest :
    (buffer : ℕ → ℕ) (link : List ℕ) (len j : ℕ) → len ≤ j → strncpy buffer link len j ≡ buffer j
strncpy_rest buffer link len j h = ground arith

-- generic_readlink of a symbolic link with a target ends with no fault and returns the number of bytes
-- that it wrote: at most `buflen` as an unsigned number, and fewer only if they are all of the target.
-- They are the first of the target, no other byte of the buffer changes, and the memory does not.
pub generic_readlink-byte_at :
    (s : State) (dentry : Ptr) (d : Dentry) (i : Inode) (t : Tag) (link : List ℕ) (buffer : ℕ → ℕ)
    (buflen : ℕ)
    → s.dentries dentry ≡ some d
    → s.inodes d.d_inode ≡ some i
    → i.i_op ≡ symlink_iops
    → s.tags i.i_ino ≡ some t
    → t.t_symname ≡ some link
    → (n : ℕ) × (buffer' : ℕ → ℕ) × (generic_readlink dentry buffer buflen s ≡ ret (n, buffer') s)
      × (n ≤ buflen)
      × (n < buflen → n ≡ length link)
      × ((j : ℕ) → j < n → buffer' j ≡ byte_at link j)
      × ((j : ℕ) → n ≤ j → buffer' j ≡ buffer j)
unfolding generic_readlink cinq_follow_link vfs_readlink i_tag
generic_readlink-byte_at s dentry d i t link buffer buflen at_d at_i op at_t target =
    let n = if ltb buflen (length link) then buflen else length link in
    (
      n,
      strncpy buffer link n,
      rw (at_d, at_i, op, at_d, at_i, at_t, target) refl,
      ground arith,
      λ less. ground arith,
      strncpy-byte_at buffer link n,
      strncpy_rest buffer link n,
    )
