-- ===== src/Memory/Actions.antt =====
-- Actions on the memory: what a C function does, with faults and divergence as outcomes.
use cinquain_meta.Common.{ℕ, ◌+◌, ◌-◌, Option, none, some, List, [], ◌∷◌, ◌==◌, if◌then◌else◌}
use cinquain_meta.Containers.{Ptr, null}
use cinquain_meta.Memory.{Fsnode, Tag, Cnode, Inode, Dentry, State}

-- `fault` is an access through a bad pointer; `diverges` that the rounds given to a loop ran out.
pub data Run (A : Type 0) : Type 0 where
  ret : A → State → Run A
  fault : Run A
  diverges : Run A

abbrev pub M : Type 0 → Type 0
M A = State → Run A

abbrev pub pure : {A : Type 0} → A → M A
pure = ret

module _ {A B : Type 0} where
  abbrev pub and_then : Run A → (A → M B) → Run B
  and_then (ret a s) k = k a s
  and_then fault k = fault
  and_then diverges k = diverges

  infixl 5 ◌>>=◌ ◌>>◌
  abbrev pub ◌>>=◌ : M A → (A → M B) → M B
  m >>= k = λ s. and_then (m s) k

  abbrev pub ◌>>◌ : M A → M B → M B
  m >> n = m >>= λ _. n

abbrev pub skip : M (Unit {0})
skip = pure tt

abbrev pub update : {A : Type 0} → (Ptr → Option A) → Ptr → Option A → Ptr → Option A
update f p v q = if p == q then v else f q

abbrev pub found : {A : Type 0} → Option A → M A
found none s = fault
found (some a) s = ret a s

-- *p, for each kind of structure
abbrev pub fsnode_at : Ptr → M Fsnode
fsnode_at p s = found (s.fsnodes p) s

abbrev pub tag_at : Ptr → M Tag
tag_at p s = found (s.tags p) s

abbrev pub cnode_at : Ptr → M Cnode
cnode_at p s = found (s.cnodes p) s

abbrev pub inode_at : Ptr → M Inode
inode_at p s = found (s.inodes p) s

abbrev pub dentry_at : Ptr → M Dentry
dentry_at p s = found (s.dentries p) s

-- the raw writes: `some v` fills the address, `none` frees it
abbrev pub store_fsnode : Ptr → Option Fsnode → M (Unit {0})
store_fsnode p v s = ret tt (record s { fsnodes = update s.fsnodes p v })

abbrev pub store_tag : Ptr → Option Tag → M (Unit {0})
store_tag p v s = ret tt (record s { tags = update s.tags p v })

abbrev pub store_cnode : Ptr → Option Cnode → M (Unit {0})
store_cnode p v s = ret tt (record s { cnodes = update s.cnodes p v })

abbrev pub store_inode : Ptr → Option Inode → M (Unit {0})
store_inode p v s = ret tt (record s { inodes = update s.inodes p v })

abbrev pub store_dentry : Ptr → Option Dentry → M (Unit {0})
store_dentry p v s = ret tt (record s { dentries = update s.dentries p v })

-- p->field = ..., a fault where there is no such structure
abbrev pub set_fsnode : Ptr → (Fsnode → Fsnode) → M (Unit {0})
set_fsnode p f = do v ← fsnode_at p; store_fsnode p (some (f v))

abbrev pub set_tag : Ptr → (Tag → Tag) → M (Unit {0})
set_tag p f = do v ← tag_at p; store_tag p (some (f v))

abbrev pub set_cnode : Ptr → (Cnode → Cnode) → M (Unit {0})
set_cnode p f = do v ← cnode_at p; store_cnode p (some (f v))

abbrev pub set_inode : Ptr → (Inode → Inode) → M (Unit {0})
set_inode p f = do v ← inode_at p; store_inode p (some (f v))

abbrev pub set_dentry : Ptr → (Dentry → Dentry) → M (Unit {0})
set_dentry p f = do v ← dentry_at p; store_dentry p (some (f v))

-- free(p) of an inode, a fault where there is none
abbrev pub free_inode : Ptr → M (Unit {0})
free_inode p = do inode_at p; store_inode p none

-- a loop over the elements of a list
unfoldable pub for_each : (Ptr → M (Unit {0})) → List Ptr → M (Unit {0})
for_each body [] = skip
for_each body (p ∷ l) = do body p; for_each body l

-- malloc and kmem_cache_alloc: a new address, or NULL
abbrev pub malloc : M Ptr
malloc s =
    if s.avail == 0
    then ret null s
    else ret s.brk (record s { brk = s.brk + 1; avail = s.avail - 1 })

-- CURRENT_TIME
abbrev pub current_time : M ℕ
current_time s = ret s.now s

abbrev pub gets : {A : Type 0} → (State → A) → M A
gets f s = ret (f s) s

-- The memory that a run leaves; the one it began with, where it does not end.
abbrev pub left_by : {A : Type 0} → State → Run A → State
left_by s (ret a s') = s'
left_by s _ = s
