-- ===== src/Containers.antt =====
-- The containers that the program embeds in its structures: the hash tables of uthash.h and the
-- doubly linked lists of list.h. Both are copies of other projects' code that this one only calls,
-- so their operations are parameters, with the documented behaviour as laws.
--
-- A table is what its `head` leads to: the elements in application order, each with its key. A list
-- is the nodes behind its `list_head`, first to last.
pub mod Laws
use cinquain_meta.Common.{
  ℕ, ◌≡◌, ◌≢◌, Bool, true, false, List, [], ◌∷◌, ◌++◌, ◌==◌, if◌then◌else◌, str_eq,
}

abbrev pub Ptr : Type 0
Ptr = ℕ

abbrev pub null : Ptr
null = 0

-- A key is the pointer, or the string of bytes, that a `keyptr` and a `keylen` name.
pub data Key : Type 0 where
  by_ptr : Ptr → Key
  by_str : List ℕ → Key

abbrev pub key_eq : Key → Key → Bool
key_eq (by_ptr p) (by_ptr q) = p == q
key_eq (by_str s) (by_str t) = str_eq s t
key_eq _ _ = false

abbrev pub Table : Type 0
Table = List (Key × Ptr)

-- The element with a key, NULL where there is none.
unfoldable pub assoc : Key → Table → Ptr
assoc k [] = null
assoc k ((j, p) ∷ t) = if key_eq j k then p else assoc k t

unfoldable pub without : Ptr → Table → Table
without p [] = []
without p ((j, q) ∷ t) = let rest = without p t in if q == p then rest else (j, q) ∷ rest

-- HASH_ITER and the walk along `hh.next`: the elements in application order.
abbrev pub elements : Table → List Ptr
elements [] = []
elements ((_, p) ∷ t) = p ∷ elements t

-- No element is NULL, and no two have the same key: uthash demands it of its callers.
abbrev pub IsTable : Table → Type 0
IsTable [] = Unit
IsTable ((k, p) ∷ t) = (p ≢ null) × (assoc k t ≡ null) × IsTable t

abbrev pub remove : Ptr → List Ptr → List Ptr
remove p [] = []
remove p (q ∷ l) = let rest = remove p l in if q == p then l else q ∷ rest

-- What uthash documents: an element is added at the end of the application order, deletion takes
-- the element out of it, and a search finds the element that has the key. And what list.h does:
-- list_add puts a node in front, list_add_tail at the end, and list_del takes one out.
pub record Library : Type 0 where
  pub find : Key → Table → Ptr
  pub add : Key → Ptr → Table → Table
  pub delete : Ptr → Table → Table
  pub list_add : Ptr → List Ptr → List Ptr
  pub list_add_tail : Ptr → List Ptr → List Ptr
  pub list_del : Ptr → List Ptr → List Ptr
  pub find_lem : (k : Key) (t : Table) → IsTable t → find k t ≡ assoc k t
  pub add_lem : (k : Key) (p : Ptr) (t : Table) → add k p t ≡ t ++ (k, p) ∷ []
  pub delete_lem : (p : Ptr) (t : Table) → IsTable t → delete p t ≡ without p t
  pub list_add_lem : (p : Ptr) (l : List Ptr) → list_add p l ≡ p ∷ l
  pub list_add_tail_lem : (p : Ptr) (l : List Ptr) → list_add_tail p l ≡ l ++ p ∷ []
  pub list_del_lem : (p : Ptr) (l : List Ptr) → list_del p l ≡ remove p l
