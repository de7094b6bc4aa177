-- ===== src/Start.antt =====
-- cinq_meta.c: init_cinq_fs and exit_cinq_fs, the start and the end of the kernel module, with the
-- caches of cnode.c and fsnode.c that they make and destroy.
--
-- What the kernel's functions answer is a parameter. An error is its number without the sign. `none`
-- is a fault: kmem_cache_destroy is given NULL, which the kernels that this code is for do not allow.
pub mod Left
use cinquain_meta.Common.{ℕ, Bool, true, false, Option, none, some, ◌==◌, if◌then◌else◌}

-- what bdi_init and register_filesystem return, and whether kmem_cache_create gives a cache
pub record Answers : Type 0 where
  pub bdi_error : ℕ
  pub cnode_cache : Bool
  pub tag_cache : Bool
  pub inode_cache : Bool
  pub fsnode_cache : Bool
  pub jentry_cache : Bool
  pub hash_cache : Bool
  pub register_error : ℕ

-- what the module has of the kernel
pub record Held : Type 0 where
  pub bdi : Bool
  pub cnode_cachep : Bool
  pub tag_cachep : Bool
  pub inode_cachep : Bool
  pub fsnode_cachep : Bool
  pub jentry_cachep : Bool
  pub hash_cachep : Bool
  pub registered : Bool

abbrev pub enomem : ℕ
enomem = 12

abbrev cache_error : Bool → ℕ
cache_error made = if made then 0 else enomem

unfoldable pub init_cnode_cache : Answers → Held → ℕ × Held
init_cnode_cache a h = (cache_error a.cnode_cache, record h { cnode_cachep = a.cnode_cache })

unfoldable pub init_tag_cache : Answers → Held → ℕ × Held
init_tag_cache a h = (cache_error a.tag_cache, record h { tag_cachep = a.tag_cache })

unfoldable pub init_inode_cache : Answers → Held → ℕ × Held
init_inode_cache a h = (cache_error a.inode_cache, record h { inode_cachep = a.inode_cache })

unfoldable pub init_fsnode_cache : Answers → Held → ℕ × Held
init_fsnode_cache a h = (cache_error a.fsnode_cache, record h { fsnode_cachep = a.fsnode_cache })

unfoldable pub init_jentry_cache : Answers → Held → ℕ × Held
init_jentry_cache a h = (cache_error a.jentry_cache, record h { jentry_cachep = a.jentry_cache })

infixl 5 ◌>>=◌
abbrev ◌>>=◌ : {A B : Type 0} → Option A → (A → Option B) → Option B
none >>= f = none
some a >>= f = f a

-- kmem_cache_destroy of a cache, and what is held without it
abbrev kmem_cache_destroy : Bool → Held → Option Held
kmem_cache_destroy made without = if made then some without else none

unfoldable pub destroy_cnode_cache : Held → Option Held
destroy_cnode_cache h = kmem_cache_destroy h.cnode_cachep (record h { cnode_cachep = false })

unfoldable pub destroy_tag_cache : Held → Option Held
destroy_tag_cache h = kmem_cache_destroy h.tag_cachep (record h { tag_cachep = false })

unfoldable pub destroy_inode_cache : Held → Option Held
destroy_inode_cache h = kmem_cache_destroy h.inode_cachep (record h { inode_cachep = false })

unfoldable pub destroy_fsnode_cache : Held → Option Held
destroy_fsnode_cache h = kmem_cache_destroy h.fsnode_cachep (record h { fsnode_cachep = false })

unfoldable pub destroy_jentry_cache : Held → Option Held
destroy_jentry_cache h = kmem_cache_destroy h.jentry_cachep (record h { jentry_cachep = false })

unfoldable pub destroy_hash_cache : Held → Option Held
destroy_hash_cache h = kmem_cache_destroy h.hash_cachep (record h { hash_cachep = false })

-- The labels of init_cinq_fs, from the last to the first: each falls through to the next.
abbrev destroy_bdi : Held → Option Held
destroy_bdi h = some (record h { bdi = false })

abbrev unregister : Held → Option Held
unregister h = destroy_bdi (record h { registered = false })

unfoldable free_cnode : Held → Option Held
unfolding destroy_cnode_cache
free_cnode h = do h' ← destroy_cnode_cache h; unregister h'

unfoldable free_tag : Held → Option Held
unfolding destroy_tag_cache free_cnode
free_tag h = do h' ← destroy_tag_cache h; free_cnode h'

unfoldable free_inode : Held → Option Held
unfolding destroy_inode_cache free_tag
free_inode h = do h' ← destroy_inode_cache h; free_tag h'

unfoldable free_fsnode : Held → Option Held
unfolding destroy_fsnode_cache free_inode
free_fsnode h = do h' ← destroy_fsnode_cache h; free_inode h'

unfoldable free_jentry : Held → Option Held
unfolding destroy_jentry_cache free_fsnode
free_jentry h = do h' ← destroy_jentry_cache h; free_fsnode h'

unfoldable free_hash : Held → Option Held
unfolding destroy_hash_cache free_jentry
free_hash h = do h' ← destroy_hash_cache h; free_jentry h'

-- if (err) goto ...;
abbrev or_goto : ℕ × Held → (Held → Option Held) → (Held → Option (ℕ × Held)) → Option (ℕ × Held)
or_goto (err, h) label next = if err == 0 then next h else do h' ← label h; some (err, h')

unfoldable pub init_cinq_fs : Answers → Held → Option (ℕ × Held)
unfolding init_cnode_cache init_tag_cache init_inode_cache init_fsnode_cache init_jentry_cache
    free_cnode free_tag free_inode free_fsnode free_jentry free_hash
init_cinq_fs a h =
    or_goto (a.bdi_error, record h { bdi = a.bdi_error == 0 }) destroy_bdi
      λ h0. or_goto (init_cnode_cache a h0) free_cnode λ h1.
        or_goto (init_tag_cache a h1) free_tag λ h2.
          or_goto (init_inode_cache a h2) free_inode λ h3.
            or_goto (init_fsnode_cache a h3) free_fsnode λ h4.
              or_goto (init_jentry_cache a h4) free_jentry λ h5.
                or_goto (cache_error a.hash_cache, record h5 { hash_cachep = a.hash_cache })
                  free_hash
                  λ h6.
                    or_goto (a.register_error, record h6 { registered = a.register_error == 0 })
                      unregister λ h7. some (0, h7)

unfoldable pub exit_cinq_fs : Held → Option Held
unfolding destroy_cnode_cache destroy_fsnode_cache destroy_jentry_cache destroy_hash_cache
exit_cinq_fs h = do
  h1 ← destroy_cnode_cache (record h { bdi = false })
  h2 ← destroy_fsnode_cache h1
  h3 ← destroy_jentry_cache h2
  h4 ← destroy_hash_cache h3
  some (record h4 { registered = false })
