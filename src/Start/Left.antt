-- ===== src/Start/Left.antt =====
-- What the module holds after its start, where a step fails too, and after its end.
use cinquain_meta.Common.{
  ◌≡◌, refl, Bool, true, false, not, ◌&&◌, none, some, ◌==◌, if◌then◌else◌, arith,
}
use cinquain_meta.Start.{
  Answers, Held, init_cnode_cache, init_tag_cache, init_inode_cache, init_fsnode_cache,
  init_jentry_cache, free_cnode, free_tag, free_inode, free_fsnode, free_jentry, free_hash,
  destroy_cnode_cache, destroy_tag_cache, destroy_inode_cache, destroy_fsnode_cache,
  destroy_jentry_cache, destroy_hash_cache, init_cinq_fs, exit_cinq_fs,
}

abbrev pub nothing : Held
nothing = record {
  bdi = false;
  cnode_cachep = false;
  tag_cachep = false;
  inode_cachep = false;
  fsnode_cachep = false;
  jentry_cachep = false;
  hash_cachep = false;
  registered = false;
}

abbrev pub only_caches : Held
only_caches = record {
  bdi = false;
  cnode_cachep = true;
  tag_cachep = true;
  inode_cachep = true;
  fsnode_cachep = true;
  jentry_cachep = true;
  hash_cachep = true;
  registered = false;
}

abbrev pub everything : Held
everything = record only_caches { bdi = true; registered = true }

abbrev pub all_caches : Answers → Bool
all_caches a =
    a.cnode_cache && a.tag_cache && a.inode_cache && a.fsnode_cache && a.jentry_cache
    && a.hash_cache

-- Where bdi_init fails, init_cinq_fs returns its error and nothing is left. Where it does not and
-- a cache cannot be made, kmem_cache_destroy is given NULL. Where the registration fails, its
-- error is returned and all six caches are left; otherwise 0 is, and everything is held.
-- exit_cinq_fs of that leaves the caches of tags and of inodes.
pub init_cinq_fs-exit_cinq_fs :
    (a : Answers)
    → (init_cinq_fs a nothing ≡ (
        if not (a.bdi_error == 0)
        then some (a.bdi_error, nothing)
        else if not (all_caches a)
        then none
        else if not (a.register_error == 0)
        then some (a.register_error, only_caches)
        else some (0, everything)))
      × (exit_cinq_fs everything ≡ some (record nothing { tag_cachep = true; inode_cachep = true }))
unfolding init_cinq_fs exit_cinq_fs init_cnode_cache init_tag_cache init_inode_cache
    init_fsnode_cache init_jentry_cache free_cnode free_tag free_inode free_fsnode free_jentry
    free_hash destroy_cnode_cache destroy_tag_cache destroy_inode_cache destroy_fsnode_cache
    destroy_jentry_cache destroy_hash_cache
init_cinq_fs-exit_cinq_fs a = (ground arith, refl)
