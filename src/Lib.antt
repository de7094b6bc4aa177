-- ===== src/Lib.antt =====
-- A verification library for Cinquain-Meta, the metadata layer of a file system in which many file
-- systems ("file system views") share one tree of names and inherit files from one another.
--
-- The program's parts, and the files that model them:
--   fsnode.c, cinq_meta.h   the tree of file systems and the table of their names: Fsnode
--   cnode.c                 tags (Tag), cnodes and the view of a file system (Cnode), new inodes and
--                           the counters of directories (Refs), cinq_mkinode_ and its callers
--                           (Create), cinq_mkdir (Mkdir), cinq_lookup (Lookup), cinq_unlink and
--                           cinq_rmdir (Remove), cinq_link and cinq_rename (Link), cinq_setattr (Attr)
--   vfs.h, vfs.c, stub.c    what the program brings along of the Linux VFS: Vfs for inodes, Dcache
--                           for directory entries
--   file.c                  file handles (Handle) and keys of the cache (Fingerprint); open
--                           directories: cinq_dir_open, cinq_dir_release and cinq_dir_lseek (Dir)
--                           and cinq_readdir (Readdir); cinq_file_read and cinq_file_write (FileData)
--   vfs.c, stub.c           dentry_open, the accesses for writing and generic_file_llseek: OpenFile,
--                           with struct file of vfs.h in File; generic_readlink: Link.Readlink;
--                           simple_getattr: Attr.Stat
--   journal.h, super.c      the journal's queues and a pass of its thread: Journal
--   super.c, vfs.c          mount and unmount: Super
--   cinq_meta.c             the table of operations on directories, and calls through it: Calls; the
--                           start and the end of the kernel module: Start
--   uthash.h, list.h        copies of other projects; their operations are the parameter `Library`
--                           of Containers, with their documented behaviour as laws
-- A name in a directory leads to a cnode, which all file systems share. The cnode has a tag for each
-- file system with a view of its own, the tag has the inode, and a tag without an inode is negative:
-- the file system has removed the name. A file system without a tag sees what its parent sees.
--
-- Memory has one store for each kind of structure, from addresses, as in C: fields that hold
-- pointers hold addresses, so aliasing and dangling pointers are in the model. An operation is a
-- function from a memory to an outcome (Memory.Actions): a result and the memory after it, a fault,
-- which is an access where no such structure stands, or divergence, when a loop has used up its
-- rounds. An operation has the C function's name without a final underscore; a long one is cut into
-- helpers where the source has a block of its own. The `_syn` variants, which take a lock around the
-- same operation, are the same definition.
--
-- What every operation on a name leaves valid, in the tables of the cnodes, is in Valid: Memory.Steady
-- has the rules for actions that write no table, Valid.Names and Valid.Attach those that do, and
-- Valid.Operations and Valid.Served put the operations and their sequences together.
--
-- Rounds: the walks along the ancestors of a file system need more rounds than its chain of parents
-- is long, and each theorem about them says so; a pass over the journal's lists needs more than the
-- length of the longest. The counters of atomic_t and the link counts wrap at 32 bits, offsets of
-- type loff_t at 64. A name is a list of bytes; a copy of one that is too long for its array is a
-- fault, and one of more than MAX_NAME_LEN bytes is too long for a cnode.
--
-- Not modelled: locks (one operation runs at a time), debug output and the counters of CINQ_DEBUG,
-- the kernel's slab caches and init_special_inode, threads, the tests and the
-- benchmarks, which drive the program. The cache is a git submodule: it is a parameter of FileData,
-- as filldir is one of Readdir.
pub mod Common
pub mod Containers
pub mod Memory
pub mod Errno
pub mod Vfs
pub mod Dcache
pub mod Fsnode
pub mod Tag
pub mod Cnode
pub mod Refs
pub mod Create
pub mod Mkdir
pub mod Lookup
pub mod Remove
pub mod Link
pub mod Attr
pub mod Calls
pub mod Valid
pub mod Journal
pub mod Handle
pub mod Fingerprint
pub mod Super
pub mod File
pub mod Dir
pub mod Readdir
pub mod OpenFile
pub mod FileData
pub mod Start
pub mod Tests
