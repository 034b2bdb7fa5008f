-- ===== src/Lib.antt =====
-- A verification library of the kernel: its data structures, allocators and file layers, modelled
-- from the C sources and proved correct where they are.
--
-- The parts. Every other part of the kernel is built on the intrusive list of include/lib/list.h:
-- the fifo (include/lib/fifo.h), the LRU lists (lib/lru.c), the page and object allocators (mm),
-- the block cache (kernel/dev/blk) and the run queues (kernel/sched.c). Locks (lib/spinlock.c,
-- lib/semaphore.c, lib/mutex.c) guard them, and the file system (fs/easyfs) stands on bitmaps
-- (lib/bitmap.c) and on the block cache.
--
-- Which file models what:
-- - Common: shared types, tests, lists indexed by native numbers, `int` as ℤ, membership.
-- - Dlist (include/lib/list.h): two maps from an address to the node's `next` and `prev`. Each
--   operation is the writes of its C function in their order. Dlist/Chain and Dlist/Ring state
--   what a well-formed list is and what each operation makes of it, Dlist/Frame that it touches
--   nothing else, Dlist/Length what list_len counts.
-- - Fifo (include/lib/fifo.h) and Lru (lib/lru.c): records with the links and list heads, over the
--   operations of Dlist. A C struct that embeds a list_head is named by the address of that field.
-- - Bitmap (lib/bitmap.c): a word of the map is the list of its 64 bits.
-- - Spinlock (lib/spinlock.c): one lock and any number of harts, whose steps come in any order.
-- - Sched (kernel/sched.c): the run queues, over Dlist; Dlist/Family is about many lists at once.
-- - Semaphore (lib/semaphore.c): over Fifo and Sched, as the code calls them.
-- - Mutex (lib/mutex.c, lib/sleeplock.c): over Semaphore.
-- - Hash (lib/hash.c, include/lib/hash.h): the hash table, whose buckets are a Dlist/Family.
-- - Buddy (mm/mm.c, mm/page.c): the free lists and the reference counts; Buddy/Cover counts how
--   many free blocks have a page.
-- - Easyfs/Super (fs/easyfs/super.c) and Easyfs/Inode (fs/easyfs/inode.c): the two allocators over
--   Bitmap, and the block map of a file over them. Easyfs/Data reads and writes bytes of a file
--   through the map, round by round; a range of `len` bytes touches at most len / 4096 + 2 blocks,
--   so that many rounds and one for the end are enough fuel. Data/Copied is what a round of a read
--   copies, Data/Put what a round of a write puts on the disk, Inode/Grow what it adds to the inode.
--   Easyfs/Links has the counts and the
--   truncation of an inode. The lists of dirty inodes and entries are left out; a flag stands for them.
-- - Easyfs/Dir (fs/easyfs/dentry.c): entries named by numbers, with the children of a directory as a
--   list; Dir/Named reads a path byte by byte, Dir/Edit creates, removes and renames.
-- - Slab (mm/slab.c, mm/kmalloc.c): the stack of a slab's free objects, and the choice of a cache.
--   Slab/Cache has kmem_cache_alloc and kmem_cache_free over the slabs and their two lists.
-- - File (kernel/file.c): reference counts and seeking of open files; File/Access reads and writes
--   them over Easyfs/Data.
-- - Bio (kernel/dev/blk/bio.c): the chain of block pieces that a byte range is cut into.
-- - Blk (kernel/dev/blk): Blk is the cache of buf.c, over Hash and Dlist; Blk/Request are the
--   requests of request.c and gendisk.c, whose byte ranges Bio cuts into pieces; Blk/Dirty is the
--   dirty list with the loop of flush.c. Blk/Find to Blk/Queue lead up to a read or a write of bytes.
-- - Vm (kernel/vm.c): page tables as words of memory, Vm/Tree what makes them a tree, Vm/Fault the
--   areas of a process and the page fault handler. __alloc_page does not return NULL: without a free
--   page it goes on with a NULL page, which is an outcome of its own, `faulted`.
-- - Timer (kernel/timer.c): the queue of a hart as the list of its timers; Timer/Due follows the
--   interrupts of hart 0.
-- - Math (lib/math.c) and Str (lib/string.c): the integer helpers and the byte routines, the
--   latter over a memory of bytes.
--
-- Conventions. A pointer is a number, NULL is `none` where it is returned. A panic is `none` or a
-- constructor of its own. Unsigned arithmetic wraps by `% 2 ^ w` where the source can wrap; a
-- signed counter that the code cannot make negative is a number. Messages printed are left out.
--
-- Loops. A loop over a list of known length, a counted loop and a halving loop recur on that list,
-- count or value and need no fuel. Searches along a list (pick_next_task, hash_find) have fuel, and
-- more than the list has nodes is enough; calc_slab_order has fuel for the largest size, mappages
-- for each page of its range, and flush_bhash needs more than there are dirty buffers. The loops
-- that look for a NUL (strdup, strhash) have fuel; more than the string has bytes is enough, and
-- their theorems say so.
--
-- Not modelled: assembly, device registers (uart, plic, virtio), traps and the dispatch of system
-- calls, start-up, printing, tests, user programs and the image builder in tools; they are input
-- and output, registers or configuration. Work queues, processes, mounting and the write-back of
-- inodes and entries have no model either.
pub mod Bio
pub mod Bitmap
pub mod Blk
pub mod Buddy
pub mod Common
pub mod Dlist
pub mod Easyfs
pub mod Fifo
pub mod File
pub mod Hash
pub mod Lru
pub mod Math
pub mod Mutex
pub mod Sched
pub mod Semaphore
pub mod Slab
pub mod Spinlock
pub mod Str
pub mod Timer
pub mod Vm
