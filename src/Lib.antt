-- ===== src/Lib.antt =====
-- A Pintos kernel with a priority scheduler, a buffer cache, an indexed file system and swapping
-- (pintos/src). This library models the parts below and proves what they promise.
--
-- The parts and their files. Paths are from pintos/src; a definition has the name of its C function.
--
-- * Disk.antt - devices/disk.c. A disk is a list of sectors of 512 bytes; disk_read and disk_write
--   panic beyond it. The ATA commands that move the bytes are hardware.
-- * Cache.antt and Cache/ - filesys/cache.c. The state is cache_list with the holder of cache_lock
--   and the disk below. cache_read, cache_write and destroy_cache_list take the lock, so that each
--   is one step; write-behind is wb_round, one turn of thread_function_wb_frequently. Cache/Entries
--   has the invariant, Cache/Locate find_cache, Cache/Replace eviction and loading, Cache/Access the
--   two accesses, Cache/Refine the view as an array of sectors, Cache/Daemon the write-behind thread,
--   Cache/Errors the panics. The file system calls the cache in place of the disk.
-- * Storage.antt and Storage/ - what the inodes ask of the cache and of the free map, as an interface of
--   operations and laws, and the two of them as an implementation, with cache_read_ahead.
-- * Inode.antt and Inode/ - filesys/inode.c, over that interface: an inode is the 512 bytes of its
--   sector. Inode/Map has the tree of sectors, Inode/Read and Inode/ReadWrite the bytes of a file,
--   Inode/Apart and Inode/Written what a write leaves alone, Inode/Expand growth and writing, Inode/Open
--   and Inode/Close the list of open inodes.
-- * Bitmap.antt and Bitmap/ - lib/kernel/bitmap.c, over words of 32 bits with their bitwise
--   operations: Bitmap/Bit for single bits, Bitmap/Range for ranges, Bitmap/Scan for the search.
-- * FreeMap.antt and FreeMap/ - filesys/free-map.c, a client of the bitmap, in which each bit is a
--   sector of the file system's disk.
-- * Swap.antt and Swap/ - vm/swap.c, a client of the bitmap and of the disk: each bit is a slot of
--   eight sectors, one page.
-- * Palloc.antt and Palloc/ - threads/palloc.c, a client of the bitmap: the two pools of pages and the
--   bytes of memory, as a function of the address. A pool's bitmap has a bit for each page.
-- * InterruptQueue.antt and InterruptQueue/ - devices/intq.c, the ring of bytes of the keyboard and the
--   serial port, a client of the scheduler: a waiter is blocked and woken through Thread.antt.
-- * KernelList.antt and KernelList/ - lib/kernel/list.c, the operations that take an order, on the
--   sequence of elements that the links stand for.
--   KernelList/Sort has the natural merge sort, with KernelList/Sort/Runs, Merge and Passes.
-- * HashTable.antt and HashTable/ - lib/kernel/hash.c, generic in the element with its hash function and
--   its order. A bucket is the sequence of its elements. HashTable/Power has the number of buckets,
--   HashTable/Buckets and HashTable/Resize the invariant, HashTable/Operations each operation on the
--   map, HashTable/Script sequences of calls, HashTable/Iterate the iterator.
-- * Thread.antt and Thread/ - threads/thread.c, the sleeping list and the interrupt of
--   devices/timer.c, and the path of intr_handler (threads/interrupt.c) for the timer. The state has
--   the fields of every struct thread that scheduling reads, the two queues, the idle thread and the
--   clocks. Thread/Invariant has the invariant of the queues, Thread/Switch yield and block,
--   Thread/Unblock, Thread/Sleep and Thread/Priority the other operations, Thread/Wakeup and
--   Thread/Timer the alarm clock, Thread/Alarm its panic.
-- * Synch.antt and Synch/ - threads/synch.c, a client of the scheduler: semaphores, and locks by number with
--   the waits and the donors of each thread. Synch/Donate has the chain of donations, Synch/Sema the
--   waking of a waiter, Synch/Exclusion the interleavings of calls on locks, with Synch/Safe,
--   Synch/Acquire and Synch/Release for each of them.
-- * Prelude.antt and Prelude/ - shared: tests on numbers, lists with indices, bits, and Outcome, how
--   a routine ends: it returns, sleeps on a lock, panics (a failed ASSERT or PANIC), or faults: it uses a
--   null pointer or memory beyond the object at hand, and is not followed further.
--
-- Modelling. The kernel has one processor: a routine that runs under a lock or with interrupts off
-- is a function from state to state, and interleavings are sequences of such steps. A thread that
-- is switched away from is not followed further: schedule returns the state in which the next thread
-- starts to run. In signal of devices/intq.c the store behind the wake-up waits until the signaller runs
-- again, as a step of its own. lock_release is one step, although it clears the holder just before
-- interrupts are off. The sleeping list is a list of its own, although devices/timer.c reserves only
-- the bytes of a pointer for it. What malloc and uninitialised memory hold is an argument, so that the theorems hold
-- for all of it; memcpy beyond a buffer is a fault. Words of the bitmap wrap at 32 bits; sector
-- numbers, priorities and ticks are natural numbers, since the code only compares them (priorities
-- are from 0 to 63, and the clock is a 64-bit counter); the time slice is counted from 0 anew at each
-- switch, long before it could wrap.
--
-- Every function is total. Most loops are structural recursion, on the list that the loop runs over or
-- on the number of bits or sectors that are left. These loops run on fuel: list_sort on one more than the length of the list (each pass halves the runs), the rounding of
-- a bucket count on the number itself, hash_next on the number of buckets, and inode_read_at and
-- inode_write_at on the number of bytes; that it is enough follows from the theorems on their results.
-- donate_priority has its bound of 8 in the code. sema_down, lock_acquire, intq_getc and intq_putc are
-- modelled by the rounds of their loops, since another thread runs between two of them.
--
-- Not modelled: the read-ahead thread, condition variables, directories, processes, the
-- allocator of blocks, the frame table and the devices' ports.
pub mod Bitmap
pub mod Cache
pub mod Disk
pub mod FreeMap
pub mod HashTable
pub mod Inode
pub mod InterruptQueue
pub mod KernelList
pub mod Palloc
pub mod Prelude
pub mod Storage
pub mod Swap
pub mod Synch
pub mod Thread
