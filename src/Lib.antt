-- ===== src/Lib.antt =====
-- A verification library for NimlothOS, a teaching kernel for 64-bit RISC-V written in Rust.
--
-- The program. `os` is the kernel: it allocates physical frames and builds Sv39 address spaces (mm),
-- keeps processes with pids, kernel stacks and a multi-level feedback queue (process), handles
-- system calls, faults and the timer (trap, syscall), and gives processes files and pipes (fs).
-- `components` holds a small block file system (micro_fs) and a log service (log); `user` holds the
-- user programs. Control passes from the timer and the system calls to the process table, which
-- takes the next process from the queues; pipes give the processor up while they wait.
--
-- The models, by file:
--   Mm/Address           os/src/mm/address.rs: the address types, floor, ceil, indexes, SimpleRange
--   Mm/FrameAllocator    os/src/mm/frame_allocator.rs: StackFrameAllocator (new, init, alloc, dealloc)
--   Mm/Pte               os/src/mm/page_table.rs: PTEFlags, PageTableEntry
--   Mm/PageTable         os/src/mm/page_table.rs: PageTable (new, find_pte_create, find_pte, map,
--                        unmap, translate, translate_va, token, from_token)
--   Mm/UserMemory        os/src/mm/page_table.rs: translated_byte_buffer, translated_refmut
--   Mm/MemorySet         os/src/mm/memory_set.rs: MapArea (new, map, unmap, copy_data, shrink_to,
--                        append_to), MemorySet (push, insert_framed_area, new_kernel, from_elf,
--                        from_existed_user, remove_area_with_start_vpn, recycle_data_pages)
--   Process/Pid          os/src/process/pid.rs: PidAllocator, kernel_stack_position
--   Process/Manager      os/src/process/manager.rs: ProcessManager (new, add, fetch, get_time_slice)
--   Process/Kernel       os/src/process/{manager,processor,process,mod}.rs and
--                        os/src/syscall/process.rs: the process table with run_process,
--                        suspend_current_and_run_next, exit_current_and_run_next, fork, sys_waitpid
--   Process/Signal       os/src/process/{signal,mod}.rs and os/src/syscall/process.rs: SignalFlags,
--                        check_pending_signals and its handlers, handle_signals, sys_kill,
--                        sys_sigaction, sys_sigprocmask, sys_sigreturn
--   Trap                 os/src/trap/mod.rs: the timer branch of trap_handler
--   Fs/Pipe              os/src/fs/pipe.rs: PipeRingBuffer, Pipe::read, Pipe::write
--   Fs/Inode             os/src/fs/inode.rs: OSInode (read, write, read_all), OpenFlags, open_file
--   Fs/Descriptors       os/src/process/process.rs (alloc_fd) and os/src/syscall/fs.rs: sys_open,
--                        sys_close, sys_dup, sys_pipe
--   Log/Transport        components/src/log/transport.rs and server.rs: PipeTransport, process_batch
--   Log/Client           components/src/log/client.rs: LogClient (connect_with_syscalls, log)
--   Log/Message          components/src/log/message.rs: LogMessage (new, serialize, deserialize)
--   Micro/Bitmap         components/src/micro_fs/bitmap.rs: Bitmap (new, alloc, dealloc, maximum)
--   Micro/Cache          components/src/micro_fs/block_cache.rs and block_dev.rs: BlockCache,
--                        BlockCacheManager, block_cache_sync_all
--   Micro/Layout         components/src/micro_fs/layout.rs: SuperBlock, DiskInode (block_id,
--                        total_blocks), with Grow (increase_size), Clear (clear_size), Data (read_at,
--                        write_at) and Dirent (DirEntry)
--   Micro/Mfs            components/src/micro_fs/mfs.rs: BlockManager (create, open, alloc_inode,
--                        alloc_data, dealloc_data, disk_inode_pos)
--   Micro/Vfs            components/src/micro_fs/vfs.rs: Inode (find, ls, create_inode, clear, read_at,
--                        write_at)
--   Prelude              shared names, Boolean tests, lists with native indices, panics
--   Tests                runs at concrete inputs
--
-- Conventions. A function that may panic returns an Outcome; a method that changes its object returns
-- the new object. A `usize` is a natural number, with the wrap of the release build written out where
-- a sum can leave the range. Vectors that are used as stacks have their last element first. A process
-- is named by its pid, and an Arc to it is a mention of that pid; strong counts are computed from the
-- places that hold one. A RefCell that is borrowed twice is not modelled.
-- A system call that writes or reads user memory takes the page table of its process, and panics where
-- the table does not translate the pointer; a reference is the physical address that it names.
-- Physical memory is seen by page tables as a function from a frame and an index to an entry, and by
-- address spaces also as the bytes of the frames. The ELF parser is a parameter of from_elf. The
-- block file system has three views of its device: the words of the bitmap blocks, the inodes by
-- number, and the bytes of the data blocks. Their areas do not overlap; that the cache shows the same
-- bytes that were last written is the theorem about the cache, whose device is a parameter with one law
-- and does not fail: an implementation of the trait that meets an error panics.
-- The bytes that are copied into a frame are not seen by the view of its entries; the theorem on
-- the copy of an area says that the frames it writes were not in use before, so they are no tables.
--
-- Bounds. The theorems on pids assume that the counter has not reached the last `usize`. `collect`
-- takes as fuel one round more than the range has items, which is what the loop makes;
-- `translated_byte_buffer` takes three more than the range has whole pages, as its theorem asks. The
-- loops over blocks of a file take as many rounds as there are blocks to add, or bytes to copy;
-- `read_all` takes two more than the rest of the file has pieces of 512 bytes.
--
-- Not modelled: the iterator over user buffers, the console streams, the global log client,
-- firmware calls, drivers, assembly, and the user programs.
pub mod Prelude
pub mod Mm
pub mod Process
pub mod Trap
pub mod Fs
pub mod Micro
pub mod Log
pub mod Tests
