-- ===== src/Lib.antt =====
-- GitOS, a kernel for 32-bit x86, as functions over the state that its C files keep.
--
-- How the kernel fits together. The heap hands out the memory that everything else is allocated in.
-- The page tables give each task its view of memory; the timer runs the tasks of a list in turn. A
-- process is a task with what it owns: the ELF file that it was loaded from, its stack, the memory that
-- it asked for, and the keys that wait for it. The interrupt table leads from an interrupt to a handler,
-- with the registers of the current task saved first, and one of the handlers is the keyboard's. Files
-- are opened, read and closed through a table of descriptors, whose operations go to a file system
-- driver: FAT16, which reads through streams over the sectors of the disk, pipes, and files in memory. A
-- path is parsed to its parts, and the longest mounted beginning of it chooses the driver. A task reaches
-- all this by system calls, whose arguments are read from its stack through its page tables. The strings,
-- the formatted output and the blocks of memory are used throughout.
--
-- Which file models what. A function of the source is a definition of the same name, without the
-- prefix of its component where the module has it: heap_malloc is Heap.malloc.
--   Heap, src/kernel/memory/heap/heap.c and hkeap.c: the table of blocks and what changes it. Heap/
--     Search is the search for free blocks, Heap/Marks what marking writes, Heap/Malloc and
--     Heap/RoundTrip what allocating and freeing do, Heap/Owners who owns which blocks,
--     Heap/Sizes sizes at the limits, Heap/Init the set-up.
--   Paging, src/kernel/memory/paging/paging.c: entries of the page tables, single and in ranges,
--     in Paging/Fresh a new directory, and in Paging/Translate what the processor makes of it.
--   Str, Number and Format, src/kernel/common/string.c: strings, numerals and kvsprintf. Format/Lengths is
--     one directive for a number, Format/Pieces a whole format.
--   Memory, src/kernel/memory/memory.c: memset, memcpy, memcmp.
--   Gdt, src/kernel/gdt/gdt.c: the encoding of segment descriptors.
--   Disk, src/kernel/drivers/disk/disk.c and disk_streamer.c: streams over the drive.
--   Fat, src/kernel/fs/fat16/fat16.c: clusters, reading and seeking; Fat/Names the names, and
--     Fat/Directory directories and paths. Fat/Chain is about the cached walk along a chain, Fat/Content
--     the bytes of a file, Fat/Read and Fat/Cross what is read of them, Fat/Seek positions.
--   File, src/kernel/fs/file.c: mounts, descriptors and the calls that go through them. A driver is a
--     record of operations, over parameters for its state and its descriptors.
--     File/Table is about its descriptors, File/Mount the choice of a mount, File/Errors and File/Calls
--     the calls on numbers that were closed and that are open.
--   Pipe, src/kernel/fs/pipe/PipeFS.cpp: the ring buffer of a pipe and its driver. Pipe/Queue is the
--     bounded queue that it stands for, Pipe/Slots the indices, Pipe/Put and Pipe/Take single operations,
--     Pipe/Refine all of them, Pipe/Packets and Pipe/Overrun short reads and writes of any length, Pipe/Driver the
--     pipe behind the descriptors.
--   MemoryFile, src/kernel/fs/memory/MemoryFS.cpp: a block of memory as a file.
--   FilePath, src/kernel/fs/Path.cpp: the parser of paths, and in FilePath/Free their freeing.
--   Tasks, src/kernel/task/task.c: the list of tasks. Tasks/Chain is the list as a chain and its
--     growth, Tasks/Remove removal, Tasks/Ring and Tasks/Rounds the timer, timer_interrupt of
--     src/kernel/kernel.cpp.
--   Elf, src/kernel/formats/elf/ELFFile.cpp and ELFFile.hpp: the headers of a program.
--   Process, src/kernel/task/process.cpp: the buffer of keys. Process/Machine is the state of the kernel
--     with the processes' memory and their end, Process/Segments what a process is made of, and
--     Process/Load the loading, over the files: Process/Load/Descriptor is about the number of the file,
--     Process/Load/Keeps, Reading and Table about the table of processes.
--   Syscall, src/kernel/syscall/syscall.cpp: the table of the system calls, and how a call reaches the
--     memory of its task, task_peek_stack and task_copy_string_from of src/kernel/task/task.c.
--     Syscall/Handlers is what the calls do, Syscall/Numbers the table after syscall_init, Syscall/Stack the
--     arguments on the stack, where a page that is not present is a fault, Syscall/Ipc the pipes between tasks, Syscall/Exit the end of a process. A call sys$f is f or f_call.
--   Idt, src/kernel/idt/idt.c; Pic, src/kernel/drivers/pic/pic.c; Keyboard,
--     src/kernel/drivers/ps2keyboard/ps2keyboard.c.
--   Base: numbers, tests, lists, words and integers that all of them share.
--
-- How it is modelled. Numbers are natural, and arithmetic on machine words has its wrap-around written
-- out; a signed word is the natural number of its bits. An array that the code may leave, such as the
-- table of the heap, is a function from indices, so that a write past its end is seen; a buffer whose
-- end matters is a list, and a result that is missing stands for an access outside of it, a read
-- through a null pointer, a page fault or a kernel panic, as the file of each component says. Pointers of the list
-- of tasks are addresses, 0 the null pointer.
--
-- Bounds and fuel. Counted loops are recursion on the rounds that are left. The loops with fuel are
-- those of the numerals, where the number itself is fuel, since it falls with each digit; of the
-- streams, where one more than the bytes to read is, since each round reads a byte or ends the loop;
-- of the clusters, where the bytes to read are; and of the count of a directory, whose fuel is a
-- parameter that must exceed the records before its end. The theorems on these show that the fuel is
-- enough.
--
-- Not modelled. The drive and the interrupt controllers are parameters or are described from outside;
-- instructions such as lgdt and lidt have no model, nor have the waiting loops on ports and the register
-- cr3, which paging_switch loads. In FAT16, the file table, pipes and paths allocations are taken to
-- succeed, and memory that is freed is not followed there; the processes allocate on the heap. The page
-- tables of the processes are words apart from the bytes of memory. The resolving of a FAT16 volume
-- is left out so far, as are the system calls that print and that tell a process its arguments and its
-- frame buffer. The screens, the mouse,
-- the serial port, the boot loaders and the programs of the user land are not modelled.
pub mod Base
pub mod Heap
pub mod Paging
pub mod Pipe
pub mod MemoryFile
pub mod Str
pub mod Number
pub mod Format
pub mod Memory
pub mod Gdt
pub mod Disk
pub mod Fat
pub mod File
pub mod FilePath
pub mod Tasks
pub mod Elf
pub mod Process
pub mod Syscall
pub mod Idt
pub mod Pic
pub mod Keyboard
