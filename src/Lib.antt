-- ===== src/Lib.antt =====
-- A verification library for the AkARiS kernel (sys/): its FIFOs, kernel queues, scheduler and
-- address spaces, as functions on an explicit kernel state, with the theorems that make them correct.
--
-- State.antt is the data model: the structs of sys/include, and the record Kernel with the globals of
-- common/process.c, common/kqueue.c and common/kfifo.c. A linked list is a List; a pointer to a
-- kernel event is its place among the events, and a kqueue, a FIFO or a context is pointed to by its
-- id. An operation takes the kernel and returns its code with the kernel after it, in Base/Outcomes:
-- `returns`, `fault` (a NULL or stale pointer is followed) or `hang` (a loop is never left).
--
-- Ring.antt is the byte ring of a FIFO (the index arithmetic and copies of kfifo_write_fifo and
-- kfifo_read_fifo). Kfifo.antt has kfifo_create_fifo, kfifo_write_fifo and kfifo_read_fifo,
-- Kfifo/Acl.antt the lists of pids (kfifo_clone_fifo, kfifo_update_senders, kfifo_close_fifo), and
-- Kfifo/Hook.antt the events of a FIFO. Trigger.antt has kqueue_trigger_event and the walks over
-- event lists, by which a write wakes the processes that block on a queue. Kqueue.antt is
-- common/kqueue.c, Scheduler.antt is schedule of common/process.c, and Space.antt is the region lists
-- of i386/context.c, which a write clones a region in.
--
-- Segments.antt is i386/gdt.c, Gates.antt i386/interrupt.c and i386/pic.c with the delivery of an
-- interrupt to a handler and a FIFO, and Console.antt the screen and the strings of
-- i386/bootvideo.c, with the format loops of bootvideo_printf and of the user library's sprintf
-- in Console/Format. Frames.antt is the bitmap allocator of i386/physical_memory.c, with
-- initialize_memory in Frames/Memory,
-- and Process.antt create_process with the list of regions of a new address space. Pages.antt
-- is the allocator of the kernel's virtual pages of i386/paging.c, Slab.antt is common/slab.c on top
-- of both allocators, and Devices.antt is common/device_interface.c on top of the FIFOs.
--
-- Space/Carve.antt is create_region at a given address, and Fork.antt fork of common/process.c on top
-- of it. Syscalls.antt has the structures of include/i386/syscall.h and the kernel with its devices,
-- interrupts and the user structures, Syscalls/Handler.antt syscall_handler of i386/syscall.c, and
-- UserLibrary.antt the system calls of servers/libak/syscall.c, each a composition of its own code
-- with the interrupt.
--
-- Pages/User.antt has the page tables of users of i386/paging.c, as words of physical frames that the
-- code reaches through the kernel's pages, with the loops over pages of clone_region and
-- delete_region of i386/context.c; Pages/Start is initialize_kernel_paging, Pages/Fault the handler of
-- page faults, Pages/Directory the directory of a new address space, and Pages/Expand expand_region,
-- which nothing calls. Exec.antt has execve_elf of process.c and load_modules of
-- i386/cmain.c. Lifecycle.antt puts the operations of process.c, kfifo.c and kqueue.c after each
-- other: any sequence of them, with the interrupts that end a halt.
--
-- uint32 values are numbers with the wrap-around written out (Base/Words). A walk over a list of
-- events takes one round more than there are events; a walk that is longer goes in a circle, and
-- hangs in the source too. The loop that deletes an old program takes one round more than there are
-- regions, since each round passes a region or merges one away. The scheduler's walk takes as many
-- rounds as there are contexts, and its idle loop is given the effect of the interrupts that end each
-- halt. The walk over the memory map takes at most a round for each byte of the map. Outside Slab.antt slab objects are always granted; what the memory held before is an argument
-- where a field is left as it was.
--
-- Not modelled: inline assembly, the servers, and the x86_64 files, which are copies of those of i386.
-- The page tables stand beside the lists of regions, where a region's pages are named by its backing.
-- Where fork and execve_elf map the pages of a region, what comes of it is an argument (Mapping in
-- Space.antt), which does not return where frames or kernel pages run out; the mapping itself is
-- map_user_region_to_physical in Pages/User. execve_elf of a segment below 0x40000000 faults in the
-- model, since what the source does then goes over the kernel's own memory, and a walk that follows a
-- pointer to a freed region or NULL ends in a fault, too, where the kernel reads on.
pub mod Base
pub mod Ring
pub mod State
pub mod Space
pub mod Scheduler
pub mod Syscalls
pub mod Trigger
pub mod Kfifo
pub mod Kqueue
pub mod Segments
pub mod Gates
pub mod Console
pub mod Frames
pub mod Process
pub mod Pages
pub mod Devices
pub mod Slab
pub mod Fork
pub mod Exec
pub mod Lifecycle
pub mod UserLibrary
mod Examples
