-- ===== src/Lib.antt =====
-- A verification library for a small kernel: its boot loader, its page allocator, its USB host
-- controller driver and keyboard, its graphics, console and formatted output, its C library, and the
-- tables it gives to the processor.
--
-- The program. A UEFI boot loader (boot/) loads the kernel and hands it the memory map. The kernel
-- (kernel/) builds a list of free pages from the map, sets up segments, interrupts and the console,
-- scans the PCI bus, and drives the xHCI controllers it finds through rings of blocks in pages that it
-- allocates. stdlib/ is its C library.
--
-- The files, by the code they are about (each definition has the name of the function it models, in
-- snake case; the parts of a long function are definitions of their own):
--   Base      numbers, lists, words of w bits, bitwise operators, signed integers
--   Layout    include/paging.h, `_v2p` of kernel/paging.c: virtual and physical addresses
--   Mem       kernel/mem.c: a memory is a function from addresses to list nodes, and the operations
--             are programs of a small monad; a read through NULL is the result `fault`. Mem/Chain says
--             which runs a list holds, Mem/Alloc and Mem/Free what the two operations leave,
--             Mem/Init how the list is built from the firmware's memory map
--   Paging    kernel/paging.c, `do_page_fault` of kernel/exception.c: the tables that the kernel changes;
--             the allocator is a parameter (IsAllocator in Open says what it promises), and Pages
--             fills it with alloc_mem of Mem; Tree follows the tables on the way to an address,
--             One and Fault what mapping one page leaves of them
--   Xhci      kernel/xhci_trb.c, kernel/xhci.c: blocks (Trb), rings of the driver (Ring), the event
--             ring (Events), the walk over a configuration (Endpoint), the states of the ports (Ports),
--             `handle_enable_slot` (Slot), the loop over the configurations (Configure), `init_xhci`
--             (Start), and `usb_process_events` (Dispatch), which uses all of them; the registers and
--             what a device writes are parameters
--   Boot      boot/boot.c, boot/lib.c: the kernel's segments in a memory of bytes (Elf), the page
--             tables in a memory of words (Tables), with a walk through them as the processor makes
--             it (Tables/Walk), and `convert`; the addresses that the firmware grants are parameters
--   Graphics  kernel/uefi_graphics.c, kernel/font.c: the frame buffer is a function from offsets to
--             bytes; Graphics/Pixels says which colour a pixel has
--   Keyboard  kernel/usb_keyboard.c: what the controller does between the doorbell and the reading of
--             the event ring is a parameter
--   Console   kernel/console.c: the screen is the list of the calls of the graphics module
--   Pci       kernel/pci.c: what the configuration space answers is a parameter
--   Cpu       kernel/gdt.c and kernel/interrupt.c: the descriptors of segments and interrupts;
--             kernel/pic.c and kernel/apic.c: the interrupt controllers (Controllers)
--   Stdlib    stdlib/: vsprintf.c, the character classes, and the string functions over the memory of
--             bytes of Boot/Elf
--
-- How they interact. The rings and the event ring use `v2p` of Layout. The segments and the endpoints
-- take their pages from `alloc_mem` of Mem. The scan of Pci hands controllers to the driver of Xhci.
-- The page tables of Boot map the addresses that `v2p` translates, and the segments of Boot lie where
-- they map the kernel's image. The keyboard writes to a ring of Xhci and reads its event ring.
--
-- Bounds and fuel. A machine word of w bits is a number with its wrap-around written out; `size_t` has
-- 32 bits here. An `int` that may be negative is a signed integer without a bound: the widths, columns
-- and rows that it counts are small. A loop over the list of free runs takes a fuel above the number
-- of runs, a loop over text its length (a string function, more than the length of its texts), the
-- loop over descriptors the bytes that are left, the digits of a number 64 rounds, one for each bit,
-- the loop over a page table 512 rounds, one for each entry, and the loop over the queued events more
-- rounds than events are found: the controller may queue further ones while they are handled, so that
-- no number of rounds is enough for every controller.
--
-- Not modelled: the instructions of asm.S, the firmware's services, what is printed for debugging, the
-- exceptions that print a message and stop, and the order of the calls in kernel/kernel.c.
-- The address at a NULL pointer is taken to fault.
pub mod Base
pub mod Layout
pub mod Mem
pub mod Paging
pub mod Xhci
pub mod Boot
pub mod Graphics
pub mod Keyboard
pub mod Stdlib
pub mod Cpu
pub mod Pci
pub mod Console
