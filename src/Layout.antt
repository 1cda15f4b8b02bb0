-- ===== src/Layout.antt =====
-- The layout of the address space: `P2V` of include/paging.h, and `_v2p` of kernel/paging.c.
mod Tests
use vimos_minimal.Base.{ℕ, ◌+◌, ◌-◌, ◌^◌, ◌≤◌, ◌<◌, ◌≡◌, arith, ltb, leb, if◌then◌else◌, u64, sub64}

abbrev pub kernel_mapping : ℕ
kernel_mapping = 0xffff_8000_0000_0000

abbrev pub page_offset : ℕ
page_offset = 0xffff_8060_0000_0000

-- The macro `P2V`.
abbrev pub p2v : ℕ → ℕ
p2v addr = u64 (page_offset + addr)

-- `_v2p`, which the macro `V2P` calls. The test compares in `uint64_t`, after the wrap.
unfoldable pub v2p : ℕ → ℕ
v2p v =
    if ltb (sub64 v page_offset) v
    then sub64 v page_offset
    else u64 (sub64 v kernel_mapping + 0x100000)

-- From the kernel's mapping on, an address at or above the window of physical memory is translated
-- by the window's offset, and one below it by the place of the kernel's image.
pub v2p_lem :
    (v : ℕ)
    → kernel_mapping ≤ v
    → v < 2 ^ 64
    → v2p v ≡ (if leb page_offset v then v - page_offset else v - kernel_mapping + 0x100000)
unfolding v2p
v2p_lem v lo hi = ground arith

-- Every physical address below 0x7fa000000000 has a virtual address, and comes back from it.
pub v2p-p2v : (a : ℕ) → a < 2 ^ 64 - page_offset → v2p (p2v a) ≡ a
unfolding v2p
v2p-p2v a h = ground arith

pub v2p-window : (a : ℕ) → a < 2 ^ 46 → v2p (page_offset + a) ≡ a
unfolding v2p
v2p-window a h = ground arith
