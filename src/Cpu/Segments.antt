-- ===== src/Cpu/Segments.antt =====
-- The segment descriptors of kernel/gdt.c.
use vimos_minimal.Base.{
  ℕ, ◌+◌, ◌-◌, ◌*◌, ◌/◌, ◌%◌, ◌^◌, ◌<◌, ◌≡◌, Option, none, some, List, [], ◌∷◌, arith, ◌==◌,
  if◌then◌else◌, get_or, set, replicate, u32, u64,
}
use vimos_minimal.Mem.{M, pure, ◌>>=◌, alloc_mem}

-- `struct segment_descriptor`; each field is below its width.
pub record SegmentDescriptor : Type 0 where
  pub limit_low : ℕ
  pub base_low : ℕ
  pub base_mid : ℕ
  pub type : ℕ
  pub s : ℕ
  pub dpl : ℕ
  pub p : ℕ
  pub limit_high : ℕ
  pub avl : ℕ
  pub l : ℕ
  pub db : ℕ
  pub g : ℕ
  pub base_high : ℕ

abbrev pub null_descriptor : SegmentDescriptor
null_descriptor = record {
  limit_low = 0;
  base_low = 0;
  base_mid = 0;
  type = 0;
  s = 0;
  dpl = 0;
  p = 0;
  limit_high = 0;
  avl = 0;
  l = 0;
  db = 0;
  g = 0;
  base_high = 0;
}

-- The table.
abbrev pub Gdt : Type 0
Gdt = List SegmentDescriptor

abbrev pub entry : Gdt → ℕ → SegmentDescriptor
entry gdt num = get_or gdt num null_descriptor

-- What `setCodeSegment` leaves of the entry `d`.
unfoldable pub code_segment : SegmentDescriptor → ℕ → ℕ → ℕ → ℕ → SegmentDescriptor
code_segment d type privilege_level base limit = record d {
  base_low = base % 2 ^ 16;
  base_mid = base / 2 ^ 16 % 2 ^ 8;
  base_high = base / 2 ^ 24 % 2 ^ 8;
  limit_low = limit % 2 ^ 16;
  limit_high = limit / 2 ^ 16 % 2 ^ 4;
  l = 1;
  p = 1;
  s = 1;
  g = 1;
  dpl = privilege_level % 2 ^ 2;
  type = type % 2 ^ 4;
}

unfoldable pub set_code_segment : Gdt → ℕ → ℕ → ℕ → ℕ → ℕ → Gdt
set_code_segment gdt num type privilege_level base limit =
    set gdt num (code_segment (entry gdt num) type privilege_level base limit)

unfoldable pub set_data_segment : Gdt → ℕ → ℕ → ℕ → ℕ → ℕ → Gdt
set_data_segment gdt0 num type privilege_level base limit =
    let gdt = set_code_segment gdt0 num type privilege_level base limit in
    set gdt num (record (entry gdt num) { l = 0; db = 1 })

unfoldable pub set_system_segment : Gdt → ℕ → ℕ → ℕ → ℕ → ℕ → Gdt
set_system_segment gdt0 num type privilege_level base limit =
    let gdt = set_code_segment gdt0 num type privilege_level base limit in
    set gdt num (record (entry gdt num) { s = 0; l = 0 })

-- The fields of `struct tss` that are not left 0.
pub record Tss : Type 0 where
  pub rsp0_low : ℕ
  pub rsp0_high : ℕ
  pub ist1_low : ℕ
  pub ist1_high : ℕ

-- The table, and the task state.
pub record Segments : Type 0 where
  pub gdt : Gdt
  pub tss : Tss

-- The entries 1 to 4, after the table is cleared.
unfoldable pub flat_segments : Gdt
flat_segments =
    let gdt0 = replicate 7 null_descriptor in
    let gdt1 = set_code_segment gdt0 1 10 0 0 0xfffff in
    let gdt2 = set_data_segment gdt1 2 2 0 0 0xfffff in
    let gdt3 = set_data_segment gdt2 3 2 3 0 0xfffff in set_code_segment gdt3 4 10 3 0 0xfffff

-- The two entries of the task state at `tss_addr`; `struct tss` has 104 bytes.
unfoldable pub set_tss : Gdt → ℕ → Gdt
set_tss gdt0 tss_addr =
    let gdt = set_system_segment gdt0 5 9 0 (u32 tss_addr) 103 in
    set gdt 6 (record (entry gdt 6) {
      limit_low = tss_addr / 2 ^ 32 % 2 ^ 16;
      base_low = tss_addr / 2 ^ 48 % 2 ^ 16;
    })

unfoldable pub make_tss : ℕ → ℕ → Tss
make_tss rsp0_stack ist1_stack =
    let rsp0_stack_addr = u64 (rsp0_stack + 8192 - 8) in
    let ist1_stack_addr = u64 (ist1_stack + 8192 - 8) in
    record {
      rsp0_low = rsp0_stack_addr % 2 ^ 32;
      rsp0_high = rsp0_stack_addr / 2 ^ 32 % 2 ^ 32;
      ist1_low = ist1_stack_addr % 2 ^ 32;
      ist1_high = ist1_stack_addr / 2 ^ 32 % 2 ^ 32;
    }

-- `init_segments` up to the instructions that load the table; `none` stands for `panic`.
unfoldable pub init_segments : ℕ → ℕ → M (Option Segments)
init_segments fuel tss_addr = do
  rsp0_stack ← alloc_mem fuel 2
  if rsp0_stack == 0 then pure none else do
    ist1_stack ← alloc_mem fuel 2
    if ist1_stack == 0
        then pure none
        else pure (
            some (record {
              gdt = set_tss flat_segments tss_addr;
              tss = make_tss rsp0_stack ist1_stack;
            }))

-- The fields as the processor joins them.
abbrev pub base_of : SegmentDescriptor → ℕ
base_of d = d.base_low + d.base_mid * 2 ^ 16 + d.base_high * 2 ^ 24

abbrev pub limit_of : SegmentDescriptor → ℕ
limit_of d = d.limit_low + d.limit_high * 2 ^ 16

-- For a 32-bit base and a 20-bit limit, the fields that `setCodeSegment` writes join to the base
-- and the limit.
pub code_segment-base_of :
    (d : SegmentDescriptor) (type level base limit : ℕ)
    → base < 2 ^ 32
    → limit < 2 ^ 20
    → (base_of (code_segment d type level base limit) ≡ base)
      × (limit_of (code_segment d type level base limit) ≡ limit)
unfolding code_segment
code_segment-base_of d type level base limit b l = (omega arith, omega arith)

-- The address in a system descriptor, which takes two entries.
abbrev pub system_base : Gdt → ℕ → ℕ
system_base gdt num =
    base_of (entry gdt num)
    + ((entry gdt (num + 1)).limit_low + (entry gdt (num + 1)).base_low * 2 ^ 16) * 2 ^ 32

-- The kind of a segment: P, S, its type, its privilege level, L, D/B and G, its base and its limit.
abbrev pub kind_of : SegmentDescriptor → List ℕ
kind_of d = d.p ∷ d.s ∷ d.type ∷ d.dpl ∷ d.l ∷ d.db ∷ d.g ∷ base_of d ∷ limit_of d ∷ []
