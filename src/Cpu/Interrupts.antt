-- ===== src/Cpu/Interrupts.antt =====
-- The interrupt descriptors of kernel/interrupt.c. The table is a function of the vector.
use vimos_minimal.Base.{
  ℕ, ◌+◌, ◌*◌, ◌/◌, ◌%◌, ◌^◌, ◌<◌, ◌≡◌, Bool, ◌||◌, arith, ◌==◌, if◌then◌else◌,
}

-- `struct interrupt_descriptor`; each field is below its width.
pub record InterruptDescriptor : Type 0 where
  pub offset_low : ℕ
  pub segment : ℕ
  pub ist : ℕ
  pub type : ℕ
  pub dpl : ℕ
  pub p : ℕ
  pub offset_mid : ℕ
  pub offset_high : ℕ

abbrev pub Idt : Type 0
Idt = ℕ → InterruptDescriptor

abbrev pub null_gate : InterruptDescriptor
null_gate = record {
  offset_low = 0;
  segment = 0;
  ist = 0;
  type = 0;
  dpl = 0;
  p = 0;
  offset_mid = 0;
  offset_high = 0;
}

unfoldable pub add_interrupt_handler : ℕ → ℕ → Idt → Idt
add_interrupt_handler num handler idt i =
    if i == num
    then record (idt i) {
      offset_low = handler % 2 ^ 16;
      segment = 8;
      type = 14;
      p = 1;
      offset_mid = handler / 2 ^ 16 % 2 ^ 16;
      offset_high = handler / 2 ^ 32 % 2 ^ 32;
    }
    else idt i

-- The addresses of the routines in asm.S.
pub record Handlers : Type 0 where
  pub zero_div : ℕ
  pub breakpoint : ℕ
  pub invalid_opcode : ℕ
  pub device_not_available : ℕ
  pub double_fault : ℕ
  pub general_protection : ℕ
  pub page_fault : ℕ
  pub floating_point : ℕ
  pub simd_floating_point : ℕ

abbrev set_ist : ℕ → ℕ → Idt → Idt
set_ist num ist idt i = if i == num then record (idt i) { ist = ist } else idt i

-- The table that `init_interrupt` builds.
unfoldable pub init_interrupt : Handlers → Idt
init_interrupt h = set_ist 0x0e 1 (
    add_interrupt_handler 0x13 h.simd_floating_point (
      add_interrupt_handler 0x10 h.floating_point (
        add_interrupt_handler 0x0e h.page_fault (
          add_interrupt_handler 0x0d h.general_protection (
            add_interrupt_handler 0x08 h.double_fault (
              add_interrupt_handler 0x07 h.device_not_available (
                add_interrupt_handler 0x06 h.invalid_opcode (
                  add_interrupt_handler 0x03 h.breakpoint
                    (add_interrupt_handler 0x00 h.zero_div (λ i. null_gate))))))))))

-- The routine that the processor enters.
abbrev pub offset_of : InterruptDescriptor → ℕ
offset_of d = d.offset_low + d.offset_mid * 2 ^ 16 + d.offset_high * 2 ^ 32

-- The routine meant for a vector, and 0 for none.
abbrev pub routine : Handlers → ℕ → ℕ
routine h v =
    if v == 0
    then h.zero_div
    else if v == 3
    then h.breakpoint
    else if v == 6
    then h.invalid_opcode
    else if v == 7
    then h.device_not_available
    else if v == 8
    then h.double_fault
    else if v == 13
    then h.general_protection
    else if v == 14
    then h.page_fault
    else if v == 16
    then h.floating_point
    else if v == 19
    then h.simd_floating_point
    else 0

abbrev pub handled : ℕ → Bool
handled v =
    (v == 0)
    || (v == 3)
    || (v == 6)
    || (v == 7)
    || (v == 8)
    || (v == 13)
    || (v == 14)
    || (v == 16)
    || (v == 19)

-- After `init_interrupt` a vector is present where the kernel has a routine for it, and only there;
-- its descriptor then leads to this routine, at a 64-bit address, in the kernel's code segment, and
-- the page fault alone switches to a stack of its own.
pub init_interrupt_lem :
    (h : Handlers) (v : ℕ)
    → routine h v < 2 ^ 64
    → ((init_interrupt h v).p ≡ (if handled v then 1 else 0))
      × (offset_of (init_interrupt h v) ≡ routine h v)
      × ((init_interrupt h v).segment ≡ (if handled v then 8 else 0))
      × ((init_interrupt h v).ist ≡ (if v == 14 then 1 else 0))
unfolding init_interrupt add_interrupt_handler
init_interrupt_lem h v b = (ground arith, ground arith, ground arith, ground arith)
