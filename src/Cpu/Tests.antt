-- ===== src/Cpu/Tests.antt =====
-- Descriptors at concrete inputs.
use vimos_minimal.Base.{◌+◌, ◌*◌, ◌^◌, ◌≡◌, refl, [], ◌∷◌, arith, ◌==◌, if◌then◌else◌, take}
use vimos_minimal.Cpu.Controllers.{
  Apic, init_apic, ioapic_unmask_interrupt, pic_unmask_interrupt, init_pic, disable_pic, clear_bit,
}
use vimos_minimal.Cpu.Controllers.Masked.{OneUnmasked, ioapic_unmask_interrupt-OneUnmasked}
use vimos_minimal.Cpu.Interrupts.{
  Handlers, init_interrupt, offset_of, routine, handled, init_interrupt_lem,
}

abbrev handlers : Handlers
handlers = record {
  zero_div = 0xffff_8000_0000_1000;
  breakpoint = 0xffff_8000_0000_1010;
  invalid_opcode = 0xffff_8000_0000_1020;
  device_not_available = 0xffff_8000_0000_1030;
  double_fault = 0xffff_8000_0000_1040;
  general_protection = 0xffff_8000_0000_1050;
  page_fault = 0xffff_8000_0000_1060;
  floating_point = 0xffff_8000_0000_1070;
  simd_floating_point = 0xffff_8000_0000_1080;
}

init_interrupt_lem_example :
    ((init_interrupt handlers 14).p ≡ (if handled 14 then 1 else 0))
    × (offset_of (init_interrupt handlers 14) ≡ routine handlers 14)
    × ((init_interrupt handlers 14).segment ≡ (if handled 14 then 8 else 0))
    × ((init_interrupt handlers 14).ist ≡ (if 14 == 14 then 1 else 0))
init_interrupt_lem_example = init_interrupt_lem handlers 14 (omega arith)

-- An I/O APIC with 24 entries, whose register 1 names the last one.
abbrev apic : Apic
apic = record {
  msr = 0xfee0_0900;
  lapic_base = 0;
  lapic = λ offset. 0;
  ioapic = λ reg. if reg == 0x01 then 23 * 2 ^ 16 + 0x11 else 0;
}

ioapic_unmask_interrupt-OneUnmasked_example :
    OneUnmasked apic 1 (ioapic_unmask_interrupt 1 (init_apic apic))
ioapic_unmask_interrupt-OneUnmasked_example =
    ioapic_unmask_interrupt-OneUnmasked apic 1 (omega arith)

-- Line 9 of the second PIC: line 2 of the first one and line 1 of its own are open.
line_nine :
    take 2 (pic_unmask_interrupt (λ port bus. 0xff) 9 (init_pic []))
    ≡ record { port = 0xa1; value = 0xfd } ∷ record { port = 0x21; value = 0xfb } ∷ []
unfolding pic_unmask_interrupt init_pic disable_pic clear_bit
line_nine = refl
