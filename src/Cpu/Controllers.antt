-- ===== src/Cpu/Controllers.antt =====
-- kernel/pic.c, kernel/apic.c, and the end of `init_interrupt` in kernel/interrupt.c, which chooses one. The
-- registers of the APICs hold what was written to them; what a port of the PIC reads is a parameter.
pub mod Masked
use vimos_minimal.Base.{
  ◌⊎◌, ◌↔◌, inl, inr, ℕ, zero, suc, ◌+◌, ◌-◌, ◌*◌, ◌/◌, ◌%◌, ◌^◌, ◌≤◌, ◌<◌, min, max, bit_and,
  bit_or, bit_xor, ◌≡◌, refl, sym, ap, ◌∙◌, ◌≢◌, Bool, true, false, ◌&&◌, ◌||◌, not, Option, none,
  some, List, [], ◌∷◌, ◌++◌, map, arith, ltb, leb, ◌==◌, if◌then◌else◌, ltb→lt, lt→ltb, le→ltb,
  leb→le, ==_iff, ==_refl, Bool-cases, nat_cases, length, get_elem?, get_or, set, take, drop,
  replicate, length-append, length-replicate, length-set, get_or-set_self, get_or-set_ne,
  get_or-append_left, get_or-append_right, get_or-append_last, get_or-replicate, u8, u16, u32, u64,
  sub32, sub64,
}
use vimos_minimal.Layout.{p2v}

-- A byte written to a port.
pub record Out : Type 0 where
  pub port : ℕ
  pub value : ℕ

-- The bytes written so far, the last one first.
abbrev pub Bus : Type 0
Bus = List Out

abbrev pub out8 : ℕ → ℕ → Bus → Bus
out8 port value bus = record { port = port; value = value } ∷ bus

-- `value & ~(1 << k)`
unfoldable pub clear_bit : ℕ → ℕ → ℕ
clear_bit k value = value - value / 2 ^ k % 2 * 2 ^ k

unfoldable pub disable_pic : Bus → Bus
disable_pic bus = out8 0x21 0xff (out8 0xa1 0xff bus)

unfoldable pub pic_unmask_interrupt : (in8 : ℕ → Bus → ℕ) → ℕ → Bus → Bus
pic_unmask_interrupt in8 irq bus =
    if leb 8 irq
    then (let bus1 = out8 0x21 (clear_bit 2 (in8 0x21 bus)) bus in
        out8 0xa1 (clear_bit (irq - 8) (in8 0xa1 bus1)) bus1)
    else out8 0x21 (clear_bit irq (in8 0x21 bus)) bus

unfoldable pub pic_eoi : ℕ → Bus → Bus
pic_eoi irq bus = out8 0x20 0x20 (if leb 8 irq then out8 0xa0 0x20 bus else bus)

-- The initialization sequence: the vectors from 0x20 and 0x28 on, and how the two are connected.
unfoldable pub init_pic : Bus → Bus
init_pic bus =
    let begun = out8 0xa0 0x11 (out8 0x20 0x11 (disable_pic bus)) in
    let vectors = out8 0xa1 0x28 (out8 0x21 0x20 begun) in
    let connected = out8 0xa1 0x02 (out8 0x21 0x04 vectors) in
    let modes = out8 0xa1 0x01 (out8 0x21 0x01 connected) in disable_pic modes

-- The register LAPIC_BASE of the processor, the registers at `lapic` by their offset, and those
-- behind the index at `ioapic`.
pub record Apic : Type 0 where
  pub msr : ℕ
  pub lapic_base : ℕ
  pub lapic : ℕ → ℕ
  pub ioapic : ℕ → ℕ

abbrev pub write_at : ℕ → ℕ → (ℕ → ℕ) → ℕ → ℕ
write_at reg value regs r = if r == reg then value else regs r

unfoldable pub check_apic : ℕ → Bool
check_apic edx = (edx / 2 ^ 9 % 2) == 1

unfoldable pub ioapic_write : ℕ → ℕ → Apic → Apic
ioapic_write reg value a = record a { ioapic = write_at reg value a.ioapic }

-- The two words of a redirection entry.
unfoldable pub redirect : ℕ → ℕ → Apic → Apic
redirect i low a = ioapic_write (0x10 + 2 * i + 1) 0 (ioapic_write (0x10 + 2 * i) low a)

unfoldable pub ioapic_unmask_interrupt : ℕ → Apic → Apic
ioapic_unmask_interrupt irq a = redirect irq (0x20 + irq) a

unfoldable pub lapic_eoi : Apic → Apic
lapic_eoi a = record a { lapic = write_at 0xb0 0 a.lapic }

-- The local APIC: enabled, not in the x2APIC mode, and with the priority 0.
unfoldable pub init_lapic : Apic → Apic
init_lapic a =
    let base = a.msr - a.msr % 2 ^ 12 in
    let a1 = lapic_eoi (record a {
      msr = clear_bit 10 (bit_or base 0x800);
      lapic_base = p2v base;
      lapic = write_at 0xf0 0x1ff a.lapic;
    }) in
    record a1 { lapic = write_at 0x80 0 a1.lapic }

-- The loop over `i`; the first argument counts the rounds that are left.
unfoldable pub mask_loop : (left i : ℕ) → Apic → Apic
mask_loop zero i a = a
mask_loop (suc left) i a = mask_loop left (i + 1) (redirect i (bit_or (0x20 + i) 0x1_0000) a)

-- `max_redirection_entries`
abbrev pub max_redirection : Apic → ℕ
max_redirection a = a.ioapic 0x01 / 2 ^ 16 % 2 ^ 8

unfoldable pub init_apic : Apic → Apic
init_apic a = let a1 = init_lapic a in mask_loop (max_redirection a1) 0 a1

-- The end of `init_interrupt`, where `edx` is what the processor says of itself.
unfoldable pub init_controller : ℕ → Bus × Apic → Bus × Apic
init_controller edx (bus, a) =
    if check_apic edx then (disable_pic bus, init_apic a) else (init_pic (disable_pic bus), a)
