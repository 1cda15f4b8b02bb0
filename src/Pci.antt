-- ===== src/Pci.antt =====
-- The scan of the PCI bus: kernel/pci.c. `in32` at the data port is hardware: what the device at an
-- address answers is the parameter `config`, which no write changes the reads of.
pub mod Address
pub mod Found
mod Tests
use vimos_minimal.Base.{
  ◌⊎◌, ◌↔◌, inl, inr, ℕ, zero, suc, ◌+◌, ◌-◌, ◌*◌, ◌/◌, ◌%◌, ◌^◌, ◌≤◌, ◌<◌, min, max, bit_and,
  bit_or, bit_xor, ◌≡◌, refl, sym, ap, ◌∙◌, ◌≢◌, Bool, true, false, ◌&&◌, ◌||◌, not, Option, none,
  some, List, [], ◌∷◌, ◌++◌, map, arith, ltb, leb, ◌==◌, if◌then◌else◌, ltb→lt, lt→ltb, le→ltb,
  leb→le, ==_iff, ==_refl, Bool-cases, nat_cases, length, get_elem?, get_or, set, take, drop,
  replicate, length-append, length-replicate, length-set, get_or-set_self, get_or-set_ne,
  get_or-append_left, get_or-append_right, get_or-append_last, get_or-replicate, u8, u16, u32, u64,
  sub32, sub64,
}

-- The value written to the address port.
unfoldable pub config_address : ℕ → ℕ → ℕ → ℕ → ℕ
config_address bus dev func offset =
    bit_or (bit_or (bit_or (bit_or 0x80000000 (bus * 2 ^ 16)) (dev * 2 ^ 11)) (func * 2 ^ 8))
      (offset - offset % 4)

-- A write to the data port: the address that the address port holds, and the value.
pub record Write : Type 0 where
  pub addr : ℕ
  pub value : ℕ

-- `struct pci_device`.
pub record PciDevice : Type 0 where
  pub vendor : ℕ
  pub device : ℕ
  pub bar0 : ℕ
  pub bar1 : ℕ
  pub bar2 : ℕ
  pub bar3 : ℕ
  pub bar4 : ℕ
  pub bar5 : ℕ

-- What the scan does, in order: it configures a device, or hands it to `init_xhci`.
pub data Action : Type 0 where
  pci_write : Write → Action
  init_xhci : PciDevice → Action

unfoldable pub is_single_function_device : ℕ → Bool
is_single_function_device header_type = bit_and header_type 0x80 == 0

-- What reads as a vendor where no function is.
abbrev pub vendor_none : ℕ
vendor_none = 0xffff

module _ (config : ℕ → ℕ) where
  unfoldable pub pci_read32 : ℕ → ℕ → ℕ → ℕ → ℕ
  pci_read32 bus dev func offset = u32 (config (config_address bus dev func offset))

  -- `(offset & 2) * 8` is 16 where bit 1 of the offset is set.
  unfoldable pub pci_read : ℕ → ℕ → ℕ → ℕ → ℕ
  pci_read bus dev func offset =
      pci_read32 bus dev func offset / 2 ^ (bit_and offset 2 * 8) % 2 ^ 16

  unfoldable pub read_header_type : ℕ → ℕ → ℕ → ℕ
  read_header_type bus dev func = pci_read bus dev func 0x0e % 2 ^ 8

  unfoldable pub prog_if : ℕ → ℕ → ℕ
  prog_if bus dev = pci_read bus dev 0 0x08 / 2 ^ 8

  unfoldable pub class_code : ℕ → ℕ → ℕ
  class_code bus dev = pci_read bus dev 0 0x0a / 2 ^ 8

  unfoldable pub subclass_code : ℕ → ℕ → ℕ
  subclass_code bus dev = pci_read bus dev 0 0x0a % 2 ^ 8

  unfoldable pub is_xhci : ℕ → ℕ → Bool
  is_xhci bus dev =
      class_code bus dev == 0x0c && subclass_code bus dev == 0x03 && prog_if bus dev == 0x30

  unfoldable pub pci_device : ℕ → ℕ → PciDevice
  pci_device bus dev = record {
    vendor = pci_read bus dev 0 0x00;
    device = pci_read bus dev 0 0x02;
    bar0 = pci_read32 bus dev 0 0x10;
    bar1 = pci_read32 bus dev 0 0x14;
    bar2 = pci_read32 bus dev 0 0x18;
    bar3 = pci_read32 bus dev 0 0x1c;
    bar4 = pci_read32 bus dev 0 0x20;
    bar5 = pci_read32 bus dev 0 0x24;
  }

  unfoldable pub write_at : ℕ → ℕ → ℕ → ℕ → Action
  write_at bus dev offset value =
      pci_write (record { addr = config_address bus dev 0 offset; value = value })

  -- Bus mastering, memory write and invalidate, and memory space.
  unfoldable pub command : ℕ → ℕ → ℕ
  command bus dev = bit_or (bit_or (bit_or (pci_read32 bus dev 0 0x04) 0x04) 0x10) 0x02

  -- On Intel's chips the ports are moved from EHCI to xHCI.
  unfoldable pub route_ports : ℕ → ℕ → List Action
  route_ports bus dev =
      if pci_read bus dev 0 0x00 == 0x8086
      then write_at bus dev 0xd8 (pci_read32 bus dev 0 0xdc)
        ∷ write_at bus dev 0xd0 (pci_read32 bus dev 0 0xd4)
        ∷ []
      else []

  -- `scanDevice`: nothing is done for a controller of another kind, and nothing for the functions
  -- from 1 on, as `scanFunction` only prints.
  unfoldable pub scan_device : ℕ → ℕ → List Action
  scan_device bus dev =
      if is_xhci bus dev
      then write_at bus dev 0x04 (command bus dev)
        ∷ (route_ports bus dev ++ init_xhci (pci_device bus dev) ∷ [])
      else []

  -- The loop of `scanBus` from `dev` on, `count` rounds before its end.
  unfoldable pub scan_devices : ℕ → ℕ → ℕ → List Action
  scan_devices zero bus dev = []
  scan_devices (suc count) bus dev =
      let rest = scan_devices count bus (dev + 1) in
      if pci_read bus dev 0 0x00 == vendor_none then rest else scan_device bus dev ++ rest

  unfoldable pub scan_bus : ℕ → List Action
  scan_bus bus = scan_devices 255 bus 0

  unfoldable pub scan_functions : ℕ → ℕ → List Action
  scan_functions zero func = []
  scan_functions (suc count) func =
      let rest = scan_functions count (func + 1) in
      if pci_read 0 0 func 0x00 == vendor_none then rest else scan_bus func ++ rest

  unfoldable pub init_pci : List Action
  init_pci =
      if is_single_function_device (read_header_type 0 0 0) then scan_bus 0 else scan_functions 8 0
