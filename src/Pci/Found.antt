-- ===== src/Pci/Found.antt =====
-- What the scan of kernel/pci.c does with the controllers that it finds.
use vimos_minimal.Base.{
  ℕ, zero, suc, ◌+◌, ◌/◌, ◌%◌, ◌^◌, bit_or, ◌≡◌, refl, Bool, ◌&&◌, not, List, [], ◌∷◌, ◌++◌, arith,
  ◌==◌, if◌then◌else◌,
}
use vimos_minimal.Pci.{
  PciDevice, Action, pci_write, init_xhci, pci_read, pci_read32, is_xhci, pci_device, write_at,
  command, route_ports, prog_if, class_code, subclass_code, scan_device, scan_devices, scan_bus,
  config_address,
}

-- The device numbers from `dev` on, `count` of them, that satisfy a test.
abbrev pub those : (ℕ → Bool) → ℕ → ℕ → List ℕ
those test zero dev = []
those test (suc count) dev =
    let rest = those test count (dev + 1) in if test dev then dev ∷ rest else rest

-- What is done for each number of a list, one after the other.
abbrev pub for_each : List ℕ → (ℕ → List Action) → List Action
for_each [] f = []
for_each (dev ∷ devs) f = f dev ++ for_each devs f

module _ (config : ℕ → ℕ) (bus : ℕ) where
  -- The word at `offset` in the configuration space of function 0.
  abbrev pub word : ℕ → ℕ → ℕ
  word dev offset = config (config_address bus dev 0 offset) % 2 ^ 32

  -- Some device is there, and the class, the subclass and the programming interface are those of an
  -- xHCI controller.
  abbrev pub answers : ℕ → Bool
  answers dev = not ((word dev 0x00 % 2 ^ 16) == 0xffff) && (word dev 0x08 / 2 ^ 8) == 0x0c_03_30

  abbrev pub device_at : ℕ → PciDevice
  device_at dev = record {
    vendor = word dev 0x00 % 2 ^ 16;
    device = word dev 0x00 / 2 ^ 16;
    bar0 = word dev 0x10;
    bar1 = word dev 0x14;
    bar2 = word dev 0x18;
    bar3 = word dev 0x1c;
    bar4 = word dev 0x20;
    bar5 = word dev 0x24;
  }

  abbrev pub puts : ℕ → ℕ → ℕ → Action
  puts dev offset value =
      pci_write (record { addr = config_address bus dev 0 offset; value = value })

  -- The command register gets bits 1, 2 and 4, the ports of an Intel chip are routed as its own
  -- registers say, and the controller is handed over.
  abbrev pub starts : ℕ → List Action
  starts dev =
      puts dev 0x04 (bit_or (bit_or (bit_or (word dev 0x04) (2 ^ 2)) (2 ^ 4)) (2 ^ 1))
      ∷ ((if (word dev 0x00 % 2 ^ 16) == 0x8086
            then puts dev 0xd8 (word dev 0xdc) ∷ puts dev 0xd0 (word dev 0xd4) ∷ []
            else [])
          ++ init_xhci (device_at dev) ∷ [])

  three_fields :
      (w : ℕ)
      → (w / 2 ^ 16 / 2 ^ 8 == 0x0c && (w / 2 ^ 16 % 2 ^ 8) == 0x03 && (w % 2 ^ 16 / 2 ^ 8) == 0x30)
        ≡ ((w / 2 ^ 8) == 0x0c_03_30)
  three_fields w = ground arith

  is_xhci-word : (dev : ℕ) → is_xhci config bus dev ≡ ((word dev 0x08 / 2 ^ 8) == 0x0c_03_30)
  unfolding is_xhci class_code subclass_code prog_if pci_read pci_read32 config_address
  is_xhci-word dev = ground (arith, three_fields (word dev 0x08))

  pci_read-vendor : (dev : ℕ) → pci_read config bus dev 0 0x00 ≡ word dev 0x00 % 2 ^ 16
  unfolding pci_read pci_read32
  pci_read-vendor dev = ground arith

  pci_device-at : (dev : ℕ) → pci_device config bus dev ≡ device_at dev
  unfolding pci_device pci_read pci_read32 config_address
  pci_device-at dev = ground arith

  scan_device-starts :
      (dev : ℕ)
      → scan_device config bus dev
        ≡ (if (word dev 0x08 / 2 ^ 8) == 0x0c_03_30 then starts dev else [])
  unfolding scan_device route_ports write_at command pci_read32
  scan_device-starts dev = rw (is_xhci-word dev, pci_read-vendor dev, pci_device-at dev) refl

  scan_devices-starts :
      (count dev : ℕ)
      → scan_devices config count bus dev ≡ for_each (those answers count dev) starts
  unfolding scan_devices
  scan_devices-starts zero dev = refl
  scan_devices-starts (suc count) dev =
      rw (pci_read-vendor dev)
        (ground (arith, scan_devices-starts count (dev + 1), scan_device-starts dev))

  -- Whatever the configuration space reads: scanBus goes through the device numbers 0 to 254 in
  -- ascending order. For each one whose vendor is not 0xffff and whose class, subclass and
  -- programming interface are 0x0c, 0x03 and 0x30, it writes the word at 0x04 back with the bits 1,
  -- 2 and 4 set; where the vendor is 0x8086, writes what the words at 0xdc and 0xd4 read to 0xd8
  -- and 0xd0; and then hands to init_xhci the two halves of the word at 0x00 and the six words from
  -- 0x10 on. It does nothing else.
  pub scan_bus-starts : scan_bus config bus ≡ for_each (those answers 255 0) starts
  unfolding scan_bus
  scan_bus-starts = scan_devices-starts 255 0
