-- ===== src/Pci/Tests.antt =====
-- The scan at concrete inputs.
use vimos_minimal.Base.{ℕ, ◌/◌, ◌%◌, ◌≡◌, arith, ◌==◌, if◌then◌else◌}
use vimos_minimal.Pci.{config_address, scan_bus}
use vimos_minimal.Pci.Address.{config_address-wraps}
use vimos_minimal.Pci.Found.{those, for_each, answers, starts, scan_bus-starts}

-- One controller, as device 3 of bus 0.
abbrev one_controller : ℕ → ℕ
one_controller addr =
    if addr == 0x8000_1800
    then 0x1234_8086
    else if addr == 0x8000_1808
    then 0x0c03_3000
    else 0xffff_ffff

scan_bus-starts_example :
    scan_bus one_controller 0
    ≡ for_each (those (answers one_controller 0) 255 0) (starts one_controller 0)
scan_bus-starts_example = scan_bus-starts one_controller 0

config_address-wraps_example :
    config_address 0 35 0 0x10 ≡ config_address (35 / 32) (35 % 32) 0 0x10
config_address-wraps_example =
    config_address-wraps 35 0 0x10 (omega arith) (omega arith) (omega arith)
