-- ===== src/Pci/Address.antt =====
-- The addresses that kernel/pci.c writes to the address port.
use vimos_minimal.Base.{ℕ, ◌+◌, ◌-◌, ◌*◌, ◌/◌, ◌%◌, ◌^◌, ◌<◌, bit_or, ◌≡◌, refl, arith}
use vimos_minimal.Base.Bits.{bit_or_disjoint}
use vimos_minimal.Pci.{config_address}

-- For a bus below 256, a device below 32, a function below 8 and an offset below 256, the fields
-- stand side by side in the address.
pub config_address-fields :
    (bus dev func offset : ℕ)
    → bus < 256
    → dev < 32
    → func < 8
    → offset < 256
    → config_address bus dev func offset
      ≡ 2 ^ 31 + bus * 2 ^ 16 + dev * 2 ^ 11 + func * 2 ^ 8 + (offset - offset % 4)
unfolding config_address
config_address-fields bus dev func offset b d f o =
    let e1 : bit_or 0x80000000 (bus * 2 ^ 16) ≡ (2 ^ 15 + bus) * 2 ^ 16 =
      omega (arith, bit_or_disjoint 31 1 (bus * 2 ^ 16) (omega arith)) in
    let q2 = (2 ^ 15 + bus) * 2 ^ 5 + dev in
    let e2 : bit_or ((2 ^ 15 + bus) * 2 ^ 16) (dev * 2 ^ 11) ≡ q2 * 2 ^ 11 =
      omega (arith, bit_or_disjoint 16 (2 ^ 15 + bus) (dev * 2 ^ 11) (omega arith)) in
    let q3 = q2 * 2 ^ 3 + func in
    let e3 : bit_or (q2 * 2 ^ 11) (func * 2 ^ 8) ≡ q3 * 2 ^ 8 =
      omega (arith, bit_or_disjoint 11 q2 (func * 2 ^ 8) (omega arith)) in
    let e4 = bit_or_disjoint 8 q3 (offset - offset % 4) (omega arith) in
    rw (e1, e2, e3, e4) (omega arith)

-- `scanBus` counts devices up to 254, but a device number has 5 bits: on bus 0, device `dev` is
-- asked at the address of device `dev % 32` of bus `dev / 32`, for every device number that the
-- scan reaches, every function below 8 and every offset below 256.
pub config_address-wraps :
    (dev func offset : ℕ)
    → dev < 255
    → func < 8
    → offset < 256
    → config_address 0 dev func offset ≡ config_address (dev / 32) (dev % 32) func offset
unfolding config_address
config_address-wraps dev func offset d f o =
    let e0 : bit_or 0x80000000 (0 * 2 ^ 16) ≡ 0x80000000 = refl in
    let e1 : bit_or 0x80000000 (dev * 2 ^ 11) ≡ (2 ^ 20 + dev) * 2 ^ 11 =
      omega (arith, bit_or_disjoint 31 1 (dev * 2 ^ 11) (omega arith)) in
    let e1' : bit_or 0x80000000 (dev / 32 * 2 ^ 16) ≡ (2 ^ 15 + dev / 32) * 2 ^ 16 =
      omega (arith, bit_or_disjoint 31 1 (dev / 32 * 2 ^ 16) (omega arith)) in
    let e2 : bit_or ((2 ^ 15 + dev / 32) * 2 ^ 16) (dev % 32 * 2 ^ 11) ≡ (2 ^ 20 + dev) * 2 ^ 11 =
      omega (arith, bit_or_disjoint 16 (2 ^ 15 + dev / 32) (dev % 32 * 2 ^ 11) (omega arith)) in
    rw (e1, e1', e2) refl
