-- ===== src/Xhci/StartTests.antt =====
-- The start of a controller with one extended capability and one scratchpad.
use vimos_minimal.Base.{ℕ, ◌+◌, ◌%◌, ◌^◌, ◌≡◌, refl, none, [], ◌∷◌, arith, ◌==◌, if◌then◌else◌}
use vimos_minimal.Layout.{page_offset}
use vimos_minimal.Mem.{Mem, node}
use vimos_minimal.Pci.{PciDevice}
use vimos_minimal.Xhci.Start.{fetched, stored, Log, capability_loop, next_off}
use vimos_minimal.Xhci.Start.Ready.{Ready}
use vimos_minimal.Xhci.Start.Endless.{capability_loop-endless}

-- USBSTS: halted until USBCMD is written with R/S set, and for one read from then on.
abbrev usbsts : Log → ℕ
usbsts [] = 1
usbsts (fetched reg ∷ []) = 1
usbsts (fetched reg ∷ fetched reg' ∷ log) = 1
usbsts (fetched reg ∷ stored reg' value ∷ log) =
    if reg' == 0x40 then if (value % 2) == 1 then 0 else 1 else 1
usbsts (stored reg value ∷ log) = 1

abbrev registers : ℕ → Log → ℕ
registers reg log =
    if reg == 0x00
    then 0x40
    else if reg == 0x08
    then 2 ^ 27
    else if reg == 0x10
    then 0x8_0000
    else if reg == 0x20
    then 2
    else if reg == 0x44
    then usbsts log
    else if reg == 0x48
    then 1
    else 0

abbrev eight : Mem
eight = record { head = node (page_offset + 0x20_0000) 0; cell = λ a. node 0 8 }

abbrev card : PciDevice
card = record {
  vendor = 0x1b36;
  device = 0x000d;
  bar0 = 0xfebf_0004;
  bar1 = 0;
  bar2 = 0;
  bar3 = 0;
  bar4 = 0;
  bar5 = 0;
}

-- Two protocols, each four words before the next capability.
next_off_four : next_off 0x0402 ≡ 16
unfolding next_off
next_off_four = refl

capability_loop-endless_example : capability_loop (λ reg log. 0x0402) 100 0x20 0 [] ≡ none
capability_loop-endless_example =
    capability_loop-endless (λ reg log. 0x0402) 0x20 16 0x0402 0x0402 (λ log. refl) (λ log. refl)
      (omega arith) (omega arith) next_off_four next_off_four (omega arith) 100 []
