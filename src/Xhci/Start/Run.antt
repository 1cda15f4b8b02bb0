-- ===== src/Xhci/Start/Run.antt =====
-- `init_xhci` ends, and what it leaves.
use vimos_minimal.Base.{◌⊎◌, ℕ, ◌+◌, ◌≡◌, true, some, [], replicate}
use vimos_minimal.Mem.{Mem}
use vimos_minimal.Xhci.Trb.{zero_trb}
use vimos_minimal.Xhci.Ring.{Ring, slots_of_page}
use vimos_minimal.Xhci.Start.{Log, set_bits, capabilities_of, capability_loop}
use vimos_minimal.Xhci.Start.Pages.{IsPage, HasPages}
use vimos_minimal.Xhci.Start.Ready.{Clears, Ready}

-- A page, or NULL.
abbrev Page : ℕ → ℕ → Mem → Type 0
Page fuel p h = HasPages fuel h × ((p ≡ 0) ⊎ IsPage p)

abbrev fresh : ℕ → Ring
fresh page = record {
  buf = page;
  slots = replicate slots_of_page zero_trb;
  cycle_bit = true;
  ring_size = slots_of_page;
  ring_index = 0;
}

-- Once USBCMD is written with R/S set, HCH becomes 0.
abbrev pub Runs : (ℕ → Log → ℕ) → ℕ → ℕ → Type 0
Runs answer fuel op =
    (log : Log) → Clears answer fuel (op + 0x04) 0 (set_bits answer (op + 0x00) 0x01 log)

-- Once USBCMD is written with HCRST set, HCRST becomes 0.
abbrev pub Resets : (ℕ → Log → ℕ) → ℕ → ℕ → Type 0
Resets answer fuel op =
    (log : Log) → Clears answer fuel (op + 0x00) 1 (set_bits answer (op + 0x00) 0x02 log)

-- What the controller promises: its list of capabilities ends, HCRST and HCH become 0 once they are
-- asked to, and CNR becomes 0.
pub record IsController (answer : ℕ → Log → ℕ) (fuel : ℕ) : Type 0 where
  pub capabilities :
      (log : Log) × (capability_loop answer fuel
          (capabilities_of answer []).0.extend_capability
          0
          (capabilities_of answer []).1
        ≡ some log)
  pub hcrst : Resets answer fuel (capabilities_of answer []).0.caplength
  pub cnr : (log : Log) → Clears answer fuel ((capabilities_of answer []).0.caplength + 0x04) 11 log
  pub hch : Runs answer fuel (capabilities_of answer []).0.caplength
