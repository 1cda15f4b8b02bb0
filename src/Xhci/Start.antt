-- ===== src/Xhci/Start.antt =====
-- `init_xhci` of kernel/xhci.c. The controller is a parameter: `answer` gives the value of the register at
-- an offset from `mmio_base`, after the accesses so far.
pub mod Pages
pub mod Ready
pub mod Run
pub mod Endless
use vimos_minimal.Base.{
  ◌⊎◌, ◌↔◌, inl, inr, ℕ, zero, suc, ◌+◌, ◌-◌, ◌*◌, ◌/◌, ◌%◌, ◌^◌, ◌≤◌, ◌<◌, min, max, bit_and,
  bit_or, bit_xor, ◌≡◌, refl, sym, ap, ◌∙◌, ◌≢◌, Bool, true, false, ◌&&◌, ◌||◌, not, Option, none,
  some, List, [], ◌∷◌, ◌++◌, map, arith, ltb, leb, ◌==◌, if◌then◌else◌, ltb→lt, lt→ltb, le→ltb,
  leb→le, ==_iff, ==_refl, Bool-cases, nat_cases, length, get_elem?, get_or, set, take, drop,
  replicate, length-append, length-replicate, length-set, get_or-set_self, get_or-set_ne,
  get_or-append_left, get_or-append_right, get_or-append_last, get_or-replicate, u8, u16, u32, u64,
  sub32, sub64,
}
use vimos_minimal.Layout.{p2v, v2p}
use vimos_minimal.Mem.{M, pure, ◌>>=◌, out_of_fuel, alloc_mem}
use vimos_minimal.Pci.{PciDevice}
use vimos_minimal.Xhci.Ring.{Ring, bit, new_ring}
use vimos_minimal.Xhci.Events.{EventRing}

pub data Access : Type 0 where
  fetched : (reg : ℕ) → Access
  stored : (reg value : ℕ) → Access

-- The accesses, the last one first.
abbrev pub Log : Type 0
Log = List Access

unfoldable pub mmio_base_of : PciDevice → ℕ
mmio_base_of dev = p2v (bit_or (dev.bar1 * 2 ^ 32) (dev.bar0 - dev.bar0 % 16))

-- `xhci_caplength`, `xhci_runtime_space`, `xhci_doorbell`, `xhci_extend_capability` and `csz`.
pub record Capabilities : Type 0 where
  pub caplength : ℕ
  pub runtime_space : ℕ
  pub doorbell : ℕ
  pub extend_capability : ℕ
  pub csz : Bool

unfoldable pub scratchpads_of : ℕ → ℕ
scratchpads_of params2 = bit_or (params2 / 2 ^ 27 % 2 ^ 5) (params2 / 2 ^ 21 % 2 ^ 5 * 2 ^ 5)

-- `(scratchpads * 8 + 4095) / 4096`
abbrev pub array_pages : ℕ → ℕ
array_pages scratchpads = (scratchpads * 8 + 4095) / 4096

-- What `init_xhci` leaves: `contexts_page` is `device_contexts`, `context0` its first entry, and
-- `erst_addr` and `erst_size` the table with the one segment.
pub record Started : Type 0 where
  pub mmio_base : ℕ
  pub capabilities : Capabilities
  pub contexts_page : ℕ
  pub context0 : ℕ
  pub scratchpad_array : List ℕ
  pub cmd_ring : Ring
  pub event_ring : EventRing
  pub erst_addr : ℕ
  pub erst_size : ℕ
  pub log : Log

-- An end of the loops over the registers is needed; `none` is a wait that goes on.
abbrev pub waits : Option Log → M Log
waits none = λ h. out_of_fuel
waits (some log) = pure log

-- `off = ((v >> 8) & 0xffff) << 2`, in `uint16_t`.
unfoldable pub next_off : ℕ → ℕ
next_off v = u16 (v / 2 ^ 8 % 2 ^ 16 * 4)

-- The loop that fills `scratchpad_array`; the pages are those of the allocator.
unfoldable pub scratchpad_loop : (left fuel pagesize : ℕ) → List ℕ → M (Option (List ℕ))
scratchpad_loop zero fuel pagesize array = pure (some array)
scratchpad_loop (suc left) fuel pagesize array = if not (pagesize == 1) then pure none else do
  page ← alloc_mem fuel 1
  if page == 0 then pure none else scratchpad_loop left fuel pagesize (array ++ v2p page ∷ [])

-- The stores of a 64-bit address in two halves.
unfoldable pub store_halves : (reg low addr : ℕ) → Log → Log
store_halves reg low addr log =
    stored (reg + 4) (addr / 2 ^ 32 % 2 ^ 32) ∷ stored reg (bit_or (addr % 2 ^ 32) low) ∷ log

-- The stores for the event ring; `erst` is the address of the table.
unfoldable pub store_events : (runtime erst ring : ℕ) → Log → Log
store_events runtime erst ring log =
    store_halves (runtime + 0x30) 0 (v2p erst)
      (store_halves (runtime + 0x38) 0 ring (stored (runtime + 0x28) 1 ∷ log))

module _ (answer : ℕ → Log → ℕ) where
  unfoldable pub capabilities_of : Log → Capabilities × Log
  capabilities_of log =
      let caplength = answer 0x00 log in
      let log1 = fetched 0x00 ∷ log in
      let rtsoff = answer 0x18 log1 in
      let log2 = fetched 0x18 ∷ log1 in
      let dboff = answer 0x14 log2 in
      let log3 = fetched 0x14 ∷ log2 in
      let hccparams = answer 0x10 log3 in
      (
        record {
          caplength = caplength % 2 ^ 8;
          runtime_space = rtsoff;
          doorbell = dboff;
          extend_capability = hccparams / 2 ^ 16 % 2 ^ 16 * 4;
          csz = (hccparams / 4 % 2) == 1;
        },
        fetched 0x10 ∷ log3,
      )

  -- One extended capability: the legacy support is taken over, and the ports of a protocol are read.
  unfoldable pub capability_step : ℕ → Log → ℕ × Log
  capability_step reg log =
      let v = answer reg log in
      let log1 = fetched reg ∷ log in
      if (v % 2 ^ 8) == 1
      then (next_off (bit_or v (2 ^ 24)), stored reg (bit_or v (2 ^ 24)) ∷ log1)
      else if (v % 2 ^ 8) == 2
      then (next_off v, fetched (reg + 0x08) ∷ log1)
      else (next_off v, log1)

  unfoldable pub capability_loop : (fuel ext off : ℕ) → Log → Option Log
  capability_loop zero ext off log = none
  capability_loop (suc fuel) ext off log =
      let next = (capability_step (ext + off) log).0 in
      let log1 = (capability_step (ext + off) log).1 in
      let rest = capability_loop fuel ext next log1 in if next == 0 then some log1 else rest

  -- Reads the register until bit `k` is 0.
  unfoldable pub wait_clear : (fuel reg k : ℕ) → Log → Option Log
  wait_clear zero reg k log = none
  wait_clear (suc fuel) reg k log =
      let rest = wait_clear fuel reg k (fetched reg ∷ log) in
      if (answer reg log / 2 ^ k % 2) == 0 then some (fetched reg ∷ log) else rest

  -- Reads a register and writes it back with the bits of `mask`.
  unfoldable pub set_bits : (reg mask : ℕ) → Log → Log
  set_bits reg mask log = stored reg (bit_or (answer reg log) mask) ∷ fetched reg ∷ log

  -- From PAGESIZE to CONFIG: the controller is reset. `op` is the start of the operational registers,
  -- and `none` a panic.
  unfoldable pub reset_controller : (fuel op : ℕ) → Log → M (Option (ℕ × Log))
  reset_controller fuel op log0 = do
    let pagesize = answer (op + 0x08) log0
    let log1 = fetched (op + 0x08) ∷ log0
    let usbsts = answer (op + 0x04) log1
    let log2 = fetched (op + 0x04) ∷ log1
    if (usbsts % 2) == 0 then pure none else do
      log3 ← waits (wait_clear fuel (op + 0x00) 1 (set_bits (op + 0x00) 0x02 log2))
      log4 ← waits (wait_clear fuel (op + 0x04) 11 log3)
      let hcsparams1 = answer 0x04 log4
      let log5 = fetched 0x04 ∷ log4
      let config = answer (op + 0x38) log5
      pure (
          some (
            pagesize,
            stored (op + 0x38) (config - config % 2 ^ 8 + hcsparams1 % 2 ^ 8)
                ∷ fetched (op + 0x38)
                ∷ log5,
          ))

  -- The rings and the start of the controller, where the pages of both rings have been allocated.
  unfoldable pub run_with :
      (fuel mmio_base erst : ℕ)
      → Capabilities
      → (contexts_page context0 : ℕ) → List ℕ
      → Option Ring
      → Option Ring
      → Log
      → M (Option Started)
  run_with fuel mmio_base erst caps contexts_page context0 array none event_ring log = pure none
  run_with fuel mmio_base erst caps contexts_page context0 array (some cmd) none log = pure none
  run_with fuel mmio_base erst caps contexts_page context0 array (some cmd) (some events) log0 = do
    let op = caps.caplength
    let ring = v2p events.buf
    let log1 = store_events caps.runtime_space erst ring (
        store_halves (op + 0x18) (bit cmd.cycle_bit) (v2p cmd.buf)
          (store_halves (op + 0x30) 0 (v2p contexts_page) log0))
    log2 ← waits (wait_clear fuel (op + 0x04) 0 (set_bits (op + 0x00) 0x01 log1))
    pure (
        some (record {
          mmio_base = mmio_base;
          capabilities = caps;
          contexts_page = contexts_page;
          context0 = context0;
          scratchpad_array = array;
          cmd_ring = cmd;
          event_ring = record {
            erdp_low = u32 ring;
            erdp_high = u32 (ring / 2 ^ 32);
            buf = events.buf;
            slots = events.slots;
            cycle_bit = events.cycle_bit;
          };
          erst_addr = ring;
          erst_size = u16 events.ring_size;
          log = log2;
        }))

  -- What follows where the scratchpads have been allocated.
  unfoldable pub with_array :
      (fuel mmio_base erst : ℕ)
      → Capabilities
      → (contexts_page array_page : ℕ) → Option (List ℕ)
      → Log
      → M (Option Started)
  with_array fuel mmio_base erst caps contexts_page array_page none log = pure none
  with_array fuel mmio_base erst caps contexts_page array_page (some array) log = do
    cmd ← alloc_mem fuel 1
    if cmd == 0 then pure none else do
      events ← alloc_mem fuel 1
      run_with fuel mmio_base erst caps contexts_page (v2p array_page) array (new_ring cmd)
          (new_ring events) log

  unfoldable pub with_reset :
      (fuel mmio_base erst : ℕ) → Capabilities → Option (ℕ × Log) → M (Option Started)
  with_reset fuel mmio_base erst caps none = pure none
  with_reset fuel mmio_base erst caps (some (pagesize, log)) = do
    contexts_page ← alloc_mem fuel 1
    if contexts_page == 0 then pure none else do
      let scratchpads = scratchpads_of (answer 0x08 log)
      array_page ← alloc_mem fuel (array_pages scratchpads)
      if array_page == 0 then pure none else do
        array ← scratchpad_loop scratchpads fuel pagesize []
        with_array fuel mmio_base erst caps contexts_page array_page array (fetched 0x08 ∷ log)

  -- `erst` is the address of the static table, and `none` stands for `panic`.
  unfoldable pub init_xhci : (fuel erst : ℕ) → PciDevice → M (Option Started)
  init_xhci fuel erst dev = do
    let caps = (capabilities_of []).0
    log ← waits (capability_loop fuel caps.extend_capability 0 (capabilities_of []).1)
    r ← reset_controller fuel caps.caplength log
    with_reset fuel (mmio_base_of dev) erst caps r
