-- ===== src/Xhci/Trb.antt =====
-- The transfer request blocks of include/xhci.h and their initialisation in kernel/xhci_trb.c.
-- A block is four 32-bit words; the bit fields of a struct are packed from the lowest bit up.
use vimos_minimal.Base.{ℕ, ◌+◌, ◌*◌, ◌/◌, ◌%◌, ◌^◌, ◌<◌, ◌≡◌, ◌≢◌, arith, u8, u16}

pub record Trb : Type 0 where
  pub w0 : ℕ
  pub w1 : ℕ
  pub w2 : ℕ
  pub w3 : ℕ

abbrev pub trb : ℕ → ℕ → ℕ → ℕ → Trb
trb a b c d = record { w0 = a; w1 = b; w2 = c; w3 = d }

-- What `memset(…, 0, 16)` leaves.
abbrev pub zero_trb : Trb
zero_trb = trb 0 0 0 0

abbrev pub low32 : ℕ → ℕ
low32 n = n % 2 ^ 32

abbrev pub high32 : ℕ → ℕ
high32 n = n / 2 ^ 32 % 2 ^ 32

-- The last word: `c` in bit 0, the bits 1 to 9 and 16 to 31 as they stand, `type` in bits 10 to 15.
abbrev pub control : ℕ → ℕ → ℕ → ℕ
control mid type high = 2 * mid + 1024 * type + 2 ^ 16 * high

abbrev pub type_of : Trb → ℕ
type_of t = t.w3 / 1024 % 64

abbrev pub cycle_of : Trb → ℕ
cycle_of t = t.w3 % 2

-- `struct normal_trb` after `init_normal_trb`: `ioc` is bit 5.
unfoldable pub init_normal_trb : ℕ → Trb
init_normal_trb buf = trb (low32 buf) (high32 buf) 0 (control 16 1 0)

-- `struct setup_stage_trb` after `init_setup_stage_trb` and the assignments of `get_descriptor`:
-- `idt` is bit 6, `trt` bits 16 and 17, `trb_length` the low 17 bits of the third word.
pub setup_stage_trb : ℕ → ℕ → ℕ → ℕ → ℕ → ℕ → Trb
setup_stage_trb request_type request wvalue windex wlength trt =
    trb (u8 request_type + 2 ^ 8 * u8 request + 2 ^ 16 * u16 wvalue)
      (u16 windex + 2 ^ 16 * u16 wlength) 8 (control 32 2 (trt % 4))

-- `struct data_stage_trb` after `init_data_stage_trb` and `dir = dir`.
pub data_stage_trb : ℕ → ℕ → ℕ → Trb
data_stage_trb buf len dir = trb (low32 buf) (high32 buf) (len % 2 ^ 17) (control 16 3 (dir % 2))

-- `struct status_stage_trb` after `init_status_stage_trb`, `dir = dir` and `ioc = ioc`.
pub status_stage_trb : ℕ → ℕ → Trb
status_stage_trb dir ioc = trb 0 0 0 (control (16 * (ioc % 2)) 4 (dir % 2))

-- `struct address_device_command` after `init_address_device_command`: `slot_id` is the top byte.
pub init_address_device_command : ℕ → ℕ → Trb
init_address_device_command ctx slot =
    trb (low32 ctx) (high32 ctx) 0 (control 0 11 (2 ^ 8 * u8 slot))

-- `struct enable_slot_command` with `type = 9`.
pub enable_slot_command : Trb
enable_slot_command = trb 0 0 0 (control 0 9 0)

-- `struct configure_endpoint_command` with `type = 12`.
pub configure_endpoint_command : ℕ → ℕ → Trb
configure_endpoint_command ctx slot =
    trb (low32 ctx) (high32 ctx) 0 (control 0 12 (2 ^ 8 * u8 slot))

-- `struct evaluate_context_command` with `type = 13`.
pub evaluate_context_command : ℕ → ℕ → Trb
evaluate_context_command ctx slot = trb (low32 ctx) (high32 ctx) 0 (control 0 13 (2 ^ 8 * u8 slot))

-- `struct link_trb` with `type = 6` and `tc = 1`, as `write_ring` fills it.
unfoldable pub link_trb : ℕ → Trb
link_trb ptr = trb (low32 ptr) (high32 ptr) 0 (control 1 6 0)

-- What a driver may put on a ring: words of 32 bits, the cycle bit clear, and no link.
pub record IsPlain (t : Trb) : Type 0 where
  pub word : t.w3 < 2 ^ 32
  pub clear : cycle_of t ≡ 0
  pub no_link : type_of t ≢ 6

-- Each block that the driver fills in is fit to be put on a ring.
pub init_normal_trb-IsPlain : (buf : ℕ) → IsPlain (init_normal_trb buf)
unfolding init_normal_trb
init_normal_trb-IsPlain buf = omega arith

pub setup_stage_trb-IsPlain : (rt r v i l t : ℕ) → IsPlain (setup_stage_trb rt r v i l t)
unfolding setup_stage_trb
setup_stage_trb-IsPlain rt r v i l t = omega arith

pub data_stage_trb-IsPlain : (buf len dir : ℕ) → IsPlain (data_stage_trb buf len dir)
unfolding data_stage_trb
data_stage_trb-IsPlain buf len dir = omega arith

pub status_stage_trb-IsPlain : (dir ioc : ℕ) → IsPlain (status_stage_trb dir ioc)
unfolding status_stage_trb
status_stage_trb-IsPlain dir ioc = omega arith

pub init_address_device_command-IsPlain :
    (ctx slot : ℕ) → IsPlain (init_address_device_command ctx slot)
unfolding init_address_device_command
init_address_device_command-IsPlain ctx slot = omega arith
