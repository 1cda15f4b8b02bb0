-- ===== src/Layout/Tests.antt =====
-- The layout of the address space at concrete addresses.
use vimos_minimal.Base.{◌≡◌, arith}
use vimos_minimal.Layout.{p2v, v2p, v2p-p2v}

v2p-p2v_example : v2p (p2v 0xb8000) ≡ 0xb8000
v2p-p2v_example = v2p-p2v 0xb8000 (omega arith)
