-- ===== src/Crd/Tests.antt =====
-- Examples for crates/crd/src/lib.rs.
use magpie.Prelude.{◌≡◌, ◌↔◌, true, arith}
use magpie.Crd.{port_ranges_overlap}
use magpie.Crd.Ports.{Binds, port_ranges_overlap_iff}

-- the default port, and a second server three ports above
port_ranges_overlap_iff_example :
    (port_ranges_overlap 2302 2305 ≡ true) ↔ ((p : _) × Binds 2302 p × Binds 2305 p)
port_ranges_overlap_iff_example = port_ranges_overlap_iff 2302 2305 (omega arith) (omega arith)
