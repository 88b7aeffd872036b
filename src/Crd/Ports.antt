-- ===== src/Crd/Ports.antt =====
-- When two servers' port ranges clash.
use magpie.Prelude.{ℕ, ◌+◌, ◌≤◌, ◌≡◌, ◌↔◌, true, arith, leb, Bool-cases, inl, inr}
use magpie.Crd.{port_ranges_overlap, u16_max}

-- `p` is one of the ports that a server at `port` binds.
abbrev pub Binds : ℕ → ℕ → Type 0
Binds port p = (port ≤ p) × (p ≤ port + 4) × (p ≤ u16_max)

overlap_to :
    (a b : ℕ)
    → port_ranges_overlap a b ≡ true
    → a ≤ u16_max
    → b ≤ u16_max
    → (p : ℕ) × Binds a p × Binds b p
unfolding port_ranges_overlap
overlap_to a b h la lb = elim (Bool-cases (leb a b)) [
  | inl le ↦ (b, ground arith, ground arith)
  | inr gt ↦ (a, ground arith, ground arith)
]

-- For ports that fit a u16, the ranges overlap exactly if some port is bound by both servers.
pub port_ranges_overlap_iff :
    (a b : ℕ)
    → a ≤ u16_max
    → b ≤ u16_max
    → (port_ranges_overlap a b ≡ true) ↔ ((p : ℕ) × Binds a p × Binds b p)
unfolding port_ranges_overlap
port_ranges_overlap_iff a b la lb = (λ h. overlap_to a b h la lb, λ (p, ha, hb). ground arith)

-- Whoever asks, the answer is the same.
pub port_ranges_overlap_symm : (a b : ℕ) → port_ranges_overlap a b ≡ port_ranges_overlap b a
unfolding port_ranges_overlap
port_ranges_overlap_symm a b = ground arith
