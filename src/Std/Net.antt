-- ===== src/Std/Net.antt =====
-- `std::net::SocketAddr` with the order that it derives.
use wire_probe.Prelude.{ℕ, ◌≡◌, ap, Ordering, List, [], ◌∷◌, ◌↔◌}
use wire_probe.Std.Order.{Ord, cmp_fields, cmp_fields-eq, cmp_fields-flip, cmp_fields_trans}

-- An address is its big-endian value: 32 bits for `v4`, 128 for `v6`.
pub data SocketAddr : Type 0 where
  v4 : (ip port : ℕ) → SocketAddr
  v6 : (ip port flowinfo scope_id : ℕ) → SocketAddr

-- What the derived order compares, in sequence: the variant, then its fields.
abbrev addr_fields : SocketAddr → List ℕ
addr_fields (v4 ip port) = 0 ∷ ip ∷ port ∷ []
addr_fields (v6 ip port flowinfo scope_id) = 1 ∷ ip ∷ port ∷ flowinfo ∷ scope_id ∷ []

addr_fields_injective : (a b : SocketAddr) → addr_fields a ≡ addr_fields b → a ≡ b
addr_fields_injective (v4 ip port) (v4 ip' port') e = cc
addr_fields_injective (v4 ip port) (v6 ip' port' flowinfo scope_id) e = cc
addr_fields_injective (v6 ip port flowinfo scope_id) (v4 ip' port') e = cc
addr_fields_injective (v6 ip port flowinfo scope_id) (v6 ip' port' flowinfo' scope_id') e = cc

abbrev pub cmp_addr : SocketAddr → SocketAddr → Ordering
cmp_addr a b = cmp_fields (addr_fields a) (addr_fields b)

pub cmp_addr-eq : (a b : SocketAddr) → (cmp_addr a b ≡ Ordering.eq) ↔ (a ≡ b)
cmp_addr-eq a b = (
  λ h. addr_fields_injective a b ((cmp_fields-eq _ _).0 h),
  λ e. (cmp_fields-eq _ _).1 (ap addr_fields e),
)

instance abbrev pub addr_ord : Ord SocketAddr
addr_ord = record {
  cmp = cmp_addr;
  cmp-eq = cmp_addr-eq;
  cmp-flip = λ a b. cmp_fields-flip (addr_fields a) (addr_fields b);
  cmp-trans = λ a b c. cmp_fields_trans (addr_fields a) (addr_fields b) (addr_fields c);
}
