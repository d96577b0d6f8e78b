-- ===== src/Net/HostAndPort/Order.antt =====
-- The comparisons of `HostAndPort`.
use ezbake_common_cpp.Common.{
  ℕ, ◌≡◌, ◌↔◌, inl, inr, refl, Bool, true, false, not, ◌&&◌, ◌||◌, Option, none, some, [], ◌∷◌,
  Text, text_eq, text_eq_iff, arith, Option-cases,
}
use ezbake_common_cpp.Net.HostAndPort.{
  HostAndPort, text_lt, ports_eq, equals, ports_lt, less, has_port,
}

ports_eq_iff : (p q : Option ℕ) → (ports_eq p q ≡ true) ↔ (p ≡ q)
unfolding ports_eq
ports_eq_iff none none = ground arith
ports_eq_iff none (some q) = ground arith
ports_eq_iff (some p) none = ground arith
ports_eq_iff (some p) (some q) = ground arith

-- `operator==` holds of equal addresses and of no others.
pub equals_iff : (h g : HostAndPort) → (equals h g ≡ true) ↔ (h ≡ g)
unfolding equals
equals_iff h g = ground (arith, text_eq_iff h.host g.host, ports_eq_iff h.port g.port)

text_lt_asym : (s t : Text) → text_lt s t ≡ true → text_lt t s ≡ false
unfolding text_lt
text_lt_asym [] [] e = refl
text_lt_asym [] (d ∷ t) e = refl
text_lt_asym (c ∷ s) [] e = cc
text_lt_asym (c ∷ s) (d ∷ t) e = ground (arith, text_lt_asym s t)

text_lt_total : (s t : Text) → text_eq s t ≡ false → text_lt s t ≡ false → text_lt t s ≡ true
unfolding text_lt text_eq
text_lt_total [] [] n e = cc
text_lt_total [] (d ∷ t) n e = cc
text_lt_total (c ∷ s) [] n e = refl
text_lt_total (c ∷ s) (d ∷ t) n e = ground (arith, text_lt_total s t)

text_lt_trans : (s t u : Text) → text_lt s t ≡ true → text_lt t u ≡ true → text_lt s u ≡ true
unfolding text_lt
text_lt_trans [] [] u p q = cc
text_lt_trans [] (d ∷ t) [] p q = cc
text_lt_trans [] (d ∷ t) (e ∷ u) p q = refl
text_lt_trans (c ∷ s) [] u p q = cc
text_lt_trans (c ∷ s) (d ∷ t) [] p q = cc
text_lt_trans (c ∷ s) (d ∷ t) (e ∷ u) p q = ground (arith, text_lt_trans s t u)

-- Exactly one of the three.
unfoldable pub one_of : Bool → Bool → Bool → Bool
one_of a b c = (a && not b && not c) || (not a && b && not c) || (not a && not b && c)

-- Of two addresses that have ports exactly one is less than the other, or they are equal.
pub less_trichotomy :
    (h g : HostAndPort)
    → has_port h ≡ true
    → has_port g ≡ true
    → one_of (less h g) (equals h g) (less g h) ≡ true
unfolding less equals has_port one_of ports_lt ports_eq
less_trichotomy h g p q = elim (Option-cases h.port) [
  | inl no_port ↦ absurd (cc (rw (no_port, has_port) at p))
  | inr (a, hp) ↦ elim (Option-cases g.port) [
    | inl no_port ↦ absurd (cc (rw (no_port, has_port) at q))
    | inr (b, gp) ↦ ground (
      arith,
      text_eq_iff h.host g.host,
      text_eq_iff g.host h.host,
      text_lt_asym h.host g.host,
      text_lt_asym g.host h.host,
      text_lt_total h.host g.host,
    )
  ]
]

less_trans_ports :
    (p q r : Option ℕ) → ports_lt p q ≡ true → ports_lt q r ≡ true → ports_lt p r ≡ true
unfolding ports_lt
less_trans_ports none q r a b = refl
less_trans_ports (some p) none r a b = cc
less_trans_ports (some p) (some q) none a b = cc
less_trans_ports (some p) (some q) (some r) a b = ground arith

-- `operator<` is transitive, with ports or without.
pub less_trans : (h g k : HostAndPort) → less h g ≡ true → less g k ≡ true → less h k ≡ true
unfolding less
less_trans h g k p q = ground (
  arith,
  text_eq_iff h.host g.host,
  text_eq_iff g.host k.host,
  text_eq_iff h.host k.host,
  text_lt_asym h.host g.host,
  text_lt_trans h.host g.host k.host,
  less_trans_ports h.port g.port k.port,
)

-- `operator<` says of an address that it is less than itself exactly if it has no port; so it is
-- no strict order.
pub less_self : (h : HostAndPort) → less h h ≡ not (has_port h)
unfolding less has_port ports_lt
less_self h = elim (Option-cases h.port) [
  | inl no_port ↦ ground (arith, text_eq_iff h.host h.host)
  | inr (a, hp) ↦ ground (arith, text_eq_iff h.host h.host)
]
