-- ===== src/Net/Addr/Mapped.antt =====
-- IPv4-mapped IPv6 addresses: `addrMapInet6V4Mapped` and `addrUnmapInet6V4Mapped`.
use stice.Base.{
  ℕ, ◌≡◌, refl, ◌∙◌, arith, Bool, true, List, ◌++◌, length, take, drop, take-take, take-all,
  Bool-cases, inl, inr, ◌≢◌, Option-cases, list_eq_refl, none,
}
use stice.Net.Addr.{
  SockAddr, inet, inet6, other, v4_prefix, is_v4_mapped, addr_unmap, addr_map, normalize, is_equal,
  addr_len,
}
use stice.Net.Addr.Equal.{view→is_equal}

-- An address whose byte array has the size of its family.
abbrev pub IsAddr : SockAddr → Type 0
IsAddr (inet ip port) = length ip ≡ 4
IsAddr (inet6 ip port flow scope) = length ip ≡ 16
IsAddr (other family) = Unit

pub mapped_prefix : (ip : List ℕ) → is_v4_mapped (v4_prefix ++ ip) ≡ true
unfolding is_v4_mapped
mapped_prefix ip = list_eq_refl v4_prefix

-- Unmapping undoes mapping on an IPv4 address, and the length is again that of the family.
pub addr_unmap-addr_map :
    (ip : List ℕ) (port len : ℕ)
    → length ip ≡ 4
    → let mapped = addr_map (inet ip port) len in
      addr_unmap mapped.1 mapped.2 ≡ (true, inet ip port, addr_len (inet ip port))
unfolding addr_map addr_unmap addr_len
addr_unmap-addr_map ip port len h =
    rw (mapped_prefix (take 4 ip), take-take 4 ip, take-all 4 ip (omega arith)) refl

normalize-addr_unmap : (a : SockAddr) (len : ℕ) → normalize (addr_unmap a len).1 ≡ normalize a
unfolding normalize addr_unmap
normalize-addr_unmap (inet ip port) len = refl
normalize-addr_unmap (inet6 ip port flow scope) len = elim (Bool-cases (is_v4_mapped ip)) [
  | inl mapped ↦ rw mapped (rw (take-take 4 (drop 12 ip)) refl)
  | inr plain ↦ rw plain (rw plain refl)
]
normalize-addr_unmap (other family) len = refl

-- Unmapping does not change an IPv4 or IPv6 address as `isEqual` sees it.
pub is_equal-addr_unmap :
    (a : SockAddr) (len new_len socktype : ℕ) (ports : Bool)
    → normalize a ≢ none
    → is_equal
        (record { addr = a; len = len; socktype = socktype })
        (record { addr = (addr_unmap a len).1; len = new_len; socktype = socktype })
        ports
      ≡ true
is_equal-addr_unmap a len new_len socktype ports supported = elim (Option-cases (normalize a)) [
  | inl e ↦ absurd (supported e)
  | inr (view, e) ↦ view→is_equal _ _ ports refl (record {
    left = view;
    right = view;
    left_view = e;
    right_view = normalize-addr_unmap a len ∙ e;
    agree = (refl, refl, λ p. refl);
  })
]
