-- ===== src/Net/Addr/Scope.antt =====
-- Loopback and link-local addresses: `addrIsLocal` and `addrIsLinkLocal`.
use stice.Base.{
  ℕ, ◌≡◌, refl, ap, sym, ◌∙◌, arith, Bool, true, false, some, ◌==◌, if◌then◌else◌, List, [], ◌∷◌,
  ◌++◌, take, drop, replicate, list_eq→eq, Bool-cases, inl, inr,
}
use stice.Bytes.{byte_at, read_u32_be}
use stice.Net.Addr.{
  SockAddr, inet, inet6, other, v4_prefix, is_v4_mapped, is_inet6_loopback, is_inet6_link_local,
  addr_is_local, addr_is_link_local, addr_unmap, af_inet, AddrRecord, normalize, is_equal,
  is_link_local_word,
}
use stice.Net.Addr.Equal.{is_equal→view}

read-take : (xs : List ℕ) → read_u32_be (take 4 xs) ≡ read_u32_be xs
unfolding read_u32_be
read-take [] = refl
read-take (a ∷ []) = refl
read-take (a ∷ b ∷ []) = refl
read-take (a ∷ b ∷ c ∷ []) = refl
read-take (a ∷ b ∷ c ∷ d ∷ xs) = refl

-- A mapped address is neither ::1 nor in fe80::/10.
mapped_loopback : (ip : List ℕ) → is_v4_mapped ip ≡ true → is_inet6_loopback ip ≡ false
unfolding is_v4_mapped is_inet6_loopback
mapped_loopback ip h = elim (Bool-cases (is_inet6_loopback ip)) [
  | inr e ↦ e
  | inl e ↦
      absurd (clash (ap (take 12) (sym (list_eq→eq ip _ e)) ∙ list_eq→eq (take 12 ip) v4_prefix h))
]
  where
    clash : take 12 (replicate 15 0 ++ (1 ∷ [])) ≡ v4_prefix → ⊥
    clash h = cc

mapped_link_local : (ip : List ℕ) → is_v4_mapped ip ≡ true → is_inet6_link_local ip ≡ false
unfolding is_v4_mapped is_inet6_link_local
mapped_link_local ip h = rw (first ip (list_eq→eq (take 12 ip) v4_prefix h)) refl
  where
    first : (ip : List ℕ) → take 12 ip ≡ v4_prefix → byte_at ip 0 ≡ 0
    first [] h = refl
    first (x ∷ xs) h = cc

-- `addrIsLocal` and `addrIsLinkLocal` say of an IPv4-mapped address what they say of the IPv4
-- address in it: canonicalising an address, which the enumeration does later, changes no answer.
pub addr_is_local-addr_unmap :
    (a : SockAddr) (len : ℕ)
    → (addr_is_local (some (addr_unmap a len).1) ≡ addr_is_local (some a))
      × (addr_is_link_local (some (addr_unmap a len).1) ≡ addr_is_link_local (some a))
unfolding addr_is_local addr_is_link_local addr_unmap
addr_is_local-addr_unmap (inet ip port) len = (refl, refl)
addr_is_local-addr_unmap (other family) len = (refl, refl)
addr_is_local-addr_unmap (inet6 ip port flow scope) len = elim (Bool-cases (is_v4_mapped ip)) [
  | inl e ↦
      rw e (rw (read-take (drop 12 ip), mapped_loopback ip e, mapped_link_local ip e) (refl, refl))
  | inr e ↦ rw e (rw e (refl, refl))
]

-- Every link-local address is local.
pub addr_is_link_local→addr_is_local :
    (a : SockAddr) → addr_is_link_local (some a) ≡ true → addr_is_local (some a) ≡ true
unfolding addr_is_local addr_is_link_local
addr_is_link_local→addr_is_local (inet ip port) h = ground arith
addr_is_link_local→addr_is_local (inet6 ip port flow scope) h = ground arith
addr_is_link_local→addr_is_local (other family) h = cc

unfoldable view_is_link_local : ℕ × List ℕ × ℕ → Bool
view_is_link_local (family, ip, port) =
    if family == af_inet then is_link_local_word (read_u32_be ip) else is_inet6_link_local ip

first_bytes : (ip : List ℕ) → is_inet6_link_local (take 16 ip) ≡ is_inet6_link_local ip
unfolding is_inet6_link_local
first_bytes [] = refl
first_bytes (a ∷ []) = refl
first_bytes (a ∷ b ∷ ip) = refl

some_eq {ℓ} : {A : Type ℓ} {x y : A} → some x ≡ some y → x ≡ y
some_eq h = cc

plain : (b : Bool) → (if b then true else false) ≡ b
plain true = refl
plain false = refl

view_of :
    (a : SockAddr) (v : ℕ × List ℕ × ℕ)
    → normalize a ≡ some v
    → addr_is_link_local (some a) ≡ view_is_link_local v
unfolding normalize view_is_link_local addr_is_link_local
view_of (inet ip port) v h =
    ap is_link_local_word (sym (read-take ip)) ∙ ap view_is_link_local (some_eq h)
view_of (inet6 ip port flow scope) v h = elim (Bool-cases (is_v4_mapped ip)) [
  | inl e ↦
      rw (e, mapped_link_local ip e)
        (ap is_link_local_word (sym (read-take (drop 12 ip)))
          ∙ ap view_is_link_local (some_eq (rw e at h)))
  | inr e ↦ rw e (
      plain (is_inet6_link_local ip)
      ∙ sym (first_bytes ip)
      ∙ ap view_is_link_local (some_eq (rw e at h)))
]
view_of (other family) v h = cc

-- Addresses that compare equal are link-local together.
pub is_equal-addr_is_link_local :
    (r o : AddrRecord) (ports : Bool)
    → is_equal r o ports ≡ true
    → addr_is_link_local (some r.addr) ≡ addr_is_link_local (some o.addr)
unfolding view_is_link_local
is_equal-addr_is_link_local r o ports h =
    let (type, v) = is_equal→view r o ports h in
    view_of r.addr v.left v.left_view
    ∙ rw (v.agree.0, v.agree.1) refl
    ∙ sym (view_of o.addr v.right v.right_view)
