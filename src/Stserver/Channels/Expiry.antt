-- ===== src/Stserver/Channels/Expiry.antt =====
-- The clean-up of `expireStale` and the permission test.
use stice.Base.{
  ℕ, ◌≤◌, ◌≡◌, inl, inr, refl, ap, arith, Bool, true, ◌&&◌, List, [], ◌∷◌, All, ltb, leb,
  if◌then◌else◌, Bool-cases, leb→le,
}
use stice.Net.Addr.{AddrRecord}
use stice.Stserver.Channels.{
  Permission, Channel, Peers, same_peer_ip, is_permitted, expire_permissions, expire_channels,
  expire_peers,
}
use stice.Stserver.Channels.Laws.{IsApart, IsOneToOne}

stale_refused :
    (same more : Bool) (expiry now later : ℕ)
    → expiry ≤ now
    → now ≤ later
    → (if same && ltb later expiry then true else more) ≡ more
stale_refused same more expiry now later old after = ground arith

permitted_alike :
    (permissions : List Permission) (peer : AddrRecord) (now later : ℕ)
    → now ≤ later
    → is_permitted (expire_permissions permissions now) peer later
      ≡ is_permitted permissions peer later
unfolding is_permitted expire_permissions
permitted_alike [] peer now later after = refl
permitted_alike (p ∷ rest) peer now later after =
    let rest_alike = permitted_alike rest peer now later after in
    elim (Bool-cases (leb p.expiry_ms now)) [
      | inl old ↦
          rw
            (
              old,
              stale_refused (same_peer_ip p.peer peer) (is_permitted rest peer later) p.expiry_ms
                  now later (leb→le p.expiry_ms now old) after,
            )
            rest_alike
      | inr young ↦ rw young (
          ap (λ (b : Bool). if same_peer_ip p.peer peer && ltb later p.expiry_ms then true else b)
            rest_alike)
    ]

still-IsApart :
    (c : Channel) (channels : List Channel) (now : ℕ)
    → All (IsApart c) channels
    → All (IsApart c) (expire_channels channels now)
unfolding expire_channels
still-IsApart c [] now apart = tt
still-IsApart c (d ∷ rest) now apart = elim (Bool-cases (leb d.expiry_ms now)) [
  | inl old ↦ rw old (still-IsApart c rest now apart.1)
  | inr young ↦ rw young (apart.0, still-IsApart c rest now apart.1)
]

expire_channels-IsOneToOne :
    (channels : List Channel) (now : ℕ)
    → IsOneToOne channels
    → IsOneToOne (expire_channels channels now)
unfolding expire_channels IsOneToOne
expire_channels-IsOneToOne [] now one = tt
expire_channels-IsOneToOne (c ∷ rest) now one = elim (Bool-cases (leb c.expiry_ms now)) [
  | inl old ↦ rw old (expire_channels-IsOneToOne rest now one.1)
  | inr young ↦ rw young (still-IsApart c rest now one.0, expire_channels-IsOneToOne rest now one.1)
]

-- The clean-up at one time is not seen by any later permission test, and it keeps the channels one
-- to one.
pub expire_peers-is_permitted :
    (s : Peers) (now later : ℕ) (peer : AddrRecord)
    → now ≤ later
    → IsOneToOne s.channels
    → (is_permitted (expire_peers s now).permissions peer later
        ≡ is_permitted s.permissions peer later)
      × IsOneToOne (expire_peers s now).channels
unfolding expire_peers
expire_peers-is_permitted s now later peer after one = (
  permitted_alike s.permissions peer now later after,
  expire_channels-IsOneToOne s.channels now one,
)
