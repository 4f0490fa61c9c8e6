-- ===== src/Stserver/Channels/Laws.antt =====
-- Channels stay one to one, with addresses compared without ports.
use stice.Base.{
  ℕ, ◌≡◌, ◌≢◌, inl, inr, refl, ap, sym, ◌∙◌, arith, Bool, true, false, not, Option, none, some,
  List, [], ◌∷◌, All, ◌++◌, ◌==◌, ==_ne, ==-refl, Bool-cases, if_cases,
}
use stice.Net.Addr.{AddrRecord, is_equal}
use stice.Net.Addr.Equal.{is_equal_comm}
use stice.Stun.Attributes.{read_xor_address, read_channel_number}
use stice.Stun.Message.{Message}
use stice.Turn.ChannelData.{channel_valid}
use stice.Stserver.Channels.{
  Channel, Peers, same_peer_ip, conflicts, bad_binding, bind_channel, bind_peer, bind_number,
  channel_bind, xor_peer_address,
}

same_peer_ip_comm : (a b : AddrRecord) → same_peer_ip a b ≡ true → same_peer_ip b a ≡ true
unfolding same_peer_ip is_equal
same_peer_ip_comm a b h =
    rw (==-refl 0) at (
      is_equal_comm (record a { socktype = 0 }) (record b { socktype = 0 }) false
        (rw (==-refl 0) h))

different_comm : (a b : AddrRecord) → same_peer_ip a b ≡ false → same_peer_ip b a ≡ false
different_comm a b h = elim (Bool-cases (same_peer_ip b a)) [
  | inl e ↦ absurd (cc (same_peer_ip_comm b a e, h))
  | inr e ↦ e
]

-- Two channels with different numbers and different addresses.
pub record IsApart (c d : Channel) : Type 0 where
  pub numbers : c.number ≢ d.number
  pub forth : same_peer_ip c.peer d.peer ≡ false
  pub back : same_peer_ip d.peer c.peer ≡ false

unfoldable pub IsOneToOne : List Channel → Type 0
IsOneToOne [] = Unit
IsOneToOne (c ∷ rest) = All (IsApart c) rest × IsOneToOne rest

equal_numbers : (a b : ℕ) → (a == b) ≡ true → a ≡ b
equal_numbers a b h = ground arith

different_numbers : (a b : ℕ) → (a == b) ≡ false → a ≢ b
different_numbers a b h = ground arith

no_conflict :
    (c : Channel) (channel : ℕ) (peer : AddrRecord)
    → conflicts c channel peer ≡ false
    → same_peer_ip c.peer peer ≡ (c.number == channel)
unfolding conflicts
no_conflict c channel peer h = ground arith

both_good :
    (c : Channel) (rest : List Channel) (channel : ℕ) (peer : AddrRecord)
    → bad_binding (c ∷ rest) channel peer ≡ false
    → (conflicts c channel peer ≡ false) × (bad_binding rest channel peer ≡ false)
unfolding bad_binding
both_good c rest channel peer h = (ground arith, ground arith)

-- The new address, at the channel that has the number, is apart from the others.
replaced-IsApart :
    (c : Channel) (rest : List Channel) (peer : AddrRecord) (expiry : ℕ)
    → bad_binding rest c.number peer ≡ false
    → All (IsApart c) rest
    → All (IsApart (record c { peer = peer; expiry_ms = expiry })) rest
replaced-IsApart c [] peer expiry good apart = tt
replaced-IsApart c (d ∷ rest) peer expiry good apart =
    let (mine, others) = both_good d rest c.number peer good in
    let away =
      no_conflict d c.number peer mine ∙ ==_ne d.number c.number (λ e. apart.0.numbers (sym e)) in
    (
      record { numbers = apart.0.numbers; forth = different_comm d.peer peer away; back = away },
      replaced-IsApart c rest peer expiry others apart.1,
    )

bound-IsApart :
    (c : Channel) (rest : List Channel) (channel : ℕ) (peer : AddrRecord) (expiry : ℕ)
    → c.number ≢ channel
    → same_peer_ip c.peer peer ≡ false
    → All (IsApart c) rest
    → All (IsApart c) (bind_channel rest channel peer expiry)
unfolding bind_channel
bound-IsApart c [] channel peer expiry ne away apart =
    (record { numbers = ne; forth = away; back = different_comm c.peer peer away }, tt)
bound-IsApart c (d ∷ rest) channel peer expiry ne away apart =
    if_cases (All (IsApart c)) (d.number == channel) _ _
      (
        record { numbers = apart.0.numbers; forth = away; back = different_comm c.peer peer away },
        apart.1,
      )
      (apart.0, bound-IsApart c rest channel peer expiry ne away apart.1)

bind_channel-IsOneToOne :
    (channels : List Channel) (channel : ℕ) (peer : AddrRecord) (expiry : ℕ)
    → bad_binding channels channel peer ≡ false
    → IsOneToOne channels
    → IsOneToOne (bind_channel channels channel peer expiry)
unfolding bind_channel IsOneToOne
bind_channel-IsOneToOne [] channel peer expiry good one = (tt, tt)
bind_channel-IsOneToOne (c ∷ rest) channel peer expiry good one =
    let (mine, others) = both_good c rest channel peer good in
    elim (Bool-cases (c.number == channel)) [
      | inl e ↦ rw e (
        replaced-IsApart c rest peer expiry
            (ap (λ (n : ℕ). bad_binding rest n peer) (equal_numbers c.number channel e) ∙ others)
            one.0,
        one.1,
      )
      | inr e ↦ rw e (
        bound-IsApart c rest channel peer expiry (different_numbers c.number channel e)
            (no_conflict c channel peer mine ∙ e) one.0,
        bind_channel-IsOneToOne rest channel peer expiry others one.1,
      )
    ]

bind_peer-IsOneToOne :
    (s : Peers) (channel : ℕ) (peer : Option AddrRecord) (now later : ℕ)
    → IsOneToOne s.channels
    → IsOneToOne (bind_peer s channel peer now later).1.channels
unfolding bind_peer
bind_peer-IsOneToOne s channel none now later one = one
bind_peer-IsOneToOne s channel (some peer) now later one =
    elim (Bool-cases (bad_binding s.channels channel peer)) [
      | inl bad ↦ rw bad one
      | inr good ↦ rw good (bind_channel-IsOneToOne s.channels channel peer _ good one)
    ]

bind_number-IsOneToOne :
    (s : Peers) (channel : Option ℕ) (peer : Option AddrRecord) (now later : ℕ)
    → IsOneToOne s.channels
    → IsOneToOne (bind_number s channel peer now later).1.channels
unfolding bind_number
bind_number-IsOneToOne s none peer now later one = one
bind_number-IsOneToOne s (some channel) peer now later one =
    if_cases (λ (r : ℕ × Peers). IsOneToOne r.1.channels) (not (channel_valid channel)) _ _ one
      (bind_peer-IsOneToOne s channel peer now later one)

-- Whatever the request is, `handleChannelBind` leaves the channels one to one: no two of them share
-- a number, or an address compared without its port.
pub channel_bind-IsOneToOne :
    (s : Peers) (req : Message) (now later : ℕ)
    → IsOneToOne s.channels
    → IsOneToOne (channel_bind s req now later).1.channels
unfolding channel_bind
channel_bind-IsOneToOne s req now later one =
    bind_number-IsOneToOne s (read_channel_number req) _ now later one

conflict_found :
    (before rest : List Channel) (c : Channel) (channel : ℕ) (peer : AddrRecord)
    → c.number ≢ channel
    → same_peer_ip c.peer peer ≡ true
    → bad_binding (before ++ (c ∷ rest)) channel peer ≡ true
unfolding bad_binding conflicts
conflict_found [] rest c channel peer ne same = rw (same, ==_ne c.number channel ne) refl
conflict_found (d ∷ before) rest c channel peer ne same =
    if_cases (λ (b : Bool). b ≡ true) (conflicts d channel peer) _ _ refl
      (conflict_found before rest c channel peer ne same)

-- A second channel to the IP address of a channel is refused with 400, though the port of the peer
-- may be another one, and nothing is changed.
pub channel_bind-same_ip :
    (s : Peers) (req : Message) (now later channel : ℕ) (peer : AddrRecord) (c : Channel)
    (before rest : List Channel)
    → read_channel_number req ≡ some channel
    → read_xor_address req xor_peer_address req.transaction_id ≡ some peer
    → s.channels ≡ before ++ (c ∷ rest)
    → c.number ≢ channel
    → same_peer_ip c.peer peer ≡ true
    → channel_bind s req now later ≡ (400, s)
unfolding channel_bind bind_number bind_peer
channel_bind-same_ip s req now later channel peer c before rest number address there ne same =
    let bad =
      ap (λ (cs : List Channel). bad_binding cs channel peer) there
      ∙ conflict_found before rest c channel peer ne same in
    simp (number, address, bad)
      (if_cases (λ (r : ℕ × Peers). r ≡ (400, s)) (not (channel_valid channel)) (400, s) (400, s)
        refl refl)
