-- ===== src/Stserver/Channels.antt =====
-- The permissions and channels of an allocation: `samePeerIP`, `handleCreatePermission`,
-- `handleChannelBind`, the permission test of `handleSendIndication`, and the clean-up of the two
-- lists in `expireStale`. A handler returns the code of its response, 0 for success, and the lists;
-- the times that it reads from the clock are arguments.
pub mod Laws
pub mod Expiry
use stice.Base.{
  ℕ, ◌+◌, Bool, true, false, not, ◌&&◌, Option, none, some, List, [], ◌∷◌, ltb, leb, ◌==◌,
  if◌then◌else◌,
}
use stice.Net.Addr.{AddrRecord, addr_equal}
use stice.Stun.Attributes.{read_xor_address, read_channel_number}
use stice.Stun.Message.{Message, Attribute, add_attribute}
use stice.Turn.ChannelData.{channel_valid}

pub record Permission : Type 0 where
  pub peer : AddrRecord
  pub expiry_ms : ℕ

pub record Channel : Type 0 where
  pub number : ℕ
  pub peer : AddrRecord
  pub expiry_ms : ℕ

-- What the mutex of an allocation guards.
pub record Peers : Type 0 where
  pub permissions : List Permission
  pub channels : List Channel

abbrev pub xor_peer_address : ℕ
xor_peer_address = 0x0012

abbrev pub permission_lifetime_ms : ℕ
permission_lifetime_ms = 300000

abbrev pub channel_bind_lifetime_ms : ℕ
channel_bind_lifetime_ms = 600000

unfoldable pub same_peer_ip : AddrRecord → AddrRecord → Bool
same_peer_ip a b = addr_equal (some a.addr) (some b.addr) false

-- The loop of `handleCreatePermission` over the permissions.
unfoldable pub put_permission : List Permission → AddrRecord → ℕ → List Permission
put_permission [] peer expiry = record { peer = peer; expiry_ms = expiry } ∷ []
put_permission (p ∷ rest) peer expiry =
    let more = put_permission rest peer expiry in
    if same_peer_ip p.peer peer then record { peer = peer; expiry_ms = expiry } ∷ rest else p ∷ more

-- That of `handleChannelBind`, which keeps the address of a permission that is there.
unfoldable pub renew_permission : List Permission → AddrRecord → ℕ → List Permission
renew_permission [] peer expiry = record { peer = peer; expiry_ms = expiry } ∷ []
renew_permission (p ∷ rest) peer expiry =
    let more = renew_permission rest peer expiry in
    if same_peer_ip p.peer peer then record p { expiry_ms = expiry } ∷ rest else p ∷ more

-- `tmp`, a message of the one attribute.
unfoldable pub peer_of : Attribute → List ℕ → Option AddrRecord
peer_of a tid =
    read_xor_address
      (add_attribute
        (record { method = 0; cls = 0; transaction_id = tid; attributes = []; raw = [] })
        xor_peer_address a.value)
      xor_peer_address tid

unfoldable pub put_peer : List Permission → Option AddrRecord → ℕ → List Permission
put_peer permissions none expiry = permissions
put_peer permissions (some peer) expiry = put_permission permissions peer expiry

unfoldable pub put_peers : List Permission → List Attribute → List ℕ → ℕ → List Permission
put_peers permissions [] tid expiry = permissions
put_peers permissions (a ∷ rest) tid expiry =
    let others = put_peers permissions rest tid expiry in
    let mine = put_peers (put_peer permissions (peer_of a tid) expiry) rest tid expiry in
    if not (a.type == xor_peer_address) then others else mine

unfoldable pub create_permission : Peers → Message → ℕ → ℕ × Peers
create_permission s req now = (
  0,
  record s {
    permissions =
        put_peers s.permissions req.attributes req.transaction_id (now + permission_lifetime_ms);
  },
)

unfoldable pub conflicts : Channel → ℕ → AddrRecord → Bool
conflicts c channel peer =
    if (c.number == channel) && not (same_peer_ip c.peer peer)
    then true
    else same_peer_ip c.peer peer && not (c.number == channel)

unfoldable pub bad_binding : List Channel → ℕ → AddrRecord → Bool
bad_binding [] channel peer = false
bad_binding (c ∷ rest) channel peer =
    let more = bad_binding rest channel peer in if conflicts c channel peer then true else more

unfoldable pub bind_channel : List Channel → ℕ → AddrRecord → ℕ → List Channel
bind_channel [] channel peer expiry =
    record { number = channel; peer = peer; expiry_ms = expiry } ∷ []
bind_channel (c ∷ rest) channel peer expiry =
    let more = bind_channel rest channel peer expiry in
    if c.number == channel then record c { peer = peer; expiry_ms = expiry } ∷ rest else c ∷ more

-- From the two attributes on.
unfoldable pub bind_peer : Peers → ℕ → Option AddrRecord → ℕ → ℕ → ℕ × Peers
bind_peer s channel none now later = (400, s)
bind_peer s channel (some peer) now later =
    if bad_binding s.channels channel peer then (400, s) else (
      0,
      record {
        permissions = renew_permission s.permissions peer (later + permission_lifetime_ms);
        channels = bind_channel s.channels channel peer (now + channel_bind_lifetime_ms);
      },
    )

unfoldable pub bind_number : Peers → Option ℕ → Option AddrRecord → ℕ → ℕ → ℕ × Peers
unfolding bind_peer
bind_number s none peer now later = (400, s)
bind_number s (some channel) peer now later =
    if not (channel_valid channel) then (400, s) else bind_peer s channel peer now later

unfoldable pub channel_bind : Peers → Message → ℕ → ℕ → ℕ × Peers
unfolding bind_number
channel_bind s req now later =
    bind_number s (read_channel_number req)
      (read_xor_address req xor_peer_address req.transaction_id) now later

unfoldable pub is_permitted : List Permission → AddrRecord → ℕ → Bool
is_permitted [] peer now = false
is_permitted (p ∷ rest) peer now =
    let more = is_permitted rest peer now in
    if same_peer_ip p.peer peer && ltb now p.expiry_ms then true else more

unfoldable pub expire_permissions : List Permission → ℕ → List Permission
expire_permissions [] now = []
expire_permissions (p ∷ rest) now =
    let more = expire_permissions rest now in if leb p.expiry_ms now then more else p ∷ more

unfoldable pub expire_channels : List Channel → ℕ → List Channel
expire_channels [] now = []
expire_channels (c ∷ rest) now =
    let more = expire_channels rest now in if leb c.expiry_ms now then more else c ∷ more

unfoldable pub expire_peers : Peers → ℕ → Peers
expire_peers s now = record {
  permissions = expire_permissions s.permissions now;
  channels = expire_channels s.channels now;
}
