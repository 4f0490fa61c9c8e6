-- ===== src/Stserver/Tests.antt =====
-- Runs of the theorems on relay ports and authentication.
use stice.Base.{
  list_eq_refl, ℕ, ◌^◌, ◌≤◌, ◌<◌, ◌≡◌, ◌≢◌, ◌⊎◌, refl, ap, arith, true, none, some, List, [], ◌∷◌,
  ◌++◌, length, All,
}
use stice.Crypto.Hmac.{long_term_key}
use stice.Crypto.Hmac.Laws.{length-hmac_sha1}
use stice.Bytes.Laws.{length-write_u32_be}
use stice.Stun.Message.{Attribute, Credentials, Message, encode, find}
use stice.Stun.Message.Packet.{
  IsWire, tlvs, tlvs_small, sent_attributes, mac_attribute, fingerprint_attribute, body_attributes,
  authenticated_attributes,
}
use stice.Stun.Message.Decode.{IsSendable}
use stice.Stun.Message.RoundTrip.{AreTexts}
use stice.Bytes.{read_u16_be}
use stice.Net.Addr.{inet, AddrRecord, addr_equal, same_views, normalize, same_endpoint}
use stice.Stun.Attributes.{
  read_channel_number, read_xor_address, sized_value, decode_xor_addr, xor_bytes, xor_mask,
}
use stice.Stserver.Channels.{
  Channel, Peers, same_peer_ip, channel_bind, xor_peer_address, is_permitted, expire_peers,
}
use stice.Stserver.Channels.Laws.{IsOneToOne, channel_bind-IsOneToOne, channel_bind-same_ip}
use stice.Stserver.Channels.Expiry.{expire_peers-is_permitted}
use stice.Stserver.RelayPorts.{
  random_tries, is_free, contains, scan, grant, RelayPorts, ordered, owner_of, alloc_relay_port,
  release_relay_port,
}
use stice.Stserver.RelayPorts.Laws.{Outcome, alloc_relay_port-Outcome, release_relay_port-owner}
use stice.Stserver.Authenticate.{AuthState, AuthResult, refresh_nonce, password_of, authenticate}
use stice.Stserver.Authenticate.Laws.{IsVerified, authenticate-IsVerified, authenticate-state}
use stice.Stserver.Authenticate.Client.{authenticate-encode}

-- A range given the wrong way round, of which one port is taken.
abbrev ports : RelayPorts
ports = record { begin = 5002; end = 5000; used = (5000, some 7) ∷ [] }

alloc_relay_port-Outcome_example :
    Outcome (ordered ports) (5001 ∷ []) (alloc_relay_port ports (5001 ∷ []) (3 ∷ 4 ∷ []))
alloc_relay_port-Outcome_example =
    alloc_relay_port-Outcome ports (5001 ∷ []) (3 ∷ 4 ∷ []) (omega arith) (omega arith)

ports_granted : (alloc_relay_port ports (5001 ∷ []) (3 ∷ 4 ∷ [])).0 ≡ 5002
unfolding alloc_relay_port random_tries is_free owner_of contains scan grant
ports_granted = refl

release_relay_port-owner_example :
    ((owner_of ports.used 5000 ≡ some none) ⊎ (owner_of ports.used 5000 ≡ some (some 8))
      → owner_of (release_relay_port ports 5000 (some 8)).used 5000 ≡ none)
    × ((owner : ℕ)
        → owner_of ports.used 5000 ≡ some (some owner)
        → some 8 ≢ some owner
        → release_relay_port ports 5000 (some 8) ≡ ports)
    × ((q : ℕ)
        → q ≢ 5000
        → owner_of (release_relay_port ports 5000 (some 8)).used q ≡ owner_of ports.used q)
release_relay_port-owner_example = release_relay_port-owner ports 5000 (some 8)

abbrev request : Message
request = record {
  method = 3;
  cls = 0;
  transaction_id = 1 ∷ 2 ∷ 3 ∷ 4 ∷ 5 ∷ 6 ∷ 7 ∷ 8 ∷ 9 ∷ 10 ∷ 11 ∷ 12 ∷ [];
  attributes = record { type = 0x19; value = 17 ∷ 0 ∷ 0 ∷ 0 ∷ [] } ∷ [];
  raw = [];
}

abbrev password : List ℕ
password = 115 ∷ 101 ∷ 99 ∷ []

abbrev user : Credentials
user = record {
  username = 97 ∷ [];
  realm = 114 ∷ [];
  nonce = 110 ∷ 49 ∷ [];
  key = long_term_key (97 ∷ []) (114 ∷ []) password;
}

abbrev server : AuthState
server = record {
  nonce = 110 ∷ 49 ∷ [];
  nonce_expiry_ms = 600;
  nonce_lifetime_ms = 500;
  users = (97 ∷ [], password) ∷ [];
}

abbrev sent : List Attribute
sent = sent_attributes request (some password) (some user) none

request-IsSendable : IsSendable request
request-IsSendable = record { method_fits = omega arith; class_fits = omega arith; id_size = refl }

request-IsWire : All IsWire request.attributes
request-IsWire =
    (record { type_fits = omega arith; value_fits = omega arith; bytes = omega arith }, tt)

request-texts : AreTexts (some user)
request-texts = omega arith

request-fits : length (tlvs sent) < 2 ^ 16
request-fits = omega (arith, tlvs_small sent small)
  where
    body : List Attribute
    body = body_attributes request (some password) (some user) none

    before : List Attribute
    before = authenticated_attributes request (some password) (some user) none

    mac : length (mac_attribute request password (some user) body).value ≤ 64
    mac = omega (arith, length-hmac_sha1)

    fp : length (fingerprint_attribute request before).value ≤ 64
    fp = omega (arith, length-write_u32_be)

    small : All (λ (a : Attribute). length a.value ≤ 64) sent
    small = (omega arith, (omega arith, (omega arith, (omega arith, (mac, (fp, tt))))))

abbrev received : Message
received = record {
  method = 3;
  cls = 0;
  transaction_id = request.transaction_id;
  attributes = sent;
  raw = (encode request (some password) (some user) none).raw ++ (7 ∷ []);
}

known : password_of server.users user.username ≡ some password
unfolding password_of
known = rw (list_eq_refl user.username) refl

received_accepted :
    authenticate server 100 (1 ∷ []) received
    ≡ record { code = 0; username = some (97 ∷ []); state = server }
received_accepted =
    authenticate-encode request password user none request-IsSendable (omega arith) request-IsWire
      request-texts tt request-fits (omega arith) (omega arith, tt) refl refl refl received (7 ∷ [])
      refl refl server 100 (1 ∷ []) password refl (omega arith) known refl

authenticate-encode_example :
    authenticate server 100 (1 ∷ []) received
    ≡ record { code = 0; username = some (97 ∷ []); state = server }
authenticate-encode_example =
    authenticate-encode request password user none request-IsSendable (omega arith) request-IsWire
      request-texts tt request-fits (omega arith) (omega arith, tt) refl refl refl received (7 ∷ [])
      refl refl server 100 (1 ∷ []) password refl (omega arith) known refl

authenticate-IsVerified_example :
    IsVerified server 100 received (authenticate server 100 (1 ∷ []) received)
authenticate-IsVerified_example =
    authenticate-IsVerified server 100 (1 ∷ []) received
      (ap (λ (result : AuthResult). result.code) received_accepted)

authenticate-state_example :
    ((authenticate server 600 (1 ∷ []) received).state ≡ server)
    ⊎ ((server.nonce_expiry_ms ≤ 600)
        × ((authenticate server 600 (1 ∷ []) received).code ≡ 438)
        × ((authenticate server 600 (1 ∷ []) received).state ≡ refresh_nonce server 600 (1 ∷ [])))
authenticate-state_example = authenticate-state server 600 (1 ∷ []) received

-- ChannelBind of 0x4001 to 10.0.0.1, port 5000.
abbrev bind_request : Message
bind_request = record {
  method = 9;
  cls = 0;
  transaction_id = 1 ∷ 2 ∷ 3 ∷ 4 ∷ 5 ∷ 6 ∷ 7 ∷ 8 ∷ 9 ∷ 10 ∷ 11 ∷ 12 ∷ [];
  attributes =
      record { type = 0x0c; value = 0x40 ∷ 1 ∷ 0 ∷ 0 ∷ [] }
      ∷ record { type = 0x12; value = 0 ∷ 1 ∷ 0x32 ∷ 0x9a ∷ 0x2b ∷ 0x12 ∷ 0xa4 ∷ 0x43 ∷ [] }
      ∷ [];
  raw = [];
}

-- A channel to port 6000 of the same address.
abbrev bound : Channel
bound = record {
  number = 0x4000;
  peer = record { addr = inet (10 ∷ 0 ∷ 0 ∷ 1 ∷ []) 6000; len = 16; socktype = 2 };
  expiry_ms = 900;
}

abbrev peers : Peers
peers = record {
  permissions = record { peer = bound.peer; expiry_ms = 900 } ∷ [];
  channels = bound ∷ [];
}

abbrev wanted : AddrRecord
wanted = record { addr = inet (10 ∷ 0 ∷ 0 ∷ 1 ∷ []) 5000; len = 16; socktype = 2 }

peers-IsOneToOne : IsOneToOne peers.channels
unfolding IsOneToOne
peers-IsOneToOne = (tt, tt)

channel_bind-IsOneToOne_example : IsOneToOne (channel_bind peers bind_request 100 101).1.channels
channel_bind-IsOneToOne_example =
    channel_bind-IsOneToOne peers bind_request 100 101 peers-IsOneToOne

number_read : read_channel_number bind_request ≡ some 0x4001
unfolding read_channel_number sized_value find read_u16_be
number_read = refl

address_read :
    read_xor_address bind_request xor_peer_address bind_request.transaction_id ≡ some wanted
unfolding read_xor_address find decode_xor_addr xor_bytes read_u16_be xor_mask
address_read = refl

same_address : same_peer_ip bound.peer wanted ≡ true
unfolding same_peer_ip addr_equal same_views normalize same_endpoint
same_address = rw (list_eq_refl (10 ∷ 0 ∷ 0 ∷ 1 ∷ [])) refl

channel_bind-same_ip_example : channel_bind peers bind_request 100 101 ≡ (400, peers)
channel_bind-same_ip_example =
    channel_bind-same_ip peers bind_request 100 101 0x4001 wanted bound [] [] number_read
      address_read refl (omega arith) same_address

expire_peers-is_permitted_example :
    (is_permitted (expire_peers peers 500).permissions wanted 600
      ≡ is_permitted peers.permissions wanted 600)
    × IsOneToOne (expire_peers peers 500).channels
expire_peers-is_permitted_example =
    expire_peers-is_permitted peers 500 600 wanted (omega arith) peers-IsOneToOne
