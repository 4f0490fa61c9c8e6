-- ===== src/Net/Addr/Tests.antt =====
-- The theorems on addresses, on 10.0.0.1 and its IPv4-mapped form.
use stice.Base.{ℕ, ◌≡◌, ◌≢◌, refl, sym, true, none, List, [], ◌∷◌, ◌++◌, list_eq_refl}
use stice.Net.Addr.{
  SockAddr, inet, inet6, AddrRecord, v4_prefix, is_v4_mapped, normalize, is_equal, hash, addr_map,
  addr_unmap, addr_len,
}
use stice.Net.Addr.Equal.{hash-is_equal, is_equal_comm}
use stice.Net.Addr.Mapped.{addr_unmap-addr_map, is_equal-addr_unmap}

abbrev ip : List ℕ
ip = 10 ∷ 0 ∷ 0 ∷ 1 ∷ []

abbrev mapped : SockAddr
mapped = inet6 (v4_prefix ++ ip) 5000 0 0

abbrev plain_record : AddrRecord
plain_record = record { addr = inet ip 5000; len = 16; socktype = 2 }

abbrev mapped_record : AddrRecord
mapped_record = record { addr = mapped; len = 28; socktype = 2 }

unmapped : (addr_unmap mapped 28).1 ≡ inet ip 5000
unfolding addr_unmap is_v4_mapped
unmapped = rw (list_eq_refl v4_prefix) refl

mapped-supported : normalize mapped ≢ none
unfolding normalize is_v4_mapped
mapped-supported = rw (list_eq_refl v4_prefix) (λ e. cc)

mapped_equal : is_equal mapped_record plain_record true ≡ true
mapped_equal = rw (sym unmapped) (is_equal-addr_unmap mapped 28 16 2 true mapped-supported)

hash-is_equal_example : hash mapped_record true ≡ hash plain_record true
hash-is_equal_example = hash-is_equal mapped_record plain_record true mapped_equal

plain_equal : is_equal plain_record mapped_record true ≡ true
plain_equal = is_equal_comm mapped_record plain_record true mapped_equal

mapped_back :
    addr_unmap (addr_map (inet ip 5000) 16).1 (addr_map (inet ip 5000) 16).2
    ≡ (true, inet ip 5000, addr_len (inet ip 5000))
mapped_back = addr_unmap-addr_map ip 5000 16 refl
