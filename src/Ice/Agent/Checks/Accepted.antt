-- ===== src/Ice/Agent/Checks/Accepted.antt =====
-- A check on its way from one agent to another: the receiver's checks of the credentials, and the roles.
use stice.Base.{
  ℕ, ◌^◌, ◌≤◌, ◌<◌, ◌≡◌, ◌≢◌, refl, ap, sym, ◌∙◌, subst, arith, Bool, true, false, not, ◌&&◌,
  Option, none, some, List, [], ◌∷◌, ◌++◌, is_empty, list_eq, list_eq_refl, length, length-append,
  All, All-append, ◌==◌, ==_ne, if◌then◌else◌, Bool-cases, Option-cases, inl, inr, ◌⊎◌,
}
use stice.Bytes.{IsByte}
use stice.Bytes.Laws.{length-write_u32_be}
use stice.Crypto.Hmac.Laws.{length-hmac_sha1}
use stice.Stun.Message.{
  Message, Attribute, encode, decode, check_integrity, integrity_key, find, find_in, username_type,
  integrity_type, fingerprint_type, software_type, indication,
}
use stice.Stun.Message.Packet.{
  tlvs, tlvs-append, tlvs_small, sent_attributes, body_attributes, authenticated_attributes,
  software_attribute, integrity_attribute, mac_attribute, fingerprint_attribute,
}
use stice.Stun.Message.Decode.{IsSendable}
use stice.Stun.Message.RoundTrip.{IsText, decode-encode}
use stice.Stun.Message.Checks.Encoded.{check_integrity-encode}
use stice.Stun.Attributes.{get_string}
use stice.Stun.Attributes.Delivered.{decoded}
use stice.Stun.Attributes.Lookup.{find_in-append, find_in-append_found}
use stice.Ice.Agent.{CandidatePair, StunEntry, Agent}
use stice.Ice.Agent.Checks.{build_check, software, sent_entry, send_check, pair_of}
use stice.Ice.Agent.Checks.Draft.{IsDraft}
use stice.Ice.Agent.Checks.Build.{build_check-IsDraft, build_check-username}
use stice.Ice.Agent.Requests.{split_colon, verify_names, verify_binding_request}

split_colon-append :
    (xs ys : List ℕ)
    → All (λ (c : ℕ). c ≢ b':') xs
    → split_colon (xs ++ (b':' ∷ ys)) ≡ some (xs, ys)
unfolding split_colon
split_colon-append [] ys h = refl
split_colon-append (x ∷ xs) ys h = rw (==_ne x b':' h.0, split_colon-append xs ys h.1) refl

none_of :
    (ys : List Attribute) (type : ℕ)
    → All (λ (x : Attribute). x.type ≢ type) ys
    → find_in ys type ≡ none
unfolding find_in
none_of [] type h = refl
none_of (y ∷ ys) type h = rw (==_ne y.type type h.0) (none_of ys type h.1)

-- Attributes of other types behind the list are not found.
others :
    (xs ys : List Attribute) (type : ℕ)
    → All (λ (x : Attribute). x.type ≢ type) ys
    → find_in (xs ++ ys) type ≡ find_in xs type
others xs ys type h = elim (Option-cases (find_in xs type)) [
  | inl e ↦ find_in-append xs ys type e ∙ none_of ys type h ∙ sym e
  | inr (a, e) ↦ find_in-append_found xs ys type a e ∙ sym e
]

string_found :
    (r : Message) (type : ℕ) (a : Attribute) → find r type ≡ some a → get_string r type ≡ a.value
unfolding get_string
string_found r type a h = rw (h, get_string) refl

key_alone : (p : List ℕ) → integrity_key p none ≡ p
unfolding integrity_key
key_alone p = refl

software-IsText : IsText software
software-IsText = omega arith

-- What an agent can send: a transaction id, and names of the lengths that RFC 8445 allows.
pub record IsNamed (a : Agent) (tid : List ℕ) : Type 0 where
  pub id_size : length tid ≡ 12
  pub id_bytes : All IsByte tid
  pub remote_short : length a.remote_ufrag ≤ 256
  pub local_short : length a.local_ufrag ≤ 256
  pub remote_bytes : All IsByte a.remote_ufrag
  pub local_bytes : All IsByte a.local_ufrag

module _ (offset : ℕ) (a : Agent) (pair : Option CandidatePair) (tid : List ℕ)
    (n : IsNamed a tid) where
  abbrev pub check : Message
  check = build_check offset a pair tid

  pub draft : IsDraft tid 595 check
  draft =
      build_check-IsDraft offset a tid pair
        (omega (
          arith,
          length-append a.remote_ufrag (b':' ∷ a.local_ufrag),
          n.remote_short,
          n.local_short,
        ))
        (All-append IsByte a.remote_ufrag (b':' ∷ a.local_ufrag) n.remote_bytes
          (omega arith, n.local_bytes))

  pub draft-IsSendable : IsSendable check
  draft-IsSendable = record {
    method_fits = omega (arith, draft.method);
    class_fits = omega (arith, draft.cls);
    id_size = ap length draft.id ∙ n.id_size;
  }

  abbrev pub key : Option (List ℕ)
  key = some a.remote_pwd

  -- What stands behind the attributes of the check.
  abbrev tail : List Attribute
  tail = integrity_attribute check key none (body_attributes check key none (some software))

  tail-All :
      (P : Attribute → Type 0)
      → P (mac_attribute check a.remote_pwd none (body_attributes check key none (some software)))
      → All P tail
  tail-All P p = elim (Bool-cases (check.cls == indication)) [
    | inl e ↦ rw e tt
    | inr e ↦ rw e (p, tt)
  ]

  length-tail : length tail ≤ 1
  length-tail = elim (Bool-cases (check.cls == indication)) [
    | inl e ↦ rw e (omega arith)
    | inr e ↦ rw e (omega arith)
  ]

  pub fits : length (tlvs (sent_attributes check key none (some software))) < 2 ^ 16
  fits = omega (
    arith,
    ap length (tlvs-append (authenticated_attributes check key none (some software)) (seal ∷ [])),
    length-append (tlvs (authenticated_attributes check key none (some software)))
        (tlvs (seal ∷ [])),
    ap length (tlvs-append (check.attributes ++ software_attribute (some software)) tail),
    length-append (tlvs (check.attributes ++ software_attribute (some software))) (tlvs tail),
    ap length (tlvs-append check.attributes (software_attribute (some software))),
    length-append (tlvs check.attributes) (tlvs (software_attribute (some software))),
    tlvs_small (seal ∷ []) (small_seal, tt),
    tlvs_small tail (tail-All (λ (x : Attribute). length x.value ≤ 64) small_mac),
    tlvs_small (software_attribute (some software)) (omega arith, tt),
    length-tail,
    draft.size,
  )
    where
      seal : Attribute
      seal = fingerprint_attribute check (authenticated_attributes check key none (some software))

      small_seal : length seal.value ≤ 64
      small_seal = omega (arith, length-write_u32_be)

      small_mac :
          length
            (mac_attribute check a.remote_pwd none
              (body_attributes check key none (some software))).value
          ≤ 64
      small_mac = omega (arith, length-hmac_sha1)

  pub found :
      (r old : Message) (post : List ℕ) (type : ℕ)
      → decode old ((encode check key none (some software)).raw ++ post) ≡ some (true, r)
      → integrity_type ≢ type
      → fingerprint_type ≢ type
      → software_type ≢ type
      → find r type ≡ find check type
  unfolding find
  found r old post type e i f s =
      rw
        (decoded check key none (some software) draft.wire tt software-IsText draft-IsSendable fits
          old r post e)
        (others (authenticated_attributes check key none (some software)) _ type (f, tt)
          ∙ others (check.attributes ++ software_attribute (some software)) tail type
              (tail-All (λ (x : Attribute). x.type ≢ type) i)
          ∙ others check.attributes (software_attribute (some software)) type (s, tt))

module _ (offset : ℕ) (a : Agent) (fresh : List ℕ) (e : StunEntry)
    (n : IsNamed a (sent_entry a fresh e).transaction_id) where
  abbrev pub tid : List ℕ
  tid = (sent_entry a fresh e).transaction_id

  -- What the receiver decodes.
  abbrev pub received : List ℕ → Message
  received post =
      let c = build_check offset a (pair_of a e.pair) tid in
      record {
        method = c.method;
        cls = c.cls;
        transaction_id = c.transaction_id;
        attributes = sent_attributes c (some a.remote_pwd) none (some software);
        raw = (encode c (some a.remote_pwd) none (some software)).raw ++ post;
      }

  pub decode-send_check :
      (old : Message) (post : List ℕ)
      → decode old ((send_check offset a fresh e).0.raw ++ post) ≡ some (true, received post)
  unfolding send_check
  decode-send_check old post =
      decode-encode (build_check offset a (pair_of a e.pair) tid) (some a.remote_pwd) none
        (some software) (draft offset a (pair_of a e.pair) tid n).wire tt software-IsText
        (draft-IsSendable offset a (pair_of a e.pair) tid n)
        (fits offset a (pair_of a e.pair) tid n) old post

  -- The connectivity check that an agent sends, with its names of at most 256 bytes, passes
  -- `verifyBindingRequest` at an agent whose own name and password the sender has, if the name holds
  -- no colon, and the receiver does not know the sender's name yet or knows it right.
  pub verify_binding_request-send_check :
      (b : Agent) (old r : Message) (post : List ℕ)
      → decode old ((send_check offset a fresh e).0.raw ++ post) ≡ some (true, r)
      → All (λ (c : ℕ). c ≢ b':') a.remote_ufrag
      → b.local_ufrag ≡ a.remote_ufrag
      → b.local_pwd ≡ a.remote_pwd
      → (is_empty b.remote_ufrag ≡ true) ⊎ (b.remote_ufrag ≡ a.local_ufrag)
      → verify_binding_request b r ≡ true
  unfolding verify_binding_request verify_names send_check
  verify_binding_request-send_check b old r post d colon ufrag pwd knows =
      rw
        (
          string_found r username_type _ name,
          split_colon-append a.remote_ufrag a.local_ufrag colon,
          ufrag,
          list_eq_refl a.remote_ufrag,
        )
        (peer knows)
    where
      c : Message
      c = build_check offset a (pair_of a e.pair) tid

      name :
          find r username_type
          ≡ some (record { type = username_type; value = a.remote_ufrag ++ (b':' ∷ a.local_ufrag) })
      name =
          found offset a (pair_of a e.pair) tid n r old post username_type d (omega arith)
            (omega arith) (omega arith)
          ∙ build_check-username offset a tid (pair_of a e.pair)

      seal : check_integrity r b.local_pwd false ≡ true
      seal = rw pwd (
          subst (λ (k : List ℕ). check_integrity r k false ≡ true) (key_alone a.remote_pwd)
            (check_integrity-encode c (some a.remote_pwd) none (some software)
              (draft-IsSendable offset a (pair_of a e.pair) tid n)
              (subst (All IsByte) (sym (draft offset a (pair_of a e.pair) tid n).id) n.id_bytes)
              (draft offset a (pair_of a e.pair) tid n).wire tt software-IsText
              (fits offset a (pair_of a e.pair) tid n) a.remote_pwd refl
              (λ same. omega (arith, same, (draft offset a (pair_of a e.pair) tid n).cls))
              (draft offset a (pair_of a e.pair) tid n).plain r post false
              (ap (λ (x : Message). x.raw)
                (decoded c (some a.remote_pwd) none (some software)
                  (draft offset a (pair_of a e.pair) tid n).wire tt software-IsText
                  (draft-IsSendable offset a (pair_of a e.pair) tid n)
                  (fits offset a (pair_of a e.pair) tid n) old r post d))))

      peer :
          (is_empty b.remote_ufrag ≡ true) ⊎ (b.remote_ufrag ≡ a.local_ufrag)
          → (if not (is_empty b.remote_ufrag) && not (list_eq a.local_ufrag b.remote_ufrag)
              then false
              else check_integrity r b.local_pwd false)
            ≡ true
      peer (inl e) = rw e seal
      peer (inr e) = rw (e, list_eq_refl a.local_ufrag) (both (is_empty a.local_ufrag))
        where
          both :
              (x : Bool)
              → (if not x && false then false else check_integrity r b.local_pwd false) ≡ true
          both true = seal
          both false = seal
