-- ===== src/Ice/Agent/Checks/Build.antt =====
-- The check that `build_check` builds, step by step.
use stice.Base.{
  ℕ, ◌+◌, ◌≤◌, ◌≡◌, ◌≢◌, refl, ◌∙◌, arith, not, ◌&&◌, Option, none, some, List, [], ◌∷◌, ◌++◌,
  length, All, ltb, ◌==◌, if◌then◌else◌, Bool-cases, if_cases, inl, inr,
}
use stice.Bytes.{IsByte}
use stice.Stun.Message.{Message, add_attribute, find, find_in, username_type}
use stice.Stun.Attributes.{
  priority, use_candidate, tcp_type, ice_controlled, ice_controlling, nomination, write_u64_be,
  add_string, add_priority, add_ice_controlling, add_ice_controlled, add_use_candidate,
  add_nomination, add_tcp_type,
}
use stice.Stun.Attributes.Lookup.{find-add_attribute}
use stice.Ice.Candidate.{is_udp}
use stice.Ice.Agent.{CandidatePair, Agent, is_controlling}
use stice.Ice.Agent.Checks.{with_priority, with_role, with_nomination, with_tcp_type, build_check}
use stice.Ice.Agent.Checks.Draft.{
  IsDraft, find-add_other, add-IsDraft, more-IsDraft, word-IsDraft, long-IsDraft,
}

module _ (offset : ℕ) (a : Agent) (tid : List ℕ) where
  with_priority-IsDraft :
      (n : ℕ) (pair : Option CandidatePair) (m : Message)
      → IsDraft tid n m
      → IsDraft tid (n + 15) (with_priority offset pair m)
  unfolding with_priority add_priority
  with_priority-IsDraft n none m d = more-IsDraft tid n 15 m d
  with_priority-IsDraft n (some p) m d =
      word-IsDraft tid n m priority _ d (omega arith) (omega arith)

  with_role-IsDraft : (n : ℕ) (m : Message) → IsDraft tid n m → IsDraft tid (n + 15) (with_role a m)
  unfolding with_role add_ice_controlling add_ice_controlled
  with_role-IsDraft n m d =
      if_cases (IsDraft tid (n + 15)) (is_controlling a.mode) _ _
        (long-IsDraft tid n m ice_controlling a.tiebreaker d (omega arith) (omega arith))
        (long-IsDraft tid n m ice_controlled a.tiebreaker d (omega arith) (omega arith))

  with_nomination-IsDraft :
      (n : ℕ) (pair : Option CandidatePair) (m : Message)
      → IsDraft tid n m
      → IsDraft tid (n + 15 + 15) (with_nomination a pair m)
  unfolding with_nomination add_use_candidate add_nomination
  with_nomination-IsDraft n none m d = more-IsDraft tid (n + 15) 15 m (more-IsDraft tid n 15 m d)
  with_nomination-IsDraft n (some p) m d =
      let named =
        add-IsDraft tid n 15 m use_candidate [] d (omega arith) (omega arith) (omega arith)
          (omega arith) tt in
      if_cases (IsDraft tid (n + 15 + 15))
        (is_controlling a.mode && (p.nomination_requested && not p.nominated)) _ _
        (if_cases (IsDraft tid (n + 15 + 15)) (ltb 1 a.nomination_value) _ _
          (word-IsDraft tid (n + 15) _ nomination a.nomination_value named (omega arith)
            (omega arith))
          (more-IsDraft tid (n + 15) 15 _ named))
        (more-IsDraft tid (n + 15) 15 m (more-IsDraft tid n 15 m d))

  with_tcp_type-IsDraft :
      (n : ℕ) (pair : Option CandidatePair) (m : Message)
      → IsDraft tid n m
      → IsDraft tid (n + 15) (with_tcp_type pair m)
  unfolding with_tcp_type add_tcp_type
  with_tcp_type-IsDraft n none m d = more-IsDraft tid n 15 m d
  with_tcp_type-IsDraft n (some p) m d =
      if_cases (IsDraft tid (n + 15)) (not (is_udp p.local_candidate.transport)) _ _
        (word-IsDraft tid n m tcp_type _ d (omega arith) (omega arith)) (more-IsDraft tid n 15 m d)

  abbrev pub blank : Message
  blank = record { method = 1; cls = 0; transaction_id = tid; attributes = []; raw = [] }

  blank-IsDraft : IsDraft tid 0 blank
  blank-IsDraft = record {
    method = refl;
    cls = refl;
    id = refl;
    wire = tt;
    plain = tt;
    size = omega arith;
  }

  pub build_check-IsDraft :
      (pair : Option CandidatePair)
      → length (a.remote_ufrag ++ (b':' ∷ a.local_ufrag)) ≤ 513
      → All IsByte (a.remote_ufrag ++ (b':' ∷ a.local_ufrag))
      → IsDraft tid 595 (build_check offset a pair tid)
  unfolding build_check add_string
  build_check-IsDraft pair short bytes = with_tcp_type-IsDraft 580 pair _ (
      with_nomination-IsDraft 550 pair _ (
        with_role-IsDraft 535 _ (
          with_priority-IsDraft 520 pair _ (
            add-IsDraft tid 0 520 blank username_type _ blank-IsDraft (omega arith) (omega arith)
              (omega arith) (omega arith) bytes))))

  -- What the later steps leave.
  after_role :
      (pair : Option CandidatePair) (m : Message) (type : ℕ)
      → use_candidate ≢ type
      → nomination ≢ type
      → tcp_type ≢ type
      → find (with_tcp_type pair (with_nomination a pair m)) type ≡ find m type
  unfolding with_tcp_type with_nomination add_use_candidate add_nomination add_tcp_type
  after_role none m type u n t = refl
  after_role (some p) m type u n t =
      if_cases (λ (x : Message). find x type ≡ find m type)
        (not (is_udp p.local_candidate.transport)) _ _
        (find-add_other _ tcp_type type _ t ∙ nominated) nominated
    where
      named : find (add_attribute m use_candidate []) type ≡ find m type
      named = find-add_other m use_candidate type [] u

      nominated : find (with_nomination a (some p) m) type ≡ find m type
      nominated =
          if_cases (λ (x : Message). find x type ≡ find m type)
            (is_controlling a.mode && (p.nomination_requested && not p.nominated)) _ _
            (if_cases (λ (x : Message). find x type ≡ find m type) (ltb 1 a.nomination_value) _ _
              (find-add_other _ nomination type _ n ∙ named) named)
            refl

  before_role :
      (pair : Option CandidatePair) (m : Message) (type : ℕ)
      → priority ≢ type
      → find (with_priority offset pair m) type ≡ find m type
  unfolding with_priority add_priority
  before_role none m type h = refl
  before_role (some p) m type h = find-add_other m priority type _ h

  abbrev role_type : ℕ
  role_type = if is_controlling a.mode then ice_controlling else ice_controlled

  abbrev named : Message
  named = add_attribute blank username_type (a.remote_ufrag ++ (b':' ∷ a.local_ufrag))

  named-find :
      (type : ℕ)
      → find named type ≡ (
          if username_type == type
          then some
              (record { type = username_type; value = a.remote_ufrag ++ (b':' ∷ a.local_ufrag) })
          else none)
  unfolding find add_attribute find_in
  named-find type = refl

  role-find :
      (m : Message) (type : ℕ)
      → ice_controlling ≢ type
      → ice_controlled ≢ type
      → find (with_role a m) type ≡ find m type
  unfolding with_role add_ice_controlling add_ice_controlled
  role-find m type c d =
      if_cases (λ (x : Message). find x type ≡ find m type) (is_controlling a.mode) _ _
        (find-add_other m ice_controlling type _ c) (find-add_other m ice_controlled type _ d)

  pub build_check-username :
      (pair : Option CandidatePair)
      → find (build_check offset a pair tid) username_type
        ≡ some (record { type = username_type; value = a.remote_ufrag ++ (b':' ∷ a.local_ufrag) })
  unfolding build_check add_string
  build_check-username pair =
      after_role pair _ username_type (omega arith) (omega arith) (omega arith)
      ∙ role-find _ username_type (omega arith) (omega arith)
      ∙ before_role pair named username_type (omega arith)
      ∙ named-find username_type

  pub build_check-role :
      (pair : Option CandidatePair)
      → (find (build_check offset a pair tid) ice_controlling ≡ (
          if is_controlling a.mode
          then some (record { type = ice_controlling; value = write_u64_be a.tiebreaker })
          else none))
        × (find (build_check offset a pair tid) ice_controlled ≡ (
            if is_controlling a.mode
            then none
            else some (record { type = ice_controlled; value = write_u64_be a.tiebreaker })))
  unfolding build_check add_string with_role add_ice_controlling add_ice_controlled
  build_check-role pair =
      let m = with_priority offset pair named in
      let lone : find m ice_controlling ≡ none =
        before_role pair named ice_controlling (omega arith) ∙ named-find ice_controlling in
      let bare : find m ice_controlled ≡ none =
        before_role pair named ice_controlled (omega arith) ∙ named-find ice_controlled in
      (
        after_role pair _ ice_controlling (omega arith) (omega arith) (omega arith)
            ∙ elim (Bool-cases (is_controlling a.mode)) [
              | inl e ↦ rw e (find-add_attribute m ice_controlling _ lone)
              | inr e ↦
                  rw e (find-add_other m ice_controlled ice_controlling _ (omega arith) ∙ lone)
            ],
        after_role pair _ ice_controlled (omega arith) (omega arith) (omega arith)
            ∙ elim (Bool-cases (is_controlling a.mode)) [
              | inl e ↦
                  rw e (find-add_other m ice_controlling ice_controlled _ (omega arith) ∙ bare)
              | inr e ↦ rw e (find-add_attribute m ice_controlled _ bare)
            ],
      )
