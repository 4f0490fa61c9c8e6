-- ===== src/Stserver/RelayPorts/Laws.antt =====
-- Relay ports are handed out once, within the range, and freed by their owner alone.
use stice.Base.{
  ==_ne, ℕ, zero, suc, ◌+◌, ◌-◌, ◌^◌, ◌≤◌, ◌<◌, ◌≡◌, ◌≢◌, ◌⊎◌, inl, inr, refl, ap, sym, subst,
  arith, Bool, true, false, not, Option, none, some, List, [], ◌∷◌, ltb, ◌==◌, ==-refl,
  if◌then◌else◌, Bool-cases, if_cases,
}
use stice.Stserver.RelayPorts.{
  RelayPorts, owner_of, erase, is_free, take_port, ordered, random_tries, scan, grant, first_of,
  alloc_relay_port, may_release, release_found, release_relay_port,
}
use native.Mathlib.Nat.{mod-lt}

-- A port of the range that is neither used nor to be avoided.
pub record IsGrantable (s : RelayPorts) (avoid : List ℕ) (port : ℕ) : Type 0 where
  pub above : s.begin ≤ port
  pub below : port ≤ s.end
  pub free : is_free s avoid port ≡ true

-- What a search may answer: a grantable port, or nothing.
abbrev Answer : RelayPorts → List ℕ → Option ℕ → Type 0
Answer s avoid none = Unit {0}
Answer s avoid (some port) = IsGrantable s avoid port

Answer-if :
    (s : RelayPorts) (avoid : List ℕ) (b : Bool) (port : ℕ) (more : Option ℕ)
    → (b ≡ true → IsGrantable s avoid port)
    → Answer s avoid more
    → Answer s avoid (if b then some port else more)
Answer-if s avoid true port more p q = p refl
Answer-if s avoid false port more p q = q

random_tries-Answer :
    (s : RelayPorts) (avoid words : List ℕ)
    → s.begin ≤ s.end
    → s.end < 2 ^ 16
    → Answer s avoid (random_tries s avoid words)
unfolding random_tries
random_tries-Answer s avoid [] le fits = tt
random_tries-Answer s avoid (r ∷ words) le fits =
    Answer-if s avoid (is_free s avoid _) _ _
      (λ free. record {
        above = omega (arith, mod-lt r {m = s.end - s.begin + 1} (omega arith));
        below = omega (arith, mod-lt r {m = s.end - s.begin + 1} (omega arith));
        free = free;
      })
      (random_tries-Answer s avoid words le fits)

scan-Answer :
    (s : RelayPorts) (avoid : List ℕ) (n p : ℕ)
    → s.begin ≤ p
    → p + n ≤ s.end + 1
    → Answer s avoid (scan s avoid n p)
unfolding scan
scan-Answer s avoid zero p lo hi = tt
scan-Answer s avoid (suc n) p lo hi =
    Answer-if s avoid (is_free s avoid p) p _
      (λ free. record { above = lo; below = omega arith; free = free })
      (scan-Answer s avoid n (p + 1) (omega arith) (omega arith))

first_or_later : (p q : ℕ) → p ≤ q → (p ≡ q) ⊎ (p + 1 ≤ q)
first_or_later p q h = elim (Bool-cases (p == q)) [
  | inl e ↦ inl (ground arith)
  | inr e ↦ inr (ground arith)
]

nothing_found :
    (b : Bool) (p : ℕ) (more : Option ℕ)
    → (if b then some p else more) ≡ none
    → (b ≡ false) × (more ≡ none)
nothing_found true p more e = cc
nothing_found false p more e = (refl, e)

-- A scan that finds nothing has looked at every port.
scan-none :
    (s : RelayPorts) (avoid : List ℕ) (n p : ℕ)
    → scan s avoid n p ≡ none
    → (q : ℕ) → p ≤ q
    → q < p + n
    → is_free s avoid q ≡ false
unfolding scan
scan-none s avoid zero p e q lo hi = absurd (omega arith)
scan-none s avoid (suc n) p e q lo hi =
    let (busy, later) = nothing_found (is_free s avoid p) p _ e in
    elim (first_or_later p q lo) [
      | inl here ↦ subst (λ (t : ℕ). is_free s avoid t ≡ false) here busy
      | inr more ↦ scan-none s avoid n (p + 1) later q more (omega arith)
    ]

-- What a call grants: a grantable port, which is used from then on, and nothing else is changed; or
-- the answer 0, the state as it was, and no grantable port in the range.
abbrev pub Outcome : RelayPorts → List ℕ → ℕ × RelayPorts → Type 0
Outcome s avoid (port, after) =
    (IsGrantable s avoid port
      × (owner_of after.used port ≡ some none)
      × ((q : ℕ) → q ≢ port → owner_of after.used q ≡ owner_of s.used q))
    ⊎ ((port ≡ 0) × (after ≡ s) × ((q : ℕ) → s.begin ≤ q → q ≤ s.end → is_free s avoid q ≡ false))

granted :
    (s : RelayPorts) (avoid : List ℕ) (port : ℕ)
    → IsGrantable s avoid port
    → Outcome s avoid (grant s (some port))
unfolding grant take_port owner_of
granted s avoid port g =
    inl (g, rw (==-refl port) refl, λ q other. rw (==_ne port q (λ e. other (sym e))) refl)

refused :
    (s : RelayPorts) (avoid : List ℕ)
    → ((q : ℕ) → s.begin ≤ q → q ≤ s.end → is_free s avoid q ≡ false)
    → Outcome s avoid (grant s none)
unfolding grant
refused s avoid full = inr (refl, refl, full)

search :
    (s : RelayPorts) (avoid : List ℕ) (tried found : Option ℕ)
    → Answer s avoid tried
    → Answer s avoid found
    → (found ≡ none → (q : ℕ) → s.begin ≤ q → q ≤ s.end → is_free s avoid q ≡ false)
    → Outcome s avoid (grant s (first_of tried found))
unfolding first_of
search s avoid (some port) found g h full = granted s avoid port g
search s avoid none (some port) g h full = granted s avoid port h
search s avoid none none g h full = refused s avoid (full refl)

ordered-range :
    (s : RelayPorts)
    → s.begin < 2 ^ 16
    → s.end < 2 ^ 16
    → ((ordered s).begin ≤ (ordered s).end) × ((ordered s).end < 2 ^ 16)
unfolding ordered
ordered-range s hb he = elim (Bool-cases (ltb s.end s.begin)) [
  | inl e ↦ rw e (ground arith)
  | inr e ↦ rw e (ground arith)
]

-- Every call of `allocRelayPort`, whatever the random words and the ports to avoid: it grants a port
-- of the range that nobody uses, or there is none.
pub alloc_relay_port-Outcome :
    (state : RelayPorts) (avoid words : List ℕ)
    → state.begin < 2 ^ 16
    → state.end < 2 ^ 16
    → Outcome (ordered state) avoid (alloc_relay_port state avoid words)
unfolding alloc_relay_port
alloc_relay_port-Outcome state avoid words hb he =
    let s = ordered state in
    let (le, fits) = ordered-range state hb he in
    search s avoid (random_tries s avoid words) (scan s avoid (s.end + 1 - s.begin) s.begin)
      (random_tries-Answer s avoid words le fits)
      (scan-Answer s avoid (s.end + 1 - s.begin) s.begin (omega arith) (omega arith))
      (λ e q lo hi. scan-none s avoid (s.end + 1 - s.begin) s.begin e q lo (omega arith))

owner_of-erase :
    (used : List (ℕ × Option ℕ)) (port : ℕ)
    → (owner_of (erase used port) port ≡ none)
      × ((q : ℕ) → q ≢ port → owner_of (erase used port) q ≡ owner_of used q)
unfolding owner_of erase
owner_of-erase [] port = (refl, λ q other. refl)
owner_of-erase ((p, owner) ∷ rest) port = elim (Bool-cases (p == port)) [
  | inl e ↦ rw e (
    (owner_of-erase rest port).0,
    λ q other. rw (==_ne p q (λ same. other (ground arith))) ((owner_of-erase rest port).1 q other),
  )
  | inr e ↦ rw e (
    rw e ((owner_of-erase rest port).0),
    λ q other.
        ap (λ (t : Option (Option ℕ)). if p == q then some owner else t)
          ((owner_of-erase rest port).1 q other),
  )
]

-- A release by the owner, or of a port without a recorded owner, frees that port; a release by any
-- other caller changes nothing at all; and no release changes the owner of another port.
pub release_relay_port-owner :
    (s : RelayPorts) (port : ℕ) (caller : Option ℕ)
    → ((owner_of s.used port ≡ some none) ⊎ (owner_of s.used port ≡ some caller)
        → owner_of (release_relay_port s port caller).used port ≡ none)
      × ((owner : ℕ)
          → owner_of s.used port ≡ some (some owner)
          → caller ≢ some owner
          → release_relay_port s port caller ≡ s)
      × ((q : ℕ)
          → q ≢ port
          → owner_of (release_relay_port s port caller).used q ≡ owner_of s.used q)
unfolding release_relay_port release_found may_release
release_relay_port-owner s port caller = (freed caller, kept caller, others)
  where
    freed :
        (c : Option ℕ)
        → (owner_of s.used port ≡ some none) ⊎ (owner_of s.used port ≡ some c)
        → owner_of (release_relay_port s port c).used port ≡ none
    freed c (inl e) = rw e ((owner_of-erase s.used port).0)
    freed none (inr e) = rw e ((owner_of-erase s.used port).0)
    freed (some p) (inr e) = rw (e, ==-refl p) ((owner_of-erase s.used port).0)

    kept :
        (c : Option ℕ) (owner : ℕ)
        → owner_of s.used port ≡ some (some owner)
        → c ≢ some owner
        → release_relay_port s port c ≡ s
    kept none owner e other = rw e refl
    kept (some p) owner e other = elim (Bool-cases (owner == p)) [
      | inl same ↦ absurd (other (ap some (ground arith)))
      | inr apart ↦ rw (e, apart) refl
    ]

    held :
        (q : ℕ) (o : Option (Option ℕ))
        → q ≢ port
        → owner_of (release_found s port caller o).used q ≡ owner_of s.used q
    held q none other = refl
    held q (some h) other =
        if_cases (λ (t : RelayPorts). owner_of t.used q ≡ owner_of s.used q)
          (not (may_release h caller)) _ _ refl ((owner_of-erase s.used port).1 q other)

    others :
        (q : ℕ) → q ≢ port → owner_of (release_relay_port s port caller).used q ≡ owner_of s.used q
    others q other = held q (owner_of s.used port) other
