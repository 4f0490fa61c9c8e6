-- ===== src/Net/Addr/Equal.antt =====
-- `addrEqual` and `AddrRecord::hash` work on the same view of an address.
use stice.Base.{
  ℕ, ◌≡◌, refl, ap, sym, arith, ◌∙◌, Bool, true, false, not, Option, none, some, List, ◌==◌,
  ==-refl, if◌then◌else◌, list_eq_refl, list_eq→eq,
}
use stice.Net.Addr.{
  SockAddr, inet, inet6, other, AddrRecord, normalize, same_endpoint, same_views, addr_equal,
  is_equal, hash, hash_input, hash_mix,
}

-- Two views that agree, up to the port if it is not compared.
abbrev pub Agree : ℕ × List ℕ × ℕ → ℕ × List ℕ × ℕ → Bool → Type 0
Agree x y ports = (x.0 ≡ y.0) × (x.1 ≡ y.1) × (ports ≡ true → x.2 ≡ y.2)

same_endpoint→Agree :
    (x y : ℕ × List ℕ × ℕ) (ports : Bool) → same_endpoint x y ports ≡ true → Agree x y ports
unfolding same_endpoint
same_endpoint→Agree (fa, na, pa) (fb, nb, pb) ports h =
    (ground arith, list_eq→eq na nb (ground arith), ground arith)

Agree→same_endpoint :
    (x y : ℕ × List ℕ × ℕ) (ports : Bool) → Agree x y ports → same_endpoint x y ports ≡ true
unfolding same_endpoint
Agree→same_endpoint (fa, na, pa) (fb, nb, pb) ports (f, n, p) =
    rw (f, n, ==-refl fb, list_eq_refl nb) (ground arith)

-- What is hashed is what is compared.
hash_input-normalize : (a : SockAddr) (x : ℕ × List ℕ × ℕ) → normalize a ≡ some x → hash_input a ≡ x
unfolding hash_input normalize
hash_input-normalize (inet ip port) x h = cc
hash_input-normalize (inet6 ip port flow scope) x h = ground arith
hash_input-normalize (other family) x h = cc

-- Two addresses are equal if both are of a supported family and their views agree.
pub record SameView (x y : Option (ℕ × List ℕ × ℕ)) (ports : Bool) : Type 0 where
  pub left : ℕ × List ℕ × ℕ
  pub right : ℕ × List ℕ × ℕ
  pub left_view : x ≡ some left
  pub right_view : y ≡ some right
  pub agree : Agree left right ports

same_views→SameView :
    (x y : Option (ℕ × List ℕ × ℕ)) (ports : Bool)
    → same_views x y ports ≡ true
    → SameView x y ports
unfolding same_views
same_views→SameView none y ports h = cc
same_views→SameView (some x) none ports h = cc
same_views→SameView (some x) (some y) ports h = record {
  left = x;
  right = y;
  left_view = refl;
  right_view = refl;
  agree = same_endpoint→Agree x y ports h;
}

SameView→same_views :
    (x y : Option (ℕ × List ℕ × ℕ)) (ports : Bool)
    → SameView x y ports
    → same_views x y ports ≡ true
unfolding same_views
SameView→same_views x y ports v =
    rw (v.left_view, v.right_view) (Agree→same_endpoint v.left v.right ports v.agree)

same_type :
    (a b : ℕ) (same : Bool)
    → (if not (a == b) then false else same) ≡ true
    → (a ≡ b) × (same ≡ true)
same_type a b same h = (ground arith, ground arith)

both_tests :
    (a b : ℕ) (same : Bool) → a ≡ b → same ≡ true → (if not (a == b) then false else same) ≡ true
both_tests a b same h k = ground arith

-- `isEqual` as a relation: the same socket type, and views that agree.
pub is_equal→view :
    (r o : AddrRecord) (ports : Bool)
    → is_equal r o ports ≡ true
    → (r.socktype ≡ o.socktype) × SameView (normalize r.addr) (normalize o.addr) ports
unfolding is_equal addr_equal
is_equal→view r o ports h =
    let parts = same_type r.socktype o.socktype _ h in
    (parts.0, same_views→SameView _ _ ports parts.1)

pub view→is_equal :
    (r o : AddrRecord) (ports : Bool)
    → r.socktype ≡ o.socktype
    → SameView (normalize r.addr) (normalize o.addr) ports
    → is_equal r o ports ≡ true
unfolding is_equal addr_equal
view→is_equal r o ports h v = both_tests r.socktype o.socktype _ h (SameView→same_views _ _ ports v)

hash_mix-Agree :
    (x y : ℕ × List ℕ × ℕ) (socktype : ℕ) (ports : Bool)
    → Agree x y ports
    → hash_mix x socktype ports ≡ hash_mix y socktype ports
unfolding hash_mix
hash_mix-Agree (fa, na, pa) (fb, nb, pb) socktype true (f, n, p) = rw (f, n, p refl) refl
hash_mix-Agree (fa, na, pa) (fb, nb, pb) socktype false (f, n, p) = rw (f, n) refl

-- Records that compare equal have the same hash: with the port if the port was compared, and
-- without it if it was not. Both look through an IPv4-mapped address.
pub hash-is_equal :
    (r o : AddrRecord) (ports : Bool) → is_equal r o ports ≡ true → hash r ports ≡ hash o ports
unfolding hash
hash-is_equal r o ports h =
    let (type, v) = is_equal→view r o ports h in
    rw
      (
        hash_input-normalize r.addr v.left v.left_view,
        hash_input-normalize o.addr v.right v.right_view,
        type,
      )
      (hash_mix-Agree v.left v.right o.socktype ports v.agree)

-- `isEqual` is symmetric.
pub is_equal_comm :
    (r o : AddrRecord) (ports : Bool) → is_equal r o ports ≡ true → is_equal o r ports ≡ true
is_equal_comm r o ports h =
    let (type, v) = is_equal→view r o ports h in
    let (f, n, p) = v.agree in
    view→is_equal o r ports (sym type) (record {
      left = v.right;
      right = v.left;
      left_view = v.right_view;
      right_view = v.left_view;
      agree = (sym f, sym n, λ e. sym (p e));
    })

some-inj : {A : Type 0} {a b : A} → some a ≡ some b → a ≡ b
some-inj h = cc

-- `isEqual` is transitive.
pub is_equal_trans :
    (r o q : AddrRecord) (ports : Bool)
    → is_equal r o ports ≡ true
    → is_equal o q ports ≡ true
    → is_equal r q ports ≡ true
is_equal_trans r o q ports h k =
    let (type, v) = is_equal→view r o ports h in
    let (type2, w) = is_equal→view o q ports k in
    let (f, n, p) = v.agree in
    let (f2, n2, p2) = w.agree in
    let mid = some-inj (sym v.right_view ∙ w.left_view) in
    view→is_equal r q ports (type ∙ type2) (record {
      left = v.left;
      right = w.right;
      left_view = v.left_view;
      right_view = w.right_view;
      agree = (
        f ∙ ap (λ t. t.0) mid ∙ f2,
        n ∙ ap (λ t. t.1) mid ∙ n2,
        λ e. p e ∙ ap (λ t. t.2) mid ∙ p2 e,
      );
    })
