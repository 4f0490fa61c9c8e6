-- ===== src/Stun/Attributes/Lookup.antt =====
-- Looking for an attribute: the first of its type answers.
use stice.Base.{ℕ, ◌≡◌, refl, ◌∙◌, arith, none, some, List, [], ◌∷◌, ◌++◌, ==-refl}
use stice.Stun.Message.{Attribute, Message, add_attribute, find, find_in}

-- What the first list does not hold is looked for in the second.
pub find_in-append :
    (xs ys : List Attribute) (type : ℕ)
    → find_in xs type ≡ none
    → find_in (xs ++ ys) type ≡ find_in ys type
unfolding find_in
find_in-append [] ys type h = refl
find_in-append (x ∷ xs) ys type h = ground (arith, find_in-append xs ys type)

pub find_in-append_found :
    (xs ys : List Attribute) (type : ℕ) (a : Attribute)
    → find_in xs type ≡ some a
    → find_in (xs ++ ys) type ≡ some a
unfolding find_in
find_in-append_found [] ys type a h = cc
find_in-append_found (x ∷ xs) ys type a h = ground (arith, find_in-append_found xs ys type a)

-- An attribute that was not there is found with the value that it was added with.
pub find-add_attribute :
    (m : Message) (type : ℕ) (value : List ℕ)
    → find m type ≡ none
    → find (add_attribute m type value) type ≡ some (record { type = type; value = value })
unfolding find add_attribute find_in
find-add_attribute m type value h = find_in-append m.attributes _ type h ∙ rw (==-refl type) refl
