-- ===== src/Runtime/AddressSet/RoundRobin.antt =====
-- What the address set gives, and in what turn.
use inference_manager.Base.{
  ==_iff, ==_refl, Bool, Bool-cases, Distinct, List, String, [], ap, arith, contains, eqb, eqb_iff,
  false, get_elem?, inl, inr, keys, length, ltb, nat_eq, none, not, refl, some, string_eq, suc, sym,
  true, zero, ℕ, ◌%◌, ◌&&◌, ◌+◌, ◌-◌, ◌<◌, ◌==◌, ◌||◌, ◌∙◌, ◌∷◌, ◌≡◌, ◌≢◌, ◌⊎◌,
}
use inference_manager.Runtime.AddressSet.{
  AddressSet, get_address, sort_strings, still_blacklisted, take_turn, usable,
}
use inference_manager.Runtime.AddressSet.Order.{
  Ascending, Ascending-sort_strings, contains-sort_strings, same_members,
}
use inference_manager.Router.RouteMap.{model_eq}
use native.Mathlib.Nat.{mod-lt, mod-add-mod}

contains-usable :
    (a : String) (b : List (String × ℕ)) (xs : List String)
    → contains a (usable b xs) ≡ (contains a xs && not (contains a (keys b)))
unfolding usable contains
contains-usable a b [] = refl
contains-usable a b (x ∷ xs) = ground (arith, contains-usable a b xs, ==_iff x a)

contains-get_elem? :
    (a : String) (xs : List String) (i : ℕ) → get_elem? xs i ≡ some a → contains a xs ≡ true
unfolding contains
contains-get_elem? a [] i h = ground arith
contains-get_elem? a (x ∷ xs) zero h = ground (arith, ==_refl a)
contains-get_elem? a (x ∷ xs) (suc i) h = ground (arith, contains-get_elem? a xs i)

get_elem?-below :
    {A : Type 0} (xs : List A) (i : ℕ) → i < length xs → (a : A) × (get_elem? xs i ≡ some a)
get_elem?-below [] i h = absurd (ground arith)
get_elem?-below (x ∷ xs) zero h = (x, refl)
get_elem?-below (x ∷ xs) (suc i) h = get_elem?-below xs i (ground arith)

length-zero : {A : Type 0} (xs : List A) → eqb (length xs) 0 ≡ true → xs ≡ []
length-zero [] h = refl
length-zero (x ∷ xs) h = ground arith

-- The addresses that are given in turn.
abbrev pub in_turn : ℕ → AddressSet → List String
in_turn now s =
    sort_strings
      (usable (still_blacklisted s.blacklist_duration now s.blacklisted_addresses) s.addresses)

take_turn-some :
    (addrs : List String) (s : AddressSet) (a : String)
    → (take_turn addrs s).1 ≡ some a
    → contains a addrs ≡ true
unfolding take_turn
take_turn-some addrs s a h =
    ground (arith, contains-get_elem? a addrs (s.next_target % length addrs))

take_turn-none : (addrs : List String) (s : AddressSet) → (take_turn addrs s).1 ≡ none → addrs ≡ []
unfolding take_turn
take_turn-none addrs s h = elim (Bool-cases (eqb (length addrs) 0)) [
  | inl n ↦ length-zero addrs n
  | inr n ↦
      let found =
        get_elem?-below addrs (s.next_target % length addrs)
          (mod-lt s.next_target (ground (arith, n))) in
      ground (arith, n, found.1)
]

-- An address that is given is one of the set, and it is not blacklisted any more or is the only
-- one.
pub get_address-usable :
    (now : ℕ) (s : AddressSet) (a : String)
    → (get_address now s).1 ≡ some a
    → (contains a s.addresses ≡ true)
      × ((length s.addresses ≡ 1)
          ⊎ (contains a (keys (still_blacklisted s.blacklist_duration now s.blacklisted_addresses))
              ≡ false))
unfolding get_address
get_address-usable now s a h = elim (Bool-cases (eqb (length s.addresses) 1)) [
  | inl n ↦ (
    ground (arith, n, contains-get_elem? a s.addresses 0),
    inl ((eqb_iff (length s.addresses) 1).0 n),
  )
  | inr n ↦
      let b = still_blacklisted s.blacklist_duration now s.blacklisted_addresses in
      let s' : AddressSet = record s { blacklisted_addresses = b } in
      let took : (take_turn (in_turn now s) s').1 ≡ some a = ground (arith, n) in
      let there = take_turn-some (in_turn now s) s' a took in
      let both : contains a (usable b s.addresses) ≡ true =
        sym (contains-sort_strings a (usable b s.addresses)) ∙ there in
      (
        ground (arith, both, contains-usable a b s.addresses),
        inr (ground (arith, both, contains-usable a b s.addresses)),
      )
]

usable-none :
    (b : List (String × ℕ)) (xs : List String) (a : String)
    → usable b xs ≡ []
    → contains a xs ≡ true
    → contains a (keys b) ≡ true
unfolding contains
usable-none b xs a h there =
    let out : contains a (usable b xs) ≡ false = rw h refl in
    ground (arith, out, contains-usable a b xs)

sort_strings-nil : (xs : List String) → sort_strings xs ≡ [] → xs ≡ []
unfolding sort_strings contains
sort_strings-nil [] h = refl
sort_strings-nil (x ∷ xs) h =
    let out : contains x (sort_strings (x ∷ xs)) ≡ false = rw h refl in
    absurd (ground (arith, out, contains-sort_strings x (x ∷ xs), ==_refl x))

-- Where no address is given, the set does not have exactly one address, and each of its addresses
-- is still blacklisted.
pub get_address-none :
    (now : ℕ) (s : AddressSet) (a : String)
    → (get_address now s).1 ≡ none
    → contains a s.addresses ≡ true
    → (length s.addresses ≢ 1)
      × (contains a (keys (still_blacklisted s.blacklist_duration now s.blacklisted_addresses))
          ≡ true)
unfolding get_address
get_address-none now s a h there = elim (Bool-cases (eqb (length s.addresses) 1)) [
  | inl n ↦
      let found = get_elem?-below s.addresses 0 (ground (arith, n)) in
      absurd (ground (arith, n, found.1))
  | inr n ↦
      let b = still_blacklisted s.blacklist_duration now s.blacklisted_addresses in
      let s' : AddressSet = record s { blacklisted_addresses = b } in
      let took : (take_turn (in_turn now s) s').1 ≡ none = ground (arith, n) in
      let all = sort_strings-nil (usable b s.addresses) (take_turn-none (in_turn now s) s' took) in
      ((λ one. ground (arith, n, one)), usable-none b s.addresses a all there)
]

-- The set after some addresses were taken at one time.
abbrev pub after_gets : ℕ → ℕ → AddressSet → AddressSet
after_gets zero now s = s
after_gets (suc n) now s = after_gets n now (get_address now s).0

still_blacklisted-again :
    (d now : ℕ) (b : List (String × ℕ))
    → still_blacklisted d now (still_blacklisted d now b) ≡ still_blacklisted d now b
unfolding still_blacklisted
still_blacklisted-again d now [] = refl
still_blacklisted-again d now ((a, t) ∷ b) = ground (arith, still_blacklisted-again d now b)

-- The set after one of several addresses was taken.
abbrev taken : ℕ → AddressSet → AddressSet
taken now s = record s {
  blacklisted_addresses = still_blacklisted s.blacklist_duration now s.blacklisted_addresses;
  next_target = (s.next_target + 1) % length (in_turn now s);
}

get_address-several :
    (now : ℕ) (s : AddressSet)
    → eqb (length s.addresses) 1 ≡ false
    → eqb (length (in_turn now s)) 0 ≡ false
    → get_address now s
      ≡ (taken now s, get_elem? (in_turn now s) (s.next_target % length (in_turn now s)))
unfolding get_address take_turn
get_address-several now s several some_usable = rw (several, some_usable) refl

in_turn-taken : (now : ℕ) (s : AddressSet) → in_turn now (taken now s) ≡ in_turn now s
in_turn-taken now s =
    rw (still_blacklisted-again s.blacklist_duration now s.blacklisted_addresses) refl

get_address-after :
    (n now : ℕ) (s : AddressSet)
    → eqb (length s.addresses) 1 ≡ false
    → eqb (length (in_turn now s)) 0 ≡ false
    → (get_address now (after_gets n now s)).1
      ≡ get_elem? (in_turn now s) ((s.next_target + n) % length (in_turn now s))
get_address-after zero now s p q =
    ap (λ x. x.1) (get_address-several now s p q)
    ∙ ap (λ k. get_elem? (in_turn now s) (k % length (in_turn now s))) (omega arith)
get_address-after (suc n) now s p q =
    let l = in_turn now s in
    let same = in_turn-taken now s in
    let next : ((s.next_target + 1) % length l + n) % length l
        ≡ (s.next_target + suc n) % length l =
      mod-add-mod (s.next_target + 1) (length l) n ∙ ap (λ k. k % length l) (omega arith) in
    ap (λ x. (get_address now (after_gets n now x.0)).1) (get_address-several now s p q)
    ∙ get_address-after n now (taken now s) p (ap (λ t. eqb (length t) 0) same ∙ q)
    ∙ ap (λ t. get_elem? t (((s.next_target + 1) % length l + n) % length t)) same
    ∙ ap (get_elem? l) next

-- Whether an entry of the blacklist for the address is not yet over.
abbrev pub is_blacklisted : ℕ → ℕ → String → List (String × ℕ) → Bool
is_blacklisted duration now a [] = false
is_blacklisted duration now a ((b, t) ∷ m) =
    b == a && ltb (now - t) duration || is_blacklisted duration now a m

keys-still_blacklisted :
    (duration now : ℕ) (a : String) (m : List (String × ℕ))
    → contains a (keys (still_blacklisted duration now m)) ≡ is_blacklisted duration now a m
unfolding still_blacklisted contains
keys-still_blacklisted duration now a [] = refl
keys-still_blacklisted duration now a ((b, t) ∷ m) =
    ground (arith, keys-still_blacklisted duration now a m)

-- An address that may be given.
abbrev pub is_usable : ℕ → AddressSet → String → Bool
is_usable now s a =
    contains a s.addresses
    && not (is_blacklisted s.blacklist_duration now a s.blacklisted_addresses)

contains-in_turn :
    (now : ℕ) (s : AddressSet) (a : String) → contains a (in_turn now s) ≡ is_usable now s a
contains-in_turn now s a =
    let b = still_blacklisted s.blacklist_duration now s.blacklisted_addresses in
    contains-sort_strings a (usable b s.addresses)
    ∙ contains-usable a b s.addresses
    ∙ ap (λ x. contains a s.addresses && not x)
        (keys-still_blacklisted s.blacklist_duration now a s.blacklisted_addresses)

Distinct-usable : (b : List (String × ℕ)) (xs : List String) → Distinct xs → Distinct (usable b xs)
unfolding usable
Distinct-usable b [] d = tt
Distinct-usable b (x ∷ xs) (new, d) = elim (Bool-cases (contains x (keys b))) [
  | inl k ↦ rw k (Distinct-usable b xs d)
  | inr k ↦ rw k (ground (arith, new, contains-usable x b xs), Distinct-usable b xs d)
]

-- With an unchanged set of other than one address, each once, the addresses that are taken at one
-- time are, one after the other and round again, those of the ascending list of the addresses in
-- the set that no entry of the blacklist younger than its duration names, where there are any.
pub get_address-in_turn :
    (n now : ℕ) (s : AddressSet) (l : List String)
    → length s.addresses ≢ 1
    → Distinct s.addresses
    → Ascending l
    → ((a : String) → contains a l ≡ is_usable now s a)
    → l ≢ []
    → (get_address now (after_gets n now s)).1 ≡ get_elem? l ((s.next_target + n) % length l)
get_address-in_turn n now s l several distinct asc members some_usable =
    let b = still_blacklisted s.blacklist_duration now s.blacklisted_addresses in
    let same : in_turn now s ≡ l =
      same_members (in_turn now s) l
        (Ascending-sort_strings (usable b s.addresses) (Distinct-usable b s.addresses distinct)) asc
        (λ a. contains-in_turn now s a ∙ sym (members a)) in
    get_address-after n now s (ground (arith, eqb_iff (length s.addresses) 1, several))
      (ground (arith, length-zero (in_turn now s), same, some_usable))
    ∙ ap (λ t. get_elem? t ((s.next_target + n) % length t)) same
