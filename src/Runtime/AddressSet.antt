-- ===== src/Runtime/AddressSet.antt =====
-- `runtimeAddressSet` of engine/internal/runtime/runtime.go: the addresses of a runtime, taken in
-- turn, but for those that were blacklisted a short time ago.
use Prim.Native.Char.{code}
use Prim.Native.String
use inference_manager.Base.{
  Bool, List, Option, String, [], add, contains, eqb, false, get_elem?, if◌then◌else◌, insert, keys,
  leb, length, ltb, nat_eq, none, remove, string_eq, true, ℕ, ◌%◌, ◌&&◌, ◌*◌, ◌+◌, ◌-◌, ◌||◌, ◌∷◌,
}
use inference_manager.Router.RouteMap.{model_eq}
pub mod Order
pub mod RoundRobin

pub record AddressSet : Type 0 where
  pub addresses : List String
  -- By address: when it was blacklisted.
  pub blacklisted_addresses : List (String × ℕ)
  pub blacklist_duration : ℕ
  pub next_target : ℕ

unfoldable pub new_runtime_address_set : AddressSet
new_runtime_address_set = record {
  addresses = [];
  blacklisted_addresses = [];
  blacklist_duration = 10 * 1000000000;
  next_target = 0;
}

unfoldable pub add_address : String → AddressSet → AddressSet
add_address address s = record s { addresses = add address s.addresses }

unfoldable pub remove_address : String → AddressSet → AddressSet
remove_address address s = record s { addresses = remove address s.addresses }

-- The entries that are not yet over, on a clock that does not run backwards.
unfoldable pub still_blacklisted : ℕ → ℕ → List (String × ℕ) → List (String × ℕ)
still_blacklisted duration now [] = []
still_blacklisted duration now ((address, t) ∷ m) =
    let rest = still_blacklisted duration now m in
    if leb duration (now - t) then rest else (address, t) ∷ rest

-- The addresses that are not blacklisted.
unfoldable pub usable : List (String × ℕ) → List String → List String
usable blacklist [] = []
usable blacklist (a ∷ rest) =
    let others = usable blacklist rest in if contains a (keys blacklist) then others else a ∷ others

-- `<` on strings.
abbrev pub is_before : String → String → Bool
is_before String.[] String.[] = false
is_before String.[] (String.◌∷◌ d t) = true
is_before (String.◌∷◌ c s) String.[] = false
is_before (String.◌∷◌ c s) (String.◌∷◌ d t) =
    ltb (code c) (code d) || eqb (code c) (code d) && is_before s t

-- `sort.Strings`.
unfoldable pub insert_string : String → List String → List String
insert_string x [] = x ∷ []
insert_string x (y ∷ ys) =
    let rest = insert_string x ys in if is_before y x then y ∷ rest else x ∷ y ∷ ys

unfoldable pub sort_strings : List String → List String
sort_strings [] = []
sort_strings (x ∷ xs) = insert_string x (sort_strings xs)

-- The turn: an address of the list, and the next target.
unfoldable pub take_turn : List String → AddressSet → AddressSet × Option String
take_turn addrs s = if eqb (length addrs) 0 then (s, none) else (
  record s { next_target = (s.next_target + 1) % length addrs },
  get_elem? addrs (s.next_target % length addrs),
)

unfoldable pub get_address : ℕ → AddressSet → AddressSet × Option String
get_address now s =
    let s' : AddressSet = record s {
      blacklisted_addresses = still_blacklisted s.blacklist_duration now s.blacklisted_addresses;
    } in
    if eqb (length s.addresses) 1
    then (s', get_elem? s.addresses 0)
    else take_turn (sort_strings (usable s'.blacklisted_addresses s.addresses)) s'

unfoldable pub blacklist_address : String → ℕ → AddressSet → AddressSet
blacklist_address address now s = record s {
  blacklisted_addresses = insert address now s.blacklisted_addresses;
}
