-- ===== src/Runtime/AddressSet/Order.antt =====
-- The order of the addresses: a list in this order is determined by its members.
use Prim.Native.Char.{code}
use text.Mathlib.TextEquality.{Char-path}
use inference_manager.Base.{
  ==_iff, ==_refl, All, Bool-cases, Distinct, List, String, [], ap, arith, contains, false, inl,
  inr, nat_eq, refl, string_eq, sym, true, ◌==◌, ◌||◌, ◌∙◌, ◌∷◌, ◌≡◌,
}
use inference_manager.Runtime.AddressSet.{insert_string, is_before, sort_strings}
use inference_manager.Router.RouteMap.{model_eq}

is_before_irrefl : (x : String) → is_before x x ≡ false
is_before_irrefl String.[] = refl
is_before_irrefl (String.◌∷◌ c s) = ground (arith, is_before_irrefl s)

is_before_trans :
    (x y z : String) → is_before x y ≡ true → is_before y z ≡ true → is_before x z ≡ true
is_before_trans String.[] String.[] z h k = k
is_before_trans String.[] (String.◌∷◌ d t) String.[] h k = k
is_before_trans String.[] (String.◌∷◌ d t) (String.◌∷◌ e u) h k = refl
is_before_trans (String.◌∷◌ c s) String.[] z h k = absurd (cc h)
is_before_trans (String.◌∷◌ c s) (String.◌∷◌ d t) String.[] h k = k
is_before_trans (String.◌∷◌ c s) (String.◌∷◌ d t) (String.◌∷◌ e u) h k =
    ground (arith, is_before_trans s t u, h, k)

-- Two strings of which none is before the other are one.
is_before_total : (x y : String) → is_before x y ≡ false → is_before y x ≡ false → x ≡ y
is_before_total String.[] String.[] h k = refl
is_before_total String.[] (String.◌∷◌ d t) h k = absurd (cc h)
is_before_total (String.◌∷◌ c s) String.[] h k = absurd (cc k)
is_before_total (String.◌∷◌ c s) (String.◌∷◌ d t) h k =
    let same : code c ≡ code d = ground arith in
    let rest : s ≡ t = is_before_total s t (ground arith) (ground arith) in
    cc (Char-path c d same, rest)

-- Each is before those that come after it.
abbrev pub Ascending : List String → Type 0
Ascending [] = Unit {0}
Ascending (x ∷ xs) = All (λ y. is_before x y ≡ true) xs × Ascending xs

abbrev AllAfter : String → List String → Type 0
AllAfter b xs = All (λ y. is_before b y ≡ true) xs

AllAfter-contains :
    (b a : String) (xs : List String) → AllAfter b xs → contains a xs ≡ true → is_before b a ≡ true
unfolding contains
AllAfter-contains b a [] all h = absurd (cc h)
AllAfter-contains b a (x ∷ xs) (p, all) h = elim (Bool-cases (x == a)) [
  | inl k ↦ cc (p, (==_iff x a).0 k)
  | inr k ↦ AllAfter-contains b a xs all (ground (arith, h, k))
]

AllAfter-insert_string :
    (b x : String) (ys : List String)
    → is_before b x ≡ true
    → AllAfter b ys
    → AllAfter b (insert_string x ys)
unfolding insert_string
AllAfter-insert_string b x [] p all = (p, tt)
AllAfter-insert_string b x (y ∷ ys) p (q, all) = elim (Bool-cases (is_before y x)) [
  | inl k ↦ rw k (q, AllAfter-insert_string b x ys p all)
  | inr k ↦ rw k (p, (q, all))
]

AllAfter-later :
    (x y : String) (ys : List String) → is_before x y ≡ true → AllAfter y ys → AllAfter x ys
AllAfter-later x y [] h all = tt
AllAfter-later x y (z ∷ ys) h (k, all) = (is_before_trans x y z h k, AllAfter-later x y ys h all)

Ascending-insert_string :
    (x : String) (ys : List String)
    → contains x ys ≡ false
    → Ascending ys
    → Ascending (insert_string x ys)
unfolding insert_string contains
Ascending-insert_string x [] new asc = (tt, tt)
Ascending-insert_string x (y ∷ ys) new (first, asc) = elim (Bool-cases (is_before y x)) [
  | inl k ↦ rw k (
    AllAfter-insert_string y x ys k first,
    Ascending-insert_string x ys (ground (arith, new)) asc,
  )
  | inr k ↦
      let ahead : is_before x y ≡ true = ahead_of k in
      rw k ((ahead, AllAfter-later x y ys ahead first), (first, asc))
]
  where
    ahead_of : is_before y x ≡ false → is_before x y ≡ true
    ahead_of k = elim (Bool-cases (is_before x y)) [
      | inl h ↦ h
      | inr h ↦ absurd (ground (arith, new, (==_iff y x).1 (is_before_total y x k h)))
    ]

contains-insert_string :
    (a x : String) (ys : List String) → contains a (insert_string x ys) ≡ (x == a || contains a ys)
unfolding insert_string contains
contains-insert_string a x [] = refl
contains-insert_string a x (y ∷ ys) = ground (arith, contains-insert_string a x ys)

pub contains-sort_strings :
    (a : String) (xs : List String) → contains a (sort_strings xs) ≡ contains a xs
unfolding sort_strings contains
contains-sort_strings a [] = refl
contains-sort_strings a (x ∷ xs) =
    ground (arith, contains-insert_string a x (sort_strings xs), contains-sort_strings a xs)

pub Ascending-sort_strings : (xs : List String) → Distinct xs → Ascending (sort_strings xs)
unfolding sort_strings
Ascending-sort_strings [] d = tt
Ascending-sort_strings (x ∷ xs) (new, d) =
    Ascending-insert_string x (sort_strings xs) (contains-sort_strings x xs ∙ new)
      (Ascending-sort_strings xs d)

-- The head of a list in order is not in the rest.
head_once :
    (x : String) (xs : List String) → All (λ y. is_before x y ≡ true) xs → contains x xs ≡ false
head_once x xs all = elim (Bool-cases (contains x xs)) [
  | inl h ↦ absurd (cc (AllAfter-contains x x xs all h, is_before_irrefl x))
  | inr h ↦ h
]

-- Two lists in order with the same members have the same head.
same_head :
    (x y : String) (xs ys : List String)
    → Ascending (x ∷ xs)
    → Ascending (y ∷ ys)
    → ((a : String) → contains a (x ∷ xs) ≡ contains a (y ∷ ys))
    → x ≡ y
unfolding contains
same_head x y xs ys (p, asc) (q, asc') same = elim (Bool-cases (x == y)) [
  | inl h ↦ (==_iff x y).0 h
  | inr h ↦
      let in_ys : contains x ys ≡ true =
        ground (arith, same x, ==_refl x, ==_iff x y, ==_iff y x, h) in
      let in_xs : contains y xs ≡ true = ground (arith, same y, ==_refl y, ==_iff x y, h) in
      let around =
        is_before_trans x y x (AllAfter-contains x y xs p in_xs)
          (AllAfter-contains y x ys q in_ys) in
      absurd (cc (around, is_before_irrefl x))
]

pub same_members :
    (xs ys : List String)
    → Ascending xs
    → Ascending ys
    → ((a : String) → contains a xs ≡ contains a ys)
    → xs ≡ ys
unfolding contains
same_members [] [] p q same = refl
same_members [] (y ∷ ys) p q same = absurd (ground (arith, same y, ==_refl y))
same_members (x ∷ xs) [] p q same = absurd (ground (arith, same x, ==_refl x))
same_members (x ∷ xs) (y ∷ ys) p q same =
    let head = same_head x y xs ys p q same in cc (head, same_members xs ys p.1 q.1 (rest head))
  where
    rest : x ≡ y → (a : String) → contains a xs ≡ contains a ys
    rest head a = elim (Bool-cases (x == a)) [
      | inl h ↦
          let in_x = (==_iff x a).0 h in
          let out_xs : contains a xs ≡ false =
            ap (λ z. contains z xs) (sym in_x) ∙ head_once x xs p.0 in
          let out_ys : contains a ys ≡ false =
            ap (λ z. contains z ys) (sym in_x ∙ head) ∙ head_once y ys q.0 in
          out_xs ∙ sym out_ys
      | inr h ↦ ground (arith, same a, h, ap (λ z. z == a) head)
    ]
