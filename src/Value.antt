-- ===== src/Value.antt =====
-- The values that the ledger writes as JSON (ledger/events.py `canonical_json`, and the payloads
-- and properties of every record): what Python's `json` reads and writes.
use lean_evolve.Prelude.{
  nat_eq_refl, ℕ, String, ◌≡◌, refl, Bool, true, false, ◌&&◌, Option, none, some, List, [], ◌∷◌,
  arith, eq_iff, eq_refl, ◌==◌, nat_eq, is_some, if◌then◌else◌,
}

-- An integer `int negative size`; a float, other than NaN, by its bits; `other` is a Python object
-- that JSON has no form for, by its name.
mutual
  pub data Value : Type 0 where
    null : Value
    bool : Bool → Value
    int : Bool → ℕ → Value
    float : ℕ → Value
    str : String → Value
    array : Items → Value
    dict : Fields → Value
    other : String → Value

  -- The entries of a `dict` with texts for keys.
  pub data Fields : Type 0 where
    empty : Fields
    entry : String → Value → Fields → Fields

  pub data Items : Type 0 where
    nil : Items
    cons : Value → Items → Items

-- `d.get(key)`
abbrev pub get : String → Fields → Option Value
get k empty = none
get k (entry j v d) = if k == j then some v else get k d

-- `key in d`
abbrev pub has : String → Fields → Bool
has k d = is_some (get k d)

abbrev pub keys : Fields → List String
keys empty = []
keys (entry k v d) = k ∷ keys d

abbrev bool_eq : Bool → Bool → Bool
bool_eq true b = b
bool_eq false true = false
bool_eq false false = true

-- `==` of two values that `json.loads` returned, entry by entry: unlike `==` of Python it tells apart
-- dicts in another order, and 1, 1.0 and True.
unfoldable mutual
  pub value_eq : Value → Value → Bool
  value_eq null null = true
  value_eq (bool a) (bool b) = bool_eq a b
  value_eq (int s a) (int t b) = bool_eq s t && nat_eq a b
  value_eq (float a) (float b) = nat_eq a b
  value_eq (str a) (str b) = a == b
  value_eq (array a) (array b) = items_eq a b
  value_eq (dict a) (dict b) = fields_eq a b
  value_eq (other a) (other b) = a == b
  value_eq _ _ = false

  pub items_eq : Items → Items → Bool
  items_eq nil nil = true
  items_eq (cons x xs) (cons y ys) = value_eq x y && items_eq xs ys
  items_eq _ _ = false

  pub fields_eq : Fields → Fields → Bool
  fields_eq empty empty = true
  fields_eq (entry j x d) (entry k y e) = j == k && value_eq x y && fields_eq d e
  fields_eq _ _ = false

&&-split : (a b : Bool) → (a && b) ≡ true → (a ≡ true) × (b ≡ true)
&&-split true b h = (refl, h)
&&-split false b h = (cc, cc)

cons_path : {x y : Value} {xs ys : Items} → x ≡ y → xs ≡ ys → cons x xs ≡ cons y ys
cons_path p q = cc

entry_path :
    {j k : String} {x y : Value} {d e : Fields} → j ≡ k → x ≡ y → d ≡ e → entry j x d ≡ entry k y e
entry_path p q r = cc

mutual
  unfolding value_eq items_eq fields_eq

  value_eq_sound_lem : (a b : Value) → value_eq a b ≡ true → a ≡ b
  value_eq_sound_lem (bool a) (bool b) h = ground arith
  value_eq_sound_lem (int s a) (int t b) h = ground arith
  value_eq_sound_lem (float a) (float b) h = ground arith
  value_eq_sound_lem (str a) (str b) h = ground (arith, eq_iff a b)
  value_eq_sound_lem (array a) (array b) h = ground (arith, items_eq_sound_lem a b)
  value_eq_sound_lem (dict a) (dict b) h = ground (arith, fields_eq_sound_lem a b)
  value_eq_sound_lem (other a) (other b) h = ground (arith, eq_iff a b)
  value_eq_sound_lem _ _ h = ground arith

  items_eq_sound_lem : (a b : Items) → items_eq a b ≡ true → a ≡ b
  items_eq_sound_lem (cons x xs) (cons y ys) h =
      let (p, q) = &&-split (value_eq x y) (items_eq xs ys) h in
      cons_path (value_eq_sound_lem x y p) (items_eq_sound_lem xs ys q)
  items_eq_sound_lem _ _ h = ground arith

  fields_eq_sound_lem : (a b : Fields) → fields_eq a b ≡ true → a ≡ b
  fields_eq_sound_lem (entry j x d) (entry k y e) h =
      let (p, q) = &&-split (j == k && value_eq x y) (fields_eq d e) h in
      let (a, b) = &&-split (j == k) (value_eq x y) p in
      entry_path ((eq_iff j k).0 a) (value_eq_sound_lem x y b) (fields_eq_sound_lem d e q)
  fields_eq_sound_lem _ _ h = ground arith

pub value_eq_sound : (a b : Value) → value_eq a b ≡ true → a ≡ b
value_eq_sound a b = value_eq_sound_lem a b

bool_eq_refl : (b : Bool) → bool_eq b b ≡ true
bool_eq_refl b = ground arith

mutual
  unfolding value_eq items_eq fields_eq

  value_eq_refl_lem : (a : Value) → value_eq a a ≡ true
  value_eq_refl_lem null = refl
  value_eq_refl_lem (bool b) = bool_eq_refl b
  value_eq_refl_lem (int s n) = rw (bool_eq_refl s) (nat_eq_refl n)
  value_eq_refl_lem (float n) = nat_eq_refl n
  value_eq_refl_lem (str s) = eq_refl s
  value_eq_refl_lem (array xs) = items_eq_refl_lem xs
  value_eq_refl_lem (dict d) = fields_eq_refl_lem d
  value_eq_refl_lem (other s) = eq_refl s

  items_eq_refl_lem : (xs : Items) → items_eq xs xs ≡ true
  items_eq_refl_lem nil = refl
  items_eq_refl_lem (cons x xs) = rw (value_eq_refl_lem x) (items_eq_refl_lem xs)

  fields_eq_refl_lem : (d : Fields) → fields_eq d d ≡ true
  fields_eq_refl_lem empty = refl
  fields_eq_refl_lem (entry k v d) =
      rw (eq_refl k) (rw (value_eq_refl_lem v) (fields_eq_refl_lem d))

pub value_eq_refl : (a : Value) → value_eq a a ≡ true
value_eq_refl a = value_eq_refl_lem a

-- The part of an optional value that the vocabulary reads: whether it is there, and its text.
abbrev pub shape : Option Value → Option (Option String)
shape none = none
shape (some (str s)) = some (some s)
shape (some v) = some none

-- The libraries that the ledger calls, as arguments: `json.dumps` with sorted keys and the compact
-- separators (`none` where it raises), `json.loads` of a text that `json.dumps` wrote, and the hex
-- digest of SHA-256 over the UTF-8 bytes of a text.
pub record Host : Type 0 where
  pub dumps : Value → Option String
  pub loads : String → Value
  pub sha256 : String → String

-- What is relied on of `json`: a `dict` with texts for keys comes back as a `dict` with the same
-- keys, and a text under a key as the same text.
abbrev pub KeepsFields : Host → Type 0
KeepsFields host =
    (d : Fields) (t : String)
    → host.dumps (dict d) ≡ some t
    → (e : Fields) × (host.loads t ≡ dict e) × ((k : String) → shape (get k e) ≡ shape (get k d))
