-- ===== src/Gateway/Masking.antt =====
-- infrastructure/gateway/interceptors/pii_masker.go, and Chain of domain/gateway/interceptor.go. A
-- JSON map is its fields in some order; encoding/json and regexp are parameters.
use nim_near.Hub.Rooms.{contains, split_first}
use nim_near.Prelude.{
  any, to_lower, ℕ, suc, zero, Bool, not, ◌||◌, Option, none, some, List, [], ◌∷◌, reverse, Text,
  codes, text_eq, is_empty, if◌then◌else◌,
}

-- What json.Unmarshal makes of a text.
mutual
  pub data Value : Type 0 where
    scalar : Text → Value
    array : Items → Value
    object : Fields → Value

  pub data Items : Type 0 where
    nil : Items
    cons : Value → Items → Items

  pub data Fields : Type 0 where
    end : Fields
    field : Text → Value → Fields → Fields

-- PIIMasker: whether some pattern matches a key, and the value of the mask.
pub record Masker : Type 0 where
  pub is_private : Text → Bool
  pub mask_value : Text

-- NewPIIMasker. The regular expression `(?i)(name)` of a quoted ASCII name matches a key that has
-- the name in it, in any case.
unfoldable pub new_masker : List Text → Text → Masker
unfolding any to_lower split_first
new_masker mask_fields mask_value = record {
  is_private = λ key. any (λ name. contains (to_lower name) (to_lower key)) mask_fields;
  mask_value = if is_empty mask_value then codes "***" else mask_value;
}

unfoldable mutual
  -- maskMap. Inside an array it goes into the maps only.
  pub mask_map : Masker → Fields → Fields
  mask_map m end = end
  mask_map m (field k v fs) =
      let inner = mask_inside m v in
      let rest = mask_map m fs in
      field k (if m.is_private k then scalar m.mask_value else inner) rest

  pub mask_inside : Masker → Value → Value
  mask_inside m (scalar s) = scalar s
  mask_inside m (array xs) = array (mask_items m xs)
  mask_inside m (object fs) = object (mask_map m fs)

  pub mask_items : Masker → Items → Items
  mask_items m nil = nil
  mask_items m (cons (object fs) xs) = cons (object (mask_map m fs)) (mask_items m xs)
  mask_items m (cons (scalar s) xs) = cons (scalar s) (mask_items m xs)
  mask_items m (cons (array ys) xs) = cons (array ys) (mask_items m xs)

-- json.Unmarshal into a map, and json.Marshal of one: `none` is an error.
pub record JsonMaps : Type 0 where
  pub parse : Text → Option Fields
  pub print : Fields → Option Text

-- maskBody: a text that is not a JSON map is left as it is. `none` is its error.
unfoldable pub mask_body : JsonMaps → Masker → Text → Option Text
mask_body json m body = elim (json.parse body) [
  | none ↦ some body
  | some fs ↦ json.print (mask_map m fs)
]

-- InterceptRequest: `body` is none for a nil body, and a read of it does not fail here.
unfoldable pub intercept_request :
    JsonMaps → Masker → Bool → Text → Option Text → Option (Option Text)
intercept_request json m masking method none = some none
intercept_request json m masking method (some body) =
    if not masking
    then some (some body)
    else if not (
        text_eq method (codes "POST")
        || text_eq method (codes "PUT")
        || text_eq method (codes "PATCH"))
    then some (some body)
    else if is_empty body
    then some (some body)
    else elim (mask_body json m body) [ none ↦ none | some masked ↦ some (some masked) ]

-- Chain.InterceptRequest and Chain.InterceptResponse: `none` is an error.
unfoldable pub chain {ℓ} : {A : Type ℓ} → List (A → Option A) → A → Option A
chain [] a = some a
chain (f ∷ fs) a = elim (f a) [ none ↦ none | some b ↦ chain fs b ]

abbrev pub chain_back {ℓ} : {A : Type ℓ} → List (A → Option A) → A → Option A
chain_back fs = chain (reverse fs)

-- A reader of a map: the value of a key, and the map behind a key, or behind a key and an index.
unfoldable pub value_of : Text → Fields → Option Value
value_of k end = none
value_of k (field l v fs) = if text_eq l k then some v else value_of k fs

unfoldable pub item_at : ℕ → Items → Option Value
item_at i nil = none
item_at zero (cons x xs) = some x
item_at (suc i) (cons x xs) = item_at i xs

abbrev pub map_of : Option Value → Option Fields
map_of (some (object fs)) = some fs
map_of (some (array xs)) = none
map_of (some (scalar s)) = none
map_of none = none

abbrev pub map_at : Option ℕ → Option Value → Option Fields
map_at none v = map_of v
map_at (some i) (some (array xs)) = map_of (item_at i xs)
map_at (some i) (some (object fs)) = none
map_at (some i) (some (scalar s)) = none
map_at (some i) none = none

unfoldable pub follow : List (Text × Option ℕ) → Fields → Option Fields
unfolding value_of item_at
follow [] fs = some fs
follow ((k, i) ∷ path) fs = elim (map_at i (value_of k fs)) [
  | none ↦ none
  | some gs ↦ follow path gs
]
