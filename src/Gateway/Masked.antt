-- ===== src/Gateway/Masked.antt =====
-- What PIIMasker hides: no path through maps, and arrays of maps, reads a private value.
use nim_near.Prelude.{
  ℕ, suc, zero, ◌≡◌, ◌≢◌, refl, sym, ap, ◌∙◌, inl, inr, Bool, true, Option, none, some, List, [],
  ◌∷◌, Text, text_eq, text_eq_sound, if◌then◌else◌, arith, Bool-cases, Option-cases,
}
use nim_near.Gateway.Masking.{
  Value, scalar, array, object, Items, nil, cons, Fields, end, field, Masker, mask_map, mask_inside,
  mask_items, value_of, item_at, map_of, map_at, follow,
}

module _ (m : Masker) where
  -- A value as it is seen under a key of the masked map.
  abbrev seen : Text → Option Value → Option Value
  seen k none = none
  seen k (some v) = some (if m.is_private k then scalar m.mask_value else mask_inside m v)

  value_of-mask_map : (k : Text) (fs : Fields) → value_of k (mask_map m fs) ≡ seen k (value_of k fs)
  unfolding value_of mask_map
  value_of-mask_map k end = refl
  value_of-mask_map k (field l v fs) = elim (Bool-cases (text_eq l k)) [
    | inl e ↦ rw (e, text_eq_sound l k e) refl
    | inr e ↦ rw e (value_of-mask_map k fs)
  ]

  item_at-mask_items :
      (i : ℕ) (xs : Items) (gs : Fields)
      → map_of (item_at i (mask_items m xs)) ≡ some gs
      → (hs : Fields) × (gs ≡ mask_map m hs)
  unfolding item_at mask_items
  item_at-mask_items i nil gs h = cc
  item_at-mask_items zero (cons (object fs) xs) gs h = (fs, ground (arith, h))
  item_at-mask_items zero (cons (array ys) xs) gs h = cc
  item_at-mask_items zero (cons (scalar s) xs) gs h = cc
  item_at-mask_items (suc i) (cons (object fs) xs) gs h = item_at-mask_items i xs gs h
  item_at-mask_items (suc i) (cons (array ys) xs) gs h = item_at-mask_items i xs gs h
  item_at-mask_items (suc i) (cons (scalar s) xs) gs h = item_at-mask_items i xs gs h

  map_at-inside :
      (i : Option ℕ) (v : Value) (gs : Fields)
      → map_at i (some (mask_inside m v)) ≡ some gs
      → (hs : Fields) × (gs ≡ mask_map m hs)
  unfolding mask_inside
  map_at-inside none (object fs) gs h = (fs, ground (arith, h))
  map_at-inside none (array xs) gs h = cc
  map_at-inside none (scalar s) gs h = cc
  map_at-inside (some i) (array xs) gs h = item_at-mask_items i xs gs h
  map_at-inside (some i) (object fs) gs h = cc
  map_at-inside (some i) (scalar s) gs h = cc

  scalar-map_at : (i : Option ℕ) (s : Text) (gs : Fields) → map_at i (some (scalar s)) ≢ some gs
  scalar-map_at none s gs h = cc
  scalar-map_at (some i) s gs h = cc

  map_at-seen :
      (k : Text) (i : Option ℕ) (o : Option Value) (gs : Fields)
      → map_at i (seen k o) ≡ some gs
      → (hs : Fields) × (gs ≡ mask_map m hs)
  map_at-seen k none none gs h = cc
  map_at-seen k (some i) none gs h = cc
  map_at-seen k i (some v) gs h = elim (Bool-cases (m.is_private k)) [
    | inl e ↦ absurd (scalar-map_at i m.mask_value gs (sym (ap shown e) ∙ h))
    | inr e ↦ map_at-inside i v gs (sym (ap shown e) ∙ h)
  ]
    where
      shown : Bool → Option Fields
      shown b = map_at i (some (if b then scalar m.mask_value else mask_inside m v))

  -- Every map on a path through the masked map is a masked map.
  follow-mask_map :
      (path : List (Text × Option ℕ)) (fs gs : Fields)
      → follow path (mask_map m fs) ≡ some gs
      → (hs : Fields) × (gs ≡ mask_map m hs)
  unfolding follow
  follow-mask_map [] fs gs h = (fs, ground (arith, h))
  follow-mask_map ((k, i) ∷ path) fs gs h =
      elim (Option-cases (map_at i (value_of k (mask_map m fs)))) [
        | inl e ↦ ground (arith, e, h)
        | inr (next, e) ↦
            let (hs, masked) =
              map_at-seen k i (value_of k fs) next
                (sym (ap (map_at i) (value_of-mask_map k fs)) ∙ e) in
            follow-mask_map path hs gs (ap (follow path) (sym masked) ∙ ground (arith, e, h))
      ]

  seen-private :
      (k : Text) (o : Option Value) {v : Value}
      → m.is_private k ≡ true
      → seen k o ≡ some v
      → v ≡ scalar m.mask_value
  seen-private k none p h = cc
  seen-private k (some w) p h = ground (arith, p, h)

  -- No path through the masked map, by keys and by indices of arrays whose items are maps, leads to
  -- a private key with another value than the mask.
  pub mask_map-private :
      (path : List (Text × Option ℕ)) (fs gs : Fields) (k : Text) (v : Value)
      → follow path (mask_map m fs) ≡ some gs
      → value_of k gs ≡ some v
      → m.is_private k ≡ true
      → v ≡ scalar m.mask_value
  mask_map-private path fs gs k v h r p =
      let (hs, masked) = follow-mask_map path fs gs h in
      seen-private k (value_of k hs) {v = v} p
        (sym (value_of-mask_map k hs) ∙ sym (ap (value_of k) masked) ∙ r)
