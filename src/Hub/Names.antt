-- ===== src/Hub/Names.antt =====
-- Room names: ParseRoomKey reads what BuildRoomKey makes, and a user's room has no other name.
use nim_near.Prelude.{
  ℕ, ◌≡◌, refl, sym, ap, ◌∙◌, ◌≢◌, true, false, not, Option, none, some, [], ◌∷◌, ◌++◌, arith, ◌==◌,
  is_none, Text, codes, trim_space, All,
}
use nim_near.Hub.Rooms.{
  Uuids, IsUuids, app_room, user_room, build_room_key, parse_room_key, split_scope, read_scope,
  split_first, strip_prefix, here_or, later, contains, or_channel, default_channel,
}

abbrev NoColon : Text → Type 0
NoColon s = All (λ c. (c == b':') ≡ false) s

pub strip_prefix-append : (p s : Text) → strip_prefix p (p ++ s) ≡ some s
unfolding strip_prefix
strip_prefix-append [] s = refl
strip_prefix-append (x ∷ p) s = ground (arith, strip_prefix-append p s)

-- SplitN at a separator that starts with a colon.
split_first-append :
    (rest x y : Text)
    → NoColon x
    → split_first (b':' ∷ rest) (x ++ (b':' ∷ rest ++ y)) ≡ some (x, y)
unfolding split_first strip_prefix
split_first-append rest [] y h = rw (strip_prefix-append rest y) refl
split_first-append rest (c ∷ x) y h = ground (arith, split_first-append rest x y h.1)

found-later :
    (c : ℕ) (a : Option Text) (b : Option (Text × Text))
    → not (is_none b) ≡ true
    → not (is_none (here_or a (later c b))) ≡ true
found-later c (some x) b h = refl
found-later c none none h = cc
found-later c none (some (x, y)) h = refl

pub contains-append : (p x s : Text) → contains p s ≡ true → contains p (x ++ s) ≡ true
unfolding split_first
contains-append p [] s h = h
contains-append p (c ∷ x) s h =
    found-later c (strip_prefix p (c ∷ (x ++ s))) (split_first p (x ++ s)) (contains-append p x s h)

contains-here :
    (rest x y : Text) → NoColon x → contains (b':' ∷ rest) (x ++ (b':' ∷ rest ++ y)) ≡ true
contains-here rest x y h = rw (split_first-append rest x y h) refl

module _ (uuids : Uuids) (laws : IsUuids uuids) where
  split_scope-app :
      (org app : ℕ) (channel : Text)
      → split_scope uuids (
          uuids.to_text org
          ++ (codes ":app:" ++ (uuids.to_text app ++ (codes ":channel:" ++ channel))))
        ≡ some (record { organization_id = org; app_id = app; channel = channel })
  unfolding split_scope read_scope
  split_scope-app org app channel =
      rw
        (
          split_first-append (codes "app:") (uuids.to_text org)
              (uuids.to_text app ++ (codes ":channel:" ++ channel)) (laws org).1,
          split_first-append (codes "channel:") (uuids.to_text app) channel (laws app).1,
          (laws org).0,
          (laws app).0,
        )
        refl

  parse_room_key-app :
      (org app : ℕ) (channel : Text)
      → parse_room_key uuids (app_room uuids org app channel)
        ≡ some (record { organization_id = org; app_id = app; channel = channel })
  unfolding parse_room_key strip_prefix
  parse_room_key-app org app channel =
      rw
        (
          contains-append (codes ":app:") (codes "org:") tail (
              contains-here (codes "app:") (uuids.to_text org)
                (uuids.to_text app ++ (codes ":channel:" ++ channel)) (laws org).1),
          contains-append (codes ":channel:") (codes "org:") tail (
              contains-append (codes ":channel:") (uuids.to_text org)
                (codes ":app:" ++ (uuids.to_text app ++ (codes ":channel:" ++ channel)))
                (contains-append (codes ":channel:") (codes ":app:")
                  (uuids.to_text app ++ (codes ":channel:" ++ channel))
                  (contains-here (codes "channel:") (uuids.to_text app) channel (laws app).1))),
          split_scope-app org app channel,
        )
        refl
    where
      tail : Text
      tail =
          uuids.to_text org
          ++ (codes ":app:" ++ (uuids.to_text app ++ (codes ":channel:" ++ channel)))

  -- ParseRoomKey gives back the organization, the app and the trimmed channel of every key that
  -- BuildRoomKey makes, where the texts of UUIDs have no colon and are read back by uuid.Parse.
  pub parse_room_key-build_room_key :
      (org app : ℕ) (channel : Text) {k : Text}
      → build_room_key uuids org app channel ≡ some k
      → parse_room_key uuids k
        ≡ some (record {
          organization_id = org;
          app_id = app;
          channel = or_channel (trim_space channel) default_channel;
        })
  unfolding build_room_key
  parse_room_key-build_room_key org app channel {k} h =
      ground
        (arith, h, parse_room_key-app org app (or_channel (trim_space channel) default_channel))

  user_id-same : (u v : ℕ) → uuids.to_text u ≡ uuids.to_text v → u ≡ v
  user_id-same u v e = ground (arith, (laws u).0, (laws v).0, ap uuids.parse e)

  pub user_room-same :
      (u v : ℕ) (channel : Text) → user_room uuids u channel ≡ user_room uuids v channel → u ≡ v
  unfolding strip_prefix
  user_room-same u v channel e = user_id-same u v (ground (arith, halves))
    where
      after : Text → Option (Text × Text)
      after s =
          split_first (codes ":channel:")
            (elim (strip_prefix (codes "user:") s) [ none ↦ [] | some t ↦ t ])

      halves :
          ◌≡◌ {A = Option (Text × Text)}
            (some (uuids.to_text u, channel))
            (some (uuids.to_text v, channel))
      halves =
          sym (split_first-append (codes "channel:") (uuids.to_text u) channel (laws u).1)
          ∙ ap after e
          ∙ split_first-append (codes "channel:") (uuids.to_text v) channel (laws v).1

  -- No app room is a user room.
  pub app_room-user_room :
      (org app u : ℕ) (a b : Text) → app_room uuids org app a ≢ user_room uuids u b
  unfolding strip_prefix
  app_room-user_room org app u a b e =
      no-path (ap (λ s. is_none (strip_prefix (codes "user:") s)) e)
    where
      no-path : true ≡ false → ⊥
      no-path p = cc
