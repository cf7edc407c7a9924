-- ===== src/Hub/Rooms.antt =====
-- backend/internal/domain/realtime/model/room.go: the names of the broadcast rooms.
use nim_near.Prelude.{
  ℕ, ◌≡◌, Bool, false, not, ◌&&◌, ◌||◌, Option, none, some, [], ◌∷◌, ◌++◌, leb, ◌==◌, if◌then◌else◌,
  is_none, Text, codes, trim_space, is_empty, length, any, All,
}

-- `if err != nil { return … }` where the error says nothing more.
infixl 5 ◌>>=◌
abbrev ◌>>=◌ {ℓ κ} : {A : Type ℓ} {B : Type κ} → Option A → (A → Option B) → Option B
none >>= next = none
some a >>= next = next a

abbrev pub default_channel : Text
default_channel = codes "events"

abbrev pub payments_channel : Text
payments_channel = codes "payments"

abbrev pub is_channel_byte : ℕ → Bool
is_channel_byte c =
    (leb b'a' c && leb c b'z')
    || ((leb b'A' c && leb c b'Z') || ((leb b'0' c && leb c b'9') || (c == b'_' || c == b'-')))

-- channelNameRe: one to 64 bytes of the class.
unfoldable pub is_channel_name : Text → Bool
unfolding any
is_channel_name s =
    leb 1 (length s) && (leb (length s) 64 && not (any (λ c. not (is_channel_byte c)) s))

abbrev pub or_channel : Text → Text → Text
or_channel channel other = if is_empty channel then other else channel

-- strings.TrimPrefix and strings.HasPrefix in one: `none` is a text without the prefix.
unfoldable pub strip_prefix : Text → Text → Option Text
strip_prefix [] s = some s
strip_prefix (x ∷ p) [] = none
strip_prefix (x ∷ p) (y ∷ s) = if x == y then strip_prefix p s else none

-- strings.SplitN(s, separator, 2): `none` when there is no separator.
abbrev pub later : ℕ → Option (Text × Text) → Option (Text × Text)
later c none = none
later c (some (a, b)) = some (c ∷ a, b)

abbrev pub here_or : Option Text → Option (Text × Text) → Option (Text × Text)
here_or none rest = rest
here_or (some after) rest = some ([], after)

unfoldable pub split_first : Text → Text → Option (Text × Text)
unfolding strip_prefix
split_first separator [] = here_or (strip_prefix separator []) none
split_first separator (c ∷ s) =
    here_or (strip_prefix separator (c ∷ s)) (later c (split_first separator s))

-- strings.Contains
abbrev pub contains : Text → Text → Bool
contains separator s = not (is_none (split_first separator s))

-- github.com/google/uuid: UUID.String and uuid.Parse. The nil UUID is 0.
pub record Uuids : Type 0 where
  pub to_text : ℕ → Text
  pub parse : Text → Option ℕ

-- The text of a UUID is hexadecimal digits and hyphens, and Parse reads it back.
abbrev pub IsUuids : Uuids → Type 0
IsUuids uuids =
    (id : ℕ)
    → (uuids.parse (uuids.to_text id) ≡ some id) × All (λ c. (c == b':') ≡ false) (uuids.to_text id)

pub record RoomScope : Type 0 where
  pub organization_id : ℕ
  pub app_id : ℕ
  pub channel : Text

module _ (uuids : Uuids) where
  abbrev pub app_room : ℕ → ℕ → Text → Text
  app_room org app channel =
      codes "org:"
      ++ (uuids.to_text org
          ++ (codes ":app:" ++ (uuids.to_text app ++ (codes ":channel:" ++ channel))))

  -- BuildRoomKey. `none` is the error of a bad channel name.
  unfoldable pub build_room_key : ℕ → ℕ → Text → Option Text
  unfolding trim_space is_channel_name
  build_room_key org app channel =
      let name = or_channel (trim_space channel) default_channel in
      if is_channel_name name then some (app_room org app name) else none

  abbrev pub user_room : ℕ → Text → Text
  user_room user channel = codes "user:" ++ (uuids.to_text user ++ (codes ":channel:" ++ channel))

  -- BuildUserRoomKey
  unfoldable pub build_user_room_key : ℕ → Text → Option Text
  unfolding trim_space is_channel_name
  build_user_room_key user channel =
      let name = or_channel (trim_space channel) payments_channel in
      if user == 0 then none else if is_channel_name name then some (user_room user name) else none

  unfoldable pub read_scope : Text → Text → Text → Option RoomScope
  read_scope org_text app_text channel = do
    org ← uuids.parse org_text
    app ← uuids.parse app_text
    some (record { organization_id = org; app_id = app; channel = channel })

  unfoldable pub split_scope : Text → Option RoomScope
  unfolding split_first read_scope
  split_scope org_and_rest = do
    app_split ← split_first (codes ":app:") org_and_rest
    channel_split ← split_first (codes ":channel:") app_split.1
    read_scope app_split.0 channel_split.0 channel_split.1

  -- ParseRoomKey
  unfoldable pub parse_room_key : Text → Option RoomScope
  unfolding strip_prefix split_first split_scope
  parse_room_key s =
      if contains (codes ":app:") s && contains (codes ":channel:") s
      then (do org_and_rest ← strip_prefix (codes "org:") s; split_scope org_and_rest)
      else none
