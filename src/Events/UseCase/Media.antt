-- ===== src/Events/UseCase/Media.antt =====
-- shared/validator/media_url.go: ValidMediaURL.
use nim_near.Prelude.{
  ℕ, Bool, not, ◌&&◌, ◌||◌, Option, leb, any, exists, is_empty, length, Text, codes, text_eq,
  to_lower, trim_space, is_space, ltb, ◌==◌,
}

-- What the code reads of net/url.URL.
pub record Url : Type 0 where
  pub scheme : Text
  pub opaque : Text
  pub has_user : Bool
  pub host : Text
  pub hostname : Text

abbrev pub is_control_byte : ℕ → Bool
is_control_byte c = ltb c 32 || c == 127

abbrev pub is_http : Text → Bool
is_http scheme = text_eq scheme (codes "http") || text_eq scheme (codes "https")

abbrev pub is_media_host : Url → Bool
is_media_host u =
    is_empty u.opaque
    && not u.has_user
    && not (is_empty u.host)
    && not (is_empty u.hostname)
    && is_http (to_lower u.scheme)

-- `parse` is url.Parse, with `none` for its error.
unfoldable pub valid_media_url : (Text → Option Url) → Text → Bool
valid_media_url parse value =
    is_empty value
    || (leb (length value) 2048
        && text_eq (trim_space value) value
        && not (any (λ c. is_space c || is_control_byte c) value)
        && exists is_media_host (parse value))
