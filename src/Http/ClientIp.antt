-- ===== src/Http/ClientIp.antt =====
-- backend/internal/shared/httpx/client_ip.go: the address of the client behind trusted proxies.
use nim_near.Prelude.{
  ℕ, Bool, ◌||◌, Option, none, some, List, [], ◌∷◌, ◌==◌, if◌then◌else◌, Text, codes, trim_space,
  is_empty, any, reverse,
}

-- net.SplitHostPort (its host), netip.ParseAddr with Unmap, and the text of an address. An address
-- is a number.
pub record Net : Type 0 where
  pub split_host : Text → Option Text
  pub parse_addr : Text → Option ℕ
  pub addr_text : ℕ → Text

-- A prefix of addresses, by Prefix.Contains.
abbrev pub TrustedProxies : Type 0
TrustedProxies = List (ℕ → Bool)

pub record Headers : Type 0 where
  pub remote_addr : Text
  pub forwarded_for : Text
  pub real_ip : Text

unfoldable pub trusts : TrustedProxies → ℕ → Bool
unfolding any
trusts trusted ip = any (λ contains. contains ip) trusted

-- strings.Trim(value, "[]")
unfoldable pub trim_brackets_left : Text → Text
trim_brackets_left [] = []
trim_brackets_left (c ∷ s) = if c == b'[' || c == b']' then trim_brackets_left s else c ∷ s

unfoldable pub trim_brackets : Text → Text
unfolding trim_brackets_left
trim_brackets s = reverse (trim_brackets_left (reverse (trim_brackets_left s)))

-- strings.Split(header, ",")
abbrev more : ℕ → List Text → List Text
more c [] = (c ∷ []) ∷ []
more c (part ∷ parts) = (c ∷ part) ∷ parts

unfoldable pub split_comma : Text → List Text
split_comma [] = [] ∷ []
split_comma (c ∷ s) = let rest = split_comma s in if c == b',' then [] ∷ rest else more c rest

module _ (net : Net) where
  abbrev pub host_of : Text → Text
  host_of value = elim (net.split_host value) [ none ↦ value | some host ↦ host ]

  -- parseIP
  unfoldable pub parse_ip : Text → Option ℕ
  unfolding trim_space trim_brackets
  parse_ip value =
      if is_empty (trim_space value)
      then none
      else net.parse_addr (trim_brackets (host_of (trim_space value)))

  -- The first loop of clientFromForwarded, on the parts from the right.
  unfoldable pub first_untrusted : TrustedProxies → List Text → Option ℕ
  unfolding parse_ip trusts
  first_untrusted trusted [] = none
  first_untrusted trusted (part ∷ parts) =
      let rest = first_untrusted trusted parts in
      elim (parse_ip part) [ none ↦ rest | some ip ↦ if trusts trusted ip then rest else some ip ]

  -- The second loop, from the left.
  unfoldable pub first_valid : List Text → Option ℕ
  unfolding parse_ip
  first_valid [] = none
  first_valid (part ∷ parts) =
      let rest = first_valid parts in elim (parse_ip part) [ none ↦ rest | some ip ↦ some ip ]

  unfoldable pub client_from_forwarded : TrustedProxies → Text → Option ℕ
  unfolding split_comma first_untrusted first_valid
  client_from_forwarded trusted header =
      elim (first_untrusted trusted (reverse (split_comma header))) [
        | some ip ↦ some ip
        | none ↦ first_valid (split_comma header)
      ]

  -- The text for a RemoteAddr that is no address.
  abbrev unparsed : Text → Option Text → Text
  unparsed remote none = remote
  unparsed remote (some host) = if is_empty (trim_space host) then remote else host

  abbrev pub unparsed_client : Text → Text
  unparsed_client remote =
      if is_empty (trim_space remote)
      then codes "unknown"
      else unparsed remote (net.split_host remote)

  abbrev or_remote : ℕ → Option ℕ → Text
  or_remote remote none = net.addr_text remote
  or_remote remote (some ip) = net.addr_text ip

  -- The forwarded headers of a trusted peer.
  unfoldable pub forwarded_client : TrustedProxies → Headers → Option ℕ
  unfolding client_from_forwarded parse_ip trim_space
  forwarded_client trusted r =
      let real =
        if is_empty (trim_space r.real_ip) then none else parse_ip (trim_space r.real_ip) in
      if is_empty (trim_space r.forwarded_for)
      then real
      else elim (client_from_forwarded trusted (trim_space r.forwarded_for)) [
        | some ip ↦ some ip
        | none ↦ real
      ]

  -- Resolve
  unfoldable pub resolve : TrustedProxies → Headers → Text
  unfolding parse_ip trusts forwarded_client trim_space
  resolve trusted r = elim (parse_ip r.remote_addr) [
    | none ↦ unparsed_client r.remote_addr
    | some remote ↦
        if trusts trusted remote
        then or_remote remote (forwarded_client trusted r)
        else net.addr_text remote
  ]
