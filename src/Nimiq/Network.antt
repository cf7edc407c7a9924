-- ===== src/Nimiq/Network.antt =====
-- backend/internal/shared/nimiq/network.go, and the functions of the RPC client that use it.
use nim_near.Prelude.{
  ℕ, Bool, true, ◌||◌, Option, none, some, [], ◌∷◌, Text, codes, text_eq, trim_space, to_lower,
  if◌then◌else◌, ◌==◌, ◌&&◌, exists, not,
}

pub data Network : Type 0 where
  test_network main_network : Network

-- The consensus identifiers NetworkIDTest and NetworkIDMain.
abbrev pub network_id : Network → ℕ
network_id test_network = 5
network_id main_network = 24

-- strings.NewReplacer("-", "", "_", "", " ", "")
unfoldable pub remove_separators : Text → Text
remove_separators [] = []
remove_separators (c ∷ s) =
    if c == b'-' || c == b'_' || c == b' ' then remove_separators s else c ∷ remove_separators s

unfoldable pub compact_network_name : Text → Text
unfolding remove_separators trim_space to_lower
compact_network_name value = to_lower (remove_separators (trim_space value))

abbrev pub network_of : Text → Option Network
network_of name =
    if text_eq name (codes "testalbatross") || text_eq name (codes "testnet")
    then some test_network
    else if text_eq name (codes "mainalbatross") || text_eq name (codes "mainnet")
    then some main_network
    else none

-- `none` is the error "unsupported Nimiq network".
unfoldable pub parse_network : Text → Option Network
unfolding compact_network_name text_eq
parse_network value = network_of (compact_network_name value)

unfoldable pub same_environment : Text → Text → Bool
unfolding parse_network
same_environment left right =
    exists (λ l. exists (λ r. network_id l == network_id r) (parse_network right))
      (parse_network left)

-- networkIDMatches in backend/internal/infrastructure/nimiq/rpc/client.go.
unfoldable pub network_id_matches : Text → ℕ → Bool
unfolding parse_network
network_id_matches network id =
    not (id == 0) && (elim (parse_network network) [ none ↦ true | some n ↦ id == network_id n ])
