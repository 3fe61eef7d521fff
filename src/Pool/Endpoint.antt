-- ===== src/Pool/Endpoint.antt =====
-- parse_endpoint of ext/aws_crt/src/pool.rs, on lists of characters' numbers.
pub mod Parsed
pub mod Printed
pub mod Port
pub mod Bounds
use aws_crt.Prelude.{
  List, Option, [], codes, drop, if◌then◌else◌, length, none, same_bytes, some, starts_with, ℕ,
  ◌==◌, ◌^◌, ◌∷◌,
}
use aws_crt.Http.Callbacks.{parse_unsigned, to_ascii_lowercase}

pub data Scheme : Type 0 where
  http : Scheme
  https : Scheme

-- The four messages of the ArgumentError that is raised.
pub data EndpointError : Type 0 where
  invalid_endpoint : EndpointError
  unsupported_scheme : EndpointError
  invalid_port : EndpointError
  empty_host : EndpointError

pub data Endpoint : Type 0 where
  endpoint : Scheme → List ℕ → ℕ → Endpoint
  rejected : EndpointError → Endpoint

abbrev in_front : ℕ → Option (List ℕ × List ℕ) → Option (List ℕ × List ℕ)
in_front c none = none
in_front c (some (before, behind)) = some (c ∷ before, behind)

-- `split_once`: at the first place where the separator stands.
abbrev pub split_once : List ℕ → List ℕ → Option (List ℕ × List ℕ)
split_once [] separator = if starts_with [] separator then some ([], []) else none
split_once (c ∷ s) separator =
    let rest = split_once s separator in
    if starts_with (c ∷ s) separator
    then some ([], drop (length separator) (c ∷ s))
    else in_front c rest

-- `rsplit_once`: at the last place where the character stands.
abbrev pub or_here : ℕ → ℕ → List ℕ → Option (List ℕ × List ℕ) → Option (List ℕ × List ℕ)
or_here separator c s none = if c == separator then some ([], s) else none
or_here separator c s (some (before, behind)) = some (c ∷ before, behind)

unfoldable pub rsplit_once : ℕ → List ℕ → Option (List ℕ × List ℕ)
rsplit_once separator [] = none
rsplit_once separator (c ∷ s) = or_here separator c s (rsplit_once separator s)

-- `trim_end_matches` of the character '/'.
abbrev drop_slash : ℕ → List ℕ → List ℕ
drop_slash c [] = if c == 47 then [] else c ∷ []
drop_slash c (d ∷ s) = c ∷ d ∷ s

unfoldable pub trim_end_slashes : List ℕ → List ℕ
trim_end_slashes [] = []
trim_end_slashes (c ∷ s) = drop_slash c (trim_end_slashes s)

abbrev pub map_ascii_lowercase : List ℕ → List ℕ
map_ascii_lowercase [] = []
map_ascii_lowercase (c ∷ s) = to_ascii_lowercase c ∷ map_ascii_lowercase s

-- The scheme after `to_lowercase`. No character outside ASCII becomes a letter of the two names, so
-- that the ASCII letters are enough.
unfoldable pub read_scheme : List ℕ → Option Scheme
read_scheme s =
    if same_bytes (map_ascii_lowercase s) (codes "http")
    then some http
    else if same_bytes (map_ascii_lowercase s) (codes "https")
    then some https
    else none

abbrev pub default_port : Scheme → ℕ
default_port https = 443
default_port http = 80

-- The end of the function, where the slashes behind the host are cut.
abbrev pub check_host : Scheme → ℕ → List ℕ → Endpoint
check_host scheme port [] = rejected empty_host
check_host scheme port (c ∷ s) = endpoint scheme (c ∷ s) port

-- A port is any u32.
unfoldable pub parse_host : Scheme → List ℕ → Endpoint
parse_host scheme rest = elim (rsplit_once 58 rest) [
  | none ↦ check_host scheme (default_port scheme) (trim_end_slashes rest)
  | some (h, p) ↦ elim (parse_unsigned (2 ^ 32) p) [
    | some port ↦ check_host scheme port (trim_end_slashes h)
    | none ↦ rejected invalid_port
  ]
]

unfoldable pub parse_endpoint : List ℕ → Endpoint
parse_endpoint text = elim (split_once text (codes "://")) [
  | none ↦ rejected invalid_endpoint
  | some (s, rest) ↦ elim (read_scheme s) [
    | none ↦ rejected unsupported_scheme
    | some scheme ↦ parse_host scheme rest
  ]
]
