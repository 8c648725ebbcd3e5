-- ===== src/Lan/Platform.antt =====
-- What the LAN code takes from outside the repository: hashing, TOML, ISO dates and the texts of
-- IP networks. A network itself is the numbers that `ipaddress` keeps, with its arithmetic.
use ianua_broker.Prelude.{
  num_Ord, text_Ord, pair_Ord, list_Ord, ℕ, ◌+◌, ◌-◌, ◌^◌, String, Bool, ◌&&◌, Option, none, some,
  List, leb, if◌then◌else◌, ◌==◌, num_Eq, text_Eq, pair_Eq, option_Eq, range,
}

-- A datetime: its wall clock in microseconds since 0001-01-01, and how far it is ahead of or behind
-- UTC if it has a time zone.
pub data Zone : Type 0 where
  naive : Zone
  ahead behind : ℕ → Zone

pub record Stamp : Type 0 where
  pub wall : ℕ
  pub zone : Zone

mutual
  pub data Toml : Type 0 where
    text : String → Toml
    integer : ℕ → Toml
    negative : ℕ → Toml
    boolean : Bool → Toml
    datetime : Stamp → Toml
    array : Items → Toml
    table : Fields → Toml
    other : Toml

  pub data Items : Type 0 where
    nil : Items
    cons : Toml → Items → Items

  pub data Fields : Type 0 where
    end : Fields
    field : String → Toml → Fields → Fields

-- data.get(key)
unfoldable pub field_of : String → Fields → Option Toml
field_of key end = none
field_of key (field k v rest) = if k == key then some v else field_of key rest

abbrev pub Bytes : Type 0
Bytes = List ℕ

-- An `IPv4Network` or `IPv6Network`: its network address (host bits cleared) and prefix length.
pub record IpNetwork : Type 0 where
  pub is_v6 : Bool
  pub network_address : ℕ
  pub prefixlen : ℕ

unfoldable pub max_prefixlen : IpNetwork → ℕ
max_prefixlen net = if net.is_v6 then 128 else 32

unfoldable pub num_addresses : IpNetwork → ℕ
unfolding max_prefixlen
num_addresses net = 2 ^ (max_prefixlen net - net.prefixlen)

unfoldable pub broadcast_address : IpNetwork → ℕ
unfolding num_addresses
broadcast_address net = net.network_address + num_addresses net - 1

-- `net.hosts()`: both addresses of a network of two; otherwise without the network address and,
-- for IPv4, without the broadcast address.
unfoldable pub hosts_of : IpNetwork → List ℕ
unfolding num_addresses max_prefixlen
hosts_of net =
    if leb (max_prefixlen net) (net.prefixlen + 1)
    then range net.network_address (num_addresses net)
    else range (net.network_address + 1) (num_addresses net - (if net.is_v6 then 1 else 2))

unfoldable pub subnet_of : IpNetwork → IpNetwork → Bool
unfolding broadcast_address
subnet_of a b =
    leb b.network_address a.network_address && leb (broadcast_address a) (broadcast_address b)

pub record Platform : Type 0 where
  -- hashlib.sha256(raw).hexdigest()
  pub sha256 : Bytes → String
  -- tomllib.loads(raw.decode("utf-8")); `none` is TOMLDecodeError or UnicodeDecodeError
  pub toml_loads : Bytes → Option Fields
  -- datetime.fromisoformat; `none` is ValueError
  pub fromisoformat : String → Option Stamp
  -- isoformat() of a UTC datetime, in microseconds since 0001-01-01
  pub isoformat : ℕ → String
  -- ipaddress.ip_network(text, strict=False); `none` is ValueError
  pub ip_network : String → Option IpNetwork
  -- net.is_private
  pub is_private : IpNetwork → Bool
  -- str() of an IPv6 (true) or IPv4 address
  pub address_text : Bool → ℕ → String
