-- ===== src/Engine/Modules.antt =====
-- core/src/config/engine: the modules of types and functions that each part gives to rune, and the
-- context that the engine installs them in. A name that is in a module or a context already is
-- refused.
pub mod Installed
pub mod Listed
use Prim.Native.String.{String}
use text.Mathlib.Text.{◌==◌}
use dandelion.Prelude.{List, [], ◌∷◌, ◌++◌, Bool, true, false, ◌&&◌, ◌||◌, ◌≡◌}
use dandelion.Prelude.Exec.{Result, ok, err}

-- What `Module::ty` and `Module::function_meta` register: a type by its name, a function by its
-- path, a function of a type by the type and its name.
pub data Item : Type 0 where
  ty function : String → Item
  method : String → String → Item

abbrev pub eq_item : Item → Item → Bool
eq_item (ty a) (ty b) = a == b
eq_item (function a) (function b) = a == b
eq_item (method a f) (method b g) = a == b && f == g
eq_item _ _ = false

abbrev pub has : Item → List Item → Bool
has i [] = false
has i (j ∷ items) = eq_item i j || has i items

-- None of the first items is among the second ones.
abbrev pub Apart : List Item → List Item → Type 0
Apart [] seen = Unit {0}
Apart (i ∷ items) seen = (has i seen ≡ false) × Apart items seen

pub record Modules (E : Type 0) : Type 1 where
  pub Module : Type 0
  pub Context : Type 0
  pub new : Module
  pub register : Item → Module → Result E Module
  pub with_default_modules : Result E Context
  pub install : Module → Context → Result E Context

abbrev pub and_then : {E A B : Type 0} → Result E A → (A → Result E B) → Result E B
and_then (ok a) f = f a
and_then (err e) f = err e

-- `Config::module`
unfoldable pub config_module : List Item
config_module =
    ty "Config"
    ∷ method "Config" "new"
    ∷ method "Config" "add_socks5_acceptor"
    ∷ method "Config" "add_http_acceptor"
    ∷ []

-- `ConnectRequest::module`
unfoldable pub connect_module : List Item
connect_module =
    ty "ConnectRequest"
    ∷ ty "IoWrapper"
    ∷ ty "SimplexConfig"
    ∷ function "new_tcp_async"
    ∷ function "new_tls_async"
    ∷ function "new_block_async"
    ∷ function "new_http_async"
    ∷ function "new_simplex_async"
    ∷ function "new_socks5_async"
    ∷ function "new_quic_connection_async"
    ∷ function "new_quic_async"
    ∷ method "ConnectRequest" "port"
    ∷ method "ConnectRequest" "hostname"
    ∷ method "ConnectRequest" "endpoint"
    ∷ method "ConnectRequest" "hostname_is_ip"
    ∷ []

-- `ResolverWrapper::module`
unfoldable pub resolver_module : List Item
resolver_module =
    ty "ResolverWrapper"
    ∷ function "create_system_resolver"
    ∷ function "create_udp_resolver"
    ∷ method "ResolverWrapper" "lookup_async"
    ∷ method "ResolverWrapper" "lookup_ipv4_async"
    ∷ method "ResolverWrapper" "lookup_ipv6_async"
    ∷ []

-- `IpNetworkSetWrapper::module`
unfoldable pub iplist_module : List Item
iplist_module =
    ty "IpNetworkSetWrapper"
    ∷ function "new_iplist"
    ∷ method "IpNetworkSetWrapper" "contains"
    ∷ method "IpNetworkSetWrapper" "contains_any"
    ∷ []

-- `GeoIp::module`
unfoldable pub geoip_module : List Item
geoip_module =
    ty "GeoIp"
    ∷ method "GeoIp" "lookup"
    ∷ function "create_geoip_from_url_async"
    ∷ function "create_geoip_from_absolute_path"
    ∷ []

-- those that `Engine::load_config` installs, in their order
unfoldable pub engine_modules : List (List Item)
unfolding config_module connect_module resolver_module iplist_module geoip_module
engine_modules =
    config_module ∷ connect_module ∷ resolver_module ∷ iplist_module ∷ geoip_module ∷ []

module _ {E : Type 0} (rune : Modules E) where
  open rune use {Module, Context, register, install}

  -- the calls that make a module, each with its `?`
  unfoldable pub register_all : List Item → Module → Result E Module
  register_all [] m = ok m
  register_all (i ∷ items) m = and_then (register i m) (register_all items)

  unfoldable pub install_all : List (List Item) → Context → Result E Context
  unfolding register_all
  install_all [] c = ok c
  install_all (items ∷ rest) c =
      and_then (register_all items rune.new) λ m. and_then (install m c) (install_all rest)

  -- the context of `Engine::load_config`
  unfoldable pub engine_context : Result E Context
  unfolding install_all
  engine_context = and_then rune.with_default_modules (install_all engine_modules)

-- What rune documents: what is new to a module or a context is taken.
pub record TakesNew {E : Type 0} (rune : Modules E) : Type 0 where
  pub items : rune.Module → List Item
  pub installed : rune.Context → List Item
  pub items-new : items rune.new ≡ []
  pub register-new :
      (i : Item) (m : rune.Module)
      → has i (items m) ≡ false
      → (m' : rune.Module) × (rune.register i m ≡ ok m') × (items m' ≡ items m ++ i ∷ [])
  pub install-new :
      (m : rune.Module) (c : rune.Context)
      → Apart (items m) (installed c)
      → (c' : rune.Context) × (rune.install m c ≡ ok c') × (installed c' ≡ installed c ++ items m)
