-- ===== src/Engine/IpList.antt =====
-- core/src/config/engine/iplist.rs: lists of networks. A network is one of the crate ipnetwork, and
-- a script's value that is a text one that `String::from_value` reads; both are parameters.
pub mod Members
use dandelion.Prelude.{ℕ, List, [], ◌∷◌, Option, none, some, Bool, true, false, ◌||◌, if◌then◌else◌}
use dandelion.Prelude.Exec.{Result, ok, err}
use dandelion.Net.{Text, IpAddr, AddrText}

pub record Networks : Type 1 where
  pub Network : Type 0
  pub Value : Type 0
  pub from_value : Value → Option Text
  pub parse : Text → Option Network
  pub includes : Network → IpAddr → Bool

pub data Error : Type 0 where
  not_text bad_network bad_address : Error

module _ (n : Networks) where
  abbrev pub parse_text : Option Text → Result Error n.Network
  parse_text none = err not_text
  parse_text (some s) = elim (n.parse s) [ none ↦ err bad_network | some net ↦ ok net ]

  abbrev pub push :
      Result Error n.Network → Result Error (List n.Network) → Result Error (List n.Network)
  push (err e) _ = err e
  push (ok net) (err e) = err e
  push (ok net) (ok nets) = ok (net ∷ nets)

  unfoldable pub new_iplist : List n.Value → Result Error (List n.Network)
  new_iplist [] = ok []
  new_iplist (v ∷ vs) = push (parse_text (n.from_value v)) (new_iplist vs)

  abbrev pub any_includes : List n.Network → IpAddr → Bool
  any_includes [] ip = false
  any_includes (net ∷ nets) ip = n.includes net ip || any_includes nets ip

  abbrev pub contains_ip : List n.Network → Option IpAddr → Result Error Bool
  contains_ip nets none = err bad_address
  contains_ip nets (some ip) = ok (any_includes nets ip)

  module _ (t : AddrText) where
    -- `contains` and `contains_impl`
    unfoldable pub contains : List n.Network → Text → Result Error Bool
    contains nets ip = contains_ip nets (t.parse_ip ip)

    abbrev pub contains_value : List n.Network → Option Text → Result Error Bool
    contains_value nets none = err not_text
    contains_value nets (some s) = contains nets s

    -- `rest` is the next round of the loop
    abbrev pub or_rest : Result Error Bool → Result Error Bool → Result Error Bool
    or_rest (err e) rest = err e
    or_rest (ok true) rest = ok true
    or_rest (ok false) rest = rest

    unfoldable pub contains_any : List n.Network → List n.Value → Result Error Bool
    unfolding contains
    contains_any nets [] = ok false
    contains_any nets (v ∷ vs) =
        or_rest (contains_value nets (n.from_value v)) (contains_any nets vs)
