-- ===== src/Resolver/Trait.antt =====
-- core/src/core/resolver/mod.rs: what a resolver offers. Its names, records and header are those of
-- the crate hickory_proto.
use dandelion.Prelude.{List, Bool}
use dandelion.Prelude.Exec.{Result, err}
use dandelion.Net.{Text, IpAddr}

-- `Message`, as far as it is read here; `rest` is what is left of it.
pub record Message (Query Record Rest : Type 0) : Type 0 where
  pub queries : List Query
  pub answers : List Record
  pub is_response : Bool
  pub rest : Rest

pub data RawError (E : Type 0) : Type 0 where
  not_supported no_query : RawError E
  resolver : E → RawError E

-- the trait `Resolver`, over the messages `M`
pub record Resolver (M : Type 0) : Type 1 where
  pub Error : Type 0
  pub lookup_ip : Text → Result Error (List IpAddr)
  pub lookup_ipv4 : Text → Result Error (List Text)
  pub lookup_ipv6 : Text → Result Error (List Text)
  pub support_raw : Bool
  pub lookup_raw : M → Result (RawError Error) M

-- the method `lookup_raw` where a resolver has none of its own
unfoldable pub default_lookup_raw : {E M : Type 0} → M → Result (RawError E) M
default_lookup_raw message = err not_supported
