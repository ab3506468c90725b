-- ===== src/Resolver/Hickory.antt =====
-- core/src/core/resolver/hickory.rs: the resolver that asks name servers. The client is that of the
-- crate hickory_resolver, a parameter.
use dandelion.Prelude.{ℕ, List, [], ◌∷◌, ◌++◌, true}
use dandelion.Prelude.Exec.{Result, ok, err}
use dandelion.Net.{Text, IpAddr}
use dandelion.Resolver.Trait.{Message, RawError, no_query, resolver, Resolver}

-- `TokioResolver`; a query is a name with a type.
pub record Client : Type 1 where
  pub Error : Type 0
  pub RecordType : Type 0
  pub Record : Type 0
  pub lookup_ip : Text → Result Error (List IpAddr)
  pub ipv4_lookup : Text → Result Error (List Text)
  pub ipv6_lookup : Text → Result Error (List Text)
  pub lookup : Text → RecordType → Result Error (List Record)

-- What a client is built with: its name servers, and the time in milliseconds that it waits.
pub record Options (NameServer : Type 0) : Type 0 where
  pub name_servers : List NameServer
  pub timeout : ℕ

-- `HickoryResolver::new`, over the servers of `ResolverConfig::default()`
unfoldable pub new :
    {NameServer : Type 0} → List NameServer → List NameServer → ℕ → Options NameServer
new default_servers nameservers timeout = record {
  name_servers = default_servers ++ nameservers;
  timeout = timeout;
}

pub data Error (E : Type 0) : Type 0 where
  not_found : Error E
  client_error : E → Error E

abbrev pub non_empty : {E A : Type 0} → List A → Result (Error E) (List A)
non_empty [] = err not_found
non_empty (a ∷ rest) = ok (a ∷ rest)

abbrev pub found : {E A : Type 0} → Result E (List A) → Result (Error E) (List A)
found (ok r) = non_empty r
found (err e) = err (client_error e)

module _ (c : Client) where
  unfoldable pub lookup_ip : Text → Result (Error c.Error) (List IpAddr)
  lookup_ip name = found (c.lookup_ip name)

  unfoldable pub lookup_ipv4 : Text → Result (Error c.Error) (List Text)
  lookup_ipv4 name = found (c.ipv4_lookup name)

  unfoldable pub lookup_ipv6 : Text → Result (Error c.Error) (List Text)
  lookup_ipv6 name = found (c.ipv6_lookup name)

  abbrev pub Query : Type 0
  Query = Text × c.RecordType

  module _ {Rest : Type 0} where
    abbrev pub answered :
        Message Query c.Record Rest
        → Result c.Error (List c.Record)
        → Result (RawError (Error c.Error)) (Message Query c.Record Rest)
    answered message (ok records) =
        ok (record message { answers = message.answers ++ records; is_response = true })
    answered message (err e) = err (resolver (client_error e))

    abbrev pub ask_first :
        Message Query c.Record Rest
        → List Query
        → Result (RawError (Error c.Error)) (Message Query c.Record Rest)
    ask_first message [] = err no_query
    ask_first message ((name, query_type) ∷ _) = answered message (c.lookup name query_type)

    unfoldable pub lookup_raw :
        Message Query c.Record Rest
        → Result (RawError (Error c.Error)) (Message Query c.Record Rest)
    lookup_raw message = ask_first message message.queries

    -- `impl Resolver for HickoryResolver`
    abbrev pub hickory : Resolver (Message Query c.Record Rest)
    hickory = record {
      Error = Error c.Error;
      lookup_ip = lookup_ip;
      lookup_ipv4 = lookup_ipv4;
      lookup_ipv6 = lookup_ipv6;
      support_raw = true;
      lookup_raw = lookup_raw;
    }
