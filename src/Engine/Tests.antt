-- ===== src/Engine/Tests.antt =====
-- What scripts call, at one input.
use dandelion.Prelude.{[], ◌∷◌, some, true, ◌≡◌, refl, eq_text}
use dandelion.Prelude.Exec.{ok}
use dandelion.Net.{Text, IpAddr, v4, v6}
use dandelion.Net.Coded.{coded}
use dandelion.Engine.IpList.{Networks, contains_any}

-- A network is one address, by its octets.
abbrev octets : IpAddr → Text
octets (v4 o) = o
octets (v6 o) = o

abbrev single : Networks
single = record {
  Network = Text;
  Value = Text;
  from_value = λ v. some v;
  parse = λ s. some s;
  includes = λ net ip. eq_text net (octets ip);
}

contains_any_test :
    contains_any single coded ((7 ∷ []) ∷ []) ((0 ∷ 8 ∷ []) ∷ (0 ∷ 7 ∷ []) ∷ []) ≡ ok true
unfolding contains_any
contains_any_test = refl
