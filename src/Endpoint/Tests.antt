-- ===== src/Endpoint/Tests.antt =====
-- Texts of endpoints, over one text of an address, and the theorems at inputs of their own.
use Prim.Native.Char.{code}
use Prim.Native.String.{String}
use dandelion.Prelude.{[], ◌∷◌, none, some, ◌≡◌, refl, arith, eq_text, if◌then◌else◌}
use dandelion.Prelude.Exec.{ok, err}
use dandelion.Net.{Text, v4, SocketAddr, AddrText}
use dandelion.Net.Decimal.{parse_u16, u16_to_string}
use dandelion.Net.Coded.{coded, coded-ReadsBack}
use dandelion.Endpoint.{addr, domain, no_port, bad_port, port, from_str, to_string}
use dandelion.Endpoint.RoundTrip.{from_str-to_string}

-- the bytes of an ASCII text
abbrev bytes : String → Text
bytes String.[] = []
bytes (String.◌∷◌ c s) = code c ∷ bytes s

abbrev localhost : SocketAddr
localhost = record { ip = v4 (127 ∷ 0 ∷ 0 ∷ 1 ∷ []); port = 89; scope_id = 0 }

abbrev one_text : AddrText
one_text = record {
  parse_ip = λ t. none;
  ip_to_string = λ a. [];
  parse_addr = λ t. if eq_text t (bytes "127.0.0.1:89") then some localhost else none;
  addr_to_string = λ a. bytes "127.0.0.1:89";
}

-- the cases of the source's `parse_from_str`
parse_from_str :
    (from_str one_text (bytes "127.0.0.1:89") ≡ ok (addr localhost))
    × (from_str one_text (bytes "127.0.0.1") ≡ err no_port)
    × (from_str one_text (bytes "google.com") ≡ err no_port)
    × (from_str one_text (bytes "google.com:443") ≡ ok (domain (bytes "google.com") 443))
    × (from_str one_text (bytes "google.com:65536") ≡ err bad_port)
unfolding from_str parse_u16
parse_from_str = (refl, refl, refl, refl, refl)

from_str-to_string_example :
    from_str coded (to_string coded (domain (b'a' ∷ []) 80)) ≡ ok (domain (b'a' ∷ []) 80)
unfolding u16_to_string
from_str-to_string_example =
    from_str-to_string coded (domain (b'a' ∷ []) 80) coded-ReadsBack (unfold port in omega arith)
