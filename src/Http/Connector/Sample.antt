-- ===== src/Http/Connector/Sample.antt =====
-- A parser for which three bytes are a response, for tests.
use dandelion.Prelude.{
  ◌<◌, [], ◌∷◌, ◌++◌, some, ltb, ◌≡◌, ◌≢◌, refl, ap, length, length-append, if◌then◌else◌, arith,
}
use dandelion.Net.{Text}
use dandelion.Io.Pipe.{pipe, ends, pipe-IsByteStream, pipe-ReportsSuccess}
use dandelion.Io.Pipe
use dandelion.Http.Connector.{Parsed, partial_head, complete}
use dandelion.Http.Connector.Accepted.{IsAccepting}

abbrev pub parse : Text → Parsed
parse bs = if ltb (length bs) 3 then partial_head else complete (some 200)

abbrev pub head : Text
head = 1 ∷ 2 ∷ 3 ∷ []

length-ne : (c : Text) → c ≢ [] → 0 < length c
length-ne [] h = absurd (h refl)
length-ne (x ∷ c) h = omega arith

head_partial : (a b : Text) → head ≡ a ++ b → b ≢ [] → parse a ≡ partial_head
head_partial a b e more =
    let short : length a < 3 = omega (arith, ap length e, length-append a b, length-ne b more) in
    ground arith

pub head-IsAccepting : IsAccepting parse head
head-IsAccepting = record { head-partial = head_partial; head-complete = λ more. ground arith }

-- The response, and two bytes behind it.
abbrev pub arrived : Pipe.Ends
arrived = record { incoming = 1 ∷ 2 ∷ 3 ∷ 8 ∷ 9 ∷ []; sent = [] }
