-- ===== src/Http/Connector/Tests.antt =====
-- The connector over a pipe.
use dandelion.Prelude.{[], ◌∷◌, ◌++◌, ◌≡◌, refl, arith}
use dandelion.Prelude.Exec.{ok}
use dandelion.Net.{Text}
use dandelion.Net.Coded.{coded}
use dandelion.Endpoint.{Endpoint, domain}
use dandelion.Io.Pipe.{pipe, ends, pipe-IsByteStream, pipe-ReportsSuccess}
use dandelion.Io.Pipe
use dandelion.Io.ReadBuf.{read_four, read_four-IsReadBuf}
use dandelion.Http.Connector.{request_text, connect}
use dandelion.Http.Connector.Sample.{parse, head, head-IsAccepting, arrived}
use dandelion.Http.Connector.Response.{Ends, connect-Ends}
use dandelion.Http.Connector.Accepted.{connect-accepted, CameWithEnd}

abbrev site : Endpoint
site = domain (b'a' ∷ []) 80

connect-Ends_example :
    Ends pipe ends read_four parse [] arrived (connect pipe read_four parse coded 6 site arrived)
connect-Ends_example =
    connect-Ends pipe ends read_four parse read_four-IsReadBuf coded 6 site arrived
      pipe-ReportsSuccess (omega arith)

connect-accepted_example :
    (s' : Pipe.Ends) × (lost : Text) × (connect pipe read_four parse coded 6 site arrived
      ≡ (ok tt, s'))
    × (8 ∷ 9 ∷ [] ≡ lost ++ s'.incoming)
    × CameWithEnd pipe ends read_four parse (8 ∷ 9 ∷ []) lost s'
    × (s'.sent ≡ request_text coded site)
connect-accepted_example =
    connect-accepted pipe ends read_four parse read_four-IsReadBuf head (8 ∷ 9 ∷ [])
      head-IsAccepting coded 6 site arrived pipe-IsByteStream tt refl (λ h. absurd (ground arith))
      (omega arith)

-- The byte that comes with the end of the response is lost.
lost_test :
    connect pipe read_four parse coded 6 site arrived
    ≡ (ok tt, record { incoming = 9 ∷ []; sent = request_text coded site })
unfolding connect
lost_test = refl

-- A proxy that says nothing is a success.
silent_test :
    (connect pipe read_four parse coded 6 site (record { incoming = []; sent = [] })).0 ≡ ok tt
unfolding connect
silent_test = refl
