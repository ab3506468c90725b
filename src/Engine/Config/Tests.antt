-- ===== src/Engine/Config/Tests.antt =====
-- The configuration of a script that wants two acceptors.
use dandelion.Prelude.{ℕ, [], ◌∷◌, ◌++◌, ◌≡◌, refl}
use dandelion.Prelude.Exec.{ok, err}
use dandelion.Net.Coded.{coded}
use dandelion.Engine.Modules.{engine_modules, engine_context}
use dandelion.Engine.Modules.Installed.{engine_items}
use dandelion.Engine.Modules.Listed.{listed}
use dandelion.Engine.Config.{bad_address, new, add_socks5_acceptor}
use dandelion.Engine.Config.Sample.{defaults}

-- The modules are installed in their order, and a second time they are refused.
engine_context_test : engine_context (listed defaults) ≡ ok (defaults ++ engine_items)
unfolding engine_context engine_modules
engine_context_test = refl

installed_twice : engine_context (listed engine_items) ≡ err tt
unfolding engine_context engine_modules
installed_twice = refl

-- A text that is no address adds no acceptor.
bad_address_test :
    add_socks5_acceptor coded (b'x' ∷ []) [] (new {Object = ℕ}) ≡ (err bad_address, new)
unfolding add_socks5_acceptor new
bad_address_test = refl
