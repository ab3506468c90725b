-- ===== src/Cli/Starts.antt =====
-- How the program comes to serve.
use Prim.Native.String.{String}
use dandelion.Prelude.{ℕ, List, Option, none, some, ◌≡◌, ◌⊎◌, ◌↔◌, inl, inr, refl, sym, ◌∙◌, ap}
use dandelion.Prelude.Exec.{Result, ok, err, Exec, continue, ◌>>=◌}
use dandelion.Net.{Text}
use dandelion.Io.{lift}
use dandelion.Io.Rules.{>>=-eq-ok, lift-eq-ok}
use dandelion.Engine.Config.{Rune, Compiler, Engine, load_config}
use dandelion.Engine.Serve.Run.{Event, Parts, Task, State, run}
use dandelion.Cli.{
  System, no_provider, unreadable, no_config, not_loaded, Ending, running, Failure, otherwise,
  or_else, load_config_from_env, read_code, load, ending, started, main,
}

running_inj :
    {E T A : Type 0} (a b : State T A) → ◌≡◌ {A = Ending E T A} (running a) (running b) → a ≡ b
running_inj a b e = cc

module _ (rune : Rune) (compiler : Compiler rune) (system : System rune.World) where
  open system use {
    FilePath, start_logger, raise_fd_limit, install_default, var, join, read_to_string,
  }

  -- `path` below the directory that the variable names holds the code.
  abbrev pub Holds : String → String → rune.World → Text → rune.World → Type 0
  Holds env path w code w' =
      (dir : Text) × (var env ≡ ok dir) × (read_to_string (join dir path) w ≡ (ok code, w'))

  -- The variable is not there, or the file cannot be read.
  abbrev pub Lacks : String → String → rune.World → rune.World → Type 0
  Lacks env path w w' =
      ((e : system.Error) × (var env ≡ err e) × (w' ≡ w))
      ⊎ ((dir : Text) × (e : system.Error) × (var env ≡ ok dir)
          × (read_to_string (join dir path) w ≡ (err e, w')))

  -- Where the code of the configuration is from.
  abbrev pub Chosen : Option FilePath → rune.World → Text → rune.World → Type 0
  Chosen (some path) w code w' = read_to_string path w ≡ (ok code, w')
  Chosen none w code w' =
      Holds "SNAP_COMMON" "./config.rn" w code w'
      ⊎ ((w1 : rune.World) × Lacks "SNAP_COMMON" "./config.rn" w w1
          × Holds "HOME" "./.dandelion/config.rn" w1 code w')

  module _ (env path : String) (code : Text) where
    load_config_from_env-Holds :
        (w w' : rune.World)
        → load_config_from_env rune compiler system env path w ≡ (ok code, w')
        → Holds env path w code w'
    unfolding load_config_from_env
    load_config_from_env-Holds w w' h =
        let (dir, w1, there, read) =
          >>=-eq-ok (λ x. (var env, x)) (λ d. read_to_string (join d path)) w w' code h in
        (dir, ap (λ z. z.0) there, ap (λ z. read_to_string (join dir path) z.1) there ∙ read)

    Holds-load_config_from_env :
        (w w' : rune.World)
        → Holds env path w code w'
        → load_config_from_env rune compiler system env path w ≡ (ok code, w')
    unfolding load_config_from_env
    Holds-load_config_from_env w w' (dir, there, read) = rw there read

  module _ (env path : String) where
    load_config_from_env-Lacks :
        (w w' : rune.World) (e : system.Error)
        → load_config_from_env rune compiler system env path w ≡ (err e, w')
        → Lacks env path w w'
    unfolding load_config_from_env
    load_config_from_env-Lacks w w' e h = split (var env) refl h
      where
        split :
            (r : Result system.Error Text)
            → var env ≡ r
            → continue (λ d. read_to_string (join d path)) r w ≡ (err e, w')
            → Lacks env path w w'
        split (ok dir) there h' = inr (dir, e, there, h')
        split (err x) there h' = inl (x, there, sym (ap (λ z. z.1) h'))

    Lacks-load_config_from_env :
        (w w' : rune.World)
        → Lacks env path w w'
        → (e : system.Error) × (load_config_from_env rune compiler system env path w ≡ (err e, w'))
    unfolding load_config_from_env
    Lacks-load_config_from_env w w' (inl (e, missing, stays)) = (e, rw missing (rw stays refl))
    Lacks-load_config_from_env w w' (inr (dir, e, there, fails)) = (e, rw there fails)

  otherwise-eq-ok :
      (n : Exec system.Error rune.World Text) (r : Result system.Error Text × rune.World)
      (code : Text) (w' : rune.World)
      → otherwise rune compiler system n r ≡ (ok code, w')
      → (r ≡ (ok code, w'))
        ⊎ ((e : system.Error) × (w1 : rune.World) × (r ≡ (err e, w1)) × (n w1 ≡ (ok code, w')))
  otherwise-eq-ok n (ok a, w) code w' h = inl h
  otherwise-eq-ok n (err e, w) code w' h = inr (e, w, refl, h)

  abbrev snap_code : Exec system.Error rune.World Text
  snap_code = load_config_from_env rune compiler system "SNAP_COMMON" "./config.rn"

  abbrev home_code : Exec system.Error rune.World Text
  home_code = load_config_from_env rune compiler system "HOME" "./.dandelion/config.rn"

  found_code :
      (w w' : rune.World) (code : Text)
      → or_else rune compiler system snap_code home_code w ≡ (ok code, w')
      → Chosen none w code w'
  found_code w w' code h = elim (otherwise-eq-ok home_code (snap_code w) code w' h) [
    | inl snap ↦ inl (load_config_from_env-Holds "SNAP_COMMON" "./config.rn" code w w' snap)
    | inr (e, w1, fails, home) ↦ inr (
      w1,
      load_config_from_env-Lacks "SNAP_COMMON" "./config.rn" w w1 e fails,
      load_config_from_env-Holds "HOME" "./.dandelion/config.rn" code w1 w' home,
    )
  ]

  read_code-Chosen :
      (input : Option FilePath) (w w' : rune.World) (code : Text)
      → read_code rune compiler system input w ≡ (ok code, w')
      → Chosen input w code w'
  unfolding read_code
  read_code-Chosen (some path) w w' code h =
      lift-eq-ok (unreadable path) (read_to_string path) w w' code h
  read_code-Chosen none w w' code h =
      found_code w w' code
        (lift-eq-ok no_config (or_else rune compiler system snap_code home_code) w w' code h)

  Chosen-read_code :
      (input : Option FilePath) (w w' : rune.World) (code : Text)
      → Chosen input w code w'
      → read_code rune compiler system input w ≡ (ok code, w')
  unfolding read_code
  Chosen-read_code (some path) w w' code read = rw read refl
  Chosen-read_code none w w' code (inl snap) =
      rw (Holds-load_config_from_env "SNAP_COMMON" "./config.rn" code w w' snap) refl
  Chosen-read_code none w w' code (inr (w1, lacks, home)) =
      let (e, fails) = Lacks-load_config_from_env "SNAP_COMMON" "./config.rn" w w1 lacks in
      rw (fails, Holds-load_config_from_env "HOME" "./.dandelion/config.rn" code w1 w' home) refl

  -- the way from the start to the engine that is loaded
  abbrev pub Loaded : Option FilePath → rune.World → Engine rune → rune.World → Type 0
  Loaded input w engine w' =
      (w1 : rune.World) × (w2 : rune.World) × (code : Text) × (w3 : rune.World) × (start_logger w
        ≡ (ok tt, w1))
      × (install_default (raise_fd_limit w1) ≡ (ok tt, w2))
      × Chosen input w2 code w3
      × (load_config rune compiler code w3 ≡ (ok engine, w'))

  load_lem :
      (input : Option FilePath) (w w' : rune.World) (engine : Engine rune)
      → load rune compiler system input w ≡ (ok engine, w')
      → (w2 : rune.World) × (code : Text) × (w3 : rune.World) × (install_default (raise_fd_limit w)
          ≡ (ok tt, w2))
        × Chosen input w2 code w3
        × (load_config rune compiler code w3 ≡ (ok engine, w'))
  unfolding load
  load_lem input w w' engine h =
      let (unit, w2, provided, more) =
        >>=-eq-ok (lift no_provider install_default)
          (λ _. read_code rune compiler system input >>= λ code.
            lift not_loaded (load_config rune compiler code))
          (raise_fd_limit w) w' engine h in
      let (code, w3, read, loads) =
        >>=-eq-ok (read_code rune compiler system input)
          (λ code. lift not_loaded (load_config rune compiler code)) w2 w' engine more in
      (
        w2,
        code,
        w3,
        lift-eq-ok no_provider install_default (raise_fd_limit w) w2 unit provided,
        read_code-Chosen input w2 w3 code read,
        lift-eq-ok not_loaded (load_config rune compiler code) w3 w' engine loads,
      )

  module _ (parts : Parts rune) {A : Type 0} (events : List (ℕ × Event parts.tcp.State A)) where
    running-load :
        (r : Result (Failure rune compiler system) (Engine rune) × rune.World)
        (s : State (Task rune parts) A) (w' : rune.World)
        → ending rune compiler system parts events r ≡ (running s, w')
        → (engine : Engine rune) × (r ≡ (ok engine, w')) × (s ≡ run rune parts engine events)
    running-load (ok engine, w) s w' h =
        (engine, λ i. (ok engine, (h i).1), sym (running_inj _ _ (ap (λ z. z.0) h)))
    running-load (err e, w) s w' h = absurd (cc (ap (λ z. z.0) h))

    started-Loaded :
        (input : Option FilePath) (r : Result system.Error (Unit {0}) × rune.World)
        (s : State (Task rune parts) A) (w' : rune.World)
        → started rune compiler system parts events input r ≡ (running s, w')
        → (w1 : rune.World) × (r ≡ (ok tt, w1))
          × ((engine : Engine rune) × (load rune compiler system input w1 ≡ (ok engine, w'))
              × (s ≡ run rune parts engine events))
    started-Loaded input (ok tt, w1) s w' h =
        (w1, refl, running-load (load rune compiler system input w1) s w' h)
    started-Loaded input (err e, w1) s w' h = absurd (cc (ap (λ z. z.0) h))

    -- The program runs an engine exactly where the logger starts and the provider of cryptography is
    -- installed, a configuration is chosen, and the engine is loaded from its text: the file that was
    -- given, which is the only one that is read then; or else the one below `$SNAP_COMMON`; or else,
    -- and only where that variable is missing or that file cannot be read, the one below `$HOME`. It
    -- runs that engine with its acceptors.
    pub main-Loaded :
        (input : Option FilePath) (w w' : rune.World) (s : State (Task rune parts) A)
        → (main rune compiler system parts events input w ≡ (running s, w'))
          ↔ ((engine : Engine rune) × Loaded input w engine w' × (s ≡ run rune parts engine events))
    unfolding main
    main-Loaded input w w' s = (
      λ h.
          let (w1, logs, (engine, loads, same)) = started-Loaded input (start_logger w) s w' h in
          let (w2, code, w3, provided, chosen, loaded) = load_lem input w1 w' engine loads in
          (engine, (w1, w2, code, w3, logs, provided, chosen, loaded), same),
      λ (engine, (w1, w2, code, w3, logs, provided, chosen, loaded), same).
          rw (logs, load, provided, Chosen-read_code input w2 w3 code chosen, loaded, same) refl,
    )
