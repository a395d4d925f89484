-- ===== src/Config/Build.antt =====
-- `build_server_config` against the map of the servers in the file.
use Prim.Native.String.{String}
use text.Mathlib.Text.{◌==◌ as str_eq}
use text.Mathlib.TextEquality.{eq_iff}
use text.Mathlib.TextPositions.{eq_refl}
use monolake.Base.{
  List, [], ◌∷◌, Option, none, some, if◌then◌else◌, Result, ok, err, Result-cases, Bool-cases, inl,
  inr, ◌≡◌, arith,
}
use mathlib.Core.Path.{subst}
use monolake.Config.Spec.{
  SameProtocol, TlsOf, TlsFails, protocol_config-SameProtocol, tls_config-TlsOf,
  tls_config-TlsFails,
}
use monolake.Config.{
  TlsUserConfig, Externals, ServerUserConfig, ServerConfig, ServiceConfig, Servers, insert,
  server_config, tls_config, protocol_config, build_from, build_server_config,
}

module _ (x : Externals) where
  abbrev pub User : Type 0
  User = ServiceConfig x (ServerUserConfig x)

  abbrev pub Built : Type 0
  Built = ServiceConfig x (ServerConfig x)

  abbrev pub get : String → List (String × User) → Option User
  get k [] = none
  get k ((key, server) ∷ servers) = if str_eq key k then some server else get k servers

  -- The entries of a map.
  abbrev pub IsMap : List (String × User) → Type 0
  IsMap [] = Unit {0}
  IsMap ((key, server) ∷ servers) = (get key servers ≡ none) × IsMap servers

  -- The server that is built of one of the file's.
  pub record IsBuiltOf (user : User) (built : Built) : Type 0 where
    pub same_listener : built.listener ≡ user.listener
    pub same_name : built.server.name ≡ user.server.name
    pub protocol : SameProtocol x user.server.protocol_config built.server.protocol
    pub tls : TlsOf x user.server.tls built.server.tls
    pub no_auth : built.server.auth_config ≡ none

  -- What stands under a key, where nothing was before.
  pub data Entry (before : Option Built) : Option User → Option Built → Type 0 where
    kept : Entry before none before
    made :
        (user : User) (built : Built) → IsBuiltOf user built → Entry before (some user) (some built)

  pub data Outcome (acc : Servers x) (servers : List (String × User))
      : Result (Servers x) x.Error → Type 0 where
    all_built :
        (new : Servers x)
        → ((k : String) → Entry (acc k) (get k servers) (new k))
        → Outcome acc servers (ok new)
    one_failed :
        (key : String) (user : User) (e : x.Error)
        → get key servers ≡ some user
        → ((c : TlsUserConfig) × (user.server.tls ≡ some c) × TlsFails x c e)
        → Outcome acc servers (err e)

  server_config-IsBuiltOf :
      (user : User) (built : Built) → server_config x user ≡ ok built → IsBuiltOf user built
  unfolding server_config
  server_config-IsBuiltOf user built e = elim (Result-cases (tls_config x user.server.tls)) [
    | inr (bad, t) ↦ absurd (ground (arith, e, t))
    | inl (tls, t) ↦ record {
      same_listener = ground (arith, e, t);
      same_name = ground (arith, e, t);
      protocol =
          let same : protocol_config x user.server.protocol_config ≡ built.server.protocol =
            ground (arith, e, t) in
          subst (SameProtocol x user.server.protocol_config) same
            (protocol_config-SameProtocol x user.server.protocol_config);
      tls = tls_config-TlsOf x user.server.tls built.server.tls (ground (arith, e, t));
      no_auth = ground (arith, e, t);
    }
  ]

  server_config-TlsFails :
      (user : User) (e : x.Error)
      → server_config x user ≡ err e
      → (c : TlsUserConfig) × (user.server.tls ≡ some c) × TlsFails x c e
  unfolding server_config
  server_config-TlsFails user e q = elim (Result-cases (tls_config x user.server.tls)) [
    | inr (bad, t) ↦ tls_config-TlsFails x user.server.tls e (ground (arith, q, t))
    | inl (tls, t) ↦ absurd (ground (arith, q, t))
  ]

  made_Entry :
      (before : Option Built) (user : User) (built : Built) (o : Option Built)
      → IsBuiltOf user built
      → Entry (some built) none o
      → Entry before (some user) o
  made_Entry before user built o b kept = made user built b

  add_Entry :
      (acc : Servers x) (key : String) (user : User) (built : Built)
      (servers : List (String × User)) (new : Servers x) (k : String)
      → get key servers ≡ none
      → server_config x user ≡ ok built
      → Entry (insert x key built acc k) (get k servers) (new k)
      → Entry (acc k) (get k ((key, user) ∷ servers)) (new k)
  add_Entry acc key user built servers new k free e entry = elim (Bool-cases (str_eq key k)) [
    | inr other ↦ rw other (rw other at entry)
    | inl same ↦
        let none_yet : get k servers ≡ none =
          subst (λ j. get j servers ≡ none) ((eq_iff key k).0 same) free in
        rw same (
          made_Entry (acc k) user built (new k) (server_config-IsBuiltOf user built e)
            (rw (same, none_yet) at entry))
  ]

  build_from-Outcome :
      (servers : List (String × User)) (acc : Servers x)
      → IsMap servers
      → Outcome acc servers (build_from x servers acc)
  unfolding build_from
  build_from-Outcome [] acc m = all_built acc (λ k. kept)
  build_from-Outcome ((key, user) ∷ servers) acc (free, m) =
      elim (Result-cases (server_config x user)) [
        | inr (bad, e) ↦
            rw (e, build_from)
              (one_failed key user bad (rw (eq_refl key)) (server_config-TlsFails user bad e))
        | inl (built, e) ↦
            rw (e, build_from)
              (extend (build_from x servers (insert x key built acc)) built e
                (build_from-Outcome servers (insert x key built acc) m))
      ]
    where
      extend :
          (r : Result (Servers x) x.Error) (built : Built)
          → server_config x user ≡ ok built
          → Outcome (insert x key built acc) servers r
          → Outcome acc ((key, user) ∷ servers) r
      extend r built e (all_built new entries) =
          all_built new (λ k. add_Entry acc key user built servers new k free e (entries k))
      extend r built e (one_failed other u bad g f) =
          one_failed other u bad
            (elim (Bool-cases (str_eq key other)) [
              | inr differs ↦ rw differs g
              | inl same ↦
                  absurd
                    (cc (g, subst (λ j. get j servers ≡ none) ((eq_iff key other).0 same) free))
            ])
            f

  -- The servers of the file are the entries of a map, in any order. If each of them can be converted, the
  -- result has a server under just the same keys, with the listener and the name of the file's, its
  -- protocol with each of its timeouts in its place, and the TLS configuration that the library asked for
  -- makes of the contents of the chain and key files, or none; no server has an OpenID configuration. Else
  -- the result is the error of reading one of these files, or of the library, for one of the servers.
  pub build_server_config-Outcome :
      (servers : List (String × User))
      → IsMap servers
      → Outcome (λ k. none) servers (build_server_config x servers)
  unfolding build_server_config
  build_server_config-Outcome servers m = build_from-Outcome servers (λ k. none) m
