-- ===== src/ConfigManager/Diff.antt =====
-- `diff` gives one patch for each key of either map, of the kind that the maps call for.
use Prim.Native.String.{String}
use text.Mathlib.Text.{◌==◌ as str_eq}
use text.Mathlib.TextEquality.{eq_iff}
use monolake.Base.{
  Bool, true, false, ◌||◌, List, [], ◌∷◌, some, if◌then◌else◌, ◌≡◌, refl, arith, Bool-cases, inl,
  inr,
}
use monolake.Orchestrator.Executor.{Factories}
use monolake.ConfigManager.{
  Providers, ServiceConfigMap, Patch, insert, update_server, delete, find, contains, patch_of, diff,
}

abbrev pub listed : String → List String → Bool
listed n [] = false
listed n (k ∷ ks) = if str_eq k n then true else listed n ks

-- No key comes twice.
abbrev pub Once : List String → Type 0
Once [] = Unit {0}
Once (k ∷ ks) = (listed k ks ≡ false) × Once ks

module _ (b : Factories) (p : Providers b) where
  open p use {ServerConfig, ListenerConfig}

  -- The keys over which `diff` runs: those of either map, each once.
  pub record IsUnion (old new : ServiceConfigMap b p) (keys : List String) : Type 0 where
    pub complete : (n : String) → listed n keys ≡ (contains b p n old || contains b p n new)
    pub once : Once keys

  abbrev pub key_of : Patch b p → String
  key_of (insert key listener server) = key
  key_of (update_server key server) = key
  key_of (delete key) = key

  abbrev pub patch_keys : List (Patch b p) → List String
  patch_keys [] = []
  patch_keys (patch ∷ patches) = key_of patch ∷ patch_keys patches

  -- The kind of a patch, and the configuration that it carries.
  abbrev pub Fits : ServiceConfigMap b p → ServiceConfigMap b p → Patch b p → Type 0
  Fits old new (insert key listener server) =
      (contains b p key old ≡ false)
      × (contains b p key new ≡ true)
      × (find b p key new ≡ some (listener, server))
  Fits old new (update_server key server) =
      (contains b p key old ≡ true)
      × (contains b p key new ≡ true)
      × ((listener : ListenerConfig) × (find b p key new ≡ some (listener, server)))
  Fits old new (delete key) = (contains b p key old ≡ true) × (contains b p key new ≡ false)

  abbrev pub AllFit : ServiceConfigMap b p → ServiceConfigMap b p → List (Patch b p) → Type 0
  AllFit old new [] = Unit {0}
  AllFit old new (patch ∷ patches) = Fits old new patch × AllFit old new patches

  contains-find :
      (key : String) (m : ServiceConfigMap b p)
      → contains b p key m ≡ true
      → (c : ListenerConfig × ServerConfig) × (find b p key m ≡ some c)
  contains-find key [] h = cc
  contains-find key ((name, listener, server) ∷ m) h = elim (Bool-cases (str_eq name key)) [
    | inl hit ↦ ((listener, server), rw hit)
    | inr miss ↦ let (c, e) = contains-find key m (ground (arith, miss)) in (c, rw miss e)
  ]

  patch_of-Fits :
      (old new : ServiceConfigMap b p) (key : String)
      → (contains b p key old || contains b p key new) ≡ true
      → (patch : Patch b p) × (patch_of b p old new key ≡ some patch)
        × (key_of patch ≡ key)
        × Fits old new patch
  unfolding patch_of
  patch_of-Fits old new key h = elim (Bool-cases (contains b p key new)) [
    | inl there ↦
        let (c, e) = contains-find key new there in
        elim (Bool-cases (contains b p key old)) [
          | inl before ↦ (
            update_server key c.1,
            ground (arith, there, before, e),
            refl,
            (before, there, (c.0, ground (arith, e))),
          )
          | inr fresh ↦ (
            insert key c.0 c.1,
            ground (arith, there, fresh, e),
            refl,
            (fresh, there, ground (arith, e)),
          )
        ]
    | inr gone ↦
        let before : contains b p key old ≡ true = ground arith in
        (delete key, ground (arith, gone, before), refl, (before, gone))
  ]

  diff_over :
      (old new : ServiceConfigMap b p) (keys : List String)
      → ((n : String) → listed n keys ≡ true → (contains b p n old || contains b p n new) ≡ true)
      → (patches : List (Patch b p)) × (diff b p old new keys ≡ some patches)
        × (patch_keys patches ≡ keys)
        × AllFit old new patches
  unfolding diff
  diff_over old new [] h = ([], refl, refl, tt)
  diff_over old new (key ∷ keys) h =
      let (patch, e, k, f) = patch_of-Fits old new key (h key (ground (arith, eq_iff key key))) in
      let (patches, e', k', f') = diff_over old new keys (λ n l. h n (ground (arith, l))) in
      (patch ∷ patches, ground (arith, e, e'), ground (arith, k, k'), (f, f'))

  -- Over the keys of either map, each once, `diff` does not panic. It gives one patch for each key, in
  -- their order: an insertion for a key of the new map only, an update for a key of both, a deletion
  -- for a key of the old one only, with the new configuration of the key.
  pub diff_lem :
      (old new : ServiceConfigMap b p) (keys : List String)
      → IsUnion old new keys
      → (patches : List (Patch b p)) × (diff b p old new keys ≡ some patches)
        × (patch_keys patches ≡ keys)
        × AllFit old new patches
  diff_lem old new keys u = diff_over old new keys (λ n l. ground (arith, u.complete n, l))
