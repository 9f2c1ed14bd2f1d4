-- ===== src/Registry.antt =====
-- internal/store/store.go, `Register` and `Open`: the storage drivers by name. A configuration value
-- is what its YAML type is; `F` is the type of factories, and `none` a factory that is nil.
use slackbot_hubspot.Base.{
  ◌||◌, Bool, true, false, ◌&&◌, String, false, Option, none, some, List, [], ◌∷◌, ◌==◌,
  if◌then◌else◌, ◌≡◌, refl, arith, eq_self, subst, Bool-cases, Option-cases, inl, inr,
}

-- A value of a configuration: a text, a mapping, or something else.
mutual
  pub data Value : Type 0 where
    text : String → Value
    mapping : Config → Value
    scalar : Value

  pub data Config : Type 0 where
    nil : Config
    entry : String → Value → Config → Config

unfoldable pub lookup : String → Config → Option Value
lookup name nil = none
lookup name (entry key v rest) = if key == name then some v else lookup name rest

-- `name, _ := cfg["driver"].(string)`
abbrev pub text_or_empty : Option Value → String
text_or_empty (some (text s)) = s
text_or_empty _ = ""

-- The errors of the registry.
pub data RegistryError : Type 0 where
  incomplete : RegistryError
  registered unknown not_mapping : String → RegistryError

pub data Outcome {ℓ} (A : Type ℓ) : Type ℓ where
  made : A → Outcome A
  refused : RegistryError → Outcome A

-- The settings of the chosen driver.
abbrev pub selected : String → Option Value → Outcome Config
selected name none = made nil
selected name (some (mapping c)) = made c
selected name (some _) = refused (not_mapping name)

module _ {F : Type 0} where
  unfoldable pub factory_of : String → List (String × F) → Option F
  factory_of name [] = none
  factory_of name ((n, f) ∷ rest) = if n == name then some f else factory_of name rest

  -- `Register`
  unfoldable pub register : String → Option F → List (String × F) → Outcome (List (String × F))
  register name none registry = refused incomplete
  register name (some factory) registry =
      if name == "" then refused incomplete else elim (factory_of name registry) [
        | some f ↦ refused (registered name)
        | none ↦ made ((name, factory) ∷ registry)
      ]

  abbrev pub open_with :
      {S : Type 0} → (F → Config → S) → Option F → String → Outcome Config → Outcome S
  open_with start none name c = refused (unknown name)
  open_with start (some f) name (refused e) = refused e
  open_with start (some f) name (made c) = made (start f c)

  -- `Open`; `start` calls a factory.
  unfoldable pub open_store :
      {S : Type 0} → (F → Config → S) → List (String × F) → Config → Outcome S
  open_store start registry cfg =
      let name = text_or_empty (lookup "driver" cfg) in
      open_with start (factory_of name registry) name (selected name (lookup name cfg))

  register-made :
      (name : String) (f : F) (registry more : List (String × F))
      → register name (some f) registry ≡ made more
      → ((name, f) ∷ registry ≡ more) × ((name == "") ≡ false)
  unfolding register
  register-made name f registry more h = elim (Bool-cases (name == "")) [
    | inl empty ↦ absurd (cc (rw (empty, register) at h))
    | inr named ↦ elim (Option-cases (factory_of name registry)) [
      | inr (g, q) ↦ absurd (ground arith)
      | inl free ↦ (ground arith, named)
    ]
  ]

  -- A driver that was registered under a new name is the one that is opened by this name, with its
  -- own settings only, and every other driver is still found; the name cannot be taken again.
  pub register_then_open :
      {S : Type 0} (start : F → Config → S) (name : String) (f g : F)
      (registry more : List (String × F)) (cfg settings : Config)
      → register name (some f) registry ≡ made more
      → lookup "driver" cfg ≡ some (text name)
      → lookup name cfg ≡ some (mapping settings)
      → (open_store start more cfg ≡ made (start f settings))
        × (register name (some g) more ≡ refused (registered name))
        × ((other : String)
            → (name == other) ≡ false
            → factory_of other more ≡ factory_of other registry)
  unfolding register open_store factory_of
  register_then_open start name f g registry more cfg settings h d c =
      let (made_of, named) = register-made name f registry more h in
      subst
        (λ m.
          (open_store start m cfg ≡ made (start f settings))
          × (register name (some g) m ≡ refused (registered name))
          × ((other : String)
              → (name == other) ≡ false
              → factory_of other m ≡ factory_of other registry))
        made_of
        (rw (d, c, eq_self name) refl, rw (named, eq_self name) refl, λ other apart. rw apart refl)

abbrev pub has_name : String → List String → Bool
has_name s [] = false
has_name s (x ∷ xs) = x == s || has_name s xs

-- `ValidateConfig` of internal/store/backend/backend.go: every setting is one of the fields.
unfoldable pub is_valid_config : Config → List String → Bool
is_valid_config nil fields = true
is_valid_config (entry key v rest) fields = has_name key fields && is_valid_config rest fields

-- `ValidateSchema`, of the text that is stored.
unfoldable pub is_valid_schema : String → Bool
is_valid_schema value = value == "1"
