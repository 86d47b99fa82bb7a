-- ===== src/Post.antt =====
-- eWebRequest.cpp: the requests to the web server, what is posted for one and how its answer is
-- taken. A request is the members of its JSON object in the order of their assignment, the path and
-- the domain; a floating point number is a value of a type `Real`, and JSON that a caller hands over
-- one of a type `J`. `%d` and the conversion from UTF-16 are parameters.
pub mod Account
pub mod Command
pub mod Library
pub mod Files
pub mod Patches
pub mod Other
pub mod Content
pub mod Progress
pub mod Form
pub mod Sign
pub mod Calls
pub mod Http
pub mod Answer
pub mod Outcome
pub mod Download
mod Tests
use Prim.Native.String.{String}
use vncc.Base.{ℕ, Bool, true, false, if◌then◌else◌, ltb, List, [], ◌∷◌, ◌++◌, Option, none, some}
use vncc.Instructions.{ℤ, pos, negsuc}

mutual
  pub data Value (Real J : Type 0) : Type 0 where
    null : Value Real J
    number : ℤ → Value Real J
    letters : String → Value Real J
    flag : Bool → Value Real J
    real : Real → Value Real J
    numbers : List ℤ → Value Real J
    texts : List String → Value Real J
    given : J → Value Real J
    object : Members Real J → Value Real J
    -- An array of objects.
    array : Rows Real J → Value Real J

  pub data Members (Real J : Type 0) : Type 0 where
    no_members : Members Real J
    member : String → Value Real J → Members Real J → Members Real J

  pub data Rows (Real J : Type 0) : Type 0 where
    no_rows : Rows Real J
    row : Members Real J → Rows Real J → Rows Real J

abbrev pub Body : Type 0 → Type 0 → Type 0
Body Real J = List (String × Value Real J)

-- `_str_domain` and `s_notify_domain`.
pub data Domain : Type 0 where
  app notify : Domain

pub record Request (Real J : Type 0) : Type 0 where
  pub domain : Domain
  pub path : String
  pub body : Body Real J

infix 50 ◌<ℤ◌
abbrev pub ◌<ℤ◌ : ℤ → ℤ → Bool
pos a <ℤ pos b = ltb a b
negsuc a <ℤ negsuc b = ltb b a
negsuc a <ℤ pos b = true
pos a <ℤ negsuc b = false

abbrev pub when {ℓ} : {A : Type ℓ} → Bool → A → List A → List A
when b a rest = if b then a ∷ rest else rest

module _ {Real J : Type 0} where
  abbrev pub fields : Body Real J → Members Real J
  fields [] = no_members
  fields ((name, v) ∷ rest) = member name v (fields rest)

  -- A `const char*` that is null leaves the member out.
  abbrev pub given_text : String → Option String → Body Real J → Body Real J
  given_text name none rest = rest
  given_text name (some s) rest = (name, letters s) ∷ rest

  -- The operator and the network only go with a country.
  abbrev pub country_texts : Option String → Option String → Option String → Body Real J
  country_texts none operator network = []
  country_texts (some country) operator network =
      ("CountryCode", letters country)
      ∷ given_text "OperatorCode" operator (given_text "NetworkCode" network [])

  -- The loop of `Batch_Rename`, over arrays of one length.
  abbrev pub rename_rows : (List ℕ → String) → List ℤ → List (List ℕ) → Rows Real J
  rename_rows utf8 (id ∷ ids) (name ∷ names) =
      row (fields (("DeviceOrderID", number id) ∷ ("Name", letters (utf8 name)) ∷ []))
        (rename_rows utf8 ids names)
  rename_rows utf8 _ _ = no_rows

  -- `push_back` makes an array of `null`; without one it stays `null`.
  abbrev pub renames : Rows Real J → Value Real J
  renames no_rows = null
  renames rows = array rows
