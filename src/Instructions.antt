-- ===== src/Instructions.antt =====
-- common/eInstructions.cpp and common/eInstructions.h: the structs of the answers, and how they are
-- read from JSON and written to it. A struct is described by its members as the header declares
-- them, with the values they start with, and by the names that its `from_json` reads, in the order
-- of the code. What `OPTIONJSVALUE`, `TOJSVALUE` (base/jsonext.hpp) and the JSON library's
-- `get_to` do with them is computed from that; a throw leaves behind what was read before it. The JSON library is a
-- parameter, `JsonLib`; so is what an `int` holds that is never initialised.
pub mod Tables
pub mod Members
pub mod Elements
pub mod Explicit
pub mod Laws
pub mod Round
pub mod Structs
pub mod Docs
mod Tests
use Prim.Native.String.{String}
use text.Mathlib.Text.{◌==◌}
use vncc.Base.{ℕ, Bool, true, false, if◌then◌else◌, List, [], ◌∷◌, Option, none, some}

pub data ℤ : Type 0 where
  pos : ℕ → ℤ
  negsuc : ℕ → ℤ

-- The C++ types of the integer members.
pub data Width : Type 0 where
  int_type long_type long_long_type unsigned_type unsigned_long_long_type : Width

mutual
  -- The type of a member and the value it starts with.
  pub data Kind : Type 0 where
    integer : Width → Option ℤ → Kind
    boolean : Bool → Kind
    real : Kind
    string : Kind
    wstring : Kind
    pointer : Kind
    array : Kind → Kind
    struct : Fields → List String → Kind

  pub data Fields : Type 0 where
    nil : Fields
    field : String → Kind → Fields → Fields

-- A struct: the declared members, and the names that `from_json` reads.
pub record Struct : Type 0 where
  pub members : Fields
  pub reads : List String

abbrev pub declare : List (String × Kind) → Fields
declare [] = nil
declare ((name, k) ∷ rest) = field name k (declare rest)

-- Members that start with a number.
abbrev pub int : ℕ → Kind
int n = integer int_type (some (pos n))

abbrev pub long : ℕ → Kind
long n = integer long_type (some (pos n))

abbrev pub of_struct : Struct → Kind
of_struct s = struct s.members s.reads

unfoldable mutual
  -- The values of a type, with `Real` for a floating point number, code units for a wide text and an
  -- address for a pointer.
  pub Val : Type 0 → Kind → Type 0
  Val Real (integer w d) = ℤ
  Val Real (boolean d) = Bool
  Val Real real = Real
  Val Real string = String
  Val Real wstring = List ℕ
  Val Real pointer = Option ℕ
  Val Real (array k) = List (Val Real k)
  Val Real (struct fs reads) = Vals Real fs

  pub Vals : Type 0 → Fields → Type 0
  Vals Real nil = Unit {0}
  Vals Real (field name k fs) = Val Real k × Vals Real fs

-- What the structs use of the JSON library. A getter has `none` where `get_to` throws.
pub record JsonLib (Json Real : Type 0) : Type 0 where
  pub find : String → Json → Option Json
  pub is_null : Json → Bool
  pub get_integer : Width → Json → Option ℤ
  pub get_boolean : Json → Option Bool
  pub get_real : Json → Option Real
  pub get_text : Json → Option String
  pub elements : Json → Option (List Json)
  pub null : Json
  pub assign : String → Json → Json → Json
  pub of_integer : ℤ → Json
  pub of_boolean : Bool → Json
  pub of_real : Real → Json
  pub of_text : String → Json
  pub zero_real : Real

abbrev pub from_option {ℓ} : {A : Type ℓ} → A → Option A → A
from_option a none = a
from_option a (some b) = b

-- A read ends well, or with a throw; either way it leaves a value behind.
abbrev pub and_then {ℓ κ} :
    {A : Type ℓ} {B : Type κ} → Bool × A → (A → Bool × B) → (A → B) → Bool × B
and_then (true, a) f stop = f a
and_then (false, a) f stop = (false, stop a)

-- A getter that throws leaves the member as it was.
abbrev pub got {ℓ} : {A : Type ℓ} → A → Option A → Bool × A
got a none = (false, a)
got a (some b) = (true, b)

abbrev pub cons_if {ℓ} : {A : Type ℓ} → Bool × A → Option (List A) → Option (List A)
cons_if (true, y) (some ys) = some (y ∷ ys)
cons_if _ _ = none

-- The elements of an array, each read into a new value.
abbrev pub each {ℓ κ} : {A : Type ℓ} {B : Type κ} → (A → Bool × B) → List A → Option (List B)
each f [] = some []
each f (x ∷ xs) = cons_if (f x) (each f xs)

abbrev pub all_of {ℓ κ} :
    {A : Type ℓ} {B : Type κ} → (A → Bool × B) → Option (List A) → Option (List B)
all_of f none = none
all_of f (some xs) = each f xs

-- The statements of a `from_json` in turn, up to the first that throws.
abbrev pub in_turn {ℓ κ} : {A : Type ℓ} {S : Type κ} → (A → S → Bool × S) → List A → S → Bool × S
in_turn f [] s = (true, s)
in_turn f (a ∷ rest) s = and_then (f a s) (in_turn f rest) (λ t. t)

module _ {Json Real : Type 0} (lib : JsonLib Json Real) where
  -- The member that `OPTIONJSVALUE` finds: there and not null.
  abbrev pub non_null : Option Json → Option Json
  non_null none = none
  non_null (some v) = if lib.is_null v then none else some v

  abbrev pub present : Json → String → Option Json
  present j name = non_null (lib.find name j)

-- `OPTIONJSVALUE`: `get` is `get_to` into the member.
abbrev pub option_js {ℓ} :
    {Json : Type 0} {S : Type ℓ} → (Json → S → Bool × S) → Option Json → S → Bool × S
option_js get none s = (true, s)
option_js get (some v) s = get v s

module _ {Json Real : Type 0} (lib : JsonLib Json Real) (unset : ℤ) where
  unfoldable mutual
    unfolding Val

    pub default : (k : Kind) → Val Real k
    default (integer w d) = from_option unset d
    default (boolean d) = d
    default real = lib.zero_real
    default string = ""
    default wstring = []
    default pointer = none
    default (array k) = []
    default (struct fs reads) = defaults fs

    pub defaults : (fs : Fields) → Vals Real fs
    defaults nil = tt
    defaults (field name k fs) = (default k, defaults fs)

  unfoldable mutual
    unfolding Val

    -- `j.get_to(s)`. A struct is read by its `from_json` into what is there; an array replaces what is
    -- there if all its elements can be read. Wide texts and pointers are never read.
    pub get_to : (k : Kind) → Json → Val Real k → Bool × Val Real k
    get_to (integer w d) j s = got s (lib.get_integer w j)
    get_to (boolean d) j s = got s (lib.get_boolean j)
    get_to real j s = got s (lib.get_real j)
    get_to string j s = got s (lib.get_text j)
    get_to wstring j s = (false, s)
    get_to pointer j s = (false, s)
    get_to (array k) j s = got s (all_of (λ v. get_to k v (default k)) (lib.elements j))
    get_to (struct fs reads) j s =
        in_turn (λ name. option_js (get_member fs name) (present lib j name)) reads s

    -- `get_to(s.name)` on the member of that name; a name that is not declared does not compile.
    pub get_member : (fs : Fields) → String → Json → Vals Real fs → Bool × Vals Real fs
    get_member nil name j s = (false, s)
    get_member (field member k fs) name j (v, s) =
        let (ok, w) = get_to k j v in
        let (ok', t) = get_member fs name j s in
        if name == member then (ok, (w, s)) else (ok', (v, t))

  -- `from_json` of a struct.
  unfoldable pub from_json : (d : Struct) → Json → Vals Real d.members → Bool × Vals Real d.members
  unfolding Val
  from_json d j s = get_to (of_struct d) j s

module _ {Json Real : Type 0} (lib : JsonLib Json Real) where
  -- `TOJSVALUE`: `j[name] = s.name`. No `to_json` of the code writes an array, a struct, a wide text
  -- or a pointer.
  unfoldable pub write : (k : Kind) → Val Real k → Option Json
  unfolding Val
  write (integer w d) v = some (lib.of_integer v)
  write (boolean d) v = some (lib.of_boolean v)
  write real v = some (lib.of_real v)
  write string v = some (lib.of_text v)
  write _ v = none

  unfoldable pub write_member : (fs : Fields) → Vals Real fs → String → Option Json
  unfolding Val
  write_member nil s name = none
  write_member (field member k fs) (v, s) name =
      let there = write_member fs s name in if name == member then write k v else there

  abbrev pub assign_some : String → Option Json → Json → Json
  assign_some name none j = j
  assign_some name (some v) j = lib.assign name v j

  -- `to_json` with the names that it writes, in order.
  unfoldable pub to_json : (fs : Fields) → Vals Real fs → List String → Json → Json
  to_json fs s [] j = j
  to_json fs s (name ∷ names) j = to_json fs s names (assign_some name (write_member fs s name) j)
