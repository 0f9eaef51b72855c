-- ===== src/Js/Json.antt =====
-- The values that `JSON.parse` makes, and how the source reads them. A number is a double, of
-- which only the operations that the source uses are known.
use quittance.Prelude.{String, Bool, true, false, not, Option, none, some, ◌==◌, if◌then◌else◌}
use quittance.Prelude.Result.{Result, ok, err, Thrown, error}

-- The doubles: `Number.isFinite(n)` and `String(n)`.
pub record Doubles : Type 1 where
  pub Double : Type 0
  pub is_finite : Double → Bool
  pub to_string : Double → String

mutual
  pub data Json (D : Type 0) : Type 0 where
    null : Json D
    bool : Bool → Json D
    num : D → Json D
    str : String → Json D
    arr : Items D → Json D
    obj : Fields D → Json D

  pub data Items (D : Type 0) : Type 0 where
    nil : Items D
    cons : Json D → Items D → Items D

  -- The properties of an object, each name once.
  pub data Fields (D : Type 0) : Type 0 where
    end : Fields D
    field : String → Json D → Fields D → Fields D

-- `undefined` for a property that is missing.
unfoldable pub get_field : {D : Type 0} → Fields D → String → Option (Json D)
get_field end k = none
get_field (field j v fs) k = if j == k then some v else get_field fs k

abbrev type_error : Thrown
type_error = error "TypeError"

-- `value.name`, of a name that only an object may have: it throws for `null`.
abbrev pub property : {D : Type 0} → Json D → String → Result (Option (Json D))
property null name = err type_error
property (obj fs) name = ok (get_field fs name)
property (bool b) name = ok none
property (num n) name = ok none
property (str s) name = ok none
property (arr xs) name = ok none

-- `value?.name`
abbrev pub property? : {D : Type 0} → Option (Json D) → String → Option (Json D)
property? (some (obj fs)) name = get_field fs name
property? (some null) name = none
property? (some (bool b)) name = none
property? (some (num n)) name = none
property? (some (str s)) name = none
property? (some (arr xs)) name = none
property? none name = none

-- `value ?? null`
abbrev pub or_null : {D : Type 0} → Option (Json D) → Json D
or_null none = null
or_null (some v) = v

-- `value === "text"`
abbrev pub is_text : {D : Type 0} → Json D → String → Bool
is_text (str s) t = s == t
is_text null t = false
is_text (bool b) t = false
is_text (num n) t = false
is_text (arr xs) t = false
is_text (obj fs) t = false

-- `Boolean(value)`; which doubles are false is given.
abbrev pub is_truthy : {D : Type 0} → (D → Bool) → Option (Json D) → Bool
is_truthy is_falsy none = false
is_truthy is_falsy (some null) = false
is_truthy is_falsy (some (bool b)) = b
is_truthy is_falsy (some (num n)) = not (is_falsy n)
is_truthy is_falsy (some (str s)) = not (s == "")
is_truthy is_falsy (some (arr xs)) = true
is_truthy is_falsy (some (obj fs)) = true
