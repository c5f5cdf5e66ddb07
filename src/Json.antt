-- ===== src/Json.antt =====
-- JSON values as the handlers see them after `json.loads`: payloads, results and API bodies.
-- Numbers with a fraction are not used by the code that is modelled.
use bifrost_platform_plugin.Prelude.{
  zero, suc, String, Bool, true, false, str_eq, if◌then◌else◌, not,
}
use bifrost_platform_plugin.Prelude.Int.{ℤ, pos, negsuc}

mutual
  pub data Json : Type 0 where
    null : Json
    bool : Bool → Json
    num : ℤ → Json
    str : String → Json
    arr : Items → Json
    obj : Fields → Json

  pub data Items : Type 0 where
    nil : Items
    cons : Json → Items → Items

  pub data Fields : Type 0 where
    end : Fields
    field : String → Json → Fields → Fields

abbrev pub empty_object : Json
empty_object = obj end

-- `d.get(key)`: None where the key is missing.
unfoldable pub get : String → Fields → Json
get key end = null
get key (field k v rest) = if str_eq k key then v else get key rest

-- Python's truth of a value.
abbrev pub truthy : Json → Bool
truthy null = false
truthy (bool b) = b
truthy (num (pos n)) = elim n [ zero ↦ false | suc k ↦ true ]
truthy (num (negsuc n)) = true
truthy (str s) = not (str_eq s "")
truthy (arr nil) = false
truthy (arr (cons x xs)) = true
truthy (obj end) = false
truthy (obj (field k v rest)) = true
