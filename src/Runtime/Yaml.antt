-- ===== src/Runtime/Yaml.antt =====
-- What `yaml.safe_load` gives, as src/smoking_data/runtime/scheduler.py reads it, and its helpers
-- `_mapping`, `_required_string` and `_reject_unknown`. Keys are texts, and each stands once.
use smoking_data.Prelude.{
  ℕ, String, Bool, true, false, not, Option, none, some, List, [], ◌∷◌, ◌==◌, if◌then◌else◌, str_eq,
}
use smoking_data.Prelude.Names.{contains}
use smoking_data.Prelude.Result.{Result, ok, err}

-- A value that is neither of the named ones, such as a float or a date, has Python's truth value.
mutual
  pub data Yaml : Type 0 where
    null : Yaml
    boolean : Bool → Yaml
    natural : ℕ → Yaml
    other : (truth : Bool) → Yaml
    text : String → Yaml
    sequence : Values → Yaml
    mapping : Entries → Yaml

  pub data Values : Type 0 where
    end : Values
    value : Yaml → Values → Values

  pub data Entries : Type 0 where
    empty : Entries
    entry : String → Yaml → Entries → Entries

-- The codes of the errors, with the path or name that the context holds.
pub data LoadError : Type 0 where
  invalid_schema_version invalid_cron invalid_misfire_policy : LoadError
  invalid_type required_key invalid_timezone duplicate_target_alias : String → LoadError
  unknown_key : String → List String → LoadError
  unsupported_target_kind target_missing target_kind_mismatch : String → LoadError

-- `not value`
abbrev pub falsy : Yaml → Bool
falsy null = true
falsy (boolean b) = not b
falsy (natural n) = n == 0
falsy (other truth) = not truth
falsy (text s) = str_eq s ""
falsy (sequence end) = true
falsy (sequence (value v vs)) = false
falsy (mapping empty) = true
falsy (mapping (entry k v es)) = false

-- `mapping.get(key)`, with the key's absence told apart from a null.
unfoldable pub lookup : String → Entries → Option Yaml
lookup key empty = none
lookup key (entry k v es) = let later = lookup key es in if str_eq k key then some v else later

abbrev pub or_null : Option Yaml → Yaml
or_null none = null
or_null (some v) = v

abbrev pub get : String → Entries → Yaml
get key es = or_null (lookup key es)

abbrev pub as_mapping : Yaml → String → Result LoadError Entries
as_mapping (mapping es) path = ok es
as_mapping _ path = err (invalid_type path)

-- The keys that are not allowed.
unfoldable pub unknown_keys : List String → Entries → List String
unknown_keys allowed empty = []
unknown_keys allowed (entry k v es) =
    let rest = unknown_keys allowed es in if contains k allowed then rest else k ∷ rest

abbrev pub none_unknown : String → List String → Result LoadError (Unit {0})
none_unknown path [] = ok tt
none_unknown path (k ∷ ks) = err (unknown_key path (k ∷ ks))

unfoldable pub reject_unknown : Entries → List String → String → Result LoadError (Unit {0})
unfolding unknown_keys
reject_unknown es allowed path = none_unknown path (unknown_keys allowed es)

-- `str(value).strip()` is a parameter.
module _ (strip : Yaml → String) where
  -- `str(value or "").strip()`
  unfoldable pub required_string : Yaml → String → Result LoadError String
  required_string v path =
      let stripped = strip (if falsy v then text "" else v) in
      if str_eq stripped "" then err (required_key path) else ok stripped
