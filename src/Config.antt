-- ===== src/Config.antt =====
-- py/akari/remote_proxy/config.py, py/akari/web_proxy/config.py and py/local_proxy/config.py: the
-- settings that a parsed TOML document gives. Floating-point numbers are an argument. The messages of
-- the language's own exceptions are not modelled, nor are documents in which a section is no table.
pub mod Remote
pub mod Web
pub mod Local
pub mod Valid
use akari_proxy.Prelude.{
  zero, suc, ◌+◌, ◌-◌, Bool, true, false, not, ◌&&◌, ◌||◌, Option, none, some, [], ◌∷◌, ◌++◌, leb,
  ◌==◌, if◌then◌else◌, within, is_empty, Text, Bytes, nat_eq, text_key,
}
use akari_proxy.Prelude.Dict.{Dict, get}
use akari_proxy.Prelude.Decimal.{ℤ, pos, negsuc, parse_int}
use akari_proxy.Prelude.Str.{codes, strip}
use akari_proxy.Exceptions.{Result, ok, raise, ◌>>=◌, value_error, type_error, config_error}
use akari_proxy.Utf8
use akari_proxy.Url.Percent.{hex_value, hex_pair}

-- What the loaders use of the numbers of the language.
pub record Floats : Type 1 where
  pub Float : Type 0
  -- `float(n)`, which raises OverflowError
  pub of_int : ℤ → Result Float
  -- `float(s)`; `none` is a ValueError
  pub of_text : Text → Option Float
  -- `int(x)`, which raises ValueError or OverflowError
  pub truncated : Float → Result ℤ
  -- `x <= 0`
  pub at_most_zero : Float → Bool
  -- `x == 0`
  pub is_zero : Float → Bool
  -- 0.0, 0.5 and 1.0
  pub nought : Float
  pub half : Float
  pub one : Float

-- A value of a TOML document; `other` is an array or a table, with its truth value.
pub data Toml (Float : Type 0) : Type 0 where
  string : Text → Toml Float
  integer : ℤ → Toml Float
  floating : Float → Toml Float
  boolean : Bool → Toml Float
  -- a date or a time
  date : Toml Float
  other : Bool → Toml Float

module _ {ℓ} {A : Type ℓ} where
  abbrev pub or_value_error : Option A → Result A
  or_value_error none = raise (value_error [])
  or_value_error (some a) = ok a

  -- `except (TypeError, ValueError) as exc: raise ConfigError(message) from exc`
  abbrev pub or_config_error : Text → Result A → Result A
  or_config_error message (raise (type_error m)) = raise (config_error message)
  or_config_error message (raise (value_error m)) = raise (config_error message)
  or_config_error message (raise e) = raise e
  or_config_error message (ok a) = ok a

  -- The default of a key that is missing, if there is one.
  abbrev pub or_required : Text → Option A → Result A
  or_required key none = raise (config_error (key ++ codes " is required"))
  or_required key (some default) = ok default

-- `bytes.fromhex(s)`: two digits a byte, with white space between bytes.
unfoldable pub from_hex : Text → Option Bytes
from_hex [] = some []
from_hex (c ∷ []) = if c == 32 || within 9 13 c then some [] else none
from_hex (c ∷ d ∷ s) =
    let skipped = from_hex (d ∷ s) in
    let rest = from_hex s in
    if c == 32 || within 9 13 c then skipped else elim (hex_pair (hex_value c) (hex_value d)) [
      | none ↦ none
      | some b ↦ elim rest [ none ↦ none | some bs ↦ some (b ∷ bs) ]
    ]

module _ (floats : Floats) where
  abbrev pub Table : Type 0
  Table = Dict Text (Toml floats.Float)

  -- `int(value)`
  unfoldable pub to_int : Toml floats.Float → Result ℤ
  to_int (string s) = or_value_error (parse_int s)
  to_int (integer n) = ok n
  to_int (floating x) = floats.truncated x
  to_int (boolean true) = ok (pos 1)
  to_int (boolean false) = ok (pos 0)
  to_int date = raise (type_error [])
  to_int (other truth) = raise (type_error [])

  -- `float(value)`
  unfoldable pub to_float : Toml floats.Float → Result floats.Float
  to_float (string s) = or_value_error (floats.of_text s)
  to_float (integer n) = floats.of_int n
  to_float (floating x) = ok x
  to_float (boolean true) = ok floats.one
  to_float (boolean false) = ok floats.nought
  to_float date = raise (type_error [])
  to_float (other truth) = raise (type_error [])

  -- `int(data.get(key, default))`, without a check
  unfoldable pub int_or : Table → Text → ℤ → Result ℤ
  unfolding to_int
  int_or table key default = elim (get table key) [ none ↦ ok default | some v ↦ to_int v ]

  unfoldable pub float_or : Table → Text → floats.Float → Result floats.Float
  unfolding to_float
  float_or table key default = elim (get table key) [ none ↦ ok default | some v ↦ to_float v ]

  abbrev pub stripped : Text → Toml floats.Float → Result Text
  stripped key (string s) =
      if is_empty (strip s)
      then raise (config_error (key ++ codes " must be a non-empty string"))
      else ok (strip s)
  stripped key v = raise (config_error (key ++ codes " must be a non-empty string"))

  unfoldable pub require_str : Table → Text → Option Text → Result Text
  require_str table key default = elim (get table key) [
    | none ↦ or_required key default
    | some v ↦ stripped key v
  ]

  abbrev pub in_range : Text → ℤ → Result ℤ
  in_range key (pos n) =
      if leb 1 n && leb n 65535
      then ok (pos n)
      else raise (config_error (key ++ codes " must be between 1 and 65535"))
  in_range key (negsuc n) = raise (config_error (key ++ codes " must be between 1 and 65535"))

  unfoldable pub require_port : Table → Text → Option ℤ → Result ℤ
  unfolding to_int
  require_port table key default = elim (get table key) [
    | none ↦ or_required key default
    | some v ↦ or_config_error (key ++ codes " must be an integer") (to_int v) >>= in_range key
  ]

  abbrev pub above_zero : Text → ℤ → Result ℤ
  above_zero key (pos (suc n)) = ok (pos (suc n))
  above_zero key n = raise (config_error (key ++ codes " must be a positive integer"))

  unfoldable pub require_int : Table → Text → Option ℤ → Result ℤ
  unfolding to_int
  require_int table key default = elim (get table key) [
    | none ↦ or_required key default
    | some v ↦ or_config_error (key ++ codes " must be an integer") (to_int v) >>= above_zero key
  ]

  abbrev pub a_bool : Text → Toml floats.Float → Result Bool
  a_bool message (boolean b) = ok b
  a_bool message v = raise (config_error message)

  unfoldable pub require_bool : Table → Text → Bool → Result Bool
  require_bool table key default = elim (get table key) [
    | none ↦ ok default
    | some v ↦ a_bool (key ++ codes " must be a boolean") v
  ]

  abbrev pub some_above_nought : Text → floats.Float → Result (Option floats.Float)
  some_above_nought key value =
      if floats.at_most_zero value
      then raise (config_error (key ++ codes " must be greater than 0"))
      else ok (some value)

  unfoldable pub optional_float : Table → Text → Result (Option floats.Float)
  unfolding to_float
  optional_float table key = elim (get table key) [
    | none ↦ ok none
    | some v ↦
        or_config_error (key ++ codes " must be a number") (to_float v) >>= some_above_nought key
  ]

  unfoldable pub require_float : Table → Text → Option floats.Float → Result floats.Float
  unfolding to_float
  require_float table key default = elim (get table key) [
    | none ↦ or_required key default
    | some v ↦ or_config_error (key ++ codes " must be a number") (to_float v)
  ]

  -- `bool(data.get(key, False))`: not 0, and not empty
  abbrev pub truth : Toml floats.Float → Bool
  truth (string s) = not (is_empty s)
  truth (integer (pos zero)) = false
  truth (integer n) = true
  truth (floating x) = not (floats.is_zero x)
  truth (boolean b) = b
  truth date = true
  truth (other b) = b
