-- ===== src/Config.antt =====
-- config/service.py: configuration items by key, and the ways in which the services read them.
use broker_bridge.Base.{
  ℕ, ◌+◌, String, Bool, true, false, not, Option, none, some, List, [], ◌∷◌, ◌++◌, text_eq, ◌==◌,
  if◌then◌else◌, is_text, first_row, update_rows, ℤ, Real, nat, is_zero, pos,
}
use broker_bridge.Models.{Scalar, ConfigurationItem}
use broker_bridge.World.{
  Result, app, not_found, exception, ok, raised, Db, Action, or_raise, ◌>>◌, update_db, commit,
}

abbrev pub Value : Type 0 → Type 0
Value F = List (String × Scalar F)

module _ {F : Type 0} where
  -- `value.get(key)`
  abbrev pub value_get : String → Value F → Option (Scalar F)
  value_get k [] = none
  value_get k ((j, x) ∷ v) = if text_eq j k then some x else value_get k v

  abbrev pub find_item : String → Db F → Option (ConfigurationItem F)
  find_item key db = first_row (λ item. text_eq item.key key) db.config

  -- `ConfigService.get`
  pub get : String → Action F (ConfigurationItem F)
  get key w = or_raise (find_item key w.db) (app not_found 404) w

  -- `ConfigService.get_value`: a missing item gives the default, an empty one an empty dict.
  unfoldable pub get_value : String → Value F → Db F → Value F
  get_value key default db = elim (find_item key db) [ none ↦ default | some item ↦ item.value ]

  -- `ConfigService.put`: a new item has version 1, an old one counts up; version 0 counts as 1.
  pub put : String → Value F → Action F (Unit {0})
  put key value w = elim (find_item key w.db) [
    | none ↦
        (do
          update_db (λ db. record db {
            config = db.config ++ record { key = key; value = value; version = 1 } ∷ [];
          })
          commit)
          w
    | some item ↦
        (do
          update_db (λ db. record db {
            config =
                update_rows (λ row. text_eq row.key key)
                  (λ row. record row { value = value; version = next_version row.version })
                  db.config;
          })
          commit)
          w
  ]
    where
      next_version : ℕ → ℕ
      next_version v = (if v == 0 then 1 else v) + 1

module _ {F : Type 0} ⦃r : Real F⦄ where
  -- `str(x)`
  abbrev pub as_text : Scalar F → String
  as_text (Scalar.text s) = s
  as_text (Scalar.number x) = r.text_of x
  as_text (Scalar.flag true) = "True"
  as_text (Scalar.flag false) = "False"

  -- `bool(x)`
  abbrev pub as_flag : Scalar F → Bool
  as_flag (Scalar.text s) = is_text s
  as_flag (Scalar.number x) = not (is_zero x)
  as_flag (Scalar.flag b) = b

  -- `float(x)`
  abbrev pub as_float : Scalar F → Option F
  as_float (Scalar.text s) = r.of_text s
  as_float (Scalar.number x) = some x
  as_float (Scalar.flag true) = some (nat 1)
  as_float (Scalar.flag false) = some (nat 0)

  -- `int(x)`
  abbrev pub as_int : Scalar F → Option ℤ
  as_int (Scalar.text s) = r.int_of_text s
  as_int (Scalar.number x) = some (r.to_int x)
  as_int (Scalar.flag true) = some (pos 1)
  as_int (Scalar.flag false) = some (pos 0)

  -- `str(value.get(key, default))`
  abbrev pub text_or : Value F → String → String → String
  text_or v key default = elim (value_get key v) [ none ↦ default | some x ↦ as_text x ]

  -- `bool(value.get(key, default))`
  abbrev pub flag_or : Value F → String → Bool → Bool
  flag_or v key default = elim (value_get key v) [ none ↦ default | some x ↦ as_flag x ]

  -- `float(value.get(key, default))`
  abbrev pub float_or : Value F → String → F → Result F
  float_or v key default = elim (value_get key v) [
    | none ↦ ok default
    | some x ↦ elim (as_float x) [ none ↦ raised (exception "ValueError") | some y ↦ ok y ]
  ]
