-- ===== src/Store/Entry.antt =====
-- Stored values (internal/store/store.go) and the errors of the store (internal/store/helpers.go).
use voltkv.Base.{Bool, true, false, ◌&&◌, not, List, [], if◌then◌else◌, Bytes, codes}
use voltkv.Base.Dict.{Dict}
use voltkv.Store.Time.{Time, Duration, zero_time, is_zero, after, add, is_positive}

pub data Kind : Type 0 where
  kind_none kind_string kind_hash kind_list : Kind

abbrev pub kind_eq : Kind → Kind → Bool
kind_eq kind_none kind_none = true
kind_eq kind_string kind_string = true
kind_eq kind_hash kind_hash = true
kind_eq kind_list kind_list = true
kind_eq _ _ = false

unfoldable pub kind_name : Kind → Bytes
kind_name kind_none = codes "none"
kind_name kind_string = codes "string"
kind_name kind_hash = codes "hash"
kind_name kind_list = codes "list"

pub record Entry : Type 0 where
  pub kind : Kind
  pub str : Bytes
  pub hash : Dict Bytes
  pub list : List Bytes
  pub expires_at : Time

-- `entry{kind: k}`.
abbrev pub empty_entry : Kind → Entry
empty_entry k = record { kind = k; str = []; hash = []; list = []; expires_at = zero_time }

unfoldable pub expired : Entry → Time → Bool
expired e now = not (is_zero e.expires_at) && after now e.expires_at

pub data StoreError : Type 0 where
  wrong_type not_integer overflow : StoreError

unfoldable pub error_text : StoreError → Bytes
error_text wrong_type = codes "WRONGTYPE Operation against a key holding the wrong kind of value"
error_text not_integer = codes "ERR value is not an integer or out of range"
error_text overflow = codes "ERR increment or decrement would overflow"

-- A value and an `error`, of which one is meaningful.
pub data Result {ℓ} (A : Type ℓ) : Type ℓ where
  ok : A → Result A
  err : StoreError → Result A

-- The string entry that SET and its variants build at `now`.
unfoldable pub string_entry : Bytes → Duration → Time → Entry
string_entry value ttl now = record {
  kind = kind_string;
  str = value;
  hash = [];
  list = [];
  expires_at = if is_positive ttl then add now ttl else zero_time;
}
