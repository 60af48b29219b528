-- ===== src/Altserver/Services.antt =====
-- What src/altserver.rs asks of other code: JSON values, the phone, the client's socket and the
-- generator of anisette data. Each call that acts on something outside takes the world to the next.
use alt_keeper.Profile.Parse.{Plist}
use alt_keeper.Base.Text.{Str}
use alt_keeper.Base.Bytes.{Bytes}
use alt_keeper.Base.{Bool, List, ℕ, Option}

-- The replies of the program, each built with `json!`.
pub data Reply (Value : Type 0) : Type 0 where
  simple : Str → Reply Value
  -- In hundredths.
  progress : ℕ → Reply Value
  error : ℕ → Reply Value
  anisette_response : Value → Reply Value

-- `serde_json`: a value read and written, and what stands under a key: a string, a number from 0 on,
-- and an array, with the string that each element may be.
pub record Json (Value : Type 0) : Type 0 where
  pub from_slice : Bytes → Option Value
  pub to_vec : Reply Value → Bytes
  pub null : Value
  pub str_at : Value → Str → Option Str
  pub u64_at : Value → Str → Option ℕ
  pub array_at : Value → Str → Option (List (Option Str))

-- `install_bytes` calls back with the percentage that is done.
pub record Services (Value World Link Dict : Type 0) : Type 0 where
  pub json : Json Value
  pub plist : Plist Dict
  -- `str::to_lowercase`, by the tables of Unicode.
  pub to_lowercase : Str → Str
  pub write_all : Bytes → World → Bool × World
  pub connect_auto : World → Option Link × World
  pub install : Link → Bytes → World → Bool × World
  pub copy_all : Link → World → Option (List Bytes) × World
  pub remove : Link → Str → World → Bool × World
  pub uninstall : Link → Str → World → Bool × World
  pub install_bytes : (ℕ → World → World) → Link → Bytes → World → Bool × World
  pub anisette_for_altstore : World → Option Value × World
  -- Seconds of a clock that does not go back.
  pub now : World → ℕ
