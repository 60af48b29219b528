-- ===== src/Web/Access.antt =====
-- Protection in src/web.rs: who may reach the pages and the actions. A request is what the code
-- reads of it; a header's text is there where `HeaderMap::get` finds it and `to_str` accepts it.
pub mod Password
pub mod Admission
pub mod Headers
pub mod Local
use alt_keeper.Base.Text.{Str, codes, str_eq, strip_prefix, split}
use alt_keeper.Base.{
  List, ℕ, ◌||◌, if◌then◌else◌, false, [], Bool, ◌==◌, some, ◌∷◌, ◌&&◌, not, Option, none, leb, ltb,
}
use alt_keeper.Base.Bytes.{Bytes}
use alt_keeper.Web.Compare.{ct_eq}
use alt_keeper.Web.Base64.{b64_decode}
use alt_keeper.Base.Utf8.{count_chars, is_utf8}
use alt_keeper.Base.Trim.{trim}

pub record Request : Type 0 where
  pub host : Option Str
  pub authorization : Option Str
  -- The raw bytes of `x-requested-with`.
  pub requested_with : Option Bytes
  pub is_post : Bool

pub record Response : Type 0 where
  pub status : ℕ
  pub headers : List (Str × Str)
  pub body : Str

-- `split(d).next().unwrap_or("")`
abbrev pub first_or_empty : List Str → Str
first_or_empty [] = []
first_or_empty (p ∷ ps) = p

unfoldable pub host_is_local : Option Str → Bool
host_is_local none = false
host_is_local (some host) =
    let name : Str = elim (strip_prefix (b'[' ∷ []) host) [
      | some rest ↦ first_or_empty (split b']' rest)
      | none ↦ first_or_empty (split b':' host)
    ] in
    str_eq name (codes "localhost")
    || (str_eq name (codes "127.0.0.1") || str_eq name (codes "::1"))

-- `split_once(':').map(|(_, p)| p).unwrap_or(&text)`, from what was passed over so far.
unfoldable pub after_first : ℕ → Str → Option Str
after_first d [] = none
after_first d (c ∷ s) = let rest = after_first d s in if c == d then some s else rest

unfoldable pub password_of : Str → Str
unfolding after_first
password_of text = elim (after_first b':' text) [ none ↦ text | some p ↦ p ]

-- The text that the header carries: `none` at each early `return false`.
unfoldable pub credentials : Option Str → Option Str
credentials none = none
credentials (some header) = elim (strip_prefix (codes "Basic ") header) [
  | none ↦ none
  | some encoded ↦ elim (b64_decode (trim encoded)) [
    | none ↦ none
    | some raw ↦ if is_utf8 raw then some raw else none
  ]
]

unfoldable pub basic_password_ok : Option Str → Str → Bool
unfolding credentials password_of
basic_password_ok authorization pin = elim (credentials authorization) [
  | none ↦ false
  | some text ↦ ct_eq (password_of text) pin
]

-- `HeaderMap::insert`: the new value takes the place of those that the name had.
unfoldable pub insert : Str → Str → List (Str × Str) → List (Str × Str)
insert k v [] = (k, v) ∷ []
insert k v ((j, w) ∷ hs) = let rest = insert k v hs in if str_eq j k then rest else (j, w) ∷ rest

-- The headers that every page gets.
abbrev pub protections : List (Str × Str)
protections =
    (codes "cache-control", codes "no-store")
    ∷ (codes "x-content-type-options", codes "nosniff")
    ∷ (codes "x-frame-options", codes "DENY")
    ∷ (codes "referrer-policy", codes "no-referrer")
    ∷ (
      codes "content-security-policy",
      codes
          "default-src 'none'; connect-src 'self'; style-src 'unsafe-inline'; script-src 'unsafe-inline'; base-uri 'none'; form-action 'none'",
    )
    ∷ []

unfoldable pub insert_all : List (Str × Str) → List (Str × Str) → List (Str × Str)
unfolding insert
insert_all [] hs = hs
insert_all ((k, v) ∷ more) hs = insert_all more (insert k v hs)

unfoldable pub protect : Response → Response
unfolding insert_all
protect res = record res { headers = insert_all protections res.headers }

abbrev pub forbidden : Str → Response
forbidden why = record { status = 403; headers = []; body = why }

-- The answer to a wrong PIN, after a wait of one second.
abbrev pub unauthorized : Response
unauthorized = record {
  status = 401;
  headers = insert (codes "www-authenticate") (codes "Basic realm=\"altkeeper\"") [];
  body = codes "serve il PIN";
}

-- `req.headers().get("x-requested-with") != Some(b"altkeeper")`, denied.
abbrev pub is_from_page : Option Bytes → Bool
is_from_page none = false
is_from_page (some v) = str_eq v (codes "altkeeper")

-- The first two tests of `guard`; `none` where they let the request through.
unfoldable pub check_access : Option Str → Request → Option Response
check_access none req =
    if host_is_local req.host then none else some (forbidden (codes "host non ammesso"))
check_access (some pin) req =
    if basic_password_ok req.authorization pin then none else some unauthorized

-- `guard`; `next` is the handler of the route.
unfoldable pub guard : Option Str → Request → (Request → Response) → Response
unfolding check_access protect
guard pin req next = elim (check_access pin req) [
  | some refusal ↦ refusal
  | none ↦
      if req.is_post && not (is_from_page req.requested_with)
      then forbidden (codes "richiesta non valida")
      else protect (next req)
]

pub data OptionsError : Type 0 where
  pin_needed pin_short : OptionsError

-- `check_options`, from whether the address is a loopback one; `none` is `Ok(())`.
unfoldable pub check_options : Bool → Option Str → Option OptionsError
check_options loopback none = if not loopback then some pin_needed else none
check_options loopback (some pin) = if ltb (count_chars pin) 4 then some pin_short else none
