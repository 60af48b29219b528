-- ===== src/Web/Access/Password.antt =====
-- HTTP Basic in src/web.rs: which password opens the page.
use alt_keeper.Base.{
  arith, ◌↔◌, [], refl, inr, ◌≢◌, ◌∷◌, Option, inl, some, ℕ, ◌++◌, ◌≡◌, true, All, Option-cases,
}
use alt_keeper.Web.Access.{credentials, basic_password_ok, after_first, password_of}
use alt_keeper.Base.Text.{Str, codes, strip_prefix-append}
use alt_keeper.Web.Base64.RoundTrip.{encode, encode-IsGraphic, b64_decode-encode}
use alt_keeper.Base.Bytes.{IsByte}
use alt_keeper.Base.Utf8.{is_utf8}
use alt_keeper.Web.Compare.{ct_eq_iff}
use alt_keeper.Base.Trim.{trim_graphic}

after_first-append :
    (d : ℕ) (user rest : Str) → All (λ c. c ≢ d) user → after_first d (user ++ d ∷ rest) ≡ some rest
unfolding after_first
after_first-append d [] rest h = ground arith
after_first-append d (c ∷ user) rest (hc, hs) = ground (arith, after_first-append d user rest hs)

-- What a browser sends for a user and a password.
abbrev pub basic_header : Str → Str → Str
basic_header user password = codes "Basic " ++ encode (user ++ b':' ∷ password)

pub credentials-encode :
    (text : Str)
    → All IsByte text
    → is_utf8 text ≡ true
    → credentials (some (codes "Basic " ++ encode text)) ≡ some text
unfolding credentials
credentials-encode text h valid =
    rw (strip_prefix-append (codes "Basic ") (encode text), credentials)
      (rw
        (
          trim_graphic (encode text) (encode-IsGraphic text h),
          b64_decode-encode text h,
          credentials,
        )
        (rw valid refl))

-- A browser's credentials are accepted exactly where the password is the PIN, whatever the user
-- name, if that holds no colon and both are well-formed text.
pub basic_password_ok_iff :
    (user password pin : Str)
    → All (λ c. c ≢ b':') user
    → All IsByte (user ++ b':' ∷ password)
    → is_utf8 (user ++ b':' ∷ password) ≡ true
    → (basic_password_ok (some (basic_header user password)) pin ≡ true) ↔ (password ≡ pin)
unfolding basic_password_ok password_of
basic_password_ok_iff user password pin h bytes valid =
    rw (credentials-encode (user ++ b':' ∷ password) bytes valid, basic_password_ok)
      (rw (after_first-append b':' user password h, password_of) (ct_eq_iff password pin))

-- Only a header that carries the PIN is accepted: as all of its text, or behind its first colon.
pub basic_password_ok_sound :
    (header : Option Str) (pin : Str)
    → basic_password_ok header pin ≡ true
    → (text : Str) × (credentials header ≡ some text) × (password_of text ≡ pin)
unfolding basic_password_ok
basic_password_ok_sound header pin h = elim (Option-cases (credentials header)) [
  | inl e ↦ cc (rw (e, basic_password_ok) at h)
  | inr (text, e) ↦ (text, e, (ct_eq_iff (password_of text) pin).0 (rw (e, basic_password_ok) at h))
]
