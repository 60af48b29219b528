-- ===== src/Web/Access/Admission.antt =====
-- Which requests `guard` of src/web.rs lets through, and what they get.
use alt_keeper.Web.Access.Local.{IsLocalHost, host_is_local_iff}
use alt_keeper.Web.Access.Headers.{IsProtectedAnswer, protect-IsProtectedAnswer}
use mathlib.Core.Option.{some-injective}
use alt_keeper.Base.{
  ◌≡◌, refl, ap, not, ◌&&◌, Option, ◌⊎◌, none, some, ◌↔◌, inr, true, inl, arith, Bool-cases, sym,
}
use alt_keeper.Web.Access.{
  Response, guard, check_access, Request, is_from_page, host_is_local, protect, forbidden,
  basic_password_ok, unauthorized,
}
use alt_keeper.Base.Text.{Str, codes, str_eq_iff}
use alt_keeper.Base.Bytes.{Bytes}
use mathlib.Core.Path.{subst}

-- With no PIN the request names this computer as its host; with a PIN it carries it, as
-- Web.Access.Password describes.
abbrev pub IsKnown : Option Str → Request → Type 0
IsKnown none req = (host : Str) × (req.host ≡ some host) × IsLocalHost host
IsKnown (some pin) req = basic_password_ok req.authorization pin ≡ true

-- Besides, an action comes from the page itself.
abbrev pub IsAdmitted : Option Str → Request → Type 0
IsAdmitted pin req =
    IsKnown pin req × (req.is_post ≡ true → req.requested_with ≡ some (codes "altkeeper"))

is_from_page_iff : (o : Option Bytes) → (is_from_page o ≡ true) ↔ (o ≡ some (codes "altkeeper"))
is_from_page_iff none = (λ h. cc, λ h. cc)
is_from_page_iff (some v) =
    let e = str_eq_iff v (codes "altkeeper") in
    (λ h. ap some (e.0 h), λ h. e.1 (some-injective v (codes "altkeeper") h))

known_passes : (pin : Option Str) (req : Request) → IsKnown pin req → check_access pin req ≡ none
unfolding check_access
known_passes none req h = rw ((host_is_local_iff req.host).1 h) refl
known_passes (some pin) req h = rw h refl

-- A refusal is 401 or 403.
abbrev pub IsRefusal : Response → Type 0
IsRefusal res = (res.status ≡ 401) ⊎ (res.status ≡ 403)

passes-IsKnown :
    (pin : Option Str) (req : Request)
    → IsKnown pin req ⊎ ((r : Response) × (check_access pin req ≡ some r) × IsRefusal r)
unfolding check_access
passes-IsKnown none req = elim (Bool-cases (host_is_local req.host)) [
  | inl h ↦ inl ((host_is_local_iff req.host).0 h)
  | inr h ↦ inr (forbidden (codes "host non ammesso"), rw h refl, inr refl)
]
passes-IsKnown (some pin) req = elim (Bool-cases (basic_password_ok req.authorization pin)) [
  | inl h ↦ inl h
  | inr h ↦ inr (unauthorized, rw h refl, inl refl)
]

-- A request that is admitted gets the handler's answer with the protective headers.
guard_admitted :
    (pin : Option Str) (req : Request) (next : Request → Response)
    → IsAdmitted pin req
    → guard pin req next ≡ protect (next req)
unfolding guard
guard_admitted pin req next (known, from_page) =
    rw (known_passes pin req known, guard)
      (elim (Bool-cases req.is_post) [
        | inl post ↦ rw (post, (is_from_page_iff req.requested_with).1 (from_page post)) refl
        | inr get ↦ rw get refl
      ])

-- One that is not gets a refusal that does not depend on the handler.
guard_refused :
    (pin : Option Str) (req : Request)
    → ¬ IsAdmitted pin req
    → (r : Response) × IsRefusal r × ((next : Request → Response) → guard pin req next ≡ r)
unfolding guard
guard_refused pin req h = elim (passes-IsKnown pin req) [
  | inr (r, refused, status) ↦ (r, status, λ next. rw (refused, guard) refl)
  | inl known ↦ elim (Bool-cases (req.is_post && not (is_from_page req.requested_with))) [
    | inl foreign ↦ (
      forbidden (codes "richiesta non valida"),
      inr refl,
      λ next. rw (known_passes pin req known, guard) (rw foreign refl),
    )
    | inr fine ↦ absurd (h (known, λ post. (is_from_page_iff req.requested_with).0 (ground arith)))
  ]
]

-- `guard` runs the handler for the admitted requests and for no others. An admitted request gets the
-- handler's answer with the protective headers, which stop caches, frames, guesses at the type of a page
-- and scripts or forms from elsewhere, and with all its other headers; any other gets the same refusal,
-- 401 or 403, whatever the handler is.
pub guard_admits :
    (pin : Option Str) (req : Request)
    → (IsAdmitted pin req
        → (next : Request → Response) → IsProtectedAnswer (next req) (guard pin req next))
      × (¬ IsAdmitted pin req
          → (r : Response) × IsRefusal r × ((next : Request → Response) → guard pin req next ≡ r))
guard_admits pin req = (
  λ h next.
      subst (IsProtectedAnswer (next req)) (sym (guard_admitted pin req next h))
        (protect-IsProtectedAnswer (next req)),
  guard_refused pin req,
)
