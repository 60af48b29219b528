-- ===== src/Web/Access/Headers.antt =====
-- The protective headers that `protect` of src/web.rs puts into an answer.
use alt_keeper.Base.{
  ◌≡◌, Option, drop, if◌then◌else◌, [], false, inl, inr, refl, some, ◌∷◌, ◌∙◌, List, ap, none,
  Bool-cases, All, take,
}
use alt_keeper.Base.Text.{Str, codes, str_eq, str_eq_refl, str_eq_iff}
use alt_keeper.Web.Access.{Response, insert, insert_all, protect, protections}

-- The value that a header has.
abbrev pub header_of : Str → List (Str × Str) → Option Str
header_of k [] = none
header_of k ((j, v) ∷ hs) = let rest = header_of k hs in if str_eq j k then some v else rest

header_of-insert : (k v : Str) (hs : List (Str × Str)) → header_of k (insert k v hs) ≡ some v
unfolding insert
header_of-insert k v [] = rw (str_eq_refl k) refl
header_of-insert k v ((j, w) ∷ hs) = elim (Bool-cases (str_eq j k)) [
  | inl same ↦ rw (same, insert) (header_of-insert k v hs)
  | inr other ↦ rw (other, insert) (rw other (header_of-insert k v hs))
]

header_of-insert_other :
    (k l v : Str) (hs : List (Str × Str))
    → str_eq k l ≡ false
    → header_of l (insert k v hs) ≡ header_of l hs
unfolding insert
header_of-insert_other k l v [] h = rw h refl
header_of-insert_other k l v ((j, w) ∷ hs) h = elim (Bool-cases (str_eq j k)) [
  | inl same ↦
      let passed_over : str_eq j l ≡ false = rw ((str_eq_iff j k).0 same) h in
      rw (same, insert) (rw passed_over (header_of-insert_other k l v hs h))
  | inr other ↦
      rw (other, insert)
        (ap (λ rest. if str_eq j l then some w else rest) (header_of-insert_other k l v hs h))
]

-- The names of the protective headers.
abbrev pub protected_names : List Str
protected_names =
    codes "cache-control"
    ∷ codes "x-content-type-options"
    ∷ codes "x-frame-options"
    ∷ codes "referrer-policy"
    ∷ codes "content-security-policy"
    ∷ []

-- The answer of a handler, with the protective headers in place of its own and all its other headers.
pub record IsProtectedAnswer (made given : Response) : Type 0 where
  pub same_status : given.status ≡ made.status
  pub same_body : given.body ≡ made.body
  pub no_cache : header_of (codes "cache-control") given.headers ≡ some (codes "no-store")
  pub no_sniffing :
      header_of (codes "x-content-type-options") given.headers ≡ some (codes "nosniff")
  pub no_frames : header_of (codes "x-frame-options") given.headers ≡ some (codes "DENY")
  pub no_referrer : header_of (codes "referrer-policy") given.headers ≡ some (codes "no-referrer")
  pub own_content :
      header_of (codes "content-security-policy") given.headers
      ≡ some (
          codes
            "default-src 'none'; connect-src 'self'; style-src 'unsafe-inline'; script-src 'unsafe-inline'; base-uri 'none'; form-action 'none'")
  pub others_kept :
      (k : Str)
      → All (λ n. str_eq n k ≡ false) protected_names
      → header_of k given.headers ≡ header_of k made.headers

insert_all-kept :
    (more : List (Str × Str)) (k : Str) (hs : List (Str × Str))
    → All (λ (h : Str × Str). str_eq h.0 k ≡ false) more
    → header_of k (insert_all more hs) ≡ header_of k hs
unfolding insert_all
insert_all-kept [] k hs h = refl
insert_all-kept ((j, v) ∷ more) k hs (h, later) =
    insert_all-kept more k (insert j v hs) later ∙ header_of-insert_other j k v hs h

-- A header that no later insertion names has the value that was inserted.
insert_all-first :
    (more : List (Str × Str)) (k v : Str) (hs : List (Str × Str))
    → All (λ (h : Str × Str). str_eq h.0 k ≡ false) more
    → header_of k (insert_all ((k, v) ∷ more) hs) ≡ some v
unfolding insert_all
insert_all-first more k v hs h = insert_all-kept more k (insert k v hs) h ∙ header_of-insert k v hs

pub protect-IsProtectedAnswer : (res : Response) → IsProtectedAnswer res (protect res)
unfolding protect insert_all str_eq
protect-IsProtectedAnswer res = record {
  same_status = refl;
  same_body = refl;
  no_cache =
      insert_all-first (drop 1 protections) (codes "cache-control") (codes "no-store") res.headers
        (refl, (refl, (refl, (refl, tt))));
  no_sniffing =
      insert_all-first (drop 2 protections) (codes "x-content-type-options") (codes "nosniff")
        (insert_all (take 1 protections) res.headers) (refl, (refl, (refl, tt)));
  no_frames =
      insert_all-first (drop 3 protections) (codes "x-frame-options") (codes "DENY")
        (insert_all (take 2 protections) res.headers) (refl, (refl, tt));
  no_referrer =
      insert_all-first (drop 4 protections) (codes "referrer-policy") (codes "no-referrer")
        (insert_all (take 3 protections) res.headers) (refl, tt);
  own_content =
      insert_all-first [] (codes "content-security-policy") _
        (insert_all (take 4 protections) res.headers) tt;
  others_kept = λ k (a, (b, (c, (d, (e, _))))).
      insert_all-kept protections k res.headers (a, (b, (c, (d, (e, tt)))));
}
