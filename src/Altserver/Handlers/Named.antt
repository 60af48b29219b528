-- ===== src/Altserver/Handlers/Named.antt =====
-- The bundles that a request to remove profiles names, in src/altserver.rs.
use alt_keeper.Base.{
  ◌≡◌, List, Option, Among, none, true, ap, map, inl, [], refl, inr, some, ◌∷◌, Bool-cases,
  Option-cases,
}
use alt_keeper.Base.Text.{Str, codes, str_eq, str_eq_iff}
use mathlib.Core.Option.{some-injective}
use alt_keeper.Altserver.Services.{Services}
use alt_keeper.Altserver.Handlers.{wanted, matches, contains, present}
use mathlib.Core.Path.{subst}

contains_found : (s : Str) (ts : List Str) → contains s ts ≡ true → Among s ts
unfolding contains
contains_found s [] h = absurd (cc h)
contains_found s (t ∷ ts) h = elim (Bool-cases (str_eq t s)) [
  | inl same ↦ inl ((str_eq_iff t s).0 same)
  | inr other ↦ inr (contains_found s ts (rw other at h))
]

contains-Among : (s : Str) (ts : List Str) → Among s ts → contains s ts ≡ true
unfolding contains
contains-Among s [] h = absurd h
contains-Among s (t ∷ ts) (inl same) = rw ((str_eq_iff t s).1 same) refl
contains-Among s (t ∷ ts) (inr later) = elim (Bool-cases (str_eq t s)) [
  | inl same ↦ rw same refl
  | inr other ↦ rw other (contains-Among s ts later)
]

module _ (f : Str → Str) where
  present_found :
      (vs : List (Option Str)) (s : Str)
      → Among s (map f (present vs))
      → (n : Str) × Among (some n) vs × (f n ≡ s)
  unfolding present
  present_found [] s h = absurd h
  present_found (none ∷ vs) s h = let (n, among, e) = present_found vs s h in (n, inr among, e)
  present_found (some n ∷ vs) s (inl same) = (n, inl refl, same)
  present_found (some n ∷ vs) s (inr later) =
      let (m, among, e) = present_found vs s later in (m, inr among, e)

  present-Among :
      (vs : List (Option Str)) (n : Str) → Among (some n) vs → Among (f n) (map f (present vs))
  unfolding present
  present-Among [] n h = absurd h
  present-Among (none ∷ vs) n (inl e) = absurd (cc e)
  present-Among (none ∷ vs) n (inr later) = present-Among vs n later
  present-Among (some m ∷ vs) n (inl e) = inl (ap f (some-injective m n e))
  present-Among (some m ∷ vs) n (inr later) = inr (present-Among vs n later)

module _ {Value World Link Dict : Type 0} (S : Services Value World Link Dict) where
  -- The list in the request has a text that is the bundle, in small letters.
  abbrev pub IsNamed : Value → Option Str → Type 0
  IsNamed req bundle =
      (b : Str) × (bundle ≡ some b)
      × (vs : List (Option Str)) × (S.json.array_at req (codes "bundleIdentifiers") ≡ some vs)
      × (n : Str) × Among (some n) vs
      × (S.to_lowercase n ≡ S.to_lowercase b)

  pub matches-IsNamed :
      (req : Value) (bundle : Option Str)
      → matches S (wanted S req) bundle ≡ true
      → IsNamed req bundle
  unfolding matches wanted
  matches-IsNamed req none h = absurd (cc h)
  matches-IsNamed req (some b) h =
      elim (Option-cases (S.json.array_at req (codes "bundleIdentifiers"))) [
        | inl e ↦ absurd (cc (rw (e, wanted) at h))
        | inr (vs, e) ↦
            let (n, among, same) = present_found S.to_lowercase vs (S.to_lowercase b) (
              contains_found (S.to_lowercase b) (map S.to_lowercase (present vs))
                (rw (e, wanted) at h)) in
            (b, refl, vs, e, n, among, same)
      ]

  pub IsNamed-matches :
      (req : Value) (bundle : Option Str)
      → IsNamed req bundle
      → matches S (wanted S req) bundle ≡ true
  unfolding matches wanted
  IsNamed-matches req bundle (b, is_b, vs, e, n, among, same) =
      rw (is_b, matches)
        (rw (e, wanted)
          (contains-Among (S.to_lowercase b) (map S.to_lowercase (present vs)) (
            subst (λ s. Among s (map S.to_lowercase (present vs))) same
              (present-Among S.to_lowercase vs n among))))
