-- ===== src/Web/Access/Local.antt =====
-- Which `Host` headers `host_is_local` of src/web.rs takes for this computer.
use alt_keeper.Base.{
  ◌≡◌, Option, ◌⊎◌, ◌↔◌, append-nil, ◌∙◌, false, inl, ap, List, ◌∷◌, true, [], arith, sym, ℕ, ◌≢◌,
  ◌++◌, ◌==◌, inr, ◌||◌, some, Bool, refl, none, Bool-cases, ==_iff,
}
use alt_keeper.Base.Text.{Str, codes, str_eq, str_eq_iff, split, strip_prefix, onto_first}
use mathlib.Core.Option.{some-injective}
use alt_keeper.Base.Split.{Has, split_last, split_more}
use alt_keeper.Web.Access.{host_is_local, first_or_empty}
use mathlib.Core.Path.{subst}

-- Nothing follows, or this byte does.
abbrev pub Ends : ℕ → Str → Type 0
Ends d rest = (rest ≡ []) ⊎ ((t : Str) × (rest ≡ d ∷ t))

-- The name of this computer, or its address of version 4.
abbrev pub IsPlain : Str → Type 0
IsPlain name = (name ≡ codes "localhost") ⊎ (name ≡ codes "127.0.0.1")

-- The text names this computer, up to a port; an address of version 6 stands in brackets, where the others
-- may stand too.
abbrev pub IsLocalHost : Str → Type 0
IsLocalHost host =
    (name : Str) × (rest : Str) × ((IsPlain name × (host ≡ name ++ rest) × Ends b':' rest)
      ⊎ ((IsPlain name ⊎ (name ≡ codes "::1")) × (host ≡ b'[' ∷ (name ++ rest)) × Ends b']' rest))

-- A text begins with its first piece, which lacks the separator.
first_piece :
    (d : ℕ) (s : Str)
    → (rest : Str) × (s ≡ first_or_empty (split d s) ++ rest)
      × Has d (first_or_empty (split d s))
      × Ends d rest
unfolding split
first_piece d [] = ([], refl, tt, inl refl)
first_piece d (c ∷ s) = elim (Bool-cases (c == d)) [
  | inl same ↦ rw same (c ∷ s, refl, tt, inr (s, ap (λ x. x ∷ s) ((==_iff c d).0 same)))
  | inr other ↦
      let (rest, e, has, ends) = first_piece d s in
      let differs : c ≢ d = λ q. absurd (cc (rw q at other, (==_iff d d).1 refl)) in
      rw other (onto c (split d s) rest differs e has ends)
]
  where
    onto :
        (c : ℕ) (ps : List Str) (rest : Str)
        → c ≢ d
        → s ≡ first_or_empty ps ++ rest
        → Has d (first_or_empty ps)
        → Ends d rest
        → (rest' : Str) × (c ∷ s ≡ first_or_empty (onto_first c ps) ++ rest')
          × Has d (first_or_empty (onto_first c ps))
          × Ends d rest'
    onto c [] rest differs e has ends = (rest, ap (◌∷◌ c) e, (differs, tt), ends)
    onto c (p ∷ ps) rest differs e has ends = (rest, ap (◌∷◌ c) e, (differs, has), ends)

first_piece_of :
    (d : ℕ) (p rest : Str) → Has d p → Ends d rest → first_or_empty (split d (p ++ rest)) ≡ p
first_piece_of d p rest h (inl nothing) =
    rw (nothing, append-nil p) (ap first_or_empty (split_last d p h))
first_piece_of d p rest h (inr (t, more)) = rw more (ap first_or_empty (split_more d p t h))

-- The last test of `host_is_local`.
abbrev is_own_name : Str → Bool
is_own_name name =
    str_eq name (codes "localhost")
    || (str_eq name (codes "127.0.0.1") || str_eq name (codes "::1"))

own_names : (name : Str) → (is_own_name name ≡ true) ↔ (IsPlain name ⊎ (name ≡ codes "::1"))
own_names name =
    let a = str_eq_iff name (codes "localhost") in
    let b = str_eq_iff name (codes "127.0.0.1") in
    let c = str_eq_iff name (codes "::1") in
    (go (str_eq name (codes "localhost")) (str_eq name (codes "127.0.0.1"))
      (str_eq name (codes "::1")) a b c)
  where
    go :
        {P Q R : Type 0} (a b c : Bool)
        → (a ≡ true) ↔ P
        → (b ≡ true) ↔ Q
        → (c ≡ true) ↔ R
        → ((a || (b || c)) ≡ true) ↔ ((P ⊎ Q) ⊎ R)
    go true b c p q r = (λ _. inl (inl (p.0 refl)), λ _. refl)
    go false true c p q r = (λ _. inl (inr (q.0 refl)), λ _. refl)
    go false false c p q r = (
      λ h. inr (r.0 h),
      λ h. elim h [
        | inl (inl x) ↦ absurd (cc (p.1 x))
        | inl (inr y) ↦ absurd (cc (q.1 y))
        | inr z ↦ r.1 z
      ],
    )

-- The name that the code takes out of the header.
abbrev name_in : Str → Str
name_in host = elim (strip_prefix (b'[' ∷ []) host) [
  | some rest ↦ first_or_empty (split b']' rest)
  | none ↦ first_or_empty (split b':' host)
]

bracketed : (host rest : Str) → strip_prefix (b'[' ∷ []) host ≡ some rest → host ≡ b'[' ∷ rest
unfolding strip_prefix
bracketed [] rest e = absurd (cc e)
bracketed (c ∷ s) rest e = elim (Bool-cases (b'[' == c)) [
  | inl same ↦
      let rest_eq : s ≡ rest = cc (rw same at e) in
      let first : b'[' ≡ c = (==_iff b'[' c).0 same in cc (rest_eq, first)
  | inr other ↦ absurd (cc (rw other at e))
]

named-IsLocalHost : (host : Str) → is_own_name (name_in host) ≡ true → IsLocalHost host
named-IsLocalHost host h = go (strip_prefix (b'[' ∷ []) host) refl h
  where
    found : Option Str → Str
    found o = elim o [
      | some rest ↦ first_or_empty (split b']' rest)
      | none ↦ first_or_empty (split b':' host)
    ]

    go :
        (o : Option Str)
        → strip_prefix (b'[' ∷ []) host ≡ o
        → is_own_name (found o) ≡ true
        → IsLocalHost host
    go (some inside) e k =
        let (rest, begins, _, ends) = first_piece b']' inside in
        let name = first_or_empty (split b']' inside) in
        (
          name,
          rest,
          inr ((own_names name).0 k, bracketed host inside e ∙ ap (◌∷◌ b'[') begins, ends),
        )
    go none e k =
        let (rest, begins, has, ends) = first_piece b':' host in
        let name = first_or_empty (split b':' host) in
        elim ((own_names name).0 k) [
          | inl plain ↦ (name, rest, inl (plain, begins, ends))
          | inr colons ↦ absurd ((subst (Has b':') colons has).0 refl)
        ]

local-named : (host : Str) → IsLocalHost host → is_own_name (name_in host) ≡ true
unfolding strip_prefix
local-named host (name, rest, inl (inl same, begins, ends)) =
    rw (begins, same)
      (rw (first_piece_of b':' (codes "localhost") rest (omega arith) ends)
        ((own_names (codes "localhost")).1 (inl (inl refl))))
local-named host (name, rest, inl (inr same, begins, ends)) =
    rw (begins, same)
      (rw (first_piece_of b':' (codes "127.0.0.1") rest (omega arith) ends)
        ((own_names (codes "127.0.0.1")).1 (inl (inr refl))))
local-named host (name, rest, inr (own, begins, ends)) =
    rw (begins, first_piece_of b']' name rest (no_bracket name own) ends) ((own_names name).1 own)
  where
    no_bracket : (n : Str) → IsPlain n ⊎ (n ≡ codes "::1") → Has b']' n
    no_bracket n (inl (inl e)) = rw e (omega arith)
    no_bracket n (inl (inr e)) = rw e (omega arith)
    no_bracket n (inr e) = rw e (omega arith)

-- A host is taken for this computer exactly where its text names this computer.
pub host_is_local_iff :
    (o : Option Str)
    → (host_is_local o ≡ true) ↔ ((host : Str) × (o ≡ some host) × IsLocalHost host)
unfolding host_is_local
host_is_local_iff none = (λ h. absurd (cc h), λ (host, e, _). absurd (cc e))
host_is_local_iff (some host) = (
  λ h. (host, refl, named-IsLocalHost host h),
  λ (host', e, h). local-named host (subst IsLocalHost (sym (some-injective host host' e)) h),
)
