-- ===== src/Dnssd/Zone/Sound.antt =====
-- What `Zone::answer` of src/dnssd.rs may answer at all.
use mathlib.Core.Option.{some-injective}
use alt_keeper.Base.{
  ◌≢◌, ◌⊎◌, inr, ℕ, refl, arith, ◌≡◌, inl, some, none, true, Option, List, Option-cases, Bool-cases,
  ◌↔◌, false, ap, ◌∙◌,
}
use alt_keeper.Base.Outcome.{ok}
use alt_keeper.Dnssd.Zone.Total.{explored-total, answer-total}
use alt_keeper.Base.Text.{Str, str_eq, str_eq_iff}
use alt_keeper.Dnssd.Zone.{
  answer, Zone, answer_own, after_prefix, Record, prefixes, covers_reverse, explored,
}

-- The names for which the zone answers: a prefix of exploration before the domain or before a
-- reversed address of the clients' network, and the names of the service, the instance and the host.
abbrev pub IsOurs : Zone → Str → Type 0
IsOurs z name =
    ((rest : Str) × (after_prefix prefixes name ≡ some rest)
      × ((rest ≡ z.domain) ⊎ (covers_reverse z rest ≡ ok true)))
    ⊎ ((name ≡ z.browse) ⊎ ((name ≡ z.instance_name) ⊎ (name ≡ z.host)))

answer_own-ne-none :
    (z : Zone) (name : Str) (qtype : ℕ)
    → (answer_own z name qtype ≢ none)
      ↔ ((name ≡ z.browse) ⊎ ((name ≡ z.instance_name) ⊎ (name ≡ z.host)))
unfolding answer_own
answer_own-ne-none z name qtype =
    ground
      (arith, str_eq_iff name z.browse, str_eq_iff name z.instance_name, str_eq_iff name z.host)

explored_cases :
    (z : Zone) (rest : Str)
    → explored z rest ≡ ok true
    → (rest ≡ z.domain) ⊎ (covers_reverse z rest ≡ ok true)
unfolding explored
explored_cases z rest h = elim (Bool-cases (str_eq rest z.domain)) [
  | inl same ↦ inl ((str_eq_iff rest z.domain).0 same)
  | inr other ↦ inr (rw other at h)
]

not_explored :
    (z : Zone) (rest rest' : Str)
    → explored z rest ≡ ok false
    → rest ≡ rest'
    → (rest' ≡ z.domain) ⊎ (covers_reverse z rest' ≡ ok true)
    → ⊥
unfolding explored
not_explored z rest rest' h same (inl own) =
    let is_domain = (str_eq_iff rest z.domain).1 (same ∙ own) in absurd (cc (rw is_domain at h))
not_explored z rest rest' h same (inr covered) =
    let covers : covers_reverse z rest ≡ ok true = rw same covered in
    elim (Bool-cases (str_eq rest z.domain)) [
      | inl own ↦ absurd (cc (rw own at h))
      | inr other ↦ absurd (cc (rw (other, covers) at h))
    ]

ne_none_ok : {A : Type 0} (o : Option A) {P : Type 0} → (o ≢ none) ↔ P → (ok o ≢ ok none) ↔ P
ne_none_ok none h = (λ k. absurd (k refl), λ p _. h.1 p refl)
ne_none_ok (some x) h = (λ _. h.0 (λ q. cc q), λ _ q. cc q)

answers_iff : (z : Zone) (name : Str) (qtype : ℕ) → (answer z name qtype ≢ ok none) ↔ IsOurs z name
unfolding answer
answers_iff z name qtype =
    let own = ne_none_ok (answer_own z name qtype) (answer_own-ne-none z name qtype) in
    elim (Option-cases (after_prefix prefixes name)) [
      | inl e ↦
          rw (e, answer)
            (
              λ h. inr (own.0 h),
              λ ours. elim ours [ inl (rest, q, _) ↦ absurd (cc q) | inr names ↦ own.1 names ],
            )
      | inr (rest, e) ↦
          let (b, known) = explored-total z rest in
          elim (Bool-cases b) [
            | inl on ↦
                rw (e, answer)
                  (rw (known ∙ ap ok on, answer)
                    (λ _. inl (rest, refl, explored_cases z rest (known ∙ ap ok on)), λ _ q. cc q))
            | inr off ↦
                rw (e, answer)
                  (rw (known ∙ ap ok off, answer)
                    (
                      λ h. inr (own.0 h),
                      λ ours. elim ours [
                        | inl (rest', q, found) ↦ absurd (
                            not_explored z rest rest' (known ∙ ap ok off) (some-injective _ _ q)
                              found)
                        | inr names ↦ own.1 names
                      ],
                    ))
          ]
    ]

-- The zone answers exactly for its own names, whatever the type that is asked for: "no such name" is
-- the reply to every other name and to no name of its own. No index is out of range on the way.
pub answer-ne-none :
    (z : Zone) (name : Str) (qtype : ℕ)
    → ((o : Option (List Record)) × (answer z name qtype ≡ ok o))
      × ((answer z name qtype ≢ ok none) ↔ IsOurs z name)
answer-ne-none z name qtype = (answer-total z name qtype, answers_iff z name qtype)
