-- ===== src/Profile/Parse/Safety.antt =====
-- When `parse` of src/profile.rs panics, and what the bundle that it finds is.
use alt_keeper.Base.{
  inl, suc, ◌++◌, [], ◌∷◌, ◌≡◌, ap, ℕ, inr, some, arith, ◌+◌, ◌≤◌, length, Option-cases,
  length-append, ◌↔◌, refl, ◌<◌, Option, ◌-◌, none, ◌&&◌, Bool-cases, leb, take, drop, if_both,
}
use alt_keeper.Profile.Parse.{rposition, Plist, parse, slice, profile_of, PhoneProfile, position}
use alt_keeper.Base.Text.{strip_prefix, Str, codes}
use alt_keeper.Base.Bytes.{Bytes}
use alt_keeper.Base.Outcome.{
  ◌>>=◌, from_option, panic, IsDone, IsDone-bind, IsDone-from_option, ok, bound_ok,
}

strip_prefix_eq : (p s t : Str) → strip_prefix p s ≡ some t → s ≡ p ++ t
unfolding strip_prefix
strip_prefix_eq [] s t h = cc h
strip_prefix_eq (x ∷ p) [] t h = absurd (cc h)
strip_prefix_eq (x ∷ p) (y ∷ s) t h = ground (arith, strip_prefix_eq p s t)

rposition_fits :
    (p : Str) (raw : Bytes) (i : ℕ) → rposition p raw ≡ some i → i + length p ≤ length raw
unfolding rposition
rposition_fits p [] i h = absurd (cc h)
rposition_fits p (b ∷ bs) i h = elim (Option-cases (rposition p bs)) [
  | inr (j, e) ↦ let same : suc j ≡ i = cc (e, h) in omega (arith, rposition_fits p bs j e, same)
  | inl e ↦ elim (Option-cases (strip_prefix p (b ∷ bs))) [
    | inl n ↦ absurd (cc (e, n, h))
    | inr (t, f) ↦
        let same : 0 ≡ i = cc (e, f, h) in
        let size : suc (length bs) ≡ length (p ++ t) = ap length (strip_prefix_eq p (b ∷ bs) t f) in
        omega (arith, length-append p t, size, same)
  ]
]

module _ {Dict : Type 0} (P : Plist Dict) where
  read_no_panic :
      (o : Option Dict) → (from_option o >>= λ d. from_option (profile_of P d)) ≡ panic → ⊥
  read_no_panic none h = cc h
  read_no_panic (some d) h = go (profile_of P d) h
    where
      go : (r : Option PhoneProfile) → from_option r ≡ panic → ⊥
      go none k = cc k
      go (some p) k = cc k

  slice_panics :
      (raw : Bytes) (start end : ℕ)
      → end ≤ length raw
      → ((slice raw start end >>= λ xml.
            from_option (P.from_reader xml) >>= λ d. from_option (profile_of P d))
          ≡ panic)
        ↔ (end < start)
  unfolding slice
  slice_panics raw start end fits = elim (Bool-cases (leb start end && leb end (length raw))) [
    | inl good ↦ rw good (
      λ h. absurd (read_no_panic (P.from_reader (take (end - start) (drop start raw))) h),
      λ h. absurd (ground arith),
    )
    | inr bad ↦ rw bad ((λ h. ground arith), (λ h. refl))
  ]

  -- `parse` panics exactly on the bytes in which the last `</plist>` ends before the first `<?xml`
  -- begins.
  pub parse_panics_iff :
      (raw : Bytes)
      → (parse P raw ≡ panic) ↔ (
          (start : ℕ) × (last : ℕ) × (position (codes "<?xml") raw ≡ some start)
          × (rposition (codes "</plist>") raw ≡ some last)
          × (last + 8 < start))
  unfolding parse
  parse_panics_iff raw = elim (Option-cases (position (codes "<?xml") raw)) [
    | inl e ↦ rw (e, parse) ((λ h. absurd (cc h)), (λ (s, l, p, q, h). absurd (cc p)))
    | inr (start, e) ↦ elim (Option-cases (rposition (codes "</plist>") raw)) [
      | inl f ↦ rw (e, f, parse) ((λ h. absurd (cc h)), (λ (s, l, p, q, h). absurd (cc q)))
      | inr (last, f) ↦
          let crossed =
            slice_panics raw start (last + 8) (rposition_fits (codes "</plist>") raw last f) in
          rw (e, f, parse)
            (
              λ h. (start, last, refl, refl, crossed.0 h),
              λ (s, l, p, q, h).
                  crossed.1 (
                    let s' : start ≡ s = cc p in let l' : last ≡ l = cc q in omega (arith, s', l')),
            )
    ]
  ]

  slice-IsDone : (raw : Bytes) (start end : ℕ) → IsDone (slice raw start end)
  unfolding slice
  slice-IsDone raw start end =
      if_both IsDone (leb start end && leb end (length raw))
        (ok (take (end - start) (drop start raw))) panic tt tt

  pub parse-IsDone : (raw : Bytes) → IsDone (parse P raw)
  unfolding parse
  parse-IsDone raw =
      IsDone-bind (from_option (position (codes "<?xml") raw)) _
        (IsDone-from_option (position (codes "<?xml") raw))
        λ start.
          IsDone-bind (from_option (rposition (codes "</plist>") raw)) _
            (IsDone-from_option (rposition (codes "</plist>") raw))
            λ last.
              IsDone-bind (slice raw start (last + 8)) _ (slice-IsDone raw start (last + 8)) λ xml.
                IsDone-bind (from_option (P.from_reader xml)) _
                  (IsDone-from_option (P.from_reader xml)) λ d. IsDone-from_option (profile_of P d)

  from_option_ok : {A : Type 0} (o : Option A) (a : A) → from_option o ≡ ok a → o ≡ some a
  from_option_ok none a h = absurd (cc h)
  from_option_ok (some b) a h = cc h

  pub parse-eq-ok :
      (raw : Bytes) (p : PhoneProfile) → parse P raw ≡ ok p → (d : Dict) × (profile_of P d ≡ some p)
  unfolding parse
  parse-eq-ok raw p h =
      let (start, _, h1) = bound_ok (from_option (position (codes "<?xml") raw)) _ h in
      let (last, _, h2) = bound_ok (from_option (rposition (codes "</plist>") raw)) _ h1 in
      let (xml, _, h3) = bound_ok (slice raw start (last + 8)) _ h2 in
      let (d, _, h4) = bound_ok (from_option (P.from_reader xml)) _ h3 in
      (d, from_option_ok (profile_of P d) p h4)
