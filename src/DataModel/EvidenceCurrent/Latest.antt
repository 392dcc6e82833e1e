-- ===== src/DataModel/EvidenceCurrent/Latest.antt =====
-- The rows of the view against those of the table.
use trustlist_core.Base.{
  ◌<◌, ◌≤◌, String, Bool, true, false, not, List, [], ◌∷◌, ==_iff, String-eq, ℕ-eq, ◌≡◌, ◌⊎◌, inl,
  inr, refl, sym, ◌∙◌, subst, arith, Bool-cases,
}
use trustlist_core.Base.Lists.{
  All, IsIn, All-IsIn, All_intro, All-keep, All-keep_passes, keep, keep-IsIn, IsIn-keep,
}
use trustlist_core.DataModel.EvidenceCurrent.{
  Evidence, same_key, distinct_on, evidence_order, evidence_current,
}
use trustlist_core.DataModel.EvidenceCurrent.Sorting.{
  Order, ascending, order_by, Sorted, order_by-IsIn, IsIn-order_by, order_by-Sorted, le_of_eq,
}

module _ {A : Type 0} (same : A → A → Bool) where
  distinct_on-IsIn : (a : A) (xs : List A) → IsIn a (distinct_on same xs) → IsIn a xs
  distinct_on-IsIn a [] inside = inside
  distinct_on-IsIn a (x ∷ xs) (inl head) = inl head
  distinct_on-IsIn a (x ∷ xs) (inr later) =
      inr (distinct_on-IsIn a xs (keep-IsIn (λ s. not (same x s)) a (distinct_on same xs) later).0)

  -- No two members agree.
  abbrev pub Apart : List A → Type 0
  Apart [] = Unit
  Apart (x ∷ xs) = All (λ y. same x y ≡ false) xs × Apart xs

  keep-Apart : (p : A → Bool) (xs : List A) → Apart xs → Apart (keep p xs)
  keep-Apart p [] apart = tt
  keep-Apart p (x ∷ xs) (differ, apart) = elim (Bool-cases (p x)) [
    | inl passes ↦ rw passes (All-keep (λ y. same x y ≡ false) p xs differ, keep-Apart p xs apart)
    | inr fails ↦ rw fails (keep-Apart p xs apart)
  ]

  not-true :
      (a : A) (xs : List A) → All (λ y. not (same a y) ≡ true) xs → All (λ y. same a y ≡ false) xs
  not-true a [] every = tt
  not-true a (x ∷ xs) (first, rest) = (ground (arith, first), not-true a xs rest)

  distinct_on-Apart : (xs : List A) → Apart (distinct_on same xs)
  distinct_on-Apart [] = tt
  distinct_on-Apart (x ∷ xs) = (
    not-true x (keep (λ s. not (same x s)) (distinct_on same xs))
        (All-keep_passes (λ s. not (same x s)) (distinct_on same xs)),
    keep-Apart (λ s. not (same x s)) (distinct_on same xs) (distinct_on-Apart xs),
  )

  module _ (o : Order A) (same_refl : (a : A) → same a a ≡ true)
      (same_trans : (a b c : A) → same a b ≡ true → same b c ≡ true → same a c ≡ true) where
    -- The member that agrees with `a` is not after it.
    distinct_on-least :
        (a : A) (xs : List A)
        → Sorted o xs
        → IsIn a xs
        → (b : A) × IsIn b (distinct_on same xs) × (same b a ≡ true) × (o.le b a ≡ true)
    distinct_on-least a [] sorted inside = absurd inside
    distinct_on-least a (x ∷ xs) (least, sorted) (inl head) = (
      x,
      inl refl,
      subst (λ y. same x y ≡ true) (sym head) (same_refl x),
      le_of_eq o x a (sym head),
    )
    distinct_on-least a (x ∷ xs) (least, sorted) (inr later) = elim (Bool-cases (same x a)) [
      | inl agree ↦ (x, inl refl, agree, All-IsIn (λ y. o.le x y ≡ true) a xs least later)
      | inr differ ↦
          let found = distinct_on-least a xs sorted later in
          (
            found.0,
            inr (
                IsIn-keep (λ s. not (same x s)) found.0 (distinct_on same xs) found.1
                  (ground (arith, differ, found.2, same_trans x found.0 a))),
            found.2,
            found.3,
          )
    ]

same_key_refl : (r : Evidence) → same_key r r ≡ true
same_key_refl r = ground (
  arith,
  ==_iff r.domain_id r.domain_id,
  ==_iff r.signal_class r.signal_class,
  ==_iff r.source_url r.source_url,
)

-- The keys of two rows that agree.
same_key-eq :
    (r s : Evidence)
    → same_key r s ≡ true
    → (r.domain_id ≡ s.domain_id)
      × (r.signal_class ≡ s.signal_class)
      × (r.source_url ≡ s.source_url)
same_key-eq r s agree = (
  (==_iff r.domain_id s.domain_id).0 (ground (arith, agree)),
  (==_iff r.signal_class s.signal_class).0 (ground (arith, agree)),
  (==_iff r.source_url s.source_url).0 (ground (arith, agree)),
)

same_key_of_eq :
    (r s : Evidence)
    → r.domain_id ≡ s.domain_id
    → r.signal_class ≡ s.signal_class
    → r.source_url ≡ s.source_url
    → same_key r s ≡ true
same_key_of_eq r s d c u = ground (
  arith,
  (==_iff r.domain_id s.domain_id).1 d,
  (==_iff r.signal_class s.signal_class).1 c,
  (==_iff r.source_url s.source_url).1 u,
)

same_key_trans :
    (r s t : Evidence) → same_key r s ≡ true → same_key s t ≡ true → same_key r t ≡ true
same_key_trans r s t agree also =
    let e = same_key-eq r s agree in
    let f = same_key-eq s t also in same_key_of_eq r t (e.0 ∙ f.0) (e.1 ∙ f.1) (e.2 ∙ f.2)

-- `r` is at least as recent as `s`: by its observation, by its recording if they were observed at one
-- moment, and by its identifier if they were recorded at one moment as well.
unfoldable pub IsAsRecent : Evidence → Evidence → Type 0
IsAsRecent r s =
    (s.observed_at < r.observed_at)
    ⊎ ((s.observed_at ≡ r.observed_at)
        × ((s.recorded_at < r.recorded_at)
            ⊎ ((s.recorded_at ≡ r.recorded_at) × (s.evidence_id ≤ r.evidence_id))))

module _ (collation : Order String) where
  evidence_order-IsAsRecent :
      (r s : Evidence)
      → same_key r s ≡ true
      → (evidence_order collation).le r s ≡ true
      → IsAsRecent r s
  unfolding evidence_order IsAsRecent
  evidence_order-IsAsRecent r s agree before =
      let e = same_key-eq r s agree in
      ground (
        arith,
        before,
        le_of_eq ascending s.domain_id r.domain_id (sym e.0),
        le_of_eq collation s.signal_class r.signal_class (sym e.1),
        le_of_eq collation s.source_url r.source_url (sym e.2),
      )

  -- A row of the view that stands for `r`.
  abbrev pub Stands : List Evidence → Evidence → Type 0
  Stands view r = (s : Evidence) × IsIn s view × (same_key s r ≡ true) × IsAsRecent s r

  -- For every list of rows and every collation: each row of the table has a row in the view with its
  -- domain, signal class and source URL that is at least as recent; each row of the view is one of the
  -- table; and no two rows of the view have the same domain, signal class and source URL.
  pub evidence_current_lem :
      (rows : List Evidence)
      → All (λ r. Stands (evidence_current collation rows) r) rows
        × All (λ s. IsIn s rows) (evidence_current collation rows)
        × Apart same_key (evidence_current collation rows)
  unfolding evidence_current
  evidence_current_lem rows =
      let o = evidence_order collation in
      (
        All_intro (λ r. Stands (evidence_current collation rows) r) rows
            (λ r inside.
              let found =
                distinct_on-least same_key o same_key_refl same_key_trans r (order_by o rows)
                  (order_by-Sorted o rows) (IsIn-order_by o r rows inside) in
              (found.0, found.1, found.2, evidence_order-IsAsRecent found.0 r found.2 found.3)),
        All_intro (λ s. IsIn s rows) (evidence_current collation rows)
            (λ s inside.
              order_by-IsIn o s rows (distinct_on-IsIn same_key s (order_by o rows) inside)),
        distinct_on-Apart same_key (order_by o rows),
      )
