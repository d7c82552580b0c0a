-- ===== src/Interpolation/Lookup.antt =====
-- A table gives back the samples that were put into it.
use fers.Base.{true, false, ◌≡◌, refl, List, [], ◌∷◌, some, arith, inl, inr, ◌⊎◌, Bool-cases}
use fers.Floats.{Floats}
use fers.Interpolation.{Sample, InterpSetData, insert_sample, value_after, value}

module _ (F : Floats) where
  open F use {R, double}

  unfoldable pub insert_all : List (Sample F) → InterpSetData F → InterpSetData F
  insert_all [] data_points = data_points
  insert_all (s ∷ samples) data_points = insert_all samples (insert_sample F s data_points)

  -- A sample is in a table, or in a list of samples.
  pub data In (s : Sample F) : List (Sample F) → Type 0 where
    here : {rest : List (Sample F)} → In s (s ∷ rest)
    there : {t : Sample F} {rest : List (Sample F)} → In s rest → In s (t ∷ rest)

  abbrev pub Above : Sample F → List (Sample F) → Type 0
  Above s [] = Unit {0}
  Above s (t ∷ rest) = (double.lt s.x t.x ≡ true) × Above s rest

  abbrev pub Ascending : List (Sample F) → Type 0
  Ascending [] = Unit {0}
  Ascending (s ∷ rest) = Above s rest × Ascending rest

  -- The x of a sample differs from all of a list.
  abbrev pub Apart : Sample F → List (Sample F) → Type 0
  Apart s [] = Unit {0}
  Apart s (t ∷ rest) = ((double.lt s.x t.x ≡ true) ⊎ (double.lt t.x s.x ≡ true)) × Apart s rest

  abbrev pub Distinct : List (Sample F) → Type 0
  Distinct [] = Unit {0}
  Distinct (s ∷ rest) = Apart s rest × Distinct rest

  -- All of a list differ from all of a table.
  abbrev AllApart : List (Sample F) → InterpSetData F → Type 0
  AllApart [] data_points = Unit {0}
  AllApart (s ∷ rest) data_points = Apart s data_points × AllApart rest data_points

  swap : {A B : Type 0} → A ⊎ B → B ⊎ A
  swap (inl a) = inr a
  swap (inr b) = inl b

  module _ (irreflexive : (a : R) → double.lt a a ≡ false)
      (transitive : (a b c : R)
        → double.lt a b ≡ true
        → double.lt b c ≡ true
        → double.lt a c ≡ true) where
    asymmetric : (a b : R) → double.lt a b ≡ true → double.lt b a ≡ false
    asymmetric a b h = elim (Bool-cases (double.lt b a)) [
      | inl g ↦ (let e = transitive a b a h g in let f = irreflexive a in ground arith)
      | inr g ↦ g
    ]

    Above-transitive :
        (s t : Sample F) (rest : List (Sample F))
        → double.lt s.x t.x ≡ true
        → Above t rest
        → Above s rest
    Above-transitive s t [] h p = tt
    Above-transitive s t (u ∷ rest) h p =
        (transitive s.x t.x u.x h p.0, Above-transitive s t rest h p.1)

    Above-In :
        (s t : Sample F) (rest : List (Sample F))
        → Above s rest
        → In t rest
        → double.lt s.x t.x ≡ true
    Above-In s t _ p here = p.0
    Above-In s t (u ∷ rest) p (there i) = Above-In s t rest p.1 i

    value_after-In :
        (s prev : Sample F) (rest : List (Sample F))
        → double.eq s.x s.x ≡ true
        → Ascending rest
        → In s rest
        → value_after F s.x prev rest ≡ s.y
    unfolding value_after
    value_after-In s prev [] h p i = elim i [ ]
    value_after-In s prev (_ ∷ rest) h p here = rw (irreflexive s.x) (rw h refl)
    value_after-In s prev (t ∷ rest) h p (there i) =
        rw (Above-In t s rest p.0 i) (value_after-In s t rest h p.1 i)

    value-In :
        (s : Sample F) (data_points : InterpSetData F)
        → double.eq s.x s.x ≡ true
        → Ascending data_points
        → In s data_points
        → value F s.x data_points ≡ some s.y
    unfolding value
    value-In s [] h p i = elim i [ ]
    value-In s (_ ∷ rest) h p here = rw (irreflexive s.x) refl
    value-In s (t ∷ rest) h p (there i) =
        rw (Above-In t s rest p.0 i) (rw (value_after-In s t rest h p.1 i) refl)

    insert_sample-In :
        (s : Sample F) (data_points : InterpSetData F)
        → Apart s data_points
        → In s (insert_sample F s data_points)
    unfolding insert_sample
    insert_sample-In s [] p = here
    insert_sample-In s (t ∷ rest) (inl h, p) = rw h here
    insert_sample-In s (t ∷ rest) (inr h, p) =
        rw (asymmetric t.x s.x h) (rw h (there (insert_sample-In s rest p)))

    In-insert_sample :
        (s t : Sample F) (data_points : InterpSetData F)
        → Apart s data_points
        → In t data_points
        → In t (insert_sample F s data_points)
    unfolding insert_sample
    In-insert_sample s t [] p i = elim i [ ]
    In-insert_sample s t (u ∷ rest) (inl h, p) i = rw h (there i)
    In-insert_sample s t (_ ∷ rest) (inr h, p) here = rw (asymmetric t.x s.x h) (rw h here)
    In-insert_sample s t (u ∷ rest) (inr h, p) (there i) =
        rw (asymmetric u.x s.x h) (rw h (there (In-insert_sample s t rest p i)))

    Above-insert_sample :
        (t s : Sample F) (data_points : InterpSetData F)
        → double.lt t.x s.x ≡ true
        → Above t data_points
        → Apart s data_points
        → Above t (insert_sample F s data_points)
    unfolding insert_sample
    Above-insert_sample t s [] h p q = (h, tt)
    Above-insert_sample t s (u ∷ rest) h p (inl g, q) = rw g (h, p)
    Above-insert_sample t s (u ∷ rest) h p (inr g, q) =
        rw (asymmetric u.x s.x g) (rw g (p.0, Above-insert_sample t s rest h p.1 q))

    insert_sample-Ascending :
        (s : Sample F) (data_points : InterpSetData F)
        → Apart s data_points
        → Ascending data_points
        → Ascending (insert_sample F s data_points)
    unfolding insert_sample
    insert_sample-Ascending s [] p q = (tt, tt)
    insert_sample-Ascending s (t ∷ rest) (inl h, p) q =
        rw h ((h, Above-transitive s t rest h q.0), q)
    insert_sample-Ascending s (t ∷ rest) (inr h, p) q =
        rw (asymmetric t.x s.x h)
          (rw h (Above-insert_sample t s rest h q.0 p, insert_sample-Ascending s rest p q.1))

    Apart-insert_sample :
        (r s : Sample F) (data_points : InterpSetData F)
        → (double.lt r.x s.x ≡ true) ⊎ (double.lt s.x r.x ≡ true)
        → Apart r data_points
        → Apart s data_points
        → Apart r (insert_sample F s data_points)
    unfolding insert_sample
    Apart-insert_sample r s [] d p q = (d, tt)
    Apart-insert_sample r s (u ∷ rest) d p (inl g, q) = rw g (d, p)
    Apart-insert_sample r s (u ∷ rest) d p (inr g, q) =
        rw (asymmetric u.x s.x g) (rw g (p.0, Apart-insert_sample r s rest d p.1 q))

    AllApart-insert_sample :
        (s : Sample F) (samples : List (Sample F)) (data_points : InterpSetData F)
        → Apart s samples
        → AllApart samples data_points
        → Apart s data_points
        → AllApart samples (insert_sample F s data_points)
    AllApart-insert_sample s [] d p q a = tt
    AllApart-insert_sample s (r ∷ rest) d p q a =
        (Apart-insert_sample r s d (swap p.0) q.0 a, AllApart-insert_sample s rest d p.1 q.1 a)

    In-insert_all :
        (s : Sample F) (samples : List (Sample F)) (data_points : InterpSetData F)
        → Distinct samples
        → AllApart samples data_points
        → In s data_points
        → In s (insert_all samples data_points)
    unfolding insert_all
    In-insert_all s [] d p q i = i
    In-insert_all s (r ∷ rest) d p q i =
        In-insert_all s rest (insert_sample F r d) p.1 (AllApart-insert_sample r rest d p.0 q.1 q.0)
          (In-insert_sample r s d q.0 i)

    insert_all-In :
        (s : Sample F) (samples : List (Sample F)) (data_points : InterpSetData F)
        → Distinct samples
        → AllApart samples data_points
        → In s samples
        → In s (insert_all samples data_points)
    unfolding insert_all
    insert_all-In s [] d p q i = elim i [ ]
    insert_all-In s (_ ∷ rest) d p q here =
        In-insert_all s rest (insert_sample F s d) p.1 (AllApart-insert_sample s rest d p.0 q.1 q.0)
          (insert_sample-In s d q.0)
    insert_all-In s (r ∷ rest) d p q (there i) =
        insert_all-In s rest (insert_sample F r d) p.1 (AllApart-insert_sample r rest d p.0 q.1 q.0)
          i

    insert_all-Ascending :
        (samples : List (Sample F)) (data_points : InterpSetData F)
        → Distinct samples
        → AllApart samples data_points
        → Ascending data_points
        → Ascending (insert_all samples data_points)
    unfolding insert_all
    insert_all-Ascending [] d p q a = a
    insert_all-Ascending (r ∷ rest) d p q a =
        insert_all-Ascending rest (insert_sample F r d) p.1
          (AllApart-insert_sample r rest d p.0 q.1 q.0) (insert_sample-Ascending r d q.0 a)

    AllApart-empty : (samples : List (Sample F)) → AllApart samples []
    AllApart-empty [] = tt
    AllApart-empty (s ∷ rest) = (tt, AllApart-empty rest)

    -- Where the comparison of numbers is irreflexive and transitive: after any samples at pairwise
    -- different x have been inserted into an empty table, in any order, the table is ascending in x,
    -- and its value at the x of each of them, where that x equals itself, is the y of that sample.
    pub value-insert_all :
        (samples : List (Sample F)) (s : Sample F)
        → Distinct samples
        → In s samples
        → double.eq s.x s.x ≡ true
        → Ascending (insert_all samples []) × (value F s.x (insert_all samples []) ≡ some s.y)
    value-insert_all samples s p i h =
        let ascending = insert_all-Ascending samples [] p (AllApart-empty samples) tt in
        (
          ascending,
          value-In s (insert_all samples []) h ascending
              (insert_all-In s samples [] p (AllApart-empty samples) i),
        )
