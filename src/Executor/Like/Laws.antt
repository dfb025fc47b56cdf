-- ===== src/Executor/Like/Laws.antt =====
-- `like_match` against the relation that SQL's LIKE defines.
use custom_db.Prelude.{
  ℕ, zero, suc, ◌≡◌, ◌≢◌, refl, ◌↔◌, inl, inr, Bool, true, false, List, [], ◌∷◌, arith, ◌==◌,
  Bool-cases, ==_iff, replicate,
}
use custom_db.Catalog.Types.{CollationType}
use custom_db.Executor.Like.{same_char, any_suffix, like_percent, like_one, like_match}

-- '%' stands for any text, '_' for one character, any other character for one that compares equal.
pub data Matches (coll : CollationType) : List ℕ → List ℕ → Type 0 where
  done : Matches coll [] []
  skip : {p : ℕ} {ps s : List ℕ} → p ≡ b'%' → Matches coll ps s → Matches coll (p ∷ ps) s
  take :
      {p c : ℕ} {ps s : List ℕ} → p ≡ b'%' → Matches coll (p ∷ ps) s → Matches coll (p ∷ ps) (c ∷ s)
  one : {p c : ℕ} {ps s : List ℕ} → p ≡ b'_' → Matches coll ps s → Matches coll (p ∷ ps) (c ∷ s)
  char :
      {p c : ℕ} {ps s : List ℕ}
      → p ≢ b'%'
      → p ≢ b'_'
      → same_char coll p c ≡ true
      → Matches coll ps s
      → Matches coll (p ∷ ps) (c ∷ s)

-- No two percent signs stand next to each other.

abbrev pub NoDouble : List ℕ → Type 0
NoDouble [] = Unit
NoDouble (p ∷ []) = Unit
NoDouble (p ∷ q ∷ ps) = ¬ ((p ≡ b'%') × (q ≡ b'%')) × NoDouble (q ∷ ps)

module _ (coll : CollationType) where
  ends : (p : ℕ) (s : List ℕ) → p ≡ b'%' → Matches coll (p ∷ []) s
  ends p [] e = skip e done
  ends p (c ∷ s) e = take e (ends p s e)

  any_suffix-Matches :
      (matches : List ℕ → Bool) (p : ℕ) (ps : List ℕ)
      → ((t : List ℕ) → matches t ≡ true → Matches coll ps t)
      → p ≡ b'%'
      → (s : List ℕ) → any_suffix matches s ≡ true
      → Matches coll (p ∷ ps) s
  unfolding any_suffix
  any_suffix-Matches matches p ps sound e [] h = cc
  any_suffix-Matches matches p ps sound e (c ∷ s) h = elim (Bool-cases (matches (c ∷ s))) [
    | inl now ↦ skip e (sound (c ∷ s) now)
    | inr later ↦ take e (any_suffix-Matches matches p ps sound e s (rw later at h))
  ]

  like_percent-Matches :
      (matches : List ℕ → Bool) (p : ℕ) (ps : List ℕ)
      → ((t : List ℕ) → matches t ≡ true → Matches coll ps t)
      → p ≡ b'%'
      → (s : List ℕ) → like_percent matches ps s ≡ true
      → Matches coll (p ∷ ps) s
  unfolding like_percent
  like_percent-Matches matches p [] sound e s h = ends p s e
  like_percent-Matches matches p (q ∷ qs) sound e s h =
      any_suffix-Matches matches p (q ∷ qs) sound e s h

  like_one-Matches :
      (matches : List ℕ → Bool) (p : ℕ) (ps : List ℕ)
      → ((t : List ℕ) → matches t ≡ true → Matches coll ps t)
      → p ≢ b'%'
      → (s : List ℕ) → like_one coll p matches s ≡ true
      → Matches coll (p ∷ ps) s
  unfolding like_one
  like_one-Matches matches p ps sound n [] h = cc
  like_one-Matches matches p ps sound n (c ∷ s) h = elim (Bool-cases (p == b'_')) [
    | inl any ↦ one ((==_iff _ _).0 any) (sound s (rw any at h))
    | inr lit ↦ elim (Bool-cases (same_char coll p c)) [
      | inl same ↦ char n (ground arith) same (sound s (rw (lit, same) at h))
      | inr other ↦ cc (rw (lit, other) at h)
    ]
  ]

-- A match that the code reports is one.
pub like_match-Matches :
    (coll : CollationType) (p s : List ℕ) → like_match coll p s ≡ true → Matches coll p s
unfolding like_match
like_match-Matches coll [] [] h = done
like_match-Matches coll [] (c ∷ s) h = cc
like_match-Matches coll (p ∷ ps) s h = elim (Bool-cases (p == b'%')) [
  | inl star ↦
      like_percent-Matches coll _ p ps (like_match-Matches coll ps) ((==_iff _ _).0 star) s
        (rw star at h)
  | inr lit ↦
      like_one-Matches coll _ p ps (like_match-Matches coll ps) (ground arith) s (rw lit at h)
]

NoDouble-tail : (p : ℕ) (ps : List ℕ) → NoDouble (p ∷ ps) → NoDouble ps
NoDouble-tail p [] h = tt
NoDouble-tail p (q ∷ qs) h = h.1

star_of_nil : {coll : CollationType} {q : ℕ} {qs : List ℕ} → Matches coll (q ∷ qs) [] → q ≡ b'%'
star_of_nil (skip e d) = e

like_percent-skip :
    (coll : CollationType) (matches : List ℕ → Bool) (p : ℕ) (ps s : List ℕ)
    → p ≡ b'%'
    → NoDouble (p ∷ ps)
    → Matches coll ps s
    → matches s ≡ true
    → like_percent matches ps s ≡ true
unfolding like_percent any_suffix
like_percent-skip coll matches p [] s e n d h = refl
like_percent-skip coll matches p (q ∷ qs) [] e n d h = absurd (n.0 (e, star_of_nil d))
like_percent-skip coll matches p (q ∷ qs) (c ∷ s) e n d h = ground arith

like_percent-take :
    (matches : List ℕ → Bool) (ps s : List ℕ) (c : ℕ)
    → like_percent matches ps s ≡ true
    → like_percent matches ps (c ∷ s) ≡ true
unfolding like_percent any_suffix
like_percent-take matches [] s c h = refl
like_percent-take matches (q ∷ qs) s c h = ground arith

Matches-like_match :
    {coll : CollationType} {p s : List ℕ}
    → Matches coll p s
    → NoDouble p
    → like_match coll p s ≡ true
unfolding like_match like_one
Matches-like_match done n = refl
Matches-like_match {coll} (skip {p} {ps} {s} e d) n = rw ((==_iff _ _).1 e) (
    like_percent-skip coll (like_match coll ps) p ps s e n d
      (Matches-like_match d (NoDouble-tail p ps n)))
Matches-like_match {coll} (take {p} {c} {ps} {s} e d) n = rw ((==_iff _ _).1 e) (
    like_percent-take (like_match coll ps) ps s c
      (rw ((==_iff _ _).1 e) at (Matches-like_match d n)))
Matches-like_match (one {p} {c} {ps} {s} e d) n =
    let ih = Matches-like_match d (NoDouble-tail p ps n) in ground arith
Matches-like_match (char {p} {c} {ps} {s} ne1 ne2 same d) n =
    let ih = Matches-like_match d (NoDouble-tail p ps n) in ground arith

-- On a pattern with no two adjacent percent signs, `sql_like_match` answers true exactly on the
-- texts that match the pattern, under every collation.
pub like_match_iff :
    (coll : CollationType) (p s : List ℕ)
    → NoDouble p
    → (like_match coll p s ≡ true) ↔ Matches coll p s
like_match_iff coll p s n = (like_match-Matches coll p s, λ d. Matches-like_match d n)

-- A pattern of two or more percent signs matches the empty text, and `sql_like_match` refuses it.
pub like_match_percents :
    (coll : CollationType) (n : ℕ)
    → (like_match coll (replicate (suc (suc n)) b'%') [] ≡ false)
      × Matches coll (replicate (suc (suc n)) b'%') []
unfolding like_match like_percent any_suffix
like_match_percents coll n = (refl, skip refl (skip refl (all_skipped n)))
  where
    all_skipped : (k : ℕ) → Matches coll (replicate k b'%') []
    all_skipped zero = done
    all_skipped (suc k) = skip refl (all_skipped k)
