-- ===== src/Examples/Text.antt =====
-- LIKE.
use custom_db.Prelude.{◌≡◌, refl, true, false, [], ◌∷◌, ◌↔◌, suc, replicate, arith}
use custom_db.Catalog.Types.{nocase, binary}
use custom_db.Executor.Like.{like_match}
use custom_db.Executor.Like.Laws.{Matches, like_match_iff, like_match_percents}

ends_in_o : like_match nocase (b'h' ∷ b'%' ∷ b'_' ∷ []) (b'H' ∷ b'o' ∷ []) ≡ true
unfolding like_match
ends_in_o = refl

like_match_iff_example :
    (like_match nocase (b'h' ∷ b'%' ∷ b'_' ∷ []) (b'H' ∷ b'o' ∷ []) ≡ true)
    ↔ Matches nocase (b'h' ∷ b'%' ∷ b'_' ∷ []) (b'H' ∷ b'o' ∷ [])
like_match_iff_example =
    like_match_iff nocase (b'h' ∷ b'%' ∷ b'_' ∷ []) (b'H' ∷ b'o' ∷ [])
      (λ e. absurd (omega (arith, e.0)), (λ e. absurd (omega (arith, e.1)), tt))

like_match_percents_example :
    (like_match binary (replicate (suc (suc 0)) b'%') [] ≡ false)
    × Matches binary (replicate (suc (suc 0)) b'%') []
like_match_percents_example = like_match_percents binary 0
