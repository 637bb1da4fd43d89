-- ===== src/Fusion/Tests.antt =====
-- Examples of fusion, with fractions as numbers of millionths.
use laya_codex.Common.{ℕ, ◌+◌, ◌-◌, ◌*◌, ◌/◌, ◌≡◌, refl, max, [], ◌∷◌, List, ltb, leb, map, arith}
use laya_codex.Common.Text.{Text, codes}
use laya_codex.Fusion.{Floats, fuse_ranked_lists, fuse_scores}
use laya_codex.Fusion.Exact.{IsFused, fuse_ranked_lists-IsFused}

abbrev pub millionths : Floats ℕ
millionths = record {
  zero = 0;
  one = 1_000_000;
  half = 500_000;
  add = λ a b. a + b;
  sub = λ a b. a - b;
  mul = λ a b. a * b / 1_000_000;
  div = λ a b. a * 1_000_000 / max b 1;
  of_nat = λ n. n * 1_000_000;
  lt = ltb;
  total_lt = ltb;
  ge = λ a b. leb b a;
  max = λ a b. max a b;
}

abbrev signals : List (List Text)
signals =
    (codes "a" ∷ codes "b" ∷ codes "c" ∷ [])
    ∷ (codes "b" ∷ codes "c" ∷ codes "a" ∷ [])
    ∷ (codes "c" ∷ codes "b" ∷ [])
    ∷ []

fuse_ranked_lists-run :
    map {B = Text × ℕ} (λ e. e) (fuse_ranked_lists millionths signals 60_000_000)
    ≡ (codes "b", 49452) ∷ (codes "c", 49188) ∷ (codes "a", 32795) ∷ []
unfolding fuse_ranked_lists
fuse_ranked_lists-run = refl

fuse_ranked_lists-IsFused_example :
    IsFused millionths 60_000_000 signals (fuse_ranked_lists millionths signals 60_000_000)
fuse_ranked_lists-IsFused_example =
    fuse_ranked_lists-IsFused millionths signals 60_000_000
      (record { asym = λ x y h. ground arith; neg_trans = λ x y z h k. ground arith })

fuse_scores-run :
    map {B = Text × ℕ}
      (λ e. e)
      (fuse_scores millionths
        (((codes "b", 2) ∷ (codes "a", 1) ∷ []) ∷ ((codes "a", 1) ∷ (codes "c", 9) ∷ []) ∷ [])
        2)
    ≡ (codes "c", 9) ∷ (codes "a", 2) ∷ []
unfolding fuse_scores
fuse_scores-run = refl
