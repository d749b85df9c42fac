-- ===== src/ShareString/Release.antt =====
-- core/cache/share_string.cpp: an object lets go of its string.
use order_book_server_cpp.Prelude.{
  ℕ, ◌-◌, ◌^◌, ◌≤◌, ◌<◌, ◌≡◌, refl, ap, ◌∙◌, some, true, false, List, [], ◌∷◌, ◌++◌, ◌==◌, arith,
  Bool-cases, inl, inr,
}
use order_book_server_cpp.Prelude.Ring.{write}
use order_book_server_cpp.CachePool.{returns}
use order_book_server_cpp.CachePool.Ownership.{IsPool, release-IsPool}
use order_book_server_cpp.ShareString.{
  StringReference, ShareString, StringPool, release_count, check_release_current_data,
}
use order_book_server_cpp.ShareString.Counts.{
  one_at, IsCounted, equal, split, IsPool-set_reference, fewer-IsCounted, last-IsCounted,
}

release_count-text :
    (x a : ℕ) (p : StringPool) → ((release_count x p).0.objects a).text ≡ (p.objects a).text
unfolding release_count
release_count-text x a p = elim (Bool-cases (x == a)) [
  | inl e ↦ rw e (ap (λ y. (p.objects y).text) (equal x a e))
  | inr e ↦ rw e refl
]

release_count-other :
    (x a : ℕ) (p : StringPool) → (x == a) ≡ false → (release_count x p).0.objects a ≡ p.objects a
unfolding release_count
release_count-other x a p e = rw e refl

release_count-old : (x : ℕ) (p : StringPool) → (release_count x p).1 ≡ (p.objects x).count
unfolding release_count
release_count-old x p = refl

write-same : (f : ℕ → StringReference) (x a : ℕ) → write f x (f x) a ≡ f a
write-same f x a = elim (Bool-cases (x == a)) [
  | inl e ↦ rw e (ap f (equal x a e))
  | inr e ↦ rw e refl
]

module _ (Size : ℕ) where
  release_last :
      (s : ShareString) (x : ℕ) (p : StringPool) (free before after : List ℕ) (h : ℕ → ℕ)
      → IsCounted Size p free (before ++ x ∷ after) h
      → s.reference ≡ some x
      → h x ≡ 1
      → ((release_count x p).1 == 1) ≡ true
      → (q : StringPool) × (free' : List ℕ) × (used' : List ℕ) × (check_release_current_data Size p
            s
          ≡ returns q)
        × IsCounted Size q free' used' (λ a. h a - one_at x a)
        × ((a : ℕ) → (q.objects a).text ≡ (p.objects a).text)
  unfolding check_release_current_data
  release_last s x p free before after h v r one e =
      let pool : IsPool Size (release_count x p).0 free (before ++ x ∷ after) =
        unfold release_count in IsPool-set_reference Size x _ p free (before ++ x ∷ after) v.pool in
      let (q, done, w, same) =
        release-IsPool Size (λ r. r) (release_count x p).0 x free before after pool in
      let kept = λ (a : ℕ). same a ∙ write-same (release_count x p).0.objects x a in
      (
        q,
        free ++ x ∷ [],
        before ++ after,
        rw (check_release_current_data, r, e) done,
        last-IsCounted Size x p q free before after h v one w
            (λ a n. kept a ∙ release_count-other x a p n),
        λ a. ap (λ o. o.text) (kept a) ∙ release_count-text x a p,
      )

  -- `check_release_current_data` of an object of a string that is handed out does not throw, leaves
  -- every text in the pool as it is, and counts one object less.
  pub check_release_current_data-IsCounted :
      (s : ShareString) (x : ℕ) (p : StringPool) (free used : List ℕ) (h : ℕ → ℕ)
      → IsCounted Size p free used h
      → s.reference ≡ some x
      → 1 ≤ h x
      → h x < 2 ^ 32
      → (q : StringPool) × (free' : List ℕ) × (used' : List ℕ) × (check_release_current_data Size p
            s
          ≡ returns q)
        × IsCounted Size q free' used' (λ a. h a - one_at x a)
        × ((a : ℕ) → (q.objects a).text ≡ (p.objects a).text)
  unfolding check_release_current_data
  check_release_current_data-IsCounted s x p free used h v r one small =
      let old = release_count-old x p ∙ v.counts x (v.owned x one) in
      elim (Bool-cases ((release_count x p).1 == 1)) [
        | inl e ↦
            let (before, after, same) = split x used (v.owned x one) in
            release_last s x p free before after h (rw same at v) r (ground (arith, old)) e
        | inr e ↦ (
          (release_count x p).0,
          free,
          used,
          rw (check_release_current_data, r, e) refl,
          fewer-IsCounted Size x p free used h v (ground (arith, old)) small,
          λ a. release_count-text x a p,
        )
      ]
