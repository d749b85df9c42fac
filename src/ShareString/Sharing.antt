-- ===== src/ShareString/Sharing.antt =====
-- core/cache/share_string.cpp: what every operation on the objects keeps.
use order_book_server_cpp.Prelude.{
  ℕ, ◌+◌, ◌^◌, ◌≤◌, ◌<◌, ◌≡◌, refl, sym, ap, ◌∙◌, some, List, [], ◌∷◌, ◌++◌, length, length-append,
  ◌==◌, arith, All, Bool-cases, inl, inr,
}
use order_book_server_cpp.CachePool.{returns}
use order_book_server_cpp.CachePool.Ownership.{acquire-Acquires}
use order_book_server_cpp.ShareString.{
  StringReference, ShareString, StringPool, retain, made, copy_construct, data_of, set_reference,
  new_share_string, check_release_current_data, assign,
}
use order_book_server_cpp.ShareString.Counts.{equal, new-IsCounted, unowned}
use order_book_server_cpp.ShareString.Store.{
  handles, HasString, IsStore, Store, Operation, construct, copy, substr, substr_with_end,
  assign_other, destroy, copy_construct-Copied, from_substr-Copied, from_substr_with_end-Copied,
  added, removed, Copied, refers_one, refers-one_at, IsCounted-congr,
}

-- Every string that an object has keeps its text.
Keeps : StringPool → StringPool → List ShareString → Type 0
Keeps p q objs = (a : ℕ) → 1 ≤ handles a objs → (q.objects a).text ≡ (p.objects a).text

data_of-Keeps :
    (p q : StringPool) (s : ShareString) (x : ℕ)
    → s.reference ≡ some x
    → (q.objects x).text ≡ (p.objects x).text
    → data_of q s ≡ data_of p s
unfolding data_of
data_of-Keeps p q s x e h = rw (data_of, e, h) refl

Keeps-All :
    (p q : StringPool) (objs : List ShareString)
    → All HasString objs
    → Keeps p q objs
    → All (λ s. data_of q s ≡ data_of p s) objs
unfolding Keeps
Keeps-All p q [] h k = tt
Keeps-All p q (s ∷ objs) h k =
    let (x, e) = h.0 in
    (
      data_of-Keeps p q s x e (k x (omega (arith, refers_one x s e))),
      Keeps-All p q objs h.1 (λ a m. k a (omega arith)),
    )

retain-text : (x a : ℕ) (p : StringPool) → ((retain x p).objects a).text ≡ (p.objects a).text
unfolding retain
retain-text x a p = elim (Bool-cases (x == a)) [
  | inl e ↦ rw e (ap (λ y. (p.objects y).text) (equal x a e))
  | inr e ↦ rw e refl
]

Copied-Keeps :
    (p q : StringPool) (s t : ShareString) (objs : List ShareString)
    → Copied p s q t
    → Keeps p q objs
unfolding Keeps
Copied-Keeps p q s t objs (x, has_x, same, ref) a m = rw same (retain-text x a p)

module _ (Size : ℕ) where
  constructed :
      (text : List ℕ) (p q : StringPool) (s : ShareString) (objs : List ShareString)
      → IsStore Size p objs
      → new_share_string Size text p ≡ returns (q, s)
      → IsStore Size q (s ∷ objs) × Keeps p q objs
  unfolding new_share_string Keeps
  constructed text p q s objs ([], used, v, named) h =
      cc (rw (new_share_string, acquire-Acquires Size (λ r. r) p [] used v.pool) at h)
  constructed text p q s objs (x ∷ free, used, v, named) h =
      let (c, done, w, fresh, same) = acquire-Acquires Size (λ r. r) p (x ∷ free) used v.pool in
      let e = rw (new_share_string, done) at h in
      let r : StringReference = record { text = text; count = 1 } in
      let is_q : set_reference x r c ≡ q = cc e in
      let is_s : record { reference = some x; start_index = 0; length = length text } ≡ s = cc e in
      let has_x : s.reference ≡ some x = sym (ap (λ (o : ShareString). o.reference) is_s) in
      let counted =
        new-IsCounted Size x p c r free used (λ a. handles a objs) v w fresh same refl in
      (
        (
          free,
          x ∷ used,
          rw is_q at (
              IsCounted-congr Size (set_reference x r c) free (x ∷ used) _
                (λ a. handles a (s ∷ objs)) (λ a. omega (arith, refers-one_at x a s has_x))
                counted),
          ((x, has_x), named),
        ),
        λ a m. elim (Bool-cases (x == a)) [
          | inl f ↦ absurd (
              omega (
                arith,
                unowned Size x p (x ∷ free) used (λ a. handles a objs) v fresh,
                ap (λ y. handles y objs) (equal x a f),
              ))
          | inr f ↦ rw (sym is_q) (rw (f, same a, f) refl)
        ],
      )

  -- A new object for the string of one of the objects.
  after_copy :
      (p q : StringPool) (s t : ShareString) (before after : List ShareString)
      → IsStore Size p (before ++ s ∷ after)
      → length (before ++ s ∷ after) + 1 < 2 ^ 32
      → Copied p s q t
      → IsStore Size q (t ∷ (before ++ s ∷ after))
        × All (λ s. data_of q s ≡ data_of p s) (before ++ s ∷ after)
  after_copy p q s t before after v small copied =
      let objs = before ++ s ∷ after in
      (
        added Size p q s t before after [] objs v refl small copied,
        Keeps-All p q objs v.3 (Copied-Keeps p q s t objs copied),
      )

  after_assign :
      (p q : StringPool) (s other t : ShareString) (before after left right : List ShareString)
      → before ++ after ≡ left ++ other ∷ right
      → IsStore Size p (before ++ s ∷ after)
      → length (before ++ s ∷ after) + 1 < 2 ^ 32
      → assign Size p s other ≡ returns (made q t)
      → IsStore Size q (before ++ t ∷ after)
        × All (λ s. data_of q s ≡ data_of p s) (before ++ s ∷ after)
  unfolding assign Keeps
  after_assign p q s other t before after left right same v small h =
      let objs = before ++ s ∷ after in
      let (r, done, w, texts) = removed Size p s before after v (omega arith) in
      let made_there : copy_construct r other ≡ made q t = cc (rw (assign, done) at h) in
      let copied = copy_construct-Copied r q other t made_there in
      let room : length (before ++ after) + 1 < 2 ^ 32 =
        omega (arith, length-append before after, length-append before (s ∷ after)) in
      let (x, has_x, is_q, ref) = copied in
      (
        added Size r q other t left right before after w same room copied,
        Keeps-All p q objs v.3 (λ a m. rw is_q (retain-text x a r) ∙ texts a),
      )

  after_destroy :
      (p q : StringPool) (s : ShareString) (before after : List ShareString)
      → IsStore Size p (before ++ s ∷ after)
      → length (before ++ s ∷ after) + 1 < 2 ^ 32
      → check_release_current_data Size p s ≡ returns q
      → IsStore Size q (before ++ after)
        × All (λ s. data_of q s ≡ data_of p s) (before ++ s ∷ after)
  unfolding Keeps
  after_destroy p q s before after v small h =
      let (r, done, w, texts) = removed Size p s before after v (omega arith) in
      let is_q : r ≡ q = cc (done, h) in
      rw (sym is_q) (w, Keeps-All p r (before ++ s ∷ after) v.3 (λ a m. texts a))

  -- Let the strings that are handed out be those that a live object has, the count of each be the
  -- number of its objects, and 2 ^ 32 - 2 objects live at most. Then the same holds after any operation
  -- on the objects, a constructor, a copy, a part, an assignment from another object or a destructor:
  -- a string goes back to the pool with its last object and not before. No object's text changes.
  pub Operation-IsStore :
      (st st' : Store)
      → IsStore Size st.0 st.1
      → length st.1 + 1 < 2 ^ 32
      → Operation Size st st'
      → IsStore Size st'.0 st'.1 × All (λ s. data_of st'.0 s ≡ data_of st.0 s) st.1
  Operation-IsStore _ _ v small (construct text p q s objs h) =
      let (w, kept) = constructed text p q s objs v h in (w, Keeps-All p q objs v.3 kept)
  Operation-IsStore _ _ v small (copy p q s t before after h) =
      after_copy p q s t before after v small (copy_construct-Copied p q s t h)
  Operation-IsStore _ _ v small (substr start size p q s t before after h) =
      after_copy p q s t before after v small (from_substr-Copied start size p q s t h)
  Operation-IsStore _ _ v small (substr_with_end start last p q s t before after h) =
      after_copy p q s t before after v small (from_substr_with_end-Copied start last p q s t h)
  Operation-IsStore _ _ v small (assign_other p q s other t before after left right same h) =
      after_assign p q s other t before after left right same v small h
  Operation-IsStore _ _ v small (destroy p q s before after h) =
      after_destroy p q s before after v small h
