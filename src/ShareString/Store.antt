-- ===== src/ShareString/Store.antt =====
-- core/cache/share_string.cpp: all the live objects, and the operations on them.
use order_book_server_cpp.Prelude.{
  ℕ, ◌+◌, ◌-◌, ◌%◌, ◌^◌, ◌≤◌, ◌<◌, ◌≡◌, refl, sym, ap, ◌∙◌, none, some, ◌&&◌, List, [], ◌∷◌, ◌++◌,
  length, ltb, leb, ◌==◌, arith, All, Bool-cases, Option-cases, inl, inr, ==_refl,
}
use order_book_server_cpp.CachePool.{returns}
use order_book_server_cpp.ShareString.{
  ShareString, StringPool, retain, Made, made, out_of_range, null_reference, copy_construct, narrow,
  from_substr, from_substr_with_end, new_share_string, check_release_current_data, assign,
}
use order_book_server_cpp.ShareString.Release.{check_release_current_data-IsCounted}
use order_book_server_cpp.ShareString.Counts.{one_at, IsCounted, retain-IsCounted}

-- Whether an object refers to the string at an address, as a number.
abbrev pub refers : ℕ → ShareString → ℕ
refers a s = elim s.reference [ none ↦ 0 | some x ↦ one_at x a ]

-- How many of the objects refer to it.
abbrev pub handles : ℕ → List ShareString → ℕ
handles a [] = 0
handles a (s ∷ objs) = refers a s + handles a objs

abbrev pub HasString : ShareString → Type 0
HasString s = (x : ℕ) × (s.reference ≡ some x)

-- The objects that live, in any order: each has a string, and the strings of the pool that are handed
-- out are those that an object has, each counting its objects.
abbrev pub IsStore : ℕ → StringPool → List ShareString → Type 0
IsStore Size p objs =
    (free : List ℕ) × (used : List ℕ) × IsCounted Size p free used (λ a. handles a objs)
    × All HasString objs

abbrev pub Store : Type 0
Store = StringPool × List ShareString

pub data Operation (Size : ℕ) : Store → Store → Type 0 where
  construct :
      (text : List ℕ) (p q : StringPool) (s : ShareString) (objs : List ShareString)
      → new_share_string Size text p ≡ returns (q, s)
      → Operation Size (p, objs) (q, s ∷ objs)
  copy :
      (p q : StringPool) (s t : ShareString) (before after : List ShareString)
      → copy_construct p s ≡ made q t
      → Operation Size (p, before ++ s ∷ after) (q, t ∷ (before ++ s ∷ after))
  substr :
      (start size : ℕ) (p q : StringPool) (s t : ShareString) (before after : List ShareString)
      → from_substr p s start size ≡ made q t
      → Operation Size (p, before ++ s ∷ after) (q, t ∷ (before ++ s ∷ after))
  substr_with_end :
      (start last : ℕ) (p q : StringPool) (s t : ShareString) (before after : List ShareString)
      → from_substr_with_end p s start last ≡ made q t
      → Operation Size (p, before ++ s ∷ after) (q, t ∷ (before ++ s ∷ after))
  assign_other :
      (p q : StringPool) (s other t : ShareString) (before after left right : List ShareString)
      → before ++ after ≡ left ++ other ∷ right
      → assign Size p s other ≡ returns (made q t)
      → Operation Size (p, before ++ s ∷ after) (q, before ++ t ∷ after)
  destroy :
      (p q : StringPool) (s : ShareString) (before after : List ShareString)
      → check_release_current_data Size p s ≡ returns q
      → Operation Size (p, before ++ s ∷ after) (q, before ++ after)

-- What a copy, whole or a part, comes to.
abbrev pub Copied : StringPool → ShareString → StringPool → ShareString → Type 0
Copied p s q t = (x : ℕ) × (s.reference ≡ some x) × (q ≡ retain x p) × (t.reference ≡ some x)

pub copy_construct-Copied :
    (p q : StringPool) (s t : ShareString) → copy_construct p s ≡ made q t → Copied p s q t
unfolding copy_construct
copy_construct-Copied p q s t h = elim (Option-cases s.reference) [
  | inl e ↦ cc (rw (copy_construct, e) at h)
  | inr (x, e) ↦
      let same : made (retain x p) s ≡ made q t = rw (copy_construct, e) at h in
      (x, e, cc same, cc (same, e))
]

narrow-Copied :
    (start size : ℕ) (p q : StringPool) (s t : ShareString) (m : Made)
    → copy_construct p s ≡ m
    → narrow start size m ≡ made q t
    → Copied p s q t
narrow-Copied start size p q s t (made r u) e h =
    let (x, has_x, same, ref) = copy_construct-Copied p r s u e in
    let part : record u { start_index = (u.start_index + start) % 2 ^ 64; length = size % 2 ^ 64 }
        ≡ t =
      cc h in
    (x, has_x, cc (h, same), sym (ap (λ (o : ShareString). o.reference) part) ∙ ref)
narrow-Copied start size p q s t out_of_range e h = cc
narrow-Copied start size p q s t null_reference e h = cc

pub from_substr-Copied :
    (start size : ℕ) (p q : StringPool) (s t : ShareString)
    → from_substr p s start size ≡ made q t
    → Copied p s q t
unfolding from_substr
from_substr-Copied start size p q s t h =
    elim (Bool-cases (leb ((start + size) % 2 ^ 64) s.length)) [
      | inl e ↦
          narrow-Copied start size p q s t (copy_construct p s) refl (rw (from_substr, e) at h)
      | inr e ↦ cc (rw (from_substr, e) at h)
    ]

pub from_substr_with_end-Copied :
    (start last : ℕ) (p q : StringPool) (s t : ShareString)
    → from_substr_with_end p s start last ≡ made q t
    → Copied p s q t
unfolding from_substr_with_end
from_substr_with_end-Copied start last p q s t h =
    elim (Bool-cases (ltb start s.length && (leb last s.length && ltb start last))) [
      | inl e ↦
          narrow-Copied start (last - start + 1) p q s t (copy_construct p s) refl
            (rw (from_substr_with_end, e) at h)
      | inr e ↦ cc (rw (from_substr_with_end, e) at h)
    ]

handles-around :
    (a : ℕ) (before after : List ShareString) (s : ShareString)
    → handles a (before ++ s ∷ after) ≡ handles a (before ++ after) + refers a s
handles-around a [] after s = omega arith
handles-around a (t ∷ before) after s = omega (arith, handles-around a before after s)

handles-le : (a : ℕ) (objs : List ShareString) → handles a objs ≤ length objs
handles-le a [] = omega arith
handles-le a (s ∷ objs) = elim (Option-cases s.reference) [
  | inl e ↦ rw e (omega (arith, handles-le a objs))
  | inr (x, e) ↦ elim (Bool-cases (x == a)) [
    | inl f ↦ rw (e, f) (omega (arith, handles-le a objs))
    | inr f ↦ rw (e, f) (omega (arith, handles-le a objs))
  ]
]

pub IsCounted-congr :
    (Size : ℕ) (p : StringPool) (free used : List ℕ) (h g : ℕ → ℕ)
    → ((a : ℕ) → h a ≡ g a)
    → IsCounted Size p free used h
    → IsCounted Size p free used g
IsCounted-congr Size p free used h g same v = record {
  pool = v.pool;
  counts = λ a m. v.counts a m ∙ same a;
  positive = λ a m. omega (arith, v.positive a m, same a);
  owned = λ a m. v.owned a (omega (arith, same a));
}

All-around :
    (before after : List ShareString) (s : ShareString)
    → All HasString (before ++ after)
    → HasString s
    → All HasString (before ++ s ∷ after)
All-around [] after s h k = (k, h)
All-around (t ∷ before) after s h k = (h.0, All-around before after s h.1 k)

pub All-without :
    (before after : List ShareString) (s : ShareString)
    → All HasString (before ++ s ∷ after)
    → All HasString (before ++ after) × HasString s
All-without [] after s h = (h.1, h.0)
All-without (t ∷ before) after s h =
    let (rest, here) = All-without before after s h.1 in ((h.0, rest), here)

pub refers_one : (x : ℕ) (s : ShareString) → s.reference ≡ some x → refers x s ≡ 1
refers_one x s e = rw e (rw (==_refl x) refl)

pub refers-one_at : (x a : ℕ) (s : ShareString) → s.reference ≡ some x → refers a s ≡ one_at x a
refers-one_at x a s e = rw e refl

module _ (Size : ℕ) where
  -- A copy, whole or a part, put among the objects.
  pub added :
      (p q : StringPool) (s t : ShareString) (left right before after : List ShareString)
      → IsStore Size p (before ++ after)
      → before ++ after ≡ left ++ s ∷ right
      → length (before ++ after) + 1 < 2 ^ 32
      → Copied p s q t
      → IsStore Size q (before ++ t ∷ after)
  added p q s t left right before after (free, used, v, named) same small
        (x, has_x, copied, t_has_x) =
      let one : 1 ≤ handles x (before ++ after) =
        rw same (omega (arith, handles-around x left right s, refers_one x s has_x)) in
      let room : handles x (before ++ after) + 1 < 2 ^ 32 =
        omega (arith, handles-le x (before ++ after)) in
      (
        free,
        used,
        rw copied (
            IsCounted-congr Size (retain x p) free used _ _
              (λ a. omega (arith, handles-around a before after t, refers-one_at x a t t_has_x))
              (retain-IsCounted Size x p free used (λ a. handles a (before ++ after)) v one room)),
        All-around before after t named (x, t_has_x),
      )

  -- An object taken out.
  pub removed :
      (p : StringPool) (s : ShareString) (before after : List ShareString)
      → IsStore Size p (before ++ s ∷ after)
      → length (before ++ s ∷ after) < 2 ^ 32
      → (q : StringPool) × (check_release_current_data Size p s ≡ returns q)
        × IsStore Size q (before ++ after)
        × ((a : ℕ) → (q.objects a).text ≡ (p.objects a).text)
  removed p s before after (free, used, v, named) small =
      let (rest, here) = All-without before after s named in
      let (x, has_x) = here in
      let around = handles-around x before after s in
      let one = refers_one x s has_x in
      let (q, free', used', done, w, texts) =
        check_release_current_data-IsCounted Size s x p free used
          (λ a. handles a (before ++ s ∷ after)) v has_x (omega (arith, around, one))
          (omega (arith, handles-le x (before ++ s ∷ after))) in
      (
        q,
        done,
        (
          free',
          used',
          IsCounted-congr Size q free' used' _ _
              (λ a. omega (arith, handles-around a before after s, refers-one_at x a s has_x)) w,
          rest,
        ),
        texts,
      )
