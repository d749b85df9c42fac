-- ===== src/MpscQueue/Threads/Slots.antt =====
-- core/queue/mpsc_queue.h: what the slots hold while the threads take steps.
use order_book_server_cpp.Prelude.{
  ℕ, suc, ◌+◌, ◌-◌, ◌%◌, ◌<◌, ◌≤◌, ◌≡◌, ◌≢◌, refl, sym, ◌∙◌, ap, Option, none, some, List, [], ◌∷◌,
  ◌++◌, length, length-append, get_elem?, get_elem?-get_or, get_elem?-append_left,
  get_elem?-append_end, ltb, leb, ltb→lt, leb→le, ◌==◌, ==_refl, arith, Bool-cases, inl, inr,
}
use order_book_server_cpp.Prelude.Ring.{write, write_off, mod_ne, add_round}
use order_book_server_cpp.MpscQueue.Threads.{Stage, claimed, stored, counted, Push}

abbrev pub stored_item {ℓ} : {T : Type ℓ} → T → Stage → Option T
stored_item x claimed = none
stored_item x stored = some x
stored_item x counted = some x

-- What the slot of a push holds until `pop` clears it.
abbrev pub contents {ℓ} : {T : Type ℓ} → Option (Push T) → Option T
contents none = none
contents (some p) = stored_item p.item p.stage

-- The slots hold the items of the pushes from the first one that `pop` has not cleared on, for one
-- round of the ring; `taken` are the items cleared.
pub record IsRing {ℓ} {T : Type ℓ} (Size : ℕ) (items : ℕ → Option T) (f : ℕ → Option (Push T))
    (n : ℕ) (taken : List T) : Type ℓ where
  pub fresh : (k : ℕ) → n ≤ k → f k ≡ none
  pub indexed : (k : ℕ) (p : Push T) → f k ≡ some p → p.head_index ≡ k % Size
  pub behind : length taken ≤ n
  pub passed : (k : ℕ) → k < length taken → contents (f k) ≡ get_elem? taken k
  pub slots :
      (k : ℕ) → length taken ≤ k → k < length taken + Size → items (k % Size) ≡ contents (f k)

-- Two pushes of one round of the ring have slots of their own.
slots_apart : (n g j k : ℕ) → g ≤ j → j < g + n → g ≤ k → k < g + n → j ≢ k → j % n ≢ k % n
slots_apart n g j k h h' i i' apart same = elim (Bool-cases (ltb j k)) [
  | inl e ↦
      let back : j + (k - j) ≡ k = omega (arith, ltb→lt j k e) in
      mod_ne n j (k - j) (omega (arith, ltb→lt j k e)) (omega arith) (rw back same)
  | inr e ↦
      let more : k < j = ground arith in
      let back : k + (j - k) ≡ j = omega arith in
      mod_ne n k (j - k) (omega arith) (omega arith) (rw back (sym same))
]

module _ {ℓ} {T : Type ℓ} where
  pub contents-write :
      (f : ℕ → Option (Push T)) (k j : ℕ) (q : Push T)
      → contents (some q) ≡ contents (f k)
      → contents (write f k (some q) j) ≡ contents (f j)
  contents-write f k j q same = elim (Bool-cases (k == j)) [
    | inl e ↦ let here : k ≡ j = ground arith in rw e (same ∙ ap (λ i. contents (f i)) here)
    | inr e ↦ rw e refl
  ]

  indexed-write :
      (Size : ℕ) (f : ℕ → Option (Push T)) (k : ℕ) (q : Push T)
      → ((j : ℕ) (p : Push T) → f j ≡ some p → p.head_index ≡ j % Size)
      → q.head_index ≡ k % Size
      → (j : ℕ) (p : Push T) → write f k (some q) j ≡ some p
      → p.head_index ≡ j % Size
  indexed-write Size f k q old new j p h = elim (Bool-cases (k == j)) [
    | inl e ↦
        let here : k ≡ j = ground arith in
        let same : some q ≡ some p = rw e at h in
        let is_p : q ≡ p = cc same in rw here at (rw is_p at new)
    | inr e ↦ old j p (rw e at h)
  ]

  -- The exchange that moves the head changes no slot.
  pub claim-IsRing :
      (Size : ℕ) (items : ℕ → Option T) (f : ℕ → Option (Push T)) (n : ℕ) (taken : List T) (x : T)
      (head_index : ℕ)
      → IsRing Size items f n taken
      → head_index ≡ n % Size
      → IsRing Size items
          (write f n (some (record { item = x; head_index = head_index; stage = claimed })))
          (suc n)
          taken
  claim-IsRing Size items f n taken x head_index v e =
      let p : Push T = record { item = x; head_index = head_index; stage = claimed } in
      let same : contents (some p) ≡ contents (f n) = sym (ap contents (v.fresh n (omega arith))) in
      record {
        fresh = λ k h. write_off f n k _ (λ e. omega arith) ∙ v.fresh k (omega arith);
        indexed = indexed-write Size f n p v.indexed e;
        behind = omega (arith, v.behind);
        passed = λ k h. contents-write f n k p same ∙ v.passed k h;
        slots = λ k h i. v.slots k h i ∙ sym (contents-write f n k p same);
      }

  -- Nor does a change of a push that keeps its contents.
  pub changed-IsRing :
      (Size : ℕ) (items : ℕ → Option T) (f : ℕ → Option (Push T)) (n : ℕ) (taken : List T) (k : ℕ)
      (p q : Push T)
      → IsRing Size items f n taken
      → k < n
      → f k ≡ some p
      → q.head_index ≡ p.head_index
      → contents (some q) ≡ contents (some p)
      → IsRing Size items (write f k (some q)) n taken
  changed-IsRing Size items f n taken k p q v inside e index kept =
      let same : contents (some q) ≡ contents (f k) = kept ∙ sym (ap contents e) in
      record {
        fresh = λ j h. write_off f k j _ (λ e. omega arith) ∙ v.fresh j h;
        indexed = indexed-write Size f k q v.indexed (index ∙ v.indexed k p e);
        behind = v.behind;
        passed = λ j h. contents-write f k j q same ∙ v.passed j h;
        slots = λ j h i. v.slots j h i ∙ sym (contents-write f k j q same);
      }

  not_taken :
      (Size : ℕ) (items : ℕ → Option T) (f : ℕ → Option (Push T)) (n : ℕ) (taken : List T) (k : ℕ)
      (p : Push T)
      → IsRing Size items f n taken
      → f k ≡ some p
      → p.stage ≡ claimed
      → length taken ≤ k
  not_taken Size items f n taken k p v e g = elim (Bool-cases (leb (length taken) k)) [
    | inl h ↦ leb→le (length taken) k h
    | inr h ↦
        let passed = v.passed k (ground arith) in
        let there = get_elem?-get_or taken k p.item (ground arith) in
        let nothing : contents (f k) ≡ none = rw (e, g) refl in cc (passed, there, nothing)
  ]

  -- An item stored where the exchange said, while the items not cleared fill one round at most.
  pub store-IsRing :
      (Size : ℕ) (items : ℕ → Option T) (f : ℕ → Option (Push T)) (n : ℕ) (taken : List T) (k : ℕ)
      (p : Push T)
      → IsRing Size items f n taken
      → k < n
      → n ≤ length taken + Size
      → f k ≡ some p
      → p.stage ≡ claimed
      → IsRing Size
          (write items p.head_index (some p.item))
          (write f k (some (record p { stage = stored })))
          n
          taken
  store-IsRing Size items f n taken k p v inside room e g =
      let later = not_taken Size items f n taken k p v e g in
      let index = v.indexed k p e in
      record {
        fresh = λ j h. write_off f k j _ (λ e. omega arith) ∙ v.fresh j h;
        indexed = indexed-write Size f k (record p { stage = stored }) v.indexed index;
        behind = v.behind;
        passed = λ j h. ap contents (write_off f k j _ (λ e. omega arith)) ∙ v.passed j h;
        slots = λ j h i. elim (Bool-cases (k == j)) [
          | inl here ↦
              let same : p.head_index ≡ j % Size = index ∙ ap (λ i. i % Size) (ground arith) in
              rw (here, same, ==_refl (j % Size)) refl
          | inr off ↦
              let apart : p.head_index ≢ j % Size = λ same.
                slots_apart Size (length taken) k j later (omega arith) h i (λ m. ground arith)
                  (sym index ∙ same) in
              rw off (write_off items p.head_index (j % Size) (some p.item) apart ∙ v.slots j h i)
        ];
      }

  -- The slot of the oldest push cleared, while the items not cleared fill one round at most.
  pub clear-IsRing :
      (Size : ℕ) (items : ℕ → Option T) (f : ℕ → Option (Push T)) (n : ℕ) (taken : List T) (x : T)
      → IsRing Size items f n taken
      → 0 < Size
      → n ≤ length taken + Size
      → contents (f (length taken)) ≡ some x
      → IsRing Size (write items (length taken % Size) none) f n (taken ++ x ∷ [])
  clear-IsRing Size items f n taken x v roomy room e =
      let longer = length-append taken (x ∷ []) in
      record {
        fresh = v.fresh;
        indexed = v.indexed;
        behind = elim (Bool-cases (ltb (length taken) n)) [
          | inl h ↦ omega (arith, longer, ltb→lt (length taken) n h)
          | inr h ↦ cc (ap contents (v.fresh (length taken) (ground arith)), e)
        ];
        passed = λ k h. elim (Bool-cases (k == length taken)) [
          | inl last ↦
              let here : k ≡ length taken = ground arith in
              rw (here, e) (sym (get_elem?-append_end taken [] x))
          | inr not_last ↦
              let below : k < length taken = ground (arith, longer) in
              v.passed k below ∙ sym (get_elem?-append_left taken (x ∷ []) k below)
        ];
        slots = λ k h i. elim (Bool-cases (k == length taken + Size)) [
          | inl last ↦
              let here : k ≡ length taken + Size = ground arith in
              rw (here, add_round Size (length taken) roomy, ==_refl (length taken % Size))
                (sym (ap contents (v.fresh (length taken + Size) room)))
          | inr not_last ↦
              let inside : k < length taken + Size = ground (arith, longer) in
              write_off items (length taken % Size) (k % Size) none (
                slots_apart Size (length taken) (length taken) k (omega arith) (omega arith)
                  (omega (arith, longer)) inside (λ m. omega (arith, longer)))
              ∙ v.slots k (omega (arith, longer)) inside
        ];
      }
