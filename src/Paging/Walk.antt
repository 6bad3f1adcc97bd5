-- ===== src/Paging/Walk.antt =====
-- A client that asks for one page after another, each from the last element of the page before.
use boruta.Common.{
  ℕ, zero, suc, ◌+◌, ◌-◌, ◌≤◌, ◌<◌, ◌≡◌, refl, sym, ap, subst, ◌∙◌, ◌⊎◌, inl, inr, Bool, true,
  false, Option, none, some, List, [], ◌∷◌, ◌++◌, arith, if◌then◌else◌, length, take, drop, nat_beq,
  ltb, All, take-append-drop, length-append, length-take, length-drop, Bool-cases,
}
use mathlib.Core.List.{append_assoc}
use boruta.Lists.{forward}
use boruta.Paging.{page, cut_page, min, index_from}

module _ {ℓ} {A : Type ℓ} (key : A → ℕ) where
  -- No two elements have the same key.
  abbrev pub Distinct : List A → Type 0
  Distinct [] = Unit
  Distinct (x ∷ xs) = All (λ y. nat_beq (key x) (key y) ≡ false) xs × Distinct xs

  abbrev is_after : Option ℕ → A → Bool
  is_after none x = false
  is_after (some k) x = nat_beq (key x) k

  abbrev is_some : Option ℕ → Bool
  is_some none = false
  is_some (some k) = true

  -- The key of the last element.
  abbrev last_key : List A → Option ℕ
  last_key [] = none
  last_key (x ∷ []) = some (key x)
  last_key (x ∷ y ∷ l) = last_key (y ∷ l)

  -- The pages, from the one after the element with a key on, as long as items remain.
  unfoldable pub pages : ℕ → ℕ → Option ℕ → List A → List A
  pages zero limit after res = []
  pages (suc k) limit after res =
      let (shown, info) = page (is_after after) (is_some after) false forward limit res in
      let rest = pages k limit (last_key shown) res in
      if nat_beq info.remaining_items 0 then shown else shown ++ rest

  All-mid : (P : A → Type 0) (pre : List A) (x : A) (suf : List A) → All P (pre ++ x ∷ suf) → P x
  All-mid P [] x suf h = h.0
  All-mid P (y ∷ pre) x suf h = All-mid P pre x suf h.1

  before-Distinct :
      (pre : List A) (x : A) (suf : List A)
      → Distinct (pre ++ x ∷ suf)
      → All (λ y. nat_beq (key y) (key x) ≡ false) pre
  before-Distinct [] x suf h = tt
  before-Distinct (y ∷ pre) x suf h =
      (All-mid (λ z. nat_beq (key y) (key z) ≡ false) pre x suf h.0, before-Distinct pre x suf h.1)

  index_from-at :
      (i : ℕ) (at : A → Bool) (pre : List A) (x : A) (suf : List A)
      → All (λ y. at y ≡ false) pre
      → at x ≡ true
      → index_from i at (pre ++ x ∷ suf) ≡ i + length pre
  unfolding index_from
  index_from-at i at [] x suf h e = ground arith
  index_from-at i at (y ∷ pre) x suf h e =
      ground (arith, h.0, index_from-at (suc i) at pre x suf h.1 e)

  index_from-never : (i : ℕ) (l : List A) → index_from i (is_after none) l ≡ 0
  unfolding index_from
  index_from-never i [] = refl
  index_from-never i (x ∷ l) = index_from-never (suc i) l

  drop-append : (pre suf : List A) → drop (length pre) (pre ++ suf) ≡ suf
  drop-append [] suf = refl
  drop-append (x ∷ pre) suf = drop-append pre suf

  take-nil : (n : ℕ) → take {A = A} n [] ≡ []
  take-nil zero = refl
  take-nil (suc n) = refl

  take-all : (n : ℕ) (l : List A) → length l ≤ n → take n l ≡ l
  take-all n [] h = take-nil n
  take-all zero (x ∷ l) h = absurd (omega arith)
  take-all (suc n) (x ∷ l) h = ap (λ m. x ∷ m) (take-all n l (omega arith))

  last_key-snoc : (ys : List A) (z : A) → last_key (ys ++ z ∷ []) ≡ some (key z)
  last_key-snoc [] z = refl
  last_key-snoc (y ∷ []) z = refl
  last_key-snoc (y ∷ w ∷ ys) z = last_key-snoc (w ∷ ys) z

  -- A list that is not empty ends in an element.
  List-last : (l : List A) → (l ≡ []) ⊎ ((ys : List A) × (z : A) × (l ≡ ys ++ z ∷ []))
  List-last [] = inl refl
  List-last (x ∷ l) = elim (List-last l) [
    | inl e ↦ inr ([], x, ap (λ m. x ∷ m) e)
    | inr (ys, z, e) ↦ inr (x ∷ ys, z, ap (λ m. x ∷ m) e)
  ]

  -- A page that starts behind `pre`.
  module _ (at : A → Bool) (has_id : Bool) (limit : ℕ) where
    abbrev index : List A → ℕ
    index res = index_from 0 at res + (if has_id then 1 else 0)

    cut_page-behind :
        (pre suf : List A)
        → index (pre ++ suf) ≡ length pre
        → let (shown, info) = cut_page at has_id false forward limit (pre ++ suf) in
          (shown ≡ take (min limit (length suf)) suf)
          × (info.remaining_items ≡ length suf - min limit (length suf))
    unfolding cut_page
    cut_page-behind pre suf e =
        let left : length (pre ++ suf) - length pre ≡ length suf =
          omega (arith, length-append pre suf) in
        (rw (e, left, drop-append) refl, rw (e, left) refl)

    page-behind :
        (pre suf : List A)
        → index (pre ++ suf) ≡ length pre
        → let (shown, info) = page at has_id false forward limit (pre ++ suf) in
          (shown ≡ take (min limit (length suf)) suf)
          × (info.remaining_items ≡ length suf - min limit (length suf))
    unfolding page
    page-behind [] [] e = (sym (take-nil (min limit 0)), omega arith)
    page-behind [] (x ∷ suf) e = cut_page-behind [] (x ∷ suf) e
    page-behind (x ∷ pre) suf e = cut_page-behind (x ∷ pre) suf e

  after-Distinct :
      (front : List A) (z : A) (suf : List A)
      → Distinct (front ++ z ∷ suf)
      → index (is_after (some (key z))) true 0 (front ++ z ∷ suf) ≡ suc (length front)
  after-Distinct front z suf h = omega (
    arith,
    index_from-at 0 (is_after (some (key z))) front z suf (before-Distinct front z suf h)
        (ground arith),
  )

  regroup :
      (pre ys : List A) (z : A) (suf rest : List A)
      → suf ≡ (ys ++ z ∷ []) ++ rest
      → pre ++ suf ≡ (pre ++ ys) ++ z ∷ rest
  regroup pre ys z suf rest e =
      ap (λ l. pre ++ l) (e ∙ append_assoc ys (z ∷ []) rest) ∙ sym (append_assoc pre ys (z ∷ rest))

  module _ (limit : ℕ) (after : Option ℕ) (pre suf : List A)
      (e : index (is_after after) (is_some after) 0 (pre ++ suf) ≡ length pre) where
    pages-last : (k : ℕ) → length suf ≤ limit → pages (suc k) limit after (pre ++ suf) ≡ suf
    unfolding pages
    pages-last k all =
        let (shown, remains) = page-behind (is_after after) (is_some after) limit pre suf e in
        let whole : min limit (length suf) ≡ length suf = ground arith in
        let none_left : length suf - min limit (length suf) ≡ 0 = omega (arith, whole) in
        rw (shown, remains, none_left, whole) (take-all (length suf) suf (omega arith))

    pages-next :
        (k : ℕ)
        → limit < length suf
        → pages (suc k) limit after (pre ++ suf)
          ≡ take limit suf ++ pages k limit (last_key (take limit suf)) (pre ++ suf)
    unfolding pages
    pages-next k more =
        let (shown, remains) = page-behind (is_after after) (is_some after) limit pre suf e in
        let part : min limit (length suf) ≡ limit = ground arith in
        let some_left : nat_beq (length suf - limit) 0 ≡ false = ground arith in
        rw (shown, remains, part, some_left) refl

  module _ (limit : ℕ) (positive : 0 < limit) where
    -- What the pages from one on show.
    abbrev Shows : ℕ → Type ℓ
    Shows k =
        (after : Option ℕ) (pre suf : List A)
        → length suf ≤ k
        → Distinct (pre ++ suf)
        → index (is_after after) (is_some after) 0 (pre ++ suf) ≡ length pre
        → pages (suc k) limit after (pre ++ suf) ≡ suf

    pages-further :
        (k : ℕ)
        → Shows k
        → (pre suf ys : List A) (z : A) → length suf ≤ suc k
        → limit < length suf
        → take limit suf ≡ ys ++ z ∷ []
        → Distinct (pre ++ suf)
        → pages (suc k) limit (some (key z)) (pre ++ suf) ≡ drop limit suf
    pages-further k ih pre suf ys z less more shown h =
        let rest = drop limit suf in
        let front = pre ++ ys in
        let split : suf ≡ (ys ++ z ∷ []) ++ rest =
          sym (take-append-drop limit suf) ∙ ap (λ l. l ++ rest) shown in
        let r = regroup pre ys z suf rest split in
        let s = sym (append_assoc front (z ∷ []) rest) in
        let at : index (is_after (some (key z))) true 0 ((front ++ z ∷ []) ++ rest)
            ≡ length (front ++ z ∷ []) =
          subst (λ l. index (is_after (some (key z))) true 0 l ≡ length (front ++ z ∷ [])) s
            (after-Distinct front z rest (subst Distinct r h)
              ∙ omega (arith, length-append front (z ∷ []))) in
        ap (pages (suc k) limit (some (key z))) (r ∙ s)
        ∙ ih (some (key z)) (front ++ z ∷ []) rest (omega (arith, length-drop limit suf))
            (subst Distinct (r ∙ s) h) at

    pages-behind : (k : ℕ) → Shows k
    pages-behind zero after pre suf less h e = pages-last limit after pre suf e 0 (omega arith)
    pages-behind (suc k) after pre suf less h e = elim (Bool-cases (ltb limit (length suf))) [
      | inr all ↦ pages-last limit after pre suf e (suc k) (ground arith)
      | inl more ↦
          let longer : limit < length suf = ground arith in
          elim (List-last (take limit suf)) [
            | inl gone ↦ absurd (omega (arith, ap length gone, length-take limit suf, longer))
            | inr (ys, z, shown) ↦
                pages-next limit after pre suf e (suc k) longer
                ∙ ap (λ o. take limit suf ++ pages (suc k) limit o (pre ++ suf))
                    (ap last_key shown ∙ last_key-snoc ys z)
                ∙ ap (λ l. take limit suf ++ l)
                    (pages-further k (pages-behind k) pre suf ys z less longer shown h)
                ∙ take-append-drop limit suf
          ]
    ]

    -- If the keys of a list are all different and the limit is not 0, then the forward pages, from
    -- the first on and each behind the last element of the page before, as long as items are said
    -- to remain, are together the list, within as many pages as it has elements and one more.
    pub pages_complete :
        (k : ℕ) (res : List A) → Distinct res → length res ≤ k → pages (suc k) limit none res ≡ res
    pages_complete k res h less =
        pages-behind k none [] res less h (omega (arith, index_from-never 0 res))
