-- ===== src/Usb/Fifo/Words.antt =====
-- The words that a FIFO holds, as entries with the first one partly read.
use bsa_pcie_exerciser.Prelude.{
  ℕ, zero, suc, ◌+◌, ◌-◌, ◌<◌, ◌≡◌, ◌∙◌, refl, sym, ap, Bool, true, false, ◌&&◌, ◌==◌,
  if◌then◌else◌, List, [], ◌∷◌, ◌++◌, arith, Bool-cases, inl, inr,
}
use mathlib.Core.List.{append_assoc}
use bsa_pcie_exerciser.Usb.Fifo.{chunk_of, tail_of, holds_any}

-- `m` words of an entry, from word `k` on.
unfoldable pub words_from : ℕ → ℕ → ℕ → List ℕ
words_from zero k w = []
words_from (suc m) k w = chunk_of w k ∷ words_from m (k + 1) w

unfoldable pub head_of : List ℕ → ℕ
head_of [] = 0
head_of (x ∷ xs) = x

-- The words of entries of `n` words.
unfoldable pub all_words : ℕ → List ℕ → List ℕ
unfolding words_from
all_words n [] = []
all_words n (w ∷ ws) = words_from n 0 w ++ all_words n ws

unfoldable pub left_of : ℕ → ℕ → List ℕ → List ℕ
left_of n k [] = []
left_of n k (w ∷ ws) = words_from (n - k) k w ++ all_words n ws

pub all_words-append :
    (n : ℕ) (xs ys : List ℕ) → all_words n (xs ++ ys) ≡ all_words n xs ++ all_words n ys
unfolding all_words
all_words-append n [] ys = refl
all_words-append n (x ∷ xs) ys =
    ap (λ l. words_from n 0 x ++ l) (all_words-append n xs ys)
    ∙ sym (append_assoc (words_from n 0 x) (all_words n xs) (all_words n ys))

left_of-start : (n : ℕ) (xs : List ℕ) → left_of n 0 xs ≡ all_words n xs
unfolding left_of all_words
left_of-start n [] = refl
left_of-start n (x ∷ xs) = ap (λ m. words_from m 0 x ++ all_words n xs) (omega arith)

left_of-append :
    (n k x : ℕ) (xs ys : List ℕ)
    → left_of n k (x ∷ (xs ++ ys)) ≡ left_of n k (x ∷ xs) ++ all_words n ys
unfolding left_of
left_of-append n k x xs ys =
    ap (λ l. words_from (n - k) k x ++ l) (all_words-append n xs ys)
    ∙ sym (append_assoc (words_from (n - k) k x) (all_words n xs) (all_words n ys))

left_of-next :
    (n k x : ℕ) (xs : List ℕ)
    → k < n
    → left_of n k (x ∷ xs)
      ≡ chunk_of x k ∷ (if k + 1 == n then all_words n xs else left_of n (k + 1) (x ∷ xs))
unfolding left_of words_from
left_of-next n k x xs h =
    let more : n - k ≡ suc (n - (k + 1)) = omega arith in
    ap (λ m. words_from m k x ++ all_words n xs) more
    ∙ ap (λ l. chunk_of x k ∷ l) (go (n - (k + 1)) refl)
  where
    go :
        (m : ℕ)
        → n - (k + 1) ≡ m
        → words_from m (k + 1) x ++ all_words n xs ≡ (
            if k + 1 == n
            then all_words n xs
            else words_from (n - (k + 1)) (k + 1) x ++ all_words n xs)
    go m e = elim (Bool-cases (k + 1 == n)) [
      | inl last ↦
          rw last (ap (λ z. words_from z (k + 1) x ++ all_words n xs) {y = 0} (ground arith))
      | inr more ↦ rw (more, e) refl
    ]

-- One cycle, on the entries `xs` with `k` words of the first one gone: what goes out and what is left,
-- with `new` entries behind.
pub moves :
    (n k : ℕ) (xs new : List ℕ) (r : Bool)
    → k < n
    → (holds_any xs ≡ false → k ≡ 0)
    → (if holds_any xs && r then chunk_of (head_of xs) k ∷ [] else [])
        ++ left_of n
            (if holds_any xs && r then if k + 1 == n then 0 else k + 1 else k)
            ((if r && (k + 1 == n) then tail_of xs else xs) ++ new)
      ≡ left_of n k xs ++ all_words n new
unfolding left_of head_of
moves n k [] new r h e =
    let start = ap (λ j. left_of n j new) (e refl) ∙ left_of-start n new in
    elim (Bool-cases (r && (k + 1 == n))) [ inl t ↦ rw t start | inr f ↦ rw f start ]
moves n k (x ∷ xs) new false h e = left_of-append n k x xs new
moves n k (x ∷ xs) new true h e =
    let next = ap (λ l. l ++ all_words n new) (left_of-next n k x xs h) in
    elim (Bool-cases (k + 1 == n)) [
      | inl last ↦ rw last (
          ap (λ l. chunk_of x k ∷ l) (left_of-start n (xs ++ new) ∙ all_words-append n xs new)
          ∙ sym (next ∙ rw last refl))
      | inr more ↦ rw more (
          ap (λ l. chunk_of x k ∷ l) (left_of-append n (k + 1) x xs new)
          ∙ sym (next ∙ rw more refl))
    ]
