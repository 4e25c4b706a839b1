-- ===== src/Monitor/Words.antt =====
-- The words of a queue of captures, and a place in it.
use bsa_pcie_exerciser.Prelude.{
  ℕ, zero, suc, ◌+◌, ◌≤◌, ◌≡◌, ◌⊎◌, take, refl, sym, ap, Bool, true, false, ◌&&◌, not, ◌==◌,
  if◌then◌else◌, List, [], ◌∷◌, ◌++◌, arith, drop, inl, inr,
}
use bsa_pcie_exerciser.Monitor.{Capture, word_of}

-- The words of captures in the order of the trace.
unfoldable pub words : List Capture → List ℕ
words [] = []
words (e ∷ es) = e.word0 ∷ e.word1 ∷ e.word2 ∷ e.word3 ∷ e.word4 ∷ words es

unfoldable pub first_or : ℕ → List ℕ → ℕ
first_or d [] = d
first_or d (w ∷ ws) = w

pub words-append : (es fs : List Capture) → words (es ++ fs) ≡ words es ++ words fs
unfolding words
words-append [] fs = refl
words-append (e ∷ es) fs =
    ap (λ ws. e.word0 ∷ e.word1 ∷ e.word2 ∷ e.word3 ∷ e.word4 ∷ ws) (words-append es fs)

-- A place inside the oldest capture, and 0 if there is none.
abbrev Inside : ℕ → List Capture → Type 0
Inside n [] = n ≡ 0
Inside n (e ∷ es) = n ≤ 4

keep :
    (n : ℕ) (q new : List Capture)
    → Inside n q
    → drop n (words (q ++ new)) ≡ drop n (words q) ++ words new
unfolding words
keep n [] new h = rw h refl
keep zero (e ∷ q) new h = words-append (e ∷ q) new
keep (suc zero) (e ∷ q) new h = ap (drop 1) (words-append (e ∷ q) new)
keep (suc (suc zero)) (e ∷ q) new h = ap (drop 2) (words-append (e ∷ q) new)
keep (suc (suc (suc zero))) (e ∷ q) new h = ap (drop 3) (words-append (e ∷ q) new)
keep (suc (suc (suc (suc zero)))) (e ∷ q) new h = ap (drop 4) (words-append (e ∷ q) new)
keep (suc (suc (suc (suc (suc n))))) (e ∷ q) new h = absurd (omega arith)

move :
    (n : ℕ) (e : Capture) (q new : List Capture)
    → n ≤ 4
    → drop (if n == 4 then 0 else n + 1) (words ((if n == 4 then q else e ∷ q) ++ new))
      ≡ drop 1 (drop n (words (e ∷ q))) ++ words new
unfolding words
move zero e q new h = ap (drop 1) (words-append (e ∷ q) new)
move (suc zero) e q new h = ap (drop 2) (words-append (e ∷ q) new)
move (suc (suc zero)) e q new h = ap (drop 3) (words-append (e ∷ q) new)
move (suc (suc (suc zero))) e q new h = ap (drop 4) (words-append (e ∷ q) new)
move (suc (suc (suc (suc zero)))) e q new h = words-append q new
move (suc (suc (suc (suc (suc n))))) e q new h = absurd (omega arith)

word-here :
    (n : ℕ) (e : Capture) (q : List Capture)
    → n ≤ 4
    → drop n (words (e ∷ q)) ≡ word_of e n ∷ drop 1 (drop n (words (e ∷ q)))
unfolding words word_of
word-here zero e q h = refl
word-here (suc zero) e q h = refl
word-here (suc (suc zero)) e q h = refl
word-here (suc (suc (suc zero))) e q h = refl
word-here (suc (suc (suc (suc zero)))) e q h = refl
word-here (suc (suc (suc (suc (suc n))))) e q h = absurd (omega arith)

-- The place and the queue after a cycle.
full-moves :
    (read : Bool) (n : ℕ) (e : Capture) (q new : List Capture)
    → n ≤ 4
    → drop
        (if read && true then if n == 4 then 0 else n + 1 else n)
        (words ((if (read && true) && n == 4 then q else e ∷ q) ++ new))
      ≡ (if read then drop 1 (drop n (words (e ∷ q))) else drop n (words (e ∷ q))) ++ words new
full-moves true n e q new h = move n e q new h
full-moves false n e q new h = keep n (e ∷ q) new h

-- A queue with the place `n` in it: empty, or with an oldest capture `e`.
abbrev pub Holds : Capture → List Capture → ℕ → Bool → Type 0
Holds e q n empty =
    ((q ≡ []) × (n ≡ 0) × (empty ≡ true))
    ⊎ ((rest : List Capture) × (q ≡ e ∷ rest) × (n ≤ 4) × (empty ≡ false))

pub moves :
    (e : Capture) (q new : List Capture) (n : ℕ) (read empty : Bool)
    → Holds e q n empty
    → drop
        (if read && not empty then if n == 4 then 0 else n + 1 else n)
        (words ((if (read && not empty) && n == 4 then drop 1 q else q) ++ new))
      ≡ (if read then drop 1 (drop n (words q)) else drop n (words q)) ++ words new
moves e q new n true empty (inl (a, z, f)) = rw (a, z, f) (unfold words in refl)
moves e q new n false empty (inl (a, z, f)) = rw (a, z) (unfold words in refl)
moves e q new n read empty (inr (rest, a, l, f)) = rw (a, f) (full-moves read n e rest new l)

pub first :
    (e : Capture) (q : List Capture) (n : ℕ) (empty : Bool)
    → Holds e q n empty
    → (if empty then [] else word_of e n ∷ []) ≡ take 1 (drop n (words q))
first e q n empty (inl (a, z, f)) = rw (a, z, f) (unfold words in refl)
first e q n empty (inr (rest, a, l, f)) = rw (a, f) (sym (ap (take 1) (word-here n e rest l)))
