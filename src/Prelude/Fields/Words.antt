-- ===== src/Prelude/Fields/Words.antt =====
-- Lines, words and parts of texts that were put together.
use Prim.Native.Nat.{ℕ}
use mathlib.Core.Path.{◌≡◌, refl, ap}
use mathlib.Core.Bool.{Bool, false, ◌||◌}
use mathlib.Core.List.{List, [], ◌∷◌, ◌++◌, append-nil}
use native.Mathlib.Omega.{arith}
use cluster_recorder.Prelude.Tests.{◌==◌}
use cluster_recorder.Prelude.Lists.{any, All}
use cluster_recorder.Prelude.Fields.{Codes, is_space, split_words, fields, close_word, after_last}

any-append : (p : ℕ → Bool) (s t : Codes) → any p (s ++ t) ≡ (any p s || any p t)
any-append p [] t = refl
any-append p (c ∷ s) t = ground (arith, any-append p s t)

after_last-none : (c : ℕ) (s : Codes) → any (λ (e : ℕ). e == c) s ≡ false → after_last c s ≡ s
unfolding after_last
after_last-none c [] h = refl
after_last-none c (d ∷ s) h = ground arith

-- Behind the last `c`, whatever stands before it.
pub after_last-append :
    (c : ℕ) (s t : Codes) → any (λ (e : ℕ). e == c) t ≡ false → after_last c (s ++ c ∷ t) ≡ t
unfolding after_last
after_last-append c [] t h = ground arith
after_last-append c (d ∷ s) t h =
    ground (arith, after_last-append c s t h, any-append (λ (e : ℕ). e == c) s (c ∷ t))

-- A word: not empty, and without spaces.
abbrev pub IsWord : Codes → Type 0
IsWord [] = ⊥
IsWord (c ∷ w) = All (λ d. is_space d ≡ false) (c ∷ w)

-- Words, each behind a space.
unfoldable pub spaced : List Codes → Codes
spaced [] = []
spaced (w ∷ ws) = 32 ∷ (w ++ spaced ws)

split_words-append :
    (w t : Codes)
    → All (λ d. is_space d ≡ false) w
    → split_words (w ++ t) ≡ (w ++ (split_words t).0, (split_words t).1)
unfolding split_words
split_words-append [] t h = refl
split_words-append (c ∷ w) t h = rw (split_words-append w t h.1) (rw h.0 refl)

close_word-IsWord : (w : Codes) (ws : List Codes) → IsWord w → close_word w ws ≡ w ∷ ws
unfolding close_word
close_word-IsWord [] ws h = elim h [ ]
close_word-IsWord (c ∷ w) ws h = refl

IsWord-All : (w : Codes) → IsWord w → All (λ d. is_space d ≡ false) w
IsWord-All [] h = tt
IsWord-All (c ∷ w) h = h

split_words-spaced : (ws : List Codes) → All IsWord ws → split_words (spaced ws) ≡ ([], ws)
unfolding split_words spaced
split_words-spaced [] h = refl
split_words-spaced (w ∷ ws) h = rw (split_words-append w (spaced ws) (IsWord-All w h.0)) (
    rw (split_words-spaced ws h.1)
      (rw (append-nil w) (ap (λ vs. ([], vs)) (close_word-IsWord w ws h.0))))

-- The words of a text that was made of words are those.
pub fields-spaced : (ws : List Codes) → All IsWord ws → fields (spaced ws) ≡ ws
unfolding fields
fields-spaced ws h = rw (split_words-spaced ws h) refl

-- A character other than a space is in the text only if it is in one of the words.
pub any-spaced :
    (c : ℕ) (ws : List Codes)
    → (32 == c) ≡ false
    → All (λ w. any (λ (e : ℕ). e == c) w ≡ false) ws
    → any (λ (e : ℕ). e == c) (spaced ws) ≡ false
unfolding spaced
any-spaced c [] n h = refl
any-spaced c (w ∷ ws) n h =
    ground (arith, any-append (λ (e : ℕ). e == c) w (spaced ws), any-spaced c ws n h.1)
