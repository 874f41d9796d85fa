-- ===== src/Schema/Tokens.antt =====
-- lib/sql/schema.cpp, `deserializeSchema`: the words and tokens of a text that is put together.
use mathlib.Core.List.{append-nil}
use relvec_db.Common.{
  ℕ, Bool, false, ◌||◌, List, [], ◌∷◌, ◌++◌, ◌≡◌, ◌≢◌, refl, ap, ◌∙◌, sym, arith, All, ◌==◌,
}
use relvec_db.Common.Decimal.{is_space, skip_spaces}
use relvec_db.Schema.{split_tokens, take_word, read_word, find_paren, pop_back}

-- A byte that ends a word or a token.
abbrev pub is_separator : ℕ → Bool
is_separator c = is_space c || c == b','

-- A word with none of them.
abbrev pub IsPlain : List ℕ → Type 0
IsPlain w = All (λ c. is_separator c ≡ false) w

take_word-append :
    (w s : List ℕ) → IsPlain w → take_word (w ++ s) ≡ (w ++ (take_word s).0, (take_word s).1)
unfolding take_word
take_word-append [] s h = refl
take_word-append (c ∷ w) s h =
    let space : is_space c ≡ false = ground (arith, h.0) in
    rw (space, take_word-append w s h.1) refl

skip_spaces-append : (w s : List ℕ) → w ≢ [] → IsPlain w → skip_spaces (w ++ s) ≡ w ++ s
unfolding skip_spaces
skip_spaces-append [] s ne h = absurd (ne refl)
skip_spaces-append (c ∷ w) s ne h =
    let space : is_space c ≡ false = ground (arith, h.0) in rw space refl

-- A word that a space ends.
pub read_word_space :
    (w s : List ℕ) → w ≢ [] → IsPlain w → read_word (w ++ b' ' ∷ s) ≡ (w, b' ' ∷ s)
unfolding read_word
read_word_space w s ne h =
    rw (skip_spaces-append w (b' ' ∷ s) ne h, take_word-append w (b' ' ∷ s) h)
      (unfold take_word in rw append-nil refl)

-- A word that the end of the stream ends, behind one space.
pub read_word_end : (w : List ℕ) → IsPlain w → read_word (b' ' ∷ w) ≡ (w, [])
unfolding read_word skip_spaces
read_word_end [] h = unfold take_word in refl
read_word_end (c ∷ w) h =
    ap take_word (ap skip_spaces (sym (append-nil (c ∷ w))) ∙ skip_spaces-append (c ∷ w) [] (cc) h)
    ∙ take_word-append (c ∷ w) [] h
    ∙ unfold take_word in rw append-nil refl

-- A space more in front changes nothing.
pub read_word_skip : (s : List ℕ) → read_word (b' ' ∷ s) ≡ read_word s
unfolding read_word skip_spaces
read_word_skip s = refl

pub find_paren-append :
    (w s : List ℕ)
    → All (λ c. (c == b'(') ≡ false) w
    → find_paren (w ++ s) ≡ (w ++ (find_paren s).0, (find_paren s).1)
unfolding find_paren
find_paren-append [] s h = refl
find_paren-append (c ∷ w) s h = rw (h.0, find_paren-append w s h.1) refl

-- A token that a comma ends.
pub split_tokens-append :
    (w s : List ℕ)
    → All (λ c. (c == b',') ≡ false) w
    → split_tokens (w ++ b',' ∷ s) ≡ w ∷ split_tokens s
unfolding split_tokens
split_tokens-append [] s h = refl
split_tokens-append (c ∷ w) s h = rw (h.0, split_tokens-append w s h.1) refl

-- The last token.
pub split_tokens_last :
    (c : ℕ) (w : List ℕ)
    → All (λ c. (c == b',') ≡ false) (c ∷ w)
    → split_tokens (c ∷ w) ≡ (c ∷ w) ∷ []
unfolding split_tokens
split_tokens_last c [] h = rw h.0 refl
split_tokens_last c (d ∷ w) h = rw (h.0, split_tokens_last d w h.1) refl

pub pop_back-append : (s : List ℕ) (c : ℕ) → pop_back (s ++ c ∷ []) ≡ s
pop_back-append [] c = refl
pop_back-append (a ∷ []) c = refl
pop_back-append (a ∷ b ∷ s) c = ap (λ t. a ∷ t) (pop_back-append (b ∷ s) c)
