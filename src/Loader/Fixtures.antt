-- ===== src/Loader/Fixtures.antt =====
-- Files for the runs of the loaders: the words that are not zero, by offset.
use voland.Base.{ℕ, ◌*◌, ◌/◌, ◌%◌, ◌^◌, List, [], ◌∷◌, ◌==◌, if◌then◌else◌, ◌<◌, arith}

unfoldable pub word_at : List (ℕ × ℕ) → ℕ → ℕ
word_at [] offset = 0
word_at ((at, word) ∷ rest) offset =
    let others = word_at rest offset in if at == offset then word else others

-- The bytes of the file.
unfoldable pub file_of : List (ℕ × ℕ) → ℕ → ℕ
file_of words i = word_at words (i / 4 * 4) / 2 ^ (i % 4 * 8) % 256

pub file_of_small : (words : List (ℕ × ℕ)) (i : ℕ) → file_of words i < 256
unfolding file_of
file_of_small words i = omega arith
