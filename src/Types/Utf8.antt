-- ===== src/Types/Utf8.antt =====
-- The UTF-8 bytes of a Rust string (`str::bytes`).
use wallet_engine.Base.{ℕ, ◌+◌, ◌/◌, ◌%◌, [], ◌∷◌, ◌++◌, ltb, if◌then◌else◌}
use wallet_engine.Base.Bytes.{Bytes}
use wallet_engine.Types.Texts.{Text}

-- The six bits of a continuation byte.
abbrev continuation : ℕ → ℕ
continuation c = 0x80 + c % 64

unfoldable pub char_bytes : ℕ → Bytes
char_bytes c =
    if ltb c 0x80
    then c ∷ []
    else if ltb c 0x800
    then (0xc0 + c / 64) ∷ continuation c ∷ []
    else if ltb c 0x10000
    then (0xe0 + c / 4096) ∷ continuation (c / 64) ∷ continuation c ∷ []
    else (0xf0 + c / 262144) ∷ continuation (c / 4096) ∷ continuation (c / 64) ∷ continuation c ∷ []

unfoldable pub utf8 : Text → Bytes
unfolding char_bytes
utf8 [] = []
utf8 (c ∷ s) = char_bytes c ++ utf8 s
