-- ===== src/Bridge/Sanitizer/Hash.antt =====
-- The texts that `VISUAL_HASH_PATTERN` of src/fh_agent/bridge/sanitizer.py matches in full.
use Prim.Native.Char.{code}
use Prim.Native.String.{String}
use mathlib.Core.Bool.{Bool, true, false, ◌&&◌, ◌||◌}
use mathlib.Core.List.{List, [], ◌∷◌}
use mathlib.Core.Path.{◌≡◌, refl}
use autonomous_game_agent.Prelude.{ℕ, leb, ◌==◌, length}

abbrev pub codes : String → List ℕ
codes String.[] = []
codes (String.◌∷◌ c s) = code c ∷ codes s

-- `[a-fA-F0-9]`
unfoldable is_hex : ℕ → Bool
is_hex c = (leb b'0' c && leb c b'9') || ((leb b'a' c && leb c b'f') || (leb b'A' c && leb c b'F'))

unfoldable all_hex : List ℕ → Bool
unfolding is_hex
all_hex [] = true
all_hex (c ∷ cs) = is_hex c && all_hex cs

-- `[a-fA-F0-9]{lo,hi}`
unfoldable is_hex_text : ℕ → ℕ → List ℕ → Bool
unfolding all_hex
is_hex_text lo hi cs = leb lo (length cs) && leb (length cs) hi && all_hex cs

-- the text `s`, and then a text that `rest` matches
unfoldable follows : List ℕ → (List ℕ → Bool) → List ℕ → Bool
follows [] rest cs = rest cs
follows (k ∷ ks) rest [] = false
follows (k ∷ ks) rest (c ∷ cs) = k == c && follows ks rest cs

-- `VISUAL_HASH_PATTERN.fullmatch(...) is not None`
unfoldable pub is_visual_hash : String → Bool
unfolding is_hex_text follows
is_visual_hash s =
    is_hex_text 8 128 (codes s)
    || (follows (codes "ahash:") (is_hex_text 8 128) (codes s)
        || (follows (codes "dhash:") (is_hex_text 8 128) (codes s)
            || (follows (codes "phash:") (is_hex_text 8 128) (codes s)
                || follows (codes "sha256:") (is_hex_text 64 64) (codes s))))

sha256_is_hash :
    is_visual_hash "sha256:0123456789abcdef0123456789ABCDEF0123456789abcdef0123456789abcdef" ≡ true
unfolding is_visual_hash
sha256_is_hash = refl

name_is_no_hash : is_visual_hash "phash:treasure" ≡ false
unfolding is_visual_hash
name_is_no_hash = refl
