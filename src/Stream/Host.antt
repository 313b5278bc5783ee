-- ===== src/Stream/Host.antt =====
-- stream.c: the search for "Host:" at the start of `stream_sock`. The header is the end of a packet,
-- with no 0 behind it: `none` says that a byte behind the packet is read.
use apple_squeezer.Prelude.{
  ℕ, zero, suc, ◌+◌, Bool, true, false, ◌&&◌, ◌||◌, List, [], ◌∷◌, drop, Option, none, some, ◌==◌,
  leb, if◌then◌else◌,
}
use apple_squeezer.Network.{◌>>=◌}

abbrev pub ascii_lower : ℕ → ℕ
ascii_lower c = if leb b'A' c && leb c b'Z' then c + 32 else c

-- `isspace`
abbrev pub is_space : ℕ → Bool
is_space c = c == b' ' || leb 9 c && leb c 13

-- Whether the bytes begin with a word in lower case.
unfoldable pub begins : List ℕ → List ℕ → Option Bool
begins [] xs = some true
begins (c ∷ cs) [] = none
begins (c ∷ cs) (x ∷ xs) =
    let rest = begins cs xs in if ascii_lower x == c then rest else some false

-- `strcasestr(header, "Host:")`: what is behind it, if it is there before the first 0.
unfoldable pub after_host : List ℕ → Option (Option (List ℕ))
unfolding begins
after_host [] = none
after_host (x ∷ xs) =
    let rest = after_host xs in
    if x == 0
    then some none
    else begins (b'h' ∷ b'o' ∷ b's' ∷ b't' ∷ b':' ∷ []) (x ∷ xs) >>= λ t.
        if t then some (some (drop 4 xs)) else rest

-- `%255s`: white space, and up to 255 bytes that are none.
unfoldable pub skip_space : List ℕ → Option (List ℕ)
skip_space [] = none
skip_space (x ∷ xs) = let rest = skip_space xs in if is_space x then rest else some (x ∷ xs)

unfoldable pub scan_word : ℕ → List ℕ → Option (List ℕ)
scan_word zero xs = some []
scan_word (suc n) [] = none
scan_word (suc n) (x ∷ xs) =
    let rest = scan_word n xs >>= λ w. some (x ∷ w) in
    if x == 0 || is_space x then some [] else rest

-- `strchr(host, ':')`, where the name ends.
unfoldable pub before_colon : List ℕ → List ℕ
before_colon [] = []
before_colon (x ∷ xs) = let rest = before_colon xs in if x == b':' then [] else x ∷ rest

unfoldable pub host_in : Option (List ℕ) → Option (List ℕ)
unfolding skip_space scan_word before_colon
host_in none = some []
host_in (some xs) = do ys ← skip_space xs; w ← scan_word 255 ys; some (before_colon w)

-- `host`, from the header.
unfoldable pub find_host : List ℕ → Option (List ℕ)
unfolding after_host host_in
find_host header = after_host header >>= host_in
