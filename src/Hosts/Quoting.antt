-- ===== src/Hosts/Quoting.antt =====
-- `ParseSSHArgs` of pkg/utils/utils.go against the words that an option was written from.
use mathlib.Core.Bool.{and-false}
use mathlib.Core.List.{append_assoc, append-nil}
use ydbops.Base.{
  ℕ, ◌≡◌, refl, ◌≢◌, ◌∙◌, Bool, true, false, not, ◌&&◌, List, [], ◌∷◌, ◌++◌, map, All, arith, ◌==◌,
  num_comparable,
}
use ydbops.Hosts.{is_space, parse_from, parse_ssh_args}

-- A part of a word: a plain character, or text between escaped quotes, in which spaces do not
-- separate.
pub data Piece : Type 0 where
  plain : ℕ → Piece
  quoted : List ℕ → Piece

-- No backslash, and no space outside of quotes.
abbrev pub IsPlain : Piece → Type 0
IsPlain (plain c) = (c ≢ 92) × (is_space c ≡ false)
IsPlain (quoted cs) = All (λ c. c ≢ 92) cs

-- How a piece is written in the option, and what stands in the argument for it.
abbrev pub written : Piece → List ℕ
written (plain c) = c ∷ []
written (quoted cs) = 92 ∷ b'"' ∷ (cs ++ 92 ∷ b'"' ∷ [])

abbrev pub meant : Piece → List ℕ
meant (plain c) = c ∷ []
meant (quoted cs) = b'"' ∷ (cs ++ b'"' ∷ [])

abbrev pub concat_map : (Piece → List ℕ) → List Piece → List ℕ
concat_map f [] = []
concat_map f (p ∷ ps) = f p ++ concat_map f ps

-- A character that is no backslash is taken as it is.
parse_from-rune :
    (inside : Bool) (args : List (List ℕ)) (cur : List ℕ) (c : ℕ) (rest : List ℕ)
    → c ≢ 92
    → (is_space c && not inside) ≡ false
    → parse_from inside args cur (c ∷ rest) ≡ parse_from inside args (cur ++ c ∷ []) rest
unfolding parse_from
parse_from-rune inside args cur c [] h taken = rw taken
parse_from-rune inside args cur c (d ∷ rest) h taken =
    let no_escape : (c == 92) ≡ false = ground arith in rw (no_escape, taken)

parse_from-inside :
    (args : List (List ℕ)) (cur cs rest : List ℕ)
    → All (λ c. c ≢ 92) cs
    → parse_from true args cur (cs ++ 92 ∷ b'"' ∷ rest)
      ≡ parse_from false args (cur ++ (cs ++ b'"' ∷ [])) rest
unfolding parse_from
parse_from-inside args cur [] rest h = refl
parse_from-inside args cur (c ∷ cs) rest (h, hs) =
    parse_from-rune true args cur c (cs ++ 92 ∷ b'"' ∷ rest) h (and-false (is_space c))
    ∙ (parse_from-inside args (cur ++ c ∷ []) cs rest hs ∙ rw append_assoc)

parse_from-piece :
    (args : List (List ℕ)) (cur : List ℕ) (p : Piece) (rest : List ℕ)
    → IsPlain p
    → parse_from false args cur (written p ++ rest) ≡ parse_from false args (cur ++ meant p) rest
unfolding parse_from
parse_from-piece args cur (plain c) rest (h, s) =
    parse_from-rune false args cur c rest h (ground arith)
parse_from-piece args cur (quoted cs) rest h =
    rw append_assoc (parse_from-inside args (cur ++ b'"' ∷ []) cs rest h ∙ rw append_assoc)

parse_from-word :
    (args : List (List ℕ)) (cur : List ℕ) (ps : List Piece) (rest : List ℕ)
    → All IsPlain ps
    → parse_from false args cur (concat_map written ps ++ rest)
      ≡ parse_from false args (cur ++ concat_map meant ps) rest
parse_from-word args cur [] rest h = rw append-nil
parse_from-word args cur (p ∷ ps) rest (h, hs) = rw append_assoc (
    parse_from-piece args cur p (concat_map written ps ++ rest) h
    ∙ (parse_from-word args (cur ++ meant p) ps rest hs ∙ rw append_assoc))

-- A word has a piece at least.
abbrev pub Word : Type 0
Word = Piece × List Piece

abbrev pub IsPlainWord : Word → Type 0
IsPlainWord (p, ps) = IsPlain p × All IsPlain ps

abbrev pub argument : Word → List ℕ
argument (p, ps) = concat_map meant (p ∷ ps)

-- The words with a space between two of them.
abbrev pub option_text : List Word → List ℕ
option_text [] = []
option_text ((p, ps) ∷ []) = concat_map written (p ∷ ps)
option_text ((p, ps) ∷ w ∷ ws) = concat_map written (p ∷ ps) ++ b' ' ∷ option_text (w ∷ ws)

-- The separator ends an argument that has a character.
parse_from-separator :
    (args : List (List ℕ)) (c : ℕ) (cs rest : List ℕ)
    → parse_from false args (c ∷ cs) (b' ' ∷ rest)
      ≡ parse_from false (args ++ (c ∷ cs) ∷ []) [] rest
unfolding parse_from
parse_from-separator args c cs [] = refl
parse_from-separator args c cs (d ∷ rest) = refl

separated :
    (args : List (List ℕ)) (p : Piece) (ps : List Piece) (rest : List ℕ)
    → parse_from false args (argument (p, ps)) (b' ' ∷ rest)
      ≡ parse_from false (args ++ argument (p, ps) ∷ []) [] rest
separated args (plain c) ps rest = parse_from-separator args _ _ rest
separated args (quoted cs) ps rest = parse_from-separator args _ _ rest

ended :
    (args : List (List ℕ)) (p : Piece) (ps : List Piece)
    → parse_from false args (argument (p, ps)) [] ≡ args ++ argument (p, ps) ∷ []
unfolding parse_from
ended args (plain c) ps = refl
ended args (quoted cs) ps = refl

parse_from-option_text :
    (args : List (List ℕ)) (words : List Word)
    → All IsPlainWord words
    → parse_from false args [] (option_text words) ≡ args ++ map argument words
unfolding parse_from
parse_from-option_text args [] h = rw append-nil
parse_from-option_text args ((p, ps) ∷ []) ((h, hs), _) =
    rw (← append-nil (concat_map written (p ∷ ps)))
      (parse_from-word args [] (p ∷ ps) [] (h, hs) ∙ ended args p ps)
parse_from-option_text args ((p, ps) ∷ w ∷ ws) ((h, hs), k) =
    parse_from-word args [] (p ∷ ps) (b' ' ∷ option_text (w ∷ ws)) (h, hs)
    ∙ (separated args p ps (option_text (w ∷ ws))
        ∙ (parse_from-option_text (args ++ argument (p, ps) ∷ []) (w ∷ ws) k ∙ rw append_assoc))

-- Words joined by spaces are read back as the arguments, in their order: spaces outside of escaped
-- quotes separate, spaces inside do not, and the backslashes of escaped quotes are dropped. The words
-- hold no other backslash, and no space outside of quotes.
pub parse_ssh_args-option_text :
    (words : List Word)
    → All IsPlainWord words
    → parse_ssh_args (option_text words) ≡ map argument words
unfolding parse_ssh_args
parse_ssh_args-option_text words h = parse_from-option_text [] words h
