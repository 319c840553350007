-- ===== src/Prelude/Text/Words.antt =====
-- A line of words with a blank between two of them: `split` gives back the words, and `trim` takes off
-- a blank before it and a line feed behind it.
use Prim.Native.Char.{Char, code}
use Prim.Native.String.{String, ◌++◌}
use Prim.Native.Nat.{ℕ}
use mathlib.Core.Path.{◌≡◌, refl, sym, ap, ◌∙◌}
use mathlib.Core.Bool.{true, false}
use mathlib.Core.Option.{some}
use mathlib.Core.List.{List, [], ◌∷◌}
use native.Mathlib.Omega.{arith}
use text.Mathlib.TextLemmas.{nil-append, cons-append, append_assoc}
use procstar.Prelude.Tests.{◌==◌}
use procstar.Prelude.Lists.{All}
use procstar.Prelude.Text.{
  split_once, split, keep_before, is_whitespace, trim_start, trim_end, trim, Lacks, IsSolid, IsWord,
}

-- The words of a line, with a blank between two of them.
abbrev pub join : List String → String
join [] = ""
join (s ∷ []) = s
join (s ∷ t ∷ words) = s ++ String.◌∷◌ " " (join (t ∷ words))

pub split_once-Lacks :
    (d : ℕ) (c : Char) (s t : String)
    → Lacks d s
    → (code c == d) ≡ true
    → split_once d (s ++ String.◌∷◌ c t) ≡ some (s, t)
unfolding split_once
split_once-Lacks d c String.[] t h e = rw (nil-append (String.◌∷◌ c t), split_once, e) refl
split_once-Lacks d c (String.◌∷◌ b s) t (h, hs) e =
    rw (cons-append b s (String.◌∷◌ c t), split_once, h, split_once-Lacks d c s t hs e) refl

split-Lacks : (d : ℕ) (s : String) → Lacks d s → split d s ≡ s ∷ []
unfolding split
split-Lacks d String.[] h = refl
split-Lacks d (String.◌∷◌ b s) (h, hs) = rw (h, split-Lacks d s hs) refl

split_before :
    (d : ℕ) (c : Char) (s t : String)
    → Lacks d s
    → (code c == d) ≡ true
    → split d (s ++ String.◌∷◌ c t) ≡ s ∷ split d t
unfolding split
split_before d c String.[] t h e = rw (nil-append (String.◌∷◌ c t), split, e) refl
split_before d c (String.◌∷◌ b s) t (h, hs) e =
    rw (cons-append b s (String.◌∷◌ c t), split, h, split_before d c s t hs e) refl

solid-Lacks : (s : String) → IsSolid s → Lacks 32 s
unfolding is_whitespace
solid-Lacks String.[] h = tt
solid-Lacks (String.◌∷◌ c s) (h, hs) = (ground arith, solid-Lacks s hs)

pub word-Lacks : (s : String) → IsWord s → Lacks 32 s
word-Lacks String.[] h = tt
word-Lacks (String.◌∷◌ c s) h = solid-Lacks (String.◌∷◌ c s) h

-- The words of a line come back.
pub split-join :
    (s : String) (words : List String)
    → All IsWord (s ∷ words)
    → split 32 (join (s ∷ words)) ≡ s ∷ words
split-join s [] (h, hs) = split-Lacks 32 s (word-Lacks s h)
split-join s (t ∷ words) (h, hs) =
    split_before 32 " " s (join (t ∷ words)) (word-Lacks s h) refl
    ∙ ap (λ parts. s ∷ parts) (split-join t words hs)

-- A text that begins with a character that is not white.
HasSolidHead : String → Type 0
HasSolidHead String.[] = ⊥
HasSolidHead (String.◌∷◌ c s) = is_whitespace (code c) ≡ false

word_append-HasSolidHead : (s t : String) → IsWord s → HasSolidHead (s ++ t)
unfolding HasSolidHead
word_append-HasSolidHead String.[] t h = absurd h
word_append-HasSolidHead (String.◌∷◌ c s) t (h, hs) = rw (cons-append c s t, HasSolidHead) h

word-HasSolidHead : (s : String) → IsWord s → HasSolidHead s
unfolding HasSolidHead
word-HasSolidHead String.[] h = absurd h
word-HasSolidHead (String.◌∷◌ c s) (h, hs) = h

join-HasSolidHead :
    (s : String) (words : List String) → All IsWord (s ∷ words) → HasSolidHead (join (s ∷ words))
join-HasSolidHead s [] (h, hs) = word-HasSolidHead s h
join-HasSolidHead s (t ∷ words) (h, hs) = word_append-HasSolidHead s _ h

head_of : (s : String) → HasSolidHead s → (c : Char) × (t : String) × (s ≡ String.◌∷◌ c t)
unfolding HasSolidHead
head_of String.[] h = absurd h
head_of (String.◌∷◌ c s) h = (c, s, refl)

solid-append : (s t : String) → HasSolidHead s → HasSolidHead (s ++ t)
unfolding HasSolidHead
solid-append String.[] t h = absurd h
solid-append (String.◌∷◌ c s) t h = rw (cons-append c s t, HasSolidHead) h

trim_start_head : (s : String) → HasSolidHead s → trim_start s ≡ s
unfolding trim_start HasSolidHead
trim_start_head String.[] h = absurd h
trim_start_head (String.◌∷◌ c s) h = rw (h) refl

trim_start_blank : (s : String) → HasSolidHead s → trim_start (String.◌∷◌ " " s) ≡ s
unfolding trim_start is_whitespace
trim_start_blank s h = trim_start_head s h

-- What stays behind a text keeps the text.
trim_end-append :
    (s t : String) (c : Char) (u : String)
    → trim_end t ≡ String.◌∷◌ c u
    → trim_end (s ++ t) ≡ s ++ String.◌∷◌ c u
unfolding trim_end
trim_end-append String.[] t c u h = rw (nil-append t, nil-append (String.◌∷◌ c u)) h
trim_end-append (String.◌∷◌ b String.[]) t c u h =
    rw
      (
        cons-append b "" t,
        cons-append b "" (String.◌∷◌ c u),
        nil-append t,
        nil-append (String.◌∷◌ c u),
        trim_end,
        h,
      )
      refl
trim_end-append (String.◌∷◌ b (String.◌∷◌ d s)) t c u h =
    rw
      (
        cons-append b (String.◌∷◌ d s) t,
        cons-append b (String.◌∷◌ d s) (String.◌∷◌ c u),
        trim_end,
        trim_end-append (String.◌∷◌ d s) t c u h,
        cons-append d s (String.◌∷◌ c u),
      )
      refl

keep_before_solid : (c : Char) → is_whitespace (code c) ≡ false → keep_before c "" ≡ String.◌∷◌ c ""
keep_before_solid c h = rw h refl

trim_end_line_feed : trim_end "\n" ≡ ""
unfolding trim_end is_whitespace
trim_end_line_feed = refl

trim_end_cons : (c : Char) (s : String) → trim_end (String.◌∷◌ c s) ≡ keep_before c (trim_end s)
unfolding trim_end
trim_end_cons c s = refl

trim_end-word : (s : String) → IsWord s → trim_end (s ++ "\n") ≡ s
trim_end-word String.[] h = absurd h
trim_end-word (String.◌∷◌ b String.[]) (h, hs) =
    ap trim_end (cons-append b "" "\n" ∙ ap (λ s. String.◌∷◌ b s) (nil-append "\n"))
    ∙ trim_end_cons b "\n"
    ∙ ap (keep_before b) trim_end_line_feed
    ∙ keep_before_solid b h
trim_end-word (String.◌∷◌ b (String.◌∷◌ d s)) (h, hs) =
    ap trim_end (cons-append b (String.◌∷◌ d s) "\n")
    ∙ trim_end_cons b (String.◌∷◌ d s ++ "\n")
    ∙ ap (keep_before b) (trim_end-word (String.◌∷◌ d s) hs)

-- A line keeps its words when the line feed goes.
trim_end-join :
    (s : String) (words : List String)
    → All IsWord (s ∷ words)
    → trim_end (join (s ∷ words) ++ "\n") ≡ join (s ∷ words)
trim_end-join s [] (h, hs) = trim_end-word s h
trim_end-join s (t ∷ words) (h, hs) =
    let rest : String = join (t ∷ words) in
    let (c, u, e) = head_of rest (join-HasSolidHead t words hs) in
    ap trim_end
      (append_assoc s (String.◌∷◌ " " rest) "\n" ∙ ap (λ r. s ++ r) (cons-append " " rest "\n"))
    ∙ trim_end-append s (String.◌∷◌ " " (rest ++ "\n")) " " rest (
        trim_end_cons " " (rest ++ "\n")
        ∙ ap (keep_before " ") (trim_end-join t words hs)
        ∙ ap (keep_before " ") e
        ∙ ap (λ r. String.◌∷◌ " " r) (sym e))

pub trim-join :
    (s : String) (words : List String)
    → All IsWord (s ∷ words)
    → trim (String.◌∷◌ " " (join (s ∷ words) ++ "\n")) ≡ join (s ∷ words)
unfolding trim
trim-join s words h =
    let (c, u, e) = head_of (join (s ∷ words)) (join-HasSolidHead s words h) in
    ap trim_end (
      trim_start_blank (join (s ∷ words) ++ "\n")
        (solid-append _ "\n" (join-HasSolidHead s words h)))
    ∙ trim_end-join s words h
