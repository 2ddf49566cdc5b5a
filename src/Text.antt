-- ===== src/Text.antt =====
-- `str::trim`, which main.rs and gateway/session_store.rs call. A text is here the list of its
-- code points.
use iog.Prelude.{
  ℕ, ◌≡◌, refl, ap, ◌∙◌, Bool, true, false, ◌&&◌, ◌||◌, List, [], ◌∷◌, ◌++◌, arith, if◌then◌else◌,
  ◌==◌, leb, All,
}

-- `char::is_whitespace`: the code points with the property White_Space.
unfoldable pub is_whitespace : ℕ → Bool
is_whitespace c =
    (leb 9 c && leb c 13)
    || c == 32
    || c == 133
    || c == 160
    || c == 5760
    || (leb 8192 c && leb c 8202)
    || c == 8232
    || c == 8233
    || c == 8239
    || c == 8287
    || c == 12288

unfoldable pub trim_start : List ℕ → List ℕ
trim_start [] = []
trim_start (c ∷ s) = if is_whitespace c then trim_start s else c ∷ s

-- The same from the other end; a text of blanks alone leaves nothing.
unfoldable pub trim_end : List ℕ → List ℕ
trim_end [] = []
trim_end (c ∷ s) =
    let rest = trim_end s in
    elim rest [ [] ↦ if is_whitespace c then [] else c ∷ [] | x ∷ xs ↦ c ∷ x ∷ xs ]

unfoldable pub trim : List ℕ → List ℕ
trim s = trim_end (trim_start s)

abbrev pub IsBlank : ℕ → Type 0
IsBlank c = is_whitespace c ≡ true

abbrev pub IsInk : ℕ → Type 0
IsInk c = is_whitespace c ≡ false

trim_start-append : (pre s : List ℕ) → All IsBlank pre → trim_start (pre ++ s) ≡ trim_start s
unfolding trim_start
trim_start-append [] s h = refl
trim_start-append (c ∷ pre) s h = ground (arith, trim_start-append pre s h.1)

trim_start-blank : (post : List ℕ) → All IsBlank post → trim_start post ≡ []
unfolding trim_start
trim_start-blank [] h = refl
trim_start-blank (c ∷ post) h = ground (arith, trim_start-blank post h.1)

trim_end-blank : (post : List ℕ) → All IsBlank post → trim_end post ≡ []
unfolding trim_end
trim_end-blank [] h = refl
trim_end-blank (c ∷ post) h = rw (trim_end-blank post h.1, h.0) refl

trim_end-append : (s post : List ℕ) → All IsInk s → All IsBlank post → trim_end (s ++ post) ≡ s
unfolding trim_end
trim_end-append [] post h b = trim_end-blank post b
trim_end-append (c ∷ []) post h b = rw (trim_end-blank post b, h.0) refl
trim_end-append (c ∷ d ∷ s) post h b = rw (trim_end-append (d ∷ s) post h.1 b) refl

-- A text with no blank in it is what is left of it when blanks are put around it.
pub trim-append :
    (pre s post : List ℕ)
    → All IsBlank pre
    → All IsInk s
    → All IsBlank post
    → trim (pre ++ (s ++ post)) ≡ s
unfolding trim trim_start trim_end
trim-append pre [] post a h b =
    ap trim_end (trim_start-append pre post a) ∙ ap trim_end (trim_start-blank post b)
trim-append pre (c ∷ s) post a h b =
    ap trim_end (trim_start-append pre ((c ∷ s) ++ post) a)
    ∙ rw h.0 (trim_end-append (c ∷ s) post h b)
